-- ===== src/Sharding/Serving.antt =====
-- A shard of Sharding/src/shard.cpp with its thread, over any run.
use osborne_x.Base.{
  ℕ, ◌+◌, ◌<◌, ◌≡◌, refl, sym, ap, subst, ◌∙◌, ◌⊎◌, inl, inr, Option-cases, none, true, false, List,
  [], ◌∷◌, ◌++◌, some, arith, length, length-append,
}
use mathlib.Core.List.{append-nil, append_assoc}
use osborne_x.Messages.{OrderMessage}
use osborne_x.Queue.RingBuffer.{word, push_blocking}
use osborne_x.Queue.Stream.{IsTracked, push_blocking-IsTracked}
use osborne_x.Sharding.Shard.{Shard, enqueue}
use osborne_x.Sharding.Router.{enqueued}
use osborne_x.Sharding.Draining.{process_all}
use osborne_x.Sharding.Worker.{
  Worker, make_worker, work, start, stop, Step, starts, works, stops, enqueues, Run, begins,
  goes_on, enqueue_on, spins,
}
use osborne_x.Sharding.Working.{IsFor, assert_producer_thread-IsFor, IsFed}
use osborne_x.Sharding.Threads.{Gives, IsServing, start-IsServing, work-IsServing, stop-IsServing}

IsFed-push :
    (k : ℕ) (first : Shard) (ins rest : List OrderMessage) (m : OrderMessage) (s s' : Shard)
    → length ins + 1 < word
    → IsFed k first ins rest s
    → enqueue m s ≡ some s'
    → IsFed k first (ins ++ m ∷ []) (rest ++ m ∷ []) s'
IsFed-push k first ins rest m s s' fits f e =
    let (r, pushed, same) = enqueued m s s' e in
    subst (IsFed k first (ins ++ m ∷ []) (rest ++ m ∷ [])) (sym same) (record {
      outs = f.outs;
      split = ap (λ l. l ++ m ∷ []) f.split ∙ append_assoc f.outs rest (m ∷ []);
      tracked = push_blocking-IsTracked k ins rest m 0 s.inbound r fits f.tracked pushed;
      processed = ap (λ (u : Shard). record u { inbound = r }) f.processed;
    })

-- The next call: `start` gives a shard that runs; rounds return; a stop gives a shard without a thread, and
-- if it ran, with all messages processed, each once and in order. An attempt of the feeder to enqueue
-- passes the assertion, and then pushes the message or spins, as `push_blocking` does.
pub record IsServed (owner feeder : ℕ) (first : Shard) (ins : List OrderMessage) (w : Worker)
    : Type 0 where
  pub started : (id : ℕ) → Gives (λ w'. w'.running ≡ true) (start id w)
  pub worked : (n : ℕ) → Gives (λ w'. Unit {0}) (work n w)
  pub stopped :
      (n : ℕ)
      → Gives
          (λ w'.
            (w'.running ≡ false)
            × (w'.thread ≡ none)
            × (w.running ≡ true
                → w'.shard ≡ record (process_all ins first) { inbound = w'.shard.inbound }))
          (stop owner n w)
  pub enqueued :
      (m : OrderMessage)
      → ((w' : Worker) × (enqueue_on feeder m w ≡ some (w', true))
          × (push_blocking m w.shard.inbound ≡ some w'.shard.inbound))
        ⊎ ((w' : Worker) × (enqueue_on feeder m w ≡ some (w', false))
            × (push_blocking m w.shard.inbound ≡ none)
            × (w'.shard ≡ w.shard))

start-running : (id : ℕ) (w w' : Worker) → start id w ≡ some w' → w'.running ≡ true
unfolding start
start-running id w w' e = ground arith

module _ (k owner feeder : ℕ) (first : Shard) where
  enqueue_on-feeder :
      (m : OrderMessage) (w : Worker)
      → IsFor feeder w.inbound_producer
      → enqueue_on feeder m w
        ≡ some (elim (enqueue m w.shard) [
          | none ↦ (record w { inbound_producer = some feeder }, false)
          | some s ↦ (record w { inbound_producer = some feeder; shard = s }, true)
        ])
  unfolding enqueue_on
  enqueue_on-feeder m w h = rw (assert_producer_thread-IsFor feeder w.inbound_producer h) refl

  enqueue_on-pushes :
      (m : OrderMessage) (w w' : Worker)
      → IsFor feeder w.inbound_producer
      → enqueue_on feeder m w ≡ some (w', true)
      → (s : Shard) × (enqueue m w.shard ≡ some s)
        × (w' ≡ record w { inbound_producer = some feeder; shard = s })
  enqueue_on-pushes m w w' h e =
      let f = enqueue_on-feeder m w h in
      elim (Option-cases (enqueue m w.shard)) [
        | inl g ↦ absurd (ground arith)
        | inr (s, g) ↦ (s, g, ground arith)
      ]

  enqueue_on-spins :
      (m : OrderMessage) (w w' : Worker)
      → IsFor feeder w.inbound_producer
      → enqueue_on feeder m w ≡ some (w', false)
      → (enqueue m w.shard ≡ none) × (w' ≡ record w { inbound_producer = some feeder })
  enqueue_on-spins m w w' h e =
      let f = enqueue_on-feeder m w h in
      elim (Option-cases (enqueue m w.shard)) [
        | inl g ↦ (g, ground arith)
        | inr (s, g) ↦ absurd (ground arith)
      ]

  enqueue_on-returns :
      (m : OrderMessage) (w : Worker)
      → IsFor feeder w.inbound_producer
      → ((w' : Worker) × (enqueue_on feeder m w ≡ some (w', true))
          × (push_blocking m w.shard.inbound ≡ some w'.shard.inbound))
        ⊎ ((w' : Worker) × (enqueue_on feeder m w ≡ some (w', false))
            × (push_blocking m w.shard.inbound ≡ none)
            × (w'.shard ≡ w.shard))
  unfolding enqueue
  enqueue_on-returns m w h =
      let f = enqueue_on-feeder m w h in
      elim (Option-cases (push_blocking m w.shard.inbound)) [
        | inl g ↦ inr (record w { inbound_producer = some feeder }, ground arith, g, refl)
        | inr (r, g) ↦ inl (
          record w { inbound_producer = some feeder; shard = record w.shard { inbound = r } },
          ground arith,
          g,
        )
      ]

  Step-IsServing :
      (ins ins' : List OrderMessage) (w w' : Worker)
      → length (ins ++ ins') < word
      → IsServing k feeder first ins w
      → Step owner feeder w ins' w'
      → IsServing k feeder first (ins ++ ins') w'
  Step-IsServing ins ins' w w' fits v (starts id e p) =
      let (w1, f, v') =
        start-IsServing k owner feeder first ins (omega (arith, fits, length-append ins ins')) id w
          v in
      let same : w1 ≡ w' = ground arith in
      rw (p, append-nil ins) (subst (IsServing k feeder first ins) same v')
  Step-IsServing ins ins' w w' fits v (works n e p) =
      let (w1, f, v') =
        work-IsServing k owner feeder first ins (omega (arith, fits, length-append ins ins')) n w
          v in
      let same : w1 ≡ w' = ground arith in
      rw (p, append-nil ins) (subst (IsServing k feeder first ins) same v')
  Step-IsServing ins ins' w w' fits v (stops n e p) =
      let (w1, f, v') =
        stop-IsServing k owner feeder first ins (omega (arith, fits, length-append ins ins')) n w
          v in
      let same : w1 ≡ w' = ground arith in
      rw (p, append-nil ins) (subst (IsServing k feeder first ins) same v'.serving)
  Step-IsServing ins ins' w w' fits v (enqueues m e p) =
      let (s, f, same) = enqueue_on-pushes m w w' v.fed_by e in
      let fed =
        IsFed-push k first ins v.rest m w.shard s
          (omega (arith, fits, ap length p, length-append ins ins')) v.fed f in
      rw (p, same)
        (record { rest = v.rest ++ m ∷ []; fed = fed; fed_by = inr refl; threads = v.threads })
  Step-IsServing ins ins' w w' fits v (spins m e p) =
      rw (p, append-nil ins, (enqueue_on-spins m w w' v.fed_by e).1)
        (record { rest = v.rest; fed = v.fed; fed_by = inr refl; threads = v.threads })

  Run-IsServing :
      (ins : List OrderMessage) (w : Worker)
      → IsTracked k [] [] 0 first.inbound
      → Run owner feeder (make_worker first) ins w
      → length ins < word
      → IsServing k feeder first ins w
  unfolding process_all
  Run-IsServing _ _ t begins fits = record {
    rest = [];
    fed = record { outs = []; split = refl; tracked = t; processed = refl };
    fed_by = inl refl;
    threads = inl (refl, refl);
  }
  Run-IsServing _ w t (goes_on {ins = is} {ins' = is'} {w = w0} run step p) fits = rw p (
      Step-IsServing is is' w0 w (omega (arith, fits, ap length p))
        (Run-IsServing is w0 t run (omega (arith, fits, ap length p, length-append is is'))) step)

  -- Whatever sequence of calls of `start`, `stop` and `enqueue`, and of rounds of the shard's thread, has
  -- gone before: the next `start`, `stop` and rounds return, and the next attempt to enqueue passes its
  -- assertion, and then pushes or spins as `push_blocking` does on the buffer as it is. So neither the
  -- inbound buffer nor an outbound one finds a second producer thread, and no joinable thread is assigned
  -- to. A stop leaves no thread, and if the shard ran, every message that was enqueued processed, each
  -- once and in order. All messages are enqueued by one thread; the inbound buffer is empty at first, and its
  -- sequences have not yet wrapped.
  pub Run-IsServed :
      (ins : List OrderMessage) (w : Worker)
      → IsTracked k [] [] 0 first.inbound
      → Run owner feeder (make_worker first) ins w
      → length ins < word
      → IsServed owner feeder first ins w
  Run-IsServed ins w t run fits =
      let v = Run-IsServing ins w t run fits in
      record {
        started = λ id.
            let (w', e, _) = start-IsServing k owner feeder first ins fits id w v in
            (w', e, start-running id w w' e);
        worked =
            λ n. let (w', e, _) = work-IsServing k owner feeder first ins fits n w v in (w', e, tt);
        stopped = λ n.
            let (w', e, s) = stop-IsServing k owner feeder first ins fits n w v in
            (w', e, (s.flag, s.gone, s.all_processed));
        enqueued = λ m. enqueue_on-returns m w v.fed_by;
      }
