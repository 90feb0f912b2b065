-- ===== src/Sharding/Threads.antt =====
-- The thread of a shard of Sharding/src/shard.cpp over any sequence of calls of `start`, `stop` and
-- `enqueue`, with rounds of its loop in between.
use osborne_x.Base.{
  ℕ, ◌+◌, ◌<◌, ◌≡◌, refl, sym, ap, subst, ◌∙◌, inl, inr, ◌⊎◌, true, false, List, [], ◌++◌, Option,
  none, some, ◌>>=◌, arith, length,
}
use mathlib.Core.List.{append-nil}
use osborne_x.Messages.{OrderMessage}
use osborne_x.Queue.RingBuffer.{word, capacity}
use osborne_x.Sharding.Shard.{Shard}
use osborne_x.Sharding.Draining.{process_all}
use osborne_x.Sharding.Worker.{Worker, run_rounds, drain_on, work, start, stop}
use osborne_x.Sharding.Working.{IsFor, IsOwned, IsFed}
use osborne_x.Sharding.Rounds.{drain_on-GoesOn, run_rounds-GoesOn}

-- Between calls: the flag tells whether there is a thread, that thread is the only one to push to the
-- outbound buffers, and the feeder is the only one to push to the inbound buffer.
pub record IsServing (k feeder : ℕ) (first : Shard) (ins : List OrderMessage) (w : Worker)
    : Type 0 where
  pub rest : List OrderMessage
  pub fed : IsFed k first ins rest w.shard
  pub fed_by : IsFor feeder w.inbound_producer
  pub threads :
      ((w.running ≡ false) × (w.thread ≡ none))
      ⊎ ((id : ℕ) × (w.running ≡ true) × (w.thread ≡ some id) × IsOwned id w)

-- The call returns, with a worker for which something holds.
abbrev pub Gives : (Worker → Type 0) → Option Worker → Type 0
Gives P o = (w : Worker) × (o ≡ some w) × P w

work-alive : (n id : ℕ) (w : Worker) → w.thread ≡ some id → work n w ≡ run_rounds n id w
unfolding work
work-alive n id w e =
    ap
      (λ (t : Option ℕ). elim t as (λ _. Option Worker) [
        | none ↦ some w
        | some id ↦ run_rounds n id w
      ])
      e

work-none : (n : ℕ) (w : Worker) → w.thread ≡ none → work n w ≡ some w
unfolding work
work-none n w e = ground arith

-- `stop` once the thread is joined.
abbrev hand_over : Worker → Worker
hand_over w = record w { thread = none; top_producer = none; trade_producer = none }

stop-alive :
    (owner n : ℕ) (w : Worker)
    → w.running ≡ true
    → stop owner n w
      ≡ work n (record w { running = false })
        >>= (λ w'. drain_on (capacity w'.shard.inbound + 1) owner (hand_over w'))
unfolding stop
stop-alive owner n w e = ground arith

stop-dead : (owner n : ℕ) (w : Worker) → w.running ≡ false → stop owner n w ≡ some w
unfolding stop
stop-dead owner n w e = ground arith

module _ (k owner feeder : ℕ) (first : Shard) (ins : List OrderMessage)
    (fits : length ins < word) where
  pub start-IsServing :
      (id : ℕ) (w : Worker)
      → IsServing k feeder first ins w
      → Gives (IsServing k feeder first ins) (start id w)
  unfolding start
  start-IsServing id w v = elim v.threads [
    | inl (e, f) ↦ (
      _,
      rw (e, f) refl,
      record {
        rest = v.rest;
        fed = v.fed;
        fed_by = v.fed_by;
        threads = inr (id, refl, refl, (inl refl, inl refl));
      },
    )
    | inr (j, e, f, o) ↦ (w, rw e refl, v)
  ]

  pub work-IsServing :
      (n : ℕ) (w : Worker)
      → IsServing k feeder first ins w
      → Gives (IsServing k feeder first ins) (work n w)
  work-IsServing n w v = elim v.threads [
    | inl (e, f) ↦ (w, work-none n w f, v)
    | inr (id, e, f, o) ↦
        let g = run_rounds-GoesOn k id first ins fits n v.rest w o v.fed in
        (
          g.after,
          work-alive n id w f ∙ g.returns,
          record {
            rest = g.rest;
            fed = g.fed;
            fed_by = subst (IsFor feeder) (sym g.inbound) v.fed_by;
            threads = inr (id, g.running ∙ e, g.thread ∙ f, g.owned);
          },
        )
  ]

  -- After a stop no thread is left, and a shard that ran has processed all that was brought to it.
  pub record IsStopped (w w' : Worker) : Type 0 where
    pub serving : IsServing k feeder first ins w'
    pub flag : w'.running ≡ false
    pub gone : w'.thread ≡ none
    pub all_processed :
        w.running ≡ true → w'.shard ≡ record (process_all ins first) { inbound = w'.shard.inbound }

  all_of :
      (rest : List OrderMessage) (s : Shard)
      → rest ≡ []
      → IsFed k first ins rest s
      → s ≡ record (process_all ins first) { inbound = s.inbound }
  all_of rest s e f =
      let whole : f.outs ≡ ins = sym (f.split ∙ ap (λ l. f.outs ++ l) e ∙ append-nil f.outs) in
      f.processed ∙ ap (λ l. record (process_all l first) { inbound = s.inbound }) whole

  pub stop-IsServing :
      (n : ℕ) (w : Worker) → IsServing k feeder first ins w → Gives (IsStopped w) (stop owner n w)
  stop-IsServing n w v = elim v.threads [
    | inl (e, f) ↦ (
      w,
      stop-dead owner n w e,
      record { serving = v; flag = e; gone = f; all_processed = λ r. absurd cc },
    )
    | inr (id, e, f, o) ↦
        let w0 : Worker = record w { running = false } in
        let g = run_rounds-GoesOn k id first ins fits n v.rest w0 o v.fed in
        let w1 = hand_over g.after in
        let d =
          drain_on-GoesOn k owner first ins fits (capacity g.after.shard.inbound + 1) g.rest w1
            (inl refl, inl refl) g.fed
            (omega (arith, g.fed.tracked.kept, g.fed.tracked.held.sized)) in
        (
          d.after,
          stop-alive owner n w e
              ∙ ap
                  (λ (u : Option Worker).
                    u >>= (λ w'. drain_on (capacity w'.shard.inbound + 1) owner (hand_over w')))
                  (work-alive n id w0 f ∙ g.returns)
              ∙ d.returns,
          record {
            serving = record {
              rest = d.rest;
              fed = d.fed;
              fed_by = subst (IsFor feeder) (sym (d.inbound ∙ g.inbound)) v.fed_by;
              threads = inl (d.running ∙ g.running, d.thread);
            };
            flag = d.running ∙ g.running;
            gone = d.thread;
            all_processed = λ r. all_of d.rest d.after.shard d.is_rest d.fed;
          },
        )
  ]
