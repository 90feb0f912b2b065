-- ===== src/Ingress/Interleaving.antt =====
-- What any interleaving of `submit` of Simulation/src/simulation.cpp with the draining of shards does to
-- one of them.
use osborne_x.Base.{
  ℕ, ◌+◌, ◌<◌, ◌≡◌, ◌≢◌, refl, sym, ap, subst, ◌∙◌, inl, inr, List, [], ◌∷◌, ◌++◌, some, arith,
  ◌==◌, length, length-append, get_elem?, set, get_elem?-set_ne, Option-cases, Bool-cases,
}
use mathlib.Core.List.{append-nil}
use osborne_x.Messages.{OrderMessage}
use osborne_x.Queue.RingBuffer.{word, capacity}
use osborne_x.Queue.Stream.{IsTracked}
use osborne_x.Sharding.Shard.{Shard, drain}
use osborne_x.Sharding.Router.{shard_for_symbol, route, enqueued, route-enqueue}
use osborne_x.Sharding.Draining.{process_all}
use osborne_x.Ingress.Receive.{stamp}
use osborne_x.Ingress.Submit.{Simulation, submit, submitted}
use osborne_x.Ingress.Flow.{
  arrivals, Step, submits, drains, Run, starts, goes_on, Flows, Flows-same, Flows-drain, Flows-push,
}

module _ (hash : ℕ → ℕ) (i : ℕ) where
  Flows-here :
      (k now : ℕ) (start : Shard) (ins : List OrderMessage) (m : OrderMessage) (s s' : Simulation)
      → length ins + 1 < word
      → (f : Flows k i start ins s) → submit hash now m s ≡ some s'
      → shard_for_symbol hash m.symbol (length s.shards) ≡ i
      → Flows k i start (ins ++ stamp now s.next_sequence m ∷ []) s'
  unfolding stamp
  Flows-here k now start ins m s s' fits f e q =
      let stamped = stamp now s.next_sequence m in
      let (shard', queued, same) =
        route-enqueue hash stamped s.shards s'.shards f.shard (ap (get_elem? s.shards) q ∙ f.at)
          (submitted hash now m s s' e) in
      let (r, pushed, kept) = enqueued stamped f.shard shard' queued in
      Flows-push k i start shard' ins stamped s s' r f fits pushed kept
        (same ∙ ap (λ j. set s.shards j shard') q)

  route-elsewhere :
      (m : OrderMessage) (shards shards' : List Shard)
      → route hash m shards ≡ some shards'
      → shard_for_symbol hash m.symbol (length shards) ≢ i
      → get_elem? shards' i ≡ get_elem? shards i
  unfolding route
  route-elsewhere m shards shards' e ne =
      elim (Option-cases (get_elem? shards (shard_for_symbol hash m.symbol (length shards)))) [
        | inl n ↦ absurd (ground arith)
        | inr (shard, n) ↦
            let (shard', _, same) = route-enqueue hash m shards shards' shard n e in
            ap (λ (l : List Shard). get_elem? l i) same
            ∙ get_elem?-set_ne shards (shard_for_symbol hash m.symbol (length shards)) i shard' ne
      ]

  Flows-submit :
      (k now : ℕ) (start : Shard) (ins : List OrderMessage) (m : OrderMessage) (s s' : Simulation)
      → length (ins ++ arrivals hash i now m s) < word
      → Flows k i start ins s
      → submit hash now m s ≡ some s'
      → Flows k i start (ins ++ arrivals hash i now m s) s'
  unfolding stamp
  Flows-submit k now start ins m s s' fits f e =
      let stamped = stamp now s.next_sequence m in
      elim (Bool-cases (shard_for_symbol hash m.symbol (length s.shards) == i)) [
        | inl q ↦
            let here : arrivals hash i now m s ≡ stamped ∷ [] = ground arith in
            rw here (
              Flows-here k now start ins m s s'
                (omega (arith, fits, ap length here, length-append ins (arrivals hash i now m s))) f
                e (ground arith))
        | inr q ↦
            let none_here : arrivals hash i now m s ≡ [] = ground arith in
            rw (none_here, append-nil ins)
              (Flows-same k i start ins s s'
                (route-elsewhere stamped s.shards s'.shards (submitted hash now m s s' e)
                  (λ x. ground arith))
                f)
      ]

  Flows-Step :
      (k : ℕ) (start : Shard) (ins ins' : List OrderMessage) (s s' : Simulation)
      → length (ins ++ ins') < word
      → Flows k i start ins s
      → Step hash i s ins' s'
      → Flows k i start (ins ++ ins') s'
  Flows-Step k start ins ins' s s' fits f (submits now m e p) =
      subst (λ l. Flows k i start (ins ++ l) s') (sym p)
        (Flows-submit k now start ins m s s' (omega (arith, fits, ap (λ l. length (ins ++ l)) p)) f
          e)
  Flows-Step k start ins ins' s s' fits f (drains j fuel shard at h e p) =
      elim (Bool-cases (j == i)) [
        | inl q ↦
            let here : j ≡ i = ground arith in
            let same : f.shard ≡ shard = ground (arith, f.at) in
            let drained : s' ≡ record s { shards = set s.shards i (drain fuel f.shard) } =
              e
              ∙ ap (λ n. record s { shards = set s.shards n (drain fuel shard) }) here
              ∙ ap (λ (t : Shard). record s { shards = set s.shards i (drain fuel t) })
                  (sym same) in
            rw (p, append-nil ins)
              (subst (Flows k i start ins) (sym drained) (
                Flows-drain k i fuel start ins s f (omega (arith, fits, length-append ins ins'))
                  (subst (λ (t : Shard). capacity t.inbound < fuel) (sym same) h)))
        | inr q ↦
            rw (e, p, append-nil ins)
              (Flows-same k i start ins s _
                (get_elem?-set_ne s.shards j i (drain fuel shard) (λ x. ground arith)) f)
      ]

  -- Over any interleaving of submissions with the draining of shards, a shard has processed, each once
  -- and in the order of their submission, the first of the messages for its symbols, and the rest waits
  -- in its inbound buffer; nothing else changes its books. The buffer is empty at the start, and its
  -- sequences have not yet wrapped.
  pub Run-Flows :
      (k : ℕ) (start : Simulation) (shard : Shard) (ins : List OrderMessage) (s : Simulation)
      → get_elem? start.shards i ≡ some shard
      → IsTracked k [] [] 0 shard.inbound
      → Run hash i start ins s
      → length ins < word
      → Flows k i shard ins s
  unfolding process_all
  Run-Flows k start shard _ _ at t starts fits = record {
    shard = shard;
    at = at;
    outs = [];
    rest = [];
    split = refl;
    tracked = t;
    processed = refl;
  }
  Run-Flows k start shard _ s at t (goes_on {ins = is} {ins' = is'} {s = s'} run step p) fits =
      rw p (
        Flows-Step k shard is is' s' s (omega (arith, fits, ap length p))
          (Run-Flows k start shard is s' at t run
            (omega (arith, fits, ap length p, length-append is is')))
          step)
