-- ===== src/Ingress/Flow.antt =====
-- Any interleaving of the calls of `submit` of Simulation/src/simulation.cpp with the draining of the
-- shards of Sharding/src/shard.cpp, each as one step.
use osborne_x.Base.{
  ℕ, ◌+◌, ◌<◌, ◌≡◌, sym, ap, ◌∙◌, List, [], ◌∷◌, ◌++◌, some, arith, if◌then◌else◌, ◌==◌, length,
  get_elem?, set, get_elem?-set_self,
}
use mathlib.Core.List.{append_assoc, append-nil}
use osborne_x.Messages.{OrderMessage}
use osborne_x.Queue.RingBuffer.{word, RingBuffer, capacity, push_blocking}
use osborne_x.Queue.Stream.{IsTracked, push_blocking-IsTracked}
use osborne_x.Sharding.Shard.{Shard, drain}
use osborne_x.Sharding.Router.{shard_for_symbol, get_elem?-below}
use osborne_x.Sharding.Draining.{
  process_all, process_all-append, process_all-inbound, drain-IsDrained,
}
use osborne_x.Ingress.Receive.{stamp}
use osborne_x.Ingress.Submit.{Simulation, submit}

module _ (hash : ℕ → ℕ) (i : ℕ) where
  -- What a submitted message brings to the shard `i`.
  abbrev pub arrivals : ℕ → OrderMessage → Simulation → List OrderMessage
  arrivals now m s =
      if shard_for_symbol hash m.symbol (length s.shards) == i
      then stamp now s.next_sequence m ∷ []
      else []

  -- A step, with what it brings to the shard `i`. A shard drains with a round for each place of its
  -- inbound buffer and one more.
  pub data Step (s : Simulation) (ins : List OrderMessage) (s' : Simulation) : Type 0 where
    submits :
        (now : ℕ) (m : OrderMessage)
        → submit hash now m s ≡ some s'
        → ins ≡ arrivals now m s
        → Step s ins s'
    drains :
        (j fuel : ℕ) (shard : Shard)
        → get_elem? s.shards j ≡ some shard
        → capacity shard.inbound < fuel
        → s' ≡ record s { shards = set s.shards j (drain fuel shard) }
        → ins ≡ []
        → Step s ins s'

  pub data Run (start : Simulation) : List OrderMessage → Simulation → Type 0 where
    starts : Run start [] start
    goes_on :
        {ins ins' all : List OrderMessage} {s s' : Simulation}
        → Run start ins s
        → Step s ins' s'
        → all ≡ ins ++ ins'
        → Run start all s'

-- A shard against the messages that were brought to it: it has processed the first ones, and the rest
-- waits in its inbound buffer.
pub record Flows (k i : ℕ) (start : Shard) (ins : List OrderMessage) (s : Simulation) : Type 0 where
  pub shard : Shard
  pub at : get_elem? s.shards i ≡ some shard
  pub outs : List OrderMessage
  pub rest : List OrderMessage
  pub split : ins ≡ outs ++ rest
  pub tracked : IsTracked k ins rest 0 shard.inbound
  pub processed : shard ≡ record (process_all outs start) { inbound = shard.inbound }

pub Flows-same :
    (k i : ℕ) (start : Shard) (ins : List OrderMessage) (s s' : Simulation)
    → get_elem? s'.shards i ≡ get_elem? s.shards i
    → Flows k i start ins s
    → Flows k i start ins s'
Flows-same k i start ins s s' e f = record {
  shard = f.shard;
  at = e ∙ f.at;
  outs = f.outs;
  rest = f.rest;
  split = f.split;
  tracked = f.tracked;
  processed = f.processed;
}

pub Flows-drain :
    (k i fuel : ℕ) (start : Shard) (ins : List OrderMessage) (s : Simulation)
    (f : Flows k i start ins s)
    → length ins < word
    → capacity f.shard.inbound < fuel
    → Flows k i start ins (record s { shards = set s.shards i (drain fuel f.shard) })
Flows-drain k i fuel start ins s f fits h =
    let done =
      drain-IsDrained fuel k ins f.rest f.shard fits f.tracked
        (omega (arith, h, f.tracked.kept, f.tracked.held.sized)) in
    let after : Shard = drain fuel f.shard in
    record {
      shard = after;
      at = get_elem?-set_self s.shards i after (get_elem?-below s.shards i f.shard f.at);
      outs = ins;
      rest = [];
      split = sym (append-nil ins);
      tracked = done.emptied;
      processed =
          done.processed
          ∙ ap (λ (t : Shard). record (process_all f.rest t) { inbound = after.inbound })
              f.processed
          ∙ ap (λ (t : Shard). record t { inbound = after.inbound })
              (process_all-inbound f.rest (process_all f.outs start) f.shard.inbound)
          ∙ ap (λ (t : Shard). record t { inbound = after.inbound })
              (sym
                (ap (λ l. process_all l start) f.split ∙ process_all-append f.outs f.rest start));
    }

pub Flows-push :
    (k i : ℕ) (start shard' : Shard) (ins : List OrderMessage) (m : OrderMessage)
    (s s' : Simulation) (r : RingBuffer OrderMessage) (f : Flows k i start ins s)
    → length ins + 1 < word
    → push_blocking m f.shard.inbound ≡ some r
    → shard' ≡ record f.shard { inbound = r }
    → s'.shards ≡ set s.shards i shard'
    → Flows k i start (ins ++ m ∷ []) s'
Flows-push k i start shard' ins m s s' r f fits p e q = record {
  shard = record f.shard { inbound = r };
  at =
      ap (λ (l : List Shard). get_elem? l i) q
      ∙ get_elem?-set_self s.shards i shard' (get_elem?-below s.shards i f.shard f.at)
      ∙ ap some e;
  outs = f.outs;
  rest = f.rest ++ m ∷ [];
  split = ap (λ l. l ++ m ∷ []) f.split ∙ append_assoc f.outs f.rest (m ∷ []);
  tracked = push_blocking-IsTracked k ins f.rest m 0 f.shard.inbound r fits f.tracked p;
  processed = ap (λ (t : Shard). record t { inbound = r }) f.processed;
}
