-- ===== src/Ingress/Submit.antt =====
-- `Simulation` of Simulation/inc/Simulation/simulation.hpp and Simulation/src/simulation.cpp: its
-- constructor and `submit`. Its `start` and `stop` stand in Server, and the publisher in PubSub.
use osborne_x.Base.{
  ℕ, ◌+◌, ◌<◌, ◌≡◌, List, Option, none, some, arith, Option-cases, inl, inr, if◌then◌else◌, ◌==◌,
  length, replicate, get_elem?,
}
use osborne_x.Messages.{OrderMessage, TradeExecution}
use osborne_x.Queue.RingBuffer.{word}
use osborne_x.Queue.History.{Holds}
use osborne_x.Sharding.Shard.{Shard, make_shard}
use osborne_x.Sharding.Router.{shard_for_symbol, route, Routes, route-Routes}
use osborne_x.Ingress.Receive.{first_sequence, stamp, receive}

pub record SimulationOptions : Type 0 where
  pub shard_count : ℕ
  pub shard_inbound_capacity : ℕ
  pub shard_outbound_capacity : ℕ

pub record Simulation : Type 0 where
  pub shards : List Shard
  pub next_sequence : ℕ

-- The default of the constructor of `Shard`.
abbrev pub trade_outbound_capacity : ℕ
trade_outbound_capacity = 1024

-- The constructor; `none` means that it throws. The first two arguments are the value-initialised
-- message and trade.
unfoldable pub make_simulation :
    OrderMessage → TradeExecution → SimulationOptions → Option Simulation
make_simulation m t o =
    if o.shard_count == 0
    then none
    else some (record {
      shards = replicate o.shard_count (
          make_shard m t o.shard_inbound_capacity o.shard_outbound_capacity
            trade_outbound_capacity);
      next_sequence = first_sequence;
    })

module _ (hash : ℕ → ℕ) where
  -- `submit` at a time; `none` means that the call spins, since the shard's inbound buffer is full, or
  -- that there is no shard.
  unfoldable pub submit : ℕ → OrderMessage → Simulation → Option Simulation
  unfolding receive
  submit now m s =
      let (stamped, next) = receive now m s.next_sequence in
      elim (route hash stamped s.shards) [
        | none ↦ none
        | some shards ↦ some (record { shards = shards; next_sequence = next })
      ]

  pub submitted :
      (now : ℕ) (m : OrderMessage) (s s' : Simulation)
      → submit now m s ≡ some s'
      → route hash (stamp now s.next_sequence m) s.shards ≡ some s'.shards
  unfolding submit
  submitted now m s s' e = elim (Option-cases (route hash (stamp now s.next_sequence m) s.shards)) [
    | inl h ↦ absurd (ground arith)
    | inr (shards, h) ↦ ground arith
  ]

  -- A message that is submitted arrives, stamped with the time and the next sequence, behind the
  -- others in the inbound buffer of its symbol's shard, and changes no book and no other shard. The
  -- buffer holds the last values of some history, the sequences have not yet wrapped, and the call
  -- returns.
  pub submit-Routes :
      (now k : ℕ) (history : List OrderMessage) (m : OrderMessage) (s s' : Simulation)
      (shard : Shard)
      → length history + 1 < word
      → get_elem? s.shards (shard_for_symbol hash m.symbol (length s.shards)) ≡ some shard
      → Holds k history shard.inbound
      → submit now m s ≡ some s'
      → Routes k
          (shard_for_symbol hash m.symbol (length s.shards))
          history
          (stamp now s.next_sequence m)
          shard
          s.shards
          s'.shards
  unfolding stamp
  submit-Routes now k history m s s' shard fits at h e =
      route-Routes hash k history (stamp now s.next_sequence m) s.shards s'.shards shard fits at h
        (submitted now m s s' e)
