-- ===== src/Tests/Streams.antt =====
-- Runs of a buffer with a consumer that waits for nothing, and of the shards that read from one.
use osborne_x.Base.{set, ◌≡◌, refl, inl, List, [], ◌∷◌, ◌++◌, some, arith}
use osborne_x.Orderbook.Types.{buy, sell}
use osborne_x.Messages.{OrderMessage}
use osborne_x.Queue.RingBuffer.{
  RingBuffer, push_overwrite, push_blocking, claim_blocking, read_consumer, try_read, catch_up,
  read_at, read_slot, publish, write_value,
}
use osborne_x.Queue.Stream.{IsTracked, push_blocking-IsTracked}
use osborne_x.Queue.Delivery.{Step, Run, Run-delivers}
use osborne_x.Sharding.Shard.{book_of, update_of, Shard, drain, process}
use osborne_x.Sharding.Draining.{IsDrained, drain-IsDrained}
use osborne_x.Sharding.Books.{AreSound}
use osborne_x.Sharding.Tops.{IsTop, process-IsTop}
use osborne_x.Sharding.Router.{shard_for_symbol}
use osborne_x.Ingress.Receive.{stamp}
use osborne_x.Ingress.Submit.{Simulation}
use osborne_x.Ingress.Flow
use osborne_x.Ingress.Flow.{Flows}
use osborne_x.Ingress.Interleaving.{Run-Flows}
use osborne_x.Ingress.Holding.{Run-AreSound}
use osborne_x.Tests.Queues.{new_ring, new_ring-Holds}
use osborne_x.Tests.Shards.{
  message, new_shard, queued, hash, before_submit, after_submit, submitted,
}

pub new_ring-IsTracked {ℓ} : {A : Type ℓ} (a : A) → IsTracked 1 [] [] 0 (new_ring a)
new_ring-IsTracked a = record {
  held = new_ring-Holds a;
  reader = (_, refl, refl, refl, refl);
  kept = omega arith;
  behind = ([], refl);
}

pub pushed_message :
    (m : OrderMessage)
    → push_blocking m (new_ring (message 0 buy))
      ≡ some (push_overwrite m (new_ring (message 0 buy)))
unfolding push_blocking push_overwrite claim_blocking
pushed_message m = refl

abbrev start : RingBuffer OrderMessage
start = new_ring (message 0 buy)

abbrev pub waiting : RingBuffer OrderMessage
waiting = push_overwrite (message 1 sell) start

delivery : Run 0 start (message 1 sell ∷ []) (message 1 sell ∷ []) (read_consumer 0 waiting).2
unfolding read_consumer try_read catch_up read_at read_slot push_overwrite publish write_value
delivery =
    Run.goes_on
      (Run.goes_on (Run.starts refl refl refl)
        (Step.pushes (message 1 sell) (pushed_message (message 1 sell)) refl refl) refl refl)
      (Step.reads refl refl refl) refl refl

Run-delivers_example :
    (rest : List OrderMessage) × (message 1 sell ∷ [] ≡ (message 1 sell ∷ []) ++ rest)
    × IsTracked 1 (message 1 sell ∷ []) rest 0 (read_consumer 0 waiting).2
Run-delivers_example = Run-delivers 1 (new_ring-IsTracked (message 0 buy)) delivery (omega arith)

abbrev busy : Shard
busy = record new_shard { inbound = waiting }

drain-IsDrained_example :
    IsDrained 1 (message 1 sell ∷ []) (message 1 sell ∷ []) busy (drain 2 busy)
drain-IsDrained_example =
    drain-IsDrained 2 1 (message 1 sell ∷ []) (message 1 sell ∷ []) busy (omega arith)
      (push_blocking-IsTracked 1 [] [] (message 1 sell) 0 start waiting (omega arith)
        (new_ring-IsTracked (message 0 buy)) (pushed_message (message 1 sell)))
      (omega arith)

process-IsTop_example :
    IsTop (book_of 1 (process (message 1 sell) new_shard)) (update_of (message 1 sell) new_shard)
process-IsTop_example = process-IsTop (message 1 sell) new_shard (inl (omega arith)) tt

-- The shard of the message drains after it was submitted.
abbrev received : Shard
received = queued (record (message 1 sell) { ingress_timestamp = 50; ingress_sequence = 4 })

abbrev drained_after : Simulation
drained_after = record after_submit { shards = set after_submit.shards 1 (drain 3 received) }

submit_run : Flow.Run hash 1 before_submit (stamp 50 4 (message 1 sell) ∷ []) drained_after
unfolding shard_for_symbol push_overwrite publish write_value stamp
submit_run =
    Flow.Run.goes_on
      (Flow.Run.goes_on Flow.Run.starts (Flow.Step.submits 50 (message 1 sell) submitted refl) refl)
      (Flow.Step.drains 1 3 received refl (omega arith) refl refl) refl

Run-Flows_example : Flows 1 1 new_shard (stamp 50 4 (message 1 sell) ∷ []) drained_after
Run-Flows_example =
    Run-Flows hash 1 1 before_submit new_shard (stamp 50 4 (message 1 sell) ∷ []) drained_after refl
      (new_ring-IsTracked (message 0 buy)) submit_run (omega arith)

Run-AreSound_example : AreSound (drain 3 received).books
unfolding stamp
Run-AreSound_example =
    Run-AreSound hash 1 1 before_submit new_shard (drain 3 received)
      (stamp 50 4 (message 1 sell) ∷ []) drained_after refl (new_ring-IsTracked (message 0 buy)) tt
      submit_run (omega arith) (inl (omega arith), tt) refl
