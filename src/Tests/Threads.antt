-- ===== src/Tests/Threads.antt =====
-- A run of a shard of Sharding/src/shard.cpp with its thread.
use osborne_x.Base.{◌≡◌, refl, true, [], ◌∷◌, some, arith}
use osborne_x.Orderbook.Types.{buy, sell}
use osborne_x.Sharding.Shard.{Shard, enqueue}
use osborne_x.Sharding.Worker
use osborne_x.Sharding.Worker.{Worker, make_worker}
use osborne_x.Sharding.Serving.{IsServed, Run-IsServed}
use osborne_x.Tests.Shards.{message, new_shard}
use osborne_x.Tests.Streams.{new_ring-IsTracked, pushed_message, waiting}

abbrev fed : Shard
fed = record new_shard { inbound = waiting }

abbrev begun : Worker
begun = record (make_worker new_shard) { running = true; thread = some 7 }

-- The thread 6 enqueues a message.
abbrev fed_by_6 : Worker
fed_by_6 = record begun { shard = fed; inbound_producer = some 6 }

enqueued : Worker.enqueue_on 6 (message 1 sell) begun ≡ some (fed_by_6, true)
unfolding Worker.enqueue_on enqueue
enqueued = rw (pushed_message (message 1 sell)) refl

served_run : Worker.Run 5 6 (make_worker new_shard) (message 1 sell ∷ []) fed_by_6
unfolding Worker.start
served_run =
    Worker.Run.goes_on (Worker.Run.goes_on Worker.Run.begins (Worker.Step.starts 7 refl refl) refl)
      (Worker.Step.enqueues (message 1 sell) enqueued refl) refl

Run-IsServed_example : IsServed 5 6 new_shard (message 1 sell ∷ []) fed_by_6
Run-IsServed_example =
    Run-IsServed 1 5 6 new_shard (message 1 sell ∷ []) fed_by_6 (new_ring-IsTracked (message 0 buy))
      served_run (omega arith)
