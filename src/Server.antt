-- ===== src/Server.antt =====
-- `Server` of Server/inc/Server/server.hpp and Server/src/server.cpp, with the parts of its state that
-- its `start` and `stop` drive: the threads of Simulation/src/simulation.cpp and Sharding/src/shard.cpp,
-- of Server/src/ingress_pump.cpp and of Server/src/market_data_broadcaster.cpp, each as a flag, the
-- listener of Net/src/order_entry_listener.cpp and the queue between it and the pump. What is submitted
-- to the simulation is a list.
use osborne_x.Base.{
  ℕ, zero, suc, ◌+◌, Bool, true, false, not, List, [], ◌∷◌, ◌++◌, map, Option, none, some, ◌>>=◌,
  if◌then◌else◌, length, replicate,
}
use osborne_x.Messages.{OrderMessage}
use osborne_x.Queue.MpscQueue.{
  MpscQueue, Outcome, blocks, returns, make_queue, push, pop_blocking, close,
}
use osborne_x.Net.Listener.{Listener, Answers, make_listener}
use osborne_x.Net
pub mod Pump
pub mod Lifecycle
pub mod Coherence
pub mod Calls
pub mod Shutdown

-- What `run` of the simulation's shards and its publisher is about.
pub record Workers : Type 0 where
  pub running : Bool
  pub frozen : Bool
  pub shards : List Bool

-- `Simulation::start`, with `start` of each shard.
unfoldable pub start_simulation : Workers → Workers
start_simulation w =
    if w.running
    then w
    else record { running = true; frozen = true; shards = map (λ _. true) w.shards }

-- `Simulation::stop`, with `stop` of each shard.
unfoldable pub stop_simulation : Workers → Workers
stop_simulation w =
    if w.running then record w { running = false; shards = map (λ _. false) w.shards } else w

-- The subscriber and the trade reader of the broadcaster.
pub record Readers : Type 0 where
  pub top_of_book : Bool
  pub trades : Bool

-- `MarketDataBroadcaster::start`
unfoldable pub start_broadcaster : Readers → Readers
start_broadcaster r = record { top_of_book = true; trades = true }

-- `MarketDataBroadcaster::stop`
unfoldable pub stop_broadcaster : Readers → Readers
stop_broadcaster r = record { top_of_book = false; trades = false }

-- The pump: whether its thread is joinable, and what it has submitted.
pub record IngressPump : Type 0 where
  pub joinable : Bool
  pub submitted : List OrderMessage

pub record Server : Type 0 where
  pub simulation : Workers
  pub inbound_queue : MpscQueue OrderMessage
  pub pump : IngressPump
  pub broadcaster : Readers
  pub listener : Listener
  pub running : Bool

-- The constructor, with the number of shards, the capacity of the queue and the port.
unfoldable pub make_server : ℕ → ℕ → ℕ → Server
make_server shard_count inbound_queue_capacity order_entry_port = record {
  simulation = record { running = false; frozen = false; shards = replicate shard_count false };
  inbound_queue = make_queue inbound_queue_capacity;
  pump = record { joinable = false; submitted = [] };
  broadcaster = record { top_of_book = false; trades = false };
  listener = make_listener order_entry_port;
  running = false;
}

-- `IngressPump::run`: what it submits, and the queue behind it; `none` where it has not ended by the
-- last round.
unfoldable pub run_pump :
    ℕ → MpscQueue OrderMessage → Option (List OrderMessage × MpscQueue OrderMessage)
run_pump zero q = none
run_pump (suc fuel) q = elim (pop_blocking q) [
  | blocks ↦ none
  | returns (o, q') ↦ elim o [
    | none ↦ some ([], q')
    | some m ↦ do (ms, q'') ← run_pump fuel q'; some (m ∷ ms, q'')
  ]
]

-- `IngressPump::start`; `none` is `std::terminate`, which an assignment to a joinable thread calls.
unfoldable pub start_pump : Server → Option Server
start_pump s =
    if s.pump.joinable
    then none
    else some (record s { pump = record { joinable = true; submitted = s.pump.submitted } })

-- `IngressPump::stop`: the thread ends by its own loop before it is joined. A closed queue gives
-- each of its values and then none, so it gets a round for each, and one more.
unfoldable pub stop_pump : Server → Option Server
unfolding close
stop_pump s =
    let q = close s.inbound_queue in
    if s.pump.joinable
    then (do
      (ms, q') ← run_pump (suc (length q.items)) q
      some (record s {
        inbound_queue = q';
        pump = record { joinable = false; submitted = s.pump.submitted ++ ms };
      }))
    else some (record s { inbound_queue = q })

-- The rest of both `start`, where the listener fails, and `stop`.
unfoldable pub stop_consumers : Server → Option Server
unfolding stop_pump
stop_consumers s = do
  s' ← stop_pump s
  some (record s' {
    simulation = stop_simulation s'.simulation;
    broadcaster = stop_broadcaster s'.broadcaster;
    running = false;
  })

-- `start`, once the listener has tried to.
unfoldable pub finish_start : Server → Listener × Bool → Option (Server × Bool)
unfolding stop_consumers
finish_start s (l, started) =
    if started
    then some (record s { listener = l }, true)
    else (do s' ← stop_consumers (record s { listener = l }); some (s', false))

-- `start`, with what the system answers to the listener.
unfoldable pub start : Answers → Server → Option (Server × Bool)
unfolding finish_start
start a s = if s.running then some (s, true) else (do
  s' ← start_pump (record s {
    running = true;
    simulation = start_simulation s.simulation;
    broadcaster = start_broadcaster s.broadcaster;
  })
  finish_start s' (Net.Listener.start a s'.listener))

-- `stop`
unfoldable pub stop : Server → Option Server
unfolding stop_consumers
stop s =
    if s.running
    then stop_consumers (record s { listener = Net.Listener.stop s.listener })
    else some s

-- The handler of the listener, on the thread of a connection; it blocks where the queue is full.
unfoldable pub receive_order : OrderMessage → Server → Option Server
receive_order m s = elim (push m s.inbound_queue) [
  | blocks ↦ none
  | returns q ↦ some (record s { inbound_queue = q })
]

-- A round of the pump while the server runs.
unfoldable pub pump_once : Server → Option Server
pump_once s = elim (pop_blocking s.inbound_queue) [
  | blocks ↦ none
  | returns (o, q) ↦ elim o [
    | none ↦ some (record s { inbound_queue = q })
    | some m ↦ some (record s {
      inbound_queue = q;
      pump = record { joinable = s.pump.joinable; submitted = s.pump.submitted ++ m ∷ [] };
    })
  ]
]

-- The calls that reach a server, in any order.
pub data Call : Type 0 where
  starts : Answers → Call
  stops : Call
  receives : OrderMessage → Call
  pumps : Call

-- A call; `none` is one that does not return.
unfoldable pub perform : Call → Server → Option Server
unfolding start
perform (starts a) s = do (s', started) ← start a s; some s'
perform stops s = stop s
perform (receives m) s = receive_order m s
perform pumps s = pump_once s

unfoldable pub perform_all : List Call → Server → Option Server
perform_all [] s = some s
perform_all (c ∷ cs) s = do s' ← perform c s; perform_all cs s'
