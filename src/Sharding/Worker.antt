-- ===== src/Sharding/Worker.antt =====
-- The thread of a shard: `start`, `stop`, `run` and `drain` of Sharding/src/shard.cpp, with the thread that
-- each of its buffers has recorded as its producer, `assert_producer_thread` and `reset_producer_thread`
-- of Queue/inc/Queue/ring_buffer.hpp in debug builds. `none` is a failed assertion or `std::terminate`.
-- One thread calls `start` and `stop`, and one calls `enqueue`, between two rounds of the loops.
use osborne_x.Base.{
  ℕ, zero, suc, ◌+◌, ◌≡◌, ◌++◌, Bool, true, false, List, [], ◌∷◌, Option, none, some, ◌>>=◌,
  if◌then◌else◌, ◌==◌,
}
use osborne_x.Messages.{OrderMessage}
use osborne_x.Orderbook.Types.{Trade}
use osborne_x.Queue.RingBuffer.{capacity, read_consumer}
use osborne_x.Sharding.Shard.{Shard, enqueue, process, trades_of, top_changed}

-- The recorded producer thread of a buffer; threads are numbers.
abbrev pub Producer : Type 0
Producer = Option ℕ

unfoldable pub assert_producer_thread : ℕ → Producer → Option Producer
assert_producer_thread id none = some (some id)
assert_producer_thread id (some p) = if p == id then some (some p) else none

abbrev pub reset_producer_thread : Producer → Producer
reset_producer_thread p = none

-- A shard with `running_`, its joinable thread, and the producers of its three buffers.
pub record Worker : Type 0 where
  pub shard : Shard
  pub running : Bool
  pub thread : Option ℕ
  pub inbound_producer : Producer
  pub top_producer : Producer
  pub trade_producer : Producer

abbrev pub make_worker : Shard → Worker
make_worker s = record {
  shard = s;
  running = false;
  thread = none;
  inbound_producer = none;
  top_producer = none;
  trade_producer = none;
}

-- `enqueue` on the thread `id`, up to its push or its first spin: with `false` the buffer is full, and the
-- call tries again.
unfoldable pub enqueue_on : ℕ → OrderMessage → Worker → Option (Worker × Bool)
unfolding assert_producer_thread
enqueue_on id m w = do
  inbound ← assert_producer_thread id w.inbound_producer
  let w' : Worker = record w { inbound_producer = inbound }
  some (elim (enqueue m w.shard) [ none ↦ (w', false) | some s ↦ (record w' { shard = s }, true) ])

-- A push of each trade asserts.
unfoldable pub assert_pushes : ℕ → List Trade → Producer → Option Producer
assert_pushes id [] p = some p
assert_pushes id (t ∷ ts) p = do p' ← assert_producer_thread id p; assert_pushes id ts p'

-- `process` on the thread `id`.
unfoldable pub process_on : ℕ → OrderMessage → Worker → Option Worker
unfolding assert_pushes assert_producer_thread
process_on id m w = do
  trade ← assert_pushes id (trades_of m w.shard) w.trade_producer
  top ←
      if top_changed m w.shard
      then assert_producer_thread id w.top_producer
      else some w.top_producer
  some (record w { shard = process m w.shard; trade_producer = trade; top_producer = top })

-- `drain` on the thread `id`; fuel as for `drain` of the shard.
unfoldable pub drain_on : ℕ → ℕ → Worker → Option Worker
drain_on zero id w = some w
drain_on (suc fuel) id w =
    let (result, value, r) = read_consumer 0 w.shard.inbound in
    let w' : Worker = record w { shard = record w.shard { inbound = r } } in
    elim value [ none ↦ some w' | some m ↦ process_on id m w' >>= drain_on fuel id ]

-- Some rounds of `run` on the thread `id`; a round that reads nothing yields.
unfoldable pub run_rounds : ℕ → ℕ → Worker → Option Worker
run_rounds zero id w = some w
run_rounds (suc n) id w =
    let (result, value, r) = read_consumer 0 w.shard.inbound in
    let w' : Worker = record w { shard = record w.shard { inbound = r } } in
    elim value [ none ↦ run_rounds n id w' | some m ↦ process_on id m w' >>= run_rounds n id ]

-- Rounds of the shard's thread, where there is one.
unfoldable pub work : ℕ → Worker → Option Worker
unfolding run_rounds
work n w = elim w.thread [ none ↦ some w | some id ↦ run_rounds n id w ]

-- `start`; `id` is the new thread. A `std::thread` that is assigned to while it is joinable terminates
-- the program.
unfoldable pub start : ℕ → Worker → Option Worker
start id w = if w.running then some w else elim w.thread [
  | some _ ↦ none
  | none ↦ some (record w {
    running = true;
    thread = some id;
    top_producer = reset_producer_thread w.top_producer;
    trade_producer = reset_producer_thread w.trade_producer;
  })
]

-- `stop` on the thread `owner`; the shard's thread goes through `n` more rounds before it is joined.
unfoldable pub stop : ℕ → ℕ → Worker → Option Worker
unfolding work drain_on
stop owner n w =
    if w.running
    then (do
      w' ← work n (record w { running = false })
      drain_on (capacity w'.shard.inbound + 1) owner (record w' {
        thread = none;
        top_producer = reset_producer_thread w'.top_producer;
        trade_producer = reset_producer_thread w'.trade_producer;
      }))
    else some w

-- A step, with the messages that it brings: none where `enqueue` spins.
pub data Step (owner feeder : ℕ) (w : Worker) (ins : List OrderMessage) (w' : Worker) : Type 0 where
  starts : (id : ℕ) → start id w ≡ some w' → ins ≡ [] → Step owner feeder w ins w'
  works : (n : ℕ) → work n w ≡ some w' → ins ≡ [] → Step owner feeder w ins w'
  stops : (n : ℕ) → stop owner n w ≡ some w' → ins ≡ [] → Step owner feeder w ins w'
  enqueues :
      (m : OrderMessage)
      → enqueue_on feeder m w ≡ some (w', true)
      → ins ≡ m ∷ []
      → Step owner feeder w ins w'
  spins :
      (m : OrderMessage)
      → enqueue_on feeder m w ≡ some (w', false)
      → ins ≡ []
      → Step owner feeder w ins w'

pub data Run (owner feeder : ℕ) (first : Worker) : List OrderMessage → Worker → Type 0 where
  begins : Run owner feeder first [] first
  goes_on :
      {ins ins' all : List OrderMessage} {w w' : Worker}
      → Run owner feeder first ins w
      → Step owner feeder w ins' w'
      → all ≡ ins ++ ins'
      → Run owner feeder first all w'
