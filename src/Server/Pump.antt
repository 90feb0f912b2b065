-- ===== src/Server/Pump.antt =====
-- The pump of Server/src/ingress_pump.cpp on a queue that is closed.
use osborne_x.Base.{
  ℕ, zero, suc, ◌<◌, ◌≡◌, refl, true, false, List, [], ◌∷◌, ◌++◌, some, arith, length,
}
use osborne_x.Messages.{OrderMessage}
use osborne_x.Queue.MpscQueue.{MpscQueue, pop_blocking, take_front, close}
use osborne_x.Server.{
  Server, run_pump, stop_pump, stop_consumers, stop_simulation, stop_broadcaster,
}

-- A queue that is closed and has nothing left.
abbrev pub emptied : MpscQueue OrderMessage → MpscQueue OrderMessage
emptied q = record { items = []; capacity = q.capacity; closed = true }

abbrev of : List OrderMessage → ℕ → MpscQueue OrderMessage
of ms n = record { items = ms; capacity = n; closed = true }

run_pump-of :
    (fuel n : ℕ) (ms : List OrderMessage)
    → length ms < fuel
    → run_pump fuel (of ms n) ≡ some (ms, of [] n)
unfolding run_pump pop_blocking take_front
run_pump-of zero n ms h = absurd (omega arith)
run_pump-of (suc fuel) n [] h = refl
run_pump-of (suc fuel) n (m ∷ ms) h = rw (run_pump-of fuel n ms (omega arith)) refl

-- Once it is stopped, the pump has submitted all that was in the queue, and the queue is closed.
abbrev pub drained : Server → Server
drained s = record s {
  inbound_queue = emptied s.inbound_queue;
  pump = record { joinable = false; submitted = s.pump.submitted ++ s.inbound_queue.items };
}

stop_pump-drained : (s : Server) → s.pump.joinable ≡ true → stop_pump s ≡ some (drained s)
unfolding stop_pump close
stop_pump-drained s e =
    rw
      (
        e,
        run_pump-of (suc (length s.inbound_queue.items)) s.inbound_queue.capacity
            s.inbound_queue.items (omega arith),
      )
      refl

pub stop_consumers-drained :
    (s : Server)
    → s.pump.joinable ≡ true
    → stop_consumers s
      ≡ some (record (drained s) {
        simulation = stop_simulation s.simulation;
        broadcaster = stop_broadcaster s.broadcaster;
        running = false;
      })
unfolding stop_consumers
stop_consumers-drained s e = rw (stop_pump-drained s e) refl
