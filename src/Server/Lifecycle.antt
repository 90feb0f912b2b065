-- ===== src/Server/Lifecycle.antt =====
-- The parts of a server of Server/src/server.cpp over any sequence of calls of it.
use osborne_x.Base.{
  ℕ, zero, suc, ◌≡◌, refl, ap, ◌∙◌, inl, inr, Bool, true, false, List, [], ◌∷◌, ◌++◌, map, Option,
  some, arith, All, Bool-cases, replicate,
}
use osborne_x.Net.Sockets.{is_valid}
use osborne_x.Net
use osborne_x.Net.Listener.{Answers, make_listener, start_on, reset_socket}
use osborne_x.Server.{
  Server, Workers, make_server, start, finish_start, stop, start_simulation, stop_simulation,
  start_broadcaster, stop_broadcaster, start_pump, stop_consumers,
}
use osborne_x.Server.Pump.{drained, emptied, stop_consumers-drained}

-- All parts run, or none does: the threads of the shards, of the pump and of the broadcaster, and the
-- listener with its socket.
pub record IsCoherent (s : Server) : Type 0 where
  pub simulating : s.simulation.running ≡ s.running
  pub sharded : All (λ b. b ≡ s.running) s.simulation.shards
  pub pumping : s.pump.joinable ≡ s.running
  pub reading : (s.broadcaster.top_of_book ≡ s.running) × (s.broadcaster.trades ≡ s.running)
  pub listening : (s.listener.running ≡ s.running) × (is_valid s.listener.listen_socket ≡ s.running)

All-map : (r : Bool) (bs : List Bool) → All (λ b. b ≡ r) (map (λ (_ : Bool). r) bs)
All-map r [] = tt
All-map r (b ∷ bs) = (refl, All-map r bs)

All-replicate : (r : Bool) (n : ℕ) → All (λ b. b ≡ r) (replicate n r)
All-replicate r zero = tt
All-replicate r (suc n) = (refl, All-replicate r n)

pub make_server-IsCoherent : (n capacity port : ℕ) → IsCoherent (make_server n capacity port)
unfolding make_server make_listener
make_server-IsCoherent n capacity port = record {
  simulating = refl;
  sharded = All-replicate false n;
  pumping = refl;
  reading = (refl, refl);
  listening = (refl, refl);
}

-- The listener runs with a valid socket exactly when its `start` says so.
listener_started :
    (a : Answers) (l : Net.Listener.Listener)
    → l.running ≡ false
    → is_valid l.listen_socket ≡ false
    → ((Net.Listener.start a l).0.running ≡ (Net.Listener.start a l).1)
      × (is_valid (Net.Listener.start a l).0.listen_socket ≡ (Net.Listener.start a l).1)
unfolding Net.Listener.start start_on reset_socket
listener_started a l e v = ground arith

listener_stopped :
    (l : Net.Listener.Listener)
    → l.running ≡ true
    → ((Net.Listener.stop l).running ≡ false)
      × (is_valid (Net.Listener.stop l).listen_socket ≡ false)
unfolding Net.Listener.stop reset_socket
listener_stopped l e = ground arith

-- What stopping the consumers of a started server leaves.
abbrev rolled_back : Server → Server
rolled_back s = record (drained s) {
  simulation = stop_simulation s.simulation;
  broadcaster = stop_broadcaster s.broadcaster;
  running = false;
}

rolled_back-IsCoherent :
    (s : Server)
    → s.simulation.running ≡ true
    → s.listener.running ≡ false
    → is_valid s.listener.listen_socket ≡ false
    → IsCoherent (rolled_back s)
unfolding stop_simulation stop_broadcaster
rolled_back-IsCoherent s e l v = record {
  simulating = ground arith;
  sharded = rw e (All-map false s.simulation.shards);
  pumping = refl;
  reading = (refl, refl);
  listening = (l, v);
}

-- A server whose consumers have started, and whose listener has not.
abbrev pub begun : Server → Server
begun s = record s {
  running = true;
  simulation = start_simulation s.simulation;
  broadcaster = start_broadcaster s.broadcaster;
  pump = record { joinable = true; submitted = s.pump.submitted };
}

pub start-begun :
    (a : Answers) (s : Server)
    → s.pump.joinable ≡ false
    → s.running ≡ false
    → start a s ≡ finish_start (begun s) (Net.Listener.start a s.listener)
unfolding start start_pump
start-begun a s c e = ground arith

begun-simulation :
    (s : Server)
    → s.simulation.running ≡ false
    → (begun s).simulation
      ≡ record { running = true; frozen = true; shards = map (λ _. true) s.simulation.shards }
unfolding start_simulation
begun-simulation s e = rw e refl

-- What a call of `start` or `stop` is to leave: it returns, and the parts agree with its result.
pub record Returns (o : Option (Server × Bool)) : Type 0 where
  pub returned : (s' : Server) × (r : Bool) × (o ≡ some (s', r)) × (s'.running ≡ r) × IsCoherent s'

finish_start-Returns :
    (s : Server) (l : Net.Listener.Listener) (started : Bool)
    → IsCoherent s
    → s.running ≡ false
    → l.running ≡ started
    → is_valid l.listen_socket ≡ started
    → Returns (finish_start (begun s) (l, started))
unfolding finish_start start_broadcaster
finish_start-Returns s l true c e p v = record {
  returned = (
    record (begun s) { listener = l },
    true,
    refl,
    refl,
    record {
      simulating = ap (λ (w : Workers). w.running) (begun-simulation s (c.simulating ∙ e));
      sharded = rw (begun-simulation s (c.simulating ∙ e)) (All-map true s.simulation.shards);
      pumping = refl;
      reading = (refl, refl);
      listening = (p, v);
    },
  );
}
finish_start-Returns s l false c e p v =
    let s' : Server = record (begun s) { listener = l } in
    rw (stop_consumers-drained s' refl) (record {
      returned = (
        rolled_back s',
        false,
        refl,
        refl,
        rolled_back-IsCoherent s'
            (ap (λ (w : Workers). w.running) (begun-simulation s (c.simulating ∙ e))) p v,
      );
    })

pub start-running : (a : Answers) (s : Server) → s.running ≡ true → start a s ≡ some (s, true)
unfolding start
start-running a s e = ground arith

-- `start` returns, and its result tells whether the server runs; if it does, all parts do, and if not,
-- none. It never starts a thread over one that was not joined. The parts agree before the call.
pub start-Returns : (a : Answers) (s : Server) → IsCoherent s → Returns (start a s)
start-Returns a s c = elim (Bool-cases s.running) [
  | inl e ↦ rw (start-running a s e) (record { returned = (s, true, refl, e, c) })
  | inr e ↦ rw (start-begun a s (c.pumping ∙ e) e) (
      let (p, v) = listener_started a s.listener (c.listening.0 ∙ e) (c.listening.1 ∙ e) in
      finish_start-Returns s (Net.Listener.start a s.listener).0 (Net.Listener.start a s.listener).1
        c e p v)
]

pub stop-running :
    (s : Server)
    → s.running ≡ true
    → stop s ≡ stop_consumers (record s { listener = Net.Listener.stop s.listener })
unfolding stop
stop-running s e = ground arith

-- `stop` of a running server returns, and leaves no part running.
pub stop-Returns :
    (s : Server)
    → IsCoherent s
    → s.running ≡ true
    → (s' : Server) × (stop s ≡ some s')
      × (s'.running ≡ false)
      × IsCoherent s'
      × (s'.inbound_queue ≡ emptied s.inbound_queue)
      × (s'.pump.submitted ≡ s.pump.submitted ++ s.inbound_queue.items)
stop-Returns s c e =
    let s' : Server = record s { listener = Net.Listener.stop s.listener } in
    let (l, v) = listener_stopped s.listener (c.listening.0 ∙ e) in
    (
      rolled_back s',
      stop-running s e ∙ stop_consumers-drained s' (c.pumping ∙ e),
      refl,
      rolled_back-IsCoherent s' (c.simulating ∙ e) l v,
      refl,
      refl,
    )
