-- ===== src/Net/Listener.antt =====
-- `OrderEntryListener` of Net/inc/Net/order_entry_listener.hpp and Net/src/order_entry_listener.cpp, but
-- for `connection_loop`. What the calls of the system return is an argument. A thread is a number, and a
-- `std::thread` without one is `none`.
use osborne_x.Base.{
  ℕ, Bool, true, false, List, [], ◌∷◌, ◌++◌, Option, none, some, ◌>>=◌, if◌then◌else◌, ◌==◌,
}
use osborne_x.Net.Sockets.{SocketHandle, close_handle}

-- `Connection`; the flag that the thread sets when it ends is shared with it.
pub record Connection : Type 0 where
  pub thread : Option ℕ
  pub finished : Bool

pub record Listener : Type 0 where
  pub port : ℕ
  pub bound_port : ℕ
  pub listen_socket : SocketHandle
  pub running : Bool
  pub accept_thread : Option ℕ
  pub connections : List Connection
  pub joined : List ℕ
  pub closed : List ℕ

-- The constructor; no thread has been joined and no socket closed.
unfoldable pub make_listener : ℕ → Listener
make_listener port = record {
  port = port;
  bound_port = 0;
  listen_socket = none;
  running = false;
  accept_thread = none;
  connections = [];
  joined = [];
  closed = [];
}

-- What the system answers to `start`: a socket, whether it binds and listens, the port it is bound to,
-- and the number of the new thread.
pub record Answers : Type 0 where
  pub socket : Option ℕ
  pub binds : Bool
  pub listens : Bool
  pub name : Option ℕ
  pub thread : ℕ

-- `listen_socket_.reset(handle)`
unfoldable pub reset_socket : SocketHandle → Listener → Listener
reset_socket h l = record l { listen_socket = h; closed = close_handle l.listen_socket l.closed }

abbrev pub give_up : Listener → Listener × Bool
give_up l = (record (reset_socket none l) { running = false }, false)

abbrev pub port_of : Option ℕ → ℕ → ℕ
port_of none old = old
port_of (some p) old = p

-- `start`, once it has a socket.
unfoldable pub start_on : ℕ → Answers → Listener → Listener × Bool
unfolding reset_socket
start_on h a l =
    let l' = reset_socket (some h) (record l { running = true }) in
    if a.binds
    then (if a.listens
        then (
          record l' { bound_port = port_of a.name l.bound_port; accept_thread = some a.thread },
          true,
        )
        else give_up l')
    else give_up l'

unfoldable pub start : Answers → Listener → Listener × Bool
unfolding start_on
start a l =
    if l.running
    then (l, true)
    else elim a.socket [ none ↦ (record l { running = false }, false) | some h ↦ start_on h a l ]

unfoldable pub local_port : Listener → ℕ
local_port l = l.bound_port

-- `join` of a thread where it is joinable.
abbrev pub join : Option ℕ → List ℕ → List ℕ
join none joined = joined
join (some t) joined = t ∷ joined

unfoldable pub join_all : List Connection → List ℕ → List ℕ
join_all [] joined = joined
join_all (c ∷ cs) joined = join_all cs (join c.thread joined)

unfoldable pub stop : Listener → Listener
unfolding reset_socket join_all
stop l =
    if l.running
    then reset_socket none (record l {
      running = false;
      accept_thread = none;
      connections = [];
      joined = join_all l.connections (join l.accept_thread l.joined);
    })
    else l

-- What is left of a connection that was moved from.
abbrev pub moved_from : Connection
moved_from = record { thread = none; finished = false }

-- `std::remove_if` of the finished connections: those kept so far, those between them and the place of
-- the loop, and those still to come. A connection that is kept is move-assigned to the first place
-- after the kept ones, unless it stands there. `none` is `std::terminate`, which the assignment to a
-- joinable `std::thread` calls.
unfoldable pub remove_finished :
    List Connection → List Connection → List Connection → Option (List Connection × List Connection)
remove_finished kept gap [] = some (kept, gap)
remove_finished kept gap (c ∷ cs) = elim c.finished [
  | true ↦ remove_finished kept (gap ++ c ∷ []) cs
  | false ↦ elim gap [
    | [] ↦ remove_finished (kept ++ c ∷ []) [] cs
    | g ∷ gap' ↦ elim g.thread [
      | none ↦ remove_finished (kept ++ c ∷ []) (gap' ++ moved_from ∷ []) cs
      | some t ↦ none
    ]
  ]
]

-- `reap_finished_connections`
unfoldable pub reap_finished_connections : Listener → Option Listener
reap_finished_connections l = do
  (kept, gap) ← remove_finished [] [] l.connections
  some (record l { connections = kept; joined = join_all gap l.joined })

-- A round of `accept_loop` that gets a client, whose thread has this number.
unfoldable pub accept_client : ℕ → Listener → Option Listener
accept_client t l = do
  l' ← reap_finished_connections l
  some (record l' {
    connections = l'.connections ++ record { thread = some t; finished = false } ∷ [];
  })

-- The end of `connection_loop` of the thread.
unfoldable pub finish_in : ℕ → List Connection → List Connection
finish_in t [] = []
finish_in t (c ∷ cs) =
    let rest = finish_in t cs in
    elim c.thread [
      | none ↦ c ∷ rest
      | some u ↦ if u == t then record c { finished = true } ∷ rest else c ∷ rest
    ]
