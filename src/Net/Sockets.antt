-- ===== src/Net/Sockets.antt =====
-- `SocketHandle` of Net/inc/Net/socket_handle.hpp and Net/src/socket_handle.cpp. A native socket is a
-- number, and `kInvalidSocket` is `none`. The handles of a program are the places of an arena, which
-- also lists the native sockets that were closed, the last one first.
use osborne_x.Base.{
  ℕ, Bool, true, false, List, [], ◌∷◌, ◌++◌, Option, none, some, ◌>>=◌, if◌then◌else◌, ◌==◌,
  get_elem?, set,
}

abbrev pub SocketHandle : Type 0
SocketHandle = Option ℕ

abbrev pub is_valid : SocketHandle → Bool
is_valid none = false
is_valid (some h) = true

pub record Arena : Type 0 where
  pub handles : List SocketHandle
  pub closed : List ℕ

-- `close_native_socket`, where there is one to close.
abbrev pub close_handle : SocketHandle → List ℕ → List ℕ
close_handle none closed = closed
close_handle (some h) closed = h ∷ closed

-- `SocketHandle(handle)`
unfoldable pub make_handle : SocketHandle → Arena → Arena
make_handle h a = record a { handles = a.handles ++ h ∷ [] }

-- `reset`; `none` where there is no such object.
unfoldable pub reset : ℕ → SocketHandle → Arena → Option Arena
reset i h a = do
  old ← get_elem? a.handles i
  some (record { handles = set a.handles i h; closed = close_handle old a.closed })

-- `SocketHandle(SocketHandle&&)`
unfoldable pub move_handle : ℕ → Arena → Option Arena
move_handle i a = do
  old ← get_elem? a.handles i
  some (record a { handles = set a.handles i none ++ old ∷ [] })

-- `operator=(SocketHandle&&)` on the object `i`; an object that is assigned to itself stays.
unfoldable pub assign_handle : ℕ → ℕ → Arena → Option Arena
unfolding reset
assign_handle i j a = if i == j then some a else (do
  old ← get_elem? a.handles j
  a' ← reset i old a
  some (record a' { handles = set a'.handles j none }))

-- The destructor; the place stays, with no handle.
unfoldable pub destroy_handle : ℕ → Arena → Option Arena
unfolding reset
destroy_handle i a = reset i none a

pub data Operation : Type 0 where
  make : SocketHandle → Operation
  resets : ℕ → SocketHandle → Operation
  moves : ℕ → Operation
  assigns : ℕ → ℕ → Operation
  destroys : ℕ → Operation

unfoldable pub perform : Operation → Arena → Option Arena
perform (make h) a = some (make_handle h a)
perform (resets i h) a = reset i h a
perform (moves i) a = move_handle i a
perform (assigns i j) a = assign_handle i j a
perform (destroys i) a = destroy_handle i a

unfoldable pub perform_all : List Operation → Arena → Option Arena
perform_all [] a = some a
perform_all (o ∷ os) a = do a' ← perform o a; perform_all os a'

abbrev pub new_arena : Arena
new_arena = record { handles = []; closed = [] }
