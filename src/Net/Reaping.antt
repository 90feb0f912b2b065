-- ===== src/Net/Reaping.antt =====
-- The connections that `reap_finished_connections` of Net/src/order_entry_listener.cpp takes off.
use osborne_x.Base.{
  ℕ, ◌≡◌, refl, sym, ap, inl, inr, Bool, true, false, ◌||◌, not, List, [], ◌∷◌, ◌++◌, none, some,
  arith, All, if◌then◌else◌, Bool-cases,
}
use mathlib.Core.List.{append_assoc, append-nil}
use osborne_x.Net.Sockets.{close_handle}
use osborne_x.Net.Listener.{
  Connection, Listener, Answers, start, start_on, reset_socket, join_all, remove_finished,
  reap_finished_connections,
}

-- A thread that was started and not joined, as every accepted connection has one.
abbrev pub HasThread : Connection → Type 0
HasThread c = (t : ℕ) × (c.thread ≡ some t)

abbrev pub any_live : List Connection → Bool
any_live [] = false
any_live (c ∷ cs) = not c.finished || any_live cs

-- A finished connection stands before one that is still served.
abbrev pub is_out_of_order : List Connection → Bool
is_out_of_order [] = false
is_out_of_order (c ∷ cs) = let rest = is_out_of_order cs in if c.finished then any_live cs else rest

abbrev pub live_ones : List Connection → List Connection
live_ones [] = []
live_ones (c ∷ cs) = let rest = live_ones cs in if c.finished then rest else c ∷ rest

abbrev pub finished_ones : List Connection → List Connection
finished_ones [] = []
finished_ones (c ∷ cs) = let rest = finished_ones cs in if c.finished then c ∷ rest else rest

remove_finished-crashes :
    (kept gap cs : List Connection) (g : Connection)
    → HasThread g
    → any_live cs ≡ true
    → remove_finished kept (g ∷ gap) cs ≡ none
unfolding remove_finished
remove_finished-crashes kept gap [] g h e = cc
remove_finished-crashes kept gap (c ∷ cs) g h e =
    ground (arith, h.1, remove_finished-crashes kept (gap ++ c ∷ []) cs g h)

remove_finished-rest :
    (kept gap cs : List Connection)
    → any_live cs ≡ false
    → remove_finished kept gap cs ≡ some (kept, gap ++ cs)
unfolding remove_finished
remove_finished-rest kept gap [] e = ap (λ l. some (kept, l)) (sym (append-nil gap))
remove_finished-rest kept gap (c ∷ cs) e =
    ground (arith, remove_finished-rest kept (gap ++ c ∷ []) cs, append_assoc gap (c ∷ []) cs)

none_live :
    (cs : List Connection) → any_live cs ≡ false → (live_ones cs ≡ []) × (finished_ones cs ≡ cs)
none_live [] e = (refl, refl)
none_live (c ∷ cs) e = ground (arith, none_live cs)

remove_finished_lem :
    (kept cs : List Connection)
    → All HasThread cs
    → remove_finished kept [] cs
      ≡ (if is_out_of_order cs then none else some (kept ++ live_ones cs, finished_ones cs))
unfolding remove_finished
remove_finished_lem kept [] a = ap (λ l. some (l, [])) (sym (append-nil kept))
remove_finished_lem kept (c ∷ cs) a = elim (Bool-cases (any_live cs)) [
  | inl e ↦ ground (
    arith,
    remove_finished_lem (kept ++ c ∷ []) cs a.1,
    append_assoc kept (c ∷ []) (live_ones cs),
    remove_finished-crashes kept [] cs c a.0 e,
  )
  | inr e ↦ ground (
    arith,
    remove_finished_lem (kept ++ c ∷ []) cs a.1,
    append_assoc kept (c ∷ []) (live_ones cs),
    append-nil kept,
    remove_finished-rest kept (c ∷ []) cs e,
    none_live cs e,
  )
]

-- `reap_finished_connections` terminates the program exactly when a finished connection stands before
-- one that is still served: the live one is moved onto a thread that was not joined. Otherwise it keeps
-- the live connections in their order, and joins the threads of the finished ones. Each connection has
-- its thread.
pub reap_finished_connections_lem :
    (l : Listener)
    → All HasThread l.connections
    → reap_finished_connections l ≡ (
        if is_out_of_order l.connections
        then none
        else some (record l {
          connections = live_ones l.connections;
          joined = join_all (finished_ones l.connections) l.joined;
        }))
unfolding reap_finished_connections
reap_finished_connections_lem l a = ground (arith, remove_finished_lem [] l.connections a)

-- What a `start` leaves: it runs and holds the socket, or does neither.
pub record Starts (a : Answers) (l l' : Listener) (result : Bool) : Type 0 where
  pub returned : l'.running ≡ result
  pub kept :
      (l'.listen_socket ≡ (if result then a.socket else none)) × (l'.connections ≡ l.connections)
  pub balanced : l'.closed ≡ (if result then l.closed else close_handle a.socket l.closed)

-- A `start` of a listener that does not run and holds no socket either runs with the new socket, or
-- does not run, holds no socket and has closed the new one.
pub start-Starts :
    (a : Answers) (l : Listener)
    → l.running ≡ false
    → l.listen_socket ≡ none
    → Starts a l (start a l).0 (start a l).1
unfolding start start_on reset_socket
start-Starts a l h e = ground arith
