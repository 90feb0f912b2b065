-- ===== src/Net/Ownership.antt =====
-- Who owns the native sockets of Net/src/socket_handle.cpp.
use osborne_x.Base.{
  ℕ, zero, suc, ◌+◌, ◌≡◌, ◌≢◌, refl, ap, ◌∙◌, inl, inr, false, List, [], ◌∷◌, ◌++◌, none, some,
  arith, if◌then◌else◌, ◌==◌, get_elem?, set, Option-cases, Bool-cases, get_elem?-set_ne,
}
use osborne_x.Net.Sockets.{
  SocketHandle, Arena, close_handle, make_handle, reset, move_handle, assign_handle, destroy_handle,
  Operation, make, resets, moves, assigns, destroys, perform, perform_all, new_arena,
}

-- How often a native socket is owned by a handle, was closed, or is taken over by an operation.
abbrev pub is_handle : ℕ → SocketHandle → ℕ
is_handle x none = 0
is_handle x (some h) = if h == x then 1 else 0

abbrev pub owned : ℕ → List SocketHandle → ℕ
owned x [] = 0
owned x (h ∷ hs) = is_handle x h + owned x hs

abbrev pub times_closed : ℕ → List ℕ → ℕ
times_closed x [] = 0
times_closed x (h ∷ hs) = (if h == x then 1 else 0) + times_closed x hs

abbrev pub taken : ℕ → Operation → ℕ
taken x (make h) = is_handle x h
taken x (resets i h) = is_handle x h
taken x _ = 0

abbrev pub times_taken : ℕ → List Operation → ℕ
times_taken x [] = 0
times_taken x (o ∷ os) = taken x o + times_taken x os

abbrev accounted : ℕ → Arena → ℕ
accounted x a = owned x a.handles + times_closed x a.closed

owned-append : (x : ℕ) (hs ks : List SocketHandle) → owned x (hs ++ ks) ≡ owned x hs + owned x ks
owned-append x [] ks = omega arith
owned-append x (h ∷ hs) ks = omega (arith, owned-append x hs ks)

owned-set :
    (x i : ℕ) (h old : SocketHandle) (hs : List SocketHandle)
    → get_elem? hs i ≡ some old
    → owned x (set hs i h) + is_handle x old ≡ owned x hs + is_handle x h
owned-set x i h old [] e = cc
owned-set x zero h old (k ∷ hs) e = ground arith
owned-set x (suc i) h old (k ∷ hs) e = omega (arith, owned-set x i h old hs e)

times_closed-close_handle :
    (x : ℕ) (h : SocketHandle) (closed : List ℕ)
    → times_closed x (close_handle h closed) ≡ is_handle x h + times_closed x closed
times_closed-close_handle x none closed = omega arith
times_closed-close_handle x (some h) closed = refl

reset-accounted :
    (x i : ℕ) (h : SocketHandle) (a a' : Arena)
    → reset i h a ≡ some a'
    → accounted x a' ≡ accounted x a + is_handle x h
unfolding reset
reset-accounted x i h a a' e = elim (Option-cases (get_elem? a.handles i)) [
  | inl n ↦ absurd (ground arith)
  | inr (old, n) ↦
      ground (arith, owned-set x i h old a.handles n, times_closed-close_handle x old a.closed)
]

set-handle :
    (x i : ℕ) (old : SocketHandle) (a : Arena)
    → get_elem? a.handles i ≡ some old
    → owned x (set a.handles i none) + is_handle x old ≡ owned x a.handles
set-handle x i old a e = omega (arith, owned-set x i none old a.handles e)

move_handle-accounted :
    (x i : ℕ) (a a' : Arena) → move_handle i a ≡ some a' → accounted x a' ≡ accounted x a
unfolding move_handle
move_handle-accounted x i a a' e = elim (Option-cases (get_elem? a.handles i)) [
  | inl n ↦ absurd (ground arith)
  | inr (old, n) ↦
      ground (arith, set-handle x i old a n, owned-append x (set a.handles i none) (old ∷ []))
]

reset-handles :
    (i : ℕ) (h : SocketHandle) (a a' : Arena)
    → reset i h a ≡ some a'
    → a'.handles ≡ set a.handles i h
unfolding reset
reset-handles i h a a' e = elim (Option-cases (get_elem? a.handles i)) [
  | inl n ↦ absurd (ground arith)
  | inr (old, n) ↦ ground arith
]

assigned-accounted :
    (x i j : ℕ) (old : SocketHandle) (a b : Arena)
    → (i == j) ≡ false
    → get_elem? a.handles j ≡ some old
    → reset i old a ≡ some b
    → accounted x (record b { handles = set b.handles j none }) ≡ accounted x a
assigned-accounted x i j old a b ne e f =
    let apart : i ≢ j = λ p. ground arith in
    let at : get_elem? b.handles j ≡ some old =
      ap (λ (l : List SocketHandle). get_elem? l j) (reset-handles i old a b f)
      ∙ get_elem?-set_ne a.handles i j old apart
      ∙ e in
    omega (arith, set-handle x j old b at, reset-accounted x i old a b f)

assign_handle-accounted :
    (x i j : ℕ) (a a' : Arena) → assign_handle i j a ≡ some a' → accounted x a' ≡ accounted x a
unfolding assign_handle
assign_handle-accounted x i j a a' e = elim (Bool-cases (i == j)) [
  | inl s ↦ ground arith
  | inr s ↦ elim (Option-cases (get_elem? a.handles j)) [
    | inl n ↦ absurd (ground arith)
    | inr (old, n) ↦ elim (Option-cases (reset i old a)) [
      | inl m ↦ absurd (ground arith)
      | inr (b, m) ↦ ground (arith, assigned-accounted x i j old a b s n m)
    ]
  ]
]

perform-accounted :
    (x : ℕ) (o : Operation) (a a' : Arena)
    → perform o a ≡ some a'
    → accounted x a' ≡ accounted x a + taken x o
unfolding perform make_handle destroy_handle
perform-accounted x (make h) a a' e = ground (arith, owned-append x a.handles (h ∷ []))
perform-accounted x (resets i h) a a' e = reset-accounted x i h a a' e
perform-accounted x (moves i) a a' e = omega (arith, move_handle-accounted x i a a' e)
perform-accounted x (assigns i j) a a' e = omega (arith, assign_handle-accounted x i j a a' e)
perform-accounted x (destroys i) a a' e = omega (arith, reset-accounted x i none a a' e)

perform_all-accounted :
    (x : ℕ) (os : List Operation) (a a' : Arena)
    → perform_all os a ≡ some a'
    → accounted x a' ≡ accounted x a + times_taken x os
unfolding perform_all
perform_all-accounted x [] a a' e = ground arith
perform_all-accounted x (o ∷ os) a a' e = elim (Option-cases (perform o a)) [
  | inl n ↦ absurd (ground arith)
  | inr (b, n) ↦
      omega (arith, perform-accounted x o a b n, perform_all-accounted x os b a' (ground arith))
]

-- No native socket is leaked or closed twice: after any sequence of operations on existing handles, a
-- socket has been taken over as often as it is owned by a handle now or was closed, together.
pub perform_all-balances :
    (os : List Operation) (a : Arena) (x : ℕ)
    → perform_all os new_arena ≡ some a
    → owned x a.handles + times_closed x a.closed ≡ times_taken x os
perform_all-balances os a x e = omega (arith, perform_all-accounted x os new_arena a e)
