-- ===== src/Net/Serving.antt =====
-- The connections of a listener of Net/src/order_entry_listener.cpp over any sequence of clients.
use osborne_x.Base.{
  ℕ, ◌≡◌, refl, sym, subst, inl, inr, false, List, [], ◌∷◌, ◌++◌, Option, none, some, ◌>>=◌, arith,
  All, if◌then◌else◌, ◌==◌, Bool-cases, Option-cases,
}
use osborne_x.Net.Listener.{
  Connection, Listener, make_listener, join_all, reap_finished_connections, accept_client,
  finish_in,
}
use osborne_x.Net.Reaping.{
  HasThread, is_out_of_order, live_ones, finished_ones, reap_finished_connections_lem,
}

-- A client is accepted, and gets the thread with a number; or the thread with a number ends.
pub data Change : Type 0 where
  accepts finishes : ℕ → Change

unfoldable pub serve : Change → Listener → Option Listener
serve (accepts t) l = accept_client t l
serve (finishes t) l = some (record l { connections = finish_in t l.connections })

unfoldable pub serve_all : List Change → Listener → Option Listener
serve_all [] l = some l
serve_all (e ∷ es) l = do l' ← serve e l; serve_all es l'

live_ones-HasThread : (cs : List Connection) → All HasThread cs → All HasThread (live_ones cs)
live_ones-HasThread [] a = tt
live_ones-HasThread (c ∷ cs) a = elim (Bool-cases c.finished) [
  | inl e ↦ rw e (live_ones-HasThread cs a.1)
  | inr e ↦ rw e (a.0, live_ones-HasThread cs a.1)
]

HasThread-append :
    (cs : List Connection) (c : Connection)
    → All HasThread cs
    → HasThread c
    → All HasThread (cs ++ c ∷ [])
HasThread-append [] c a h = (h, tt)
HasThread-append (b ∷ cs) c a h = (a.0, HasThread-append cs c a.1 h)

finish_in-HasThread :
    (t : ℕ) (cs : List Connection) → All HasThread cs → All HasThread (finish_in t cs)
unfolding finish_in
finish_in-HasThread t [] a = tt
finish_in-HasThread t (c ∷ cs) a =
    let (u, e) = a.0 in
    elim (Bool-cases (u == t)) [
      | inl f ↦ rw (e, f) ((u, e), finish_in-HasThread t cs a.1)
      | inr f ↦ rw (e, f) ((u, e), finish_in-HasThread t cs a.1)
    ]

serve-HasThread :
    (e : Change) (l l' : Listener)
    → All HasThread l.connections
    → serve e l ≡ some l'
    → All HasThread l'.connections
unfolding serve accept_client
serve-HasThread (accepts t) l l' a h = elim (Bool-cases (is_out_of_order l.connections)) [
  | inl o ↦ absurd (ground (arith, reap_finished_connections_lem l a))
  | inr o ↦
      let same : l'.connections
          ≡ live_ones l.connections ++ record { thread = some t; finished = false } ∷ [] =
        ground (arith, reap_finished_connections_lem l a) in
      subst (All HasThread) (sym same) (
        HasThread-append (live_ones l.connections) (record { thread = some t; finished = false })
          (live_ones-HasThread l.connections a) (t, refl))
]
serve-HasThread (finishes t) l l' a h =
    subst (All HasThread) (ground arith) (finish_in-HasThread t l.connections a)

serve_all-HasThread :
    (es : List Change) (l l' : Listener)
    → All HasThread l.connections
    → serve_all es l ≡ some l'
    → All HasThread l'.connections
unfolding serve_all
serve_all-HasThread [] l l' a h =
    let same : l ≡ l' = ground arith in subst (λ (k : Listener). All HasThread k.connections) same a
serve_all-HasThread (e ∷ es) l l' a h = elim (Option-cases (serve e l)) [
  | inl n ↦ absurd (ground arith)
  | inr (k, n) ↦ serve_all-HasThread es k l' (serve-HasThread e l k a n) (ground arith)
]

-- Whatever clients came and went at a new listener, the next reaping terminates the program exactly
-- when a finished connection stands before one that is still served: the live one is moved onto a
-- thread that was not joined. Otherwise it keeps the live connections in their order, and joins the
-- threads of the finished ones. The program was not terminated before.
pub serve_all-reaps :
    (port : ℕ) (es : List Change) (l : Listener)
    → serve_all es (make_listener port) ≡ some l
    → reap_finished_connections l ≡ (
        if is_out_of_order l.connections
        then none
        else some (record l {
          connections = live_ones l.connections;
          joined = join_all (finished_ones l.connections) l.joined;
        }))
unfolding make_listener
serve_all-reaps port es l h =
    reap_finished_connections_lem l (serve_all-HasThread es (make_listener port) l tt h)
