-- ===== src/Bot/Connecting.antt =====
-- The attempts of Bot/apps/bot_main.cpp to connect to a server that may not be up yet.
use osborne_x.Base.{
  ℕ, zero, suc, ◌≡◌, refl, sym, ap, ◌∙◌, inl, inr, Bool, true, false, ◌||◌, List, [], ◌++◌, some,
  arith, if◌then◌else◌, Bool-cases,
}
use mathlib.Core.List.{append_assoc, append-nil}
use osborne_x.Net.Sockets.{SocketHandle}
use osborne_x.Net.Client.{Candidate, connect, opened, owns, any_works, connect-balances}

abbrev pub max_attempts : ℕ
max_attempts = 20

-- The loop, with the attempts left and the addresses that each of them finds: the socket that is kept,
-- those that are closed, and whether it connected.
unfoldable pub retry : ℕ → (ℕ → List Candidate) → SocketHandle → SocketHandle × List ℕ × Bool
retry zero found old = (old, [], false)
retry (suc n) found old =
    let (kept, closed, connected) = connect old (some (found 0)) in
    let (kept', closed', connected') = retry n (λ i. found (suc i)) kept in
    if connected then (kept, closed, true) else (kept', closed ++ closed', connected')

-- The sockets that the attempts open, up to the first one that succeeds, and whether one does.
abbrev pub opened_by : ℕ → (ℕ → List Candidate) → List ℕ
opened_by zero found = []
opened_by (suc n) found =
    let rest = opened_by n (λ i. found (suc i)) in
    opened (found 0) ++ (if any_works (found 0) then [] else rest)

abbrev pub works_by : ℕ → (ℕ → List Candidate) → Bool
works_by zero found = false
works_by (suc n) found = any_works (found 0) || works_by n (λ i. found (suc i))

chain :
    (a b c closed closed' kept kept' : List ℕ)
    → a ++ b ≡ closed ++ kept
    → kept ++ c ≡ closed' ++ kept'
    → a ++ (b ++ c) ≡ (closed ++ closed') ++ kept'
chain a b c closed closed' kept kept' e e' =
    sym (append_assoc a b c)
    ∙ ap (λ l. l ++ c) e
    ∙ append_assoc closed kept c
    ∙ ap (◌++◌ closed) e'
    ∙ sym (append_assoc closed closed' kept')

-- The attempts leak no socket: the old one and all that they open are closed, but for the one that is
-- kept. They stop at the first one that connects, and end connected exactly when one of them does.
pub retry-balances :
    (n : ℕ) (found : ℕ → List Candidate) (old : SocketHandle)
    → (owns old ++ opened_by n found ≡ (retry n found old).1 ++ owns (retry n found old).0)
      × ((retry n found old).2 ≡ works_by n found)
unfolding retry
retry-balances zero found old = (append-nil (owns old), refl)
retry-balances (suc n) found old =
    let (kept, closed, connected) = connect old (some (found 0)) in
    let (e, f) = connect-balances old (found 0) in
    let (kept', closed', connected') = retry n (λ i. found (suc i)) kept in
    let (e', f') = retry-balances n (λ i. found (suc i)) kept in
    elim (Bool-cases (any_works (found 0))) [
      | inl w ↦ ground (arith, e, f, append-nil (opened (found 0)))
      | inr w ↦ ground (
        arith,
        f,
        f',
        chain (owns old) (opened (found 0)) (opened_by n (λ i. found (suc i))) closed closed'
            (owns kept) (owns kept') e e',
      )
    ]
