-- ===== src/Orderbook/Patient.antt =====
-- Books of Orderbook/src/orderbook.cpp without a fill-and-kill order: `MatchOrders` kills nothing there.
use osborne_x.Base.{
  ℕ, ◌+◌, ◌≡◌, refl, sym, subst, ap, ◌∙◌, false, List, [], ◌∷◌, Option, none, some, arith, All,
  if◌then◌else◌,
}
use osborne_x.Orderbook.Types.{Side, buy, sell, Order, Trade, fill, is_fill_and_kill}
use osborne_x.Orderbook.Levels.{Level}
use osborne_x.Orderbook.Book.{Orderbook, levels_of}
use osborne_x.Orderbook.Matching.{pop_filled, front_order, front_to_kill, kill_front, match_orders}
use osborne_x.Orderbook.Rounds.{match_orders-kills, Settles}
use osborne_x.Orderbook.Everywhere.{Everywhere, AllOrders, FillKeeps, settle-AllOrders}
use osborne_x.Orderbook.Priority.{traded}
use osborne_x.Orderbook.Volume.{resting, resting-settle}

abbrev pub IsPatient : Order → Type 0
IsPatient o = is_fill_and_kill o.order_type ≡ false

-- No fill-and-kill order rests in the book.
abbrev pub IsCalm : Orderbook → Type 0
IsCalm = AllOrders IsPatient

front_patient :
    (os : List Order)
    → All IsPatient os
    → elim (front_order os) as (λ _. Option ℕ) [
      | none ↦ none
      | some o ↦ if is_fill_and_kill o.order_type then some o.order_id else none
    ]
      ≡ none
unfolding front_order
front_patient [] a = refl
front_patient (o ∷ os) a = ground arith

front_to_kill-none : (ls : List Level) → Everywhere IsPatient ls → front_to_kill ls ≡ none
unfolding front_to_kill
front_to_kill-none [] a = refl
front_to_kill-none (l ∷ ls) a = front_patient l.orders a.0

-- A fill-and-kill order is what `MatchOrders` kills, and nothing else.
pub kill_front-IsCalm :
    (s : Side) (b : Orderbook) → Everywhere IsPatient (levels_of s b) → kill_front s b ≡ b
unfolding kill_front
kill_front-IsCalm s b a = rw (front_to_kill-none (levels_of s b) a, kill_front) refl

pub fill-IsPatient : FillKeeps IsPatient
unfolding pop_filled fill
fill-IsPatient o q os h a = ground arith

-- Both sides give away what is traded, and nothing else.
abbrev pub Conserves : ℕ → ℕ → Orderbook → List Trade → Type 0
Conserves n m b trades =
    IsCalm b × (resting b.bids + traded trades ≡ n) × (resting b.asks + traded trades ≡ m)

settle-Conserves : (n m : ℕ) → Settles (Conserves n m)
settle-Conserves n m b trades l ls k ks e f _ (calm, x, y) =
    let taken = resting-settle b trades l ls k ks in
    (
      settle-AllOrders IsPatient fill-IsPatient b trades l ls k ks (rw e at calm.bids)
          (rw f at calm.asks),
      taken.0 ∙ ap (λ (w : List Level). resting w + traded trades) (sym e) ∙ x,
      taken.1 ∙ ap (λ (w : List Level). resting w + traded trades) (sym f) ∙ y,
    )

pub levels_of-IsCalm : (s : Side) (b : Orderbook) → IsCalm b → Everywhere IsPatient (levels_of s b)
levels_of-IsCalm buy b a = a.bids
levels_of-IsCalm sell b a = a.asks

-- In a book without fill-and-kill orders `MatchOrders` takes what it trades off both sides, and nothing
-- more; there is none afterwards.
pub match_orders-Conserves :
    (b : Orderbook)
    → IsCalm b
    → Conserves (resting b.bids) (resting b.asks) (match_orders b).0 (match_orders b).1
match_orders-Conserves b calm =
    match_orders-kills (Conserves (resting b.bids) (resting b.asks))
      (settle-Conserves (resting b.bids) (resting b.asks))
      (λ s c trades h.
        subst (λ (d : Orderbook). Conserves (resting b.bids) (resting b.asks) d trades)
          (sym (kill_front-IsCalm s c (levels_of-IsCalm s c h.0))) h)
      b (calm, omega arith, omega arith)
