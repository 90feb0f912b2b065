-- ===== src/Orderbook/Standing.antt =====
-- What `MatchOrders` of Orderbook/src/orderbook.cpp keeps of the orders of two levels.
use osborne_x.Base.{ℕ, zero, suc, inl, inr, List, [], ◌∷◌, arith, All, Bool-cases}
use osborne_x.Base.Price.{Price}
use osborne_x.Orderbook.Types.{Side, buy, sell, Order, fill, is_filled}
use osborne_x.Orderbook.Matching.{Tally, fill_quantity, pop_filled, match_level}
use osborne_x.Orderbook.Sorted.{Stands}

pub fill-Stands : (s : Side) (p : Price) (o : Order) (q : ℕ) → Stands s p o → Stands s p (fill o q)
unfolding fill
fill-Stands s p o q h = ground arith

pub pop_filled-All {κ} :
    (P : Order → Type κ) (o : Order) (os : List Order) → P o → All P os → All P (pop_filled o os)
unfolding pop_filled
pop_filled-All P o os h a = elim (Bool-cases (is_filled o)) [ inl e ↦ rw e a | inr e ↦ rw e (h, a) ]

-- What fills keep of the orders of the two levels, the inner loop keeps.
pub match_level-All {κ} :
    (P Q : Order → Type κ)
    → ((o : Order) (q : ℕ) → P o → P (fill o q))
    → ((o : Order) (q : ℕ) → Q o → Q (fill o q))
    → (fuel : ℕ) (bids asks : List Order) (t : Tally) → All P bids
    → All Q asks
    → All P (match_level fuel bids asks t).bids_at × All Q (match_level fuel bids asks t).asks_at
unfolding match_level
match_level-All P Q p q zero bids asks t a b = (a, b)
match_level-All P Q p q (suc fuel) [] asks t a b = (a, b)
match_level-All P Q p q (suc fuel) (bid ∷ bids) [] t a b = (a, b)
match_level-All P Q p q (suc fuel) (bid ∷ bids) (ask ∷ asks) t a b =
    match_level-All P Q p q fuel _ _ _
      (pop_filled-All P (fill bid (fill_quantity bid ask)) bids (p bid _ a.0) a.1)
      (pop_filled-All Q (fill ask (fill_quantity bid ask)) asks (q ask _ b.0) b.1)

pub match_level-Stands :
    (p q : Price) (fuel : ℕ) (bids asks : List Order) (t : Tally)
    → All (Stands buy p) bids
    → All (Stands sell q) asks
    → All (Stands buy p) (match_level fuel bids asks t).bids_at
      × All (Stands sell q) (match_level fuel bids asks t).asks_at
match_level-Stands p q =
    match_level-All (Stands buy p) (Stands sell q) (fill-Stands buy p) (fill-Stands sell q)
