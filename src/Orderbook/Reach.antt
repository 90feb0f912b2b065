-- ===== src/Orderbook/Reach.antt =====
-- The quantity that an order of Orderbook/src/orderbook.cpp can meet on the other side at its price.
use osborne_x.Base.{
  ℕ, ◌+◌, ◌≡◌, ap, inl, inr, ◌⊎◌, Bool, true, List, [], ◌∷◌, arith, length, if◌then◌else◌,
}
use osborne_x.Base.Price.{Price, lt_price, le_price}
use osborne_x.Orderbook.Types.{Side, buy, sell, Order, Trade}
use osborne_x.Orderbook.Levels.{Level, keep_level}
use osborne_x.Orderbook.Book.{Orderbook, entry_of}
use osborne_x.Orderbook.Matching.{run_level}
use osborne_x.Orderbook.Sorted.{Chain}
use osborne_x.Orderbook.Priority.{volume, traded}
use osborne_x.Orderbook.Volume.{volume-match_level}
use osborne_x.Orderbook.Killing.{Holds}

-- Whether an order on a side at a price meets a price of the other side.
abbrev pub meets : Side → Price → Price → Bool
meets buy p k = le_price k p
meets sell p k = le_price p k

abbrev pub reach : Side → Price → List Level → ℕ
reach s p [] = 0
reach s p (l ∷ ls) = (if meets s p l.price then volume l.orders else 0) + reach s p ls

pub reach-keep_level :
    (s : Side) (p : Price) (l : Level) (ls : List Level)
    → reach s p (keep_level l ls) ≡ reach s p (l ∷ ls)
unfolding keep_level
reach-keep_level s p l ls = ground arith

pub reach-far_buy :
    (p : Price) (k : Level) (ks : List Level)
    → lt_price p k.price ≡ true
    → Chain sell k.price ks
    → reach buy p (k ∷ ks) ≡ 0
reach-far_buy p k [] h c = ground arith
reach-far_buy p k (j ∷ ks) h c = ground (arith, c.0, reach-far_buy p j ks (ground (arith, c.0)) c.1)

pub reach-far_sell :
    (p : Price) (k : Level) (ks : List Level)
    → lt_price k.price p ≡ true
    → Chain buy k.price ks
    → reach sell p (k ∷ ks) ≡ 0
reach-far_sell p k [] h c = ground arith
reach-far_sell p k (j ∷ ks) h c =
    ground (arith, c.0, reach-far_sell p j ks (ground (arith, c.0)) c.1)

-- A round takes what it trades off both queues.
pub run_level-volumes :
    (l k : Level) (b : Orderbook) (trades : List Trade)
    → let m = run_level l k b trades in
      (volume m.bids_at + traded m.trades ≡ volume l.orders + traded trades)
      × (volume m.asks_at + traded m.trades ≡ volume k.orders + traded trades)
unfolding run_level
run_level-volumes l k b trades =
    volume-match_level (length l.orders + length k.orders) l.orders k.orders
      (record { orders = b.orders; level_data = b.level_data; trades = trades })

-- The levels of the side of an order of quantity `q` at price `p` that came before the levels `old`: it
-- has traded all of it, or stands in front with the rest.
abbrev pub Front : Price → ℕ → List Level → List Level → List Trade → Type 0
Front p q old ls trades =
    ((ls ≡ old) × (traded trades ≡ q))
    ⊎ ((o : Order) × (ls ≡ record { price = p; orders = o ∷ [] } ∷ old)
        × (o.remaining_quantity + traded trades ≡ q))

pub Front-next :
    (p : Price) (q : ℕ) (old : List Level) (os : List Order) (o : Order) (ts : List Trade)
    → Holds (entry_of o) os
    → volume os + traded ts ≡ q
    → Front p q old (keep_level (record { price = p; orders = os }) old) ts
unfolding keep_level
Front-next p q old os o ts (inl e) h = inl (ground arith, omega (arith, h, ap volume e))
Front-next p q old os o ts (inr (o', e, _)) h =
    inr (o', ground arith, omega (arith, h, ap volume e))
