-- ===== src/Orderbook/Priority.antt =====
-- Price-time priority in the inner loop of `MatchOrders` of Orderbook/src/orderbook.cpp: how much
-- two levels trade, and whose orders.
use osborne_x.Base.{
  ℕ, zero, suc, ◌+◌, ◌-◌, ◌≤◌, ◌<◌, ◌≡◌, refl, sym, ◌∙◌, List, [], ◌∷◌, ◌++◌, arith, length, All,
  min, if◌then◌else◌, leb,
}
use osborne_x.Orderbook.Types.{Order, Trade, fill}
use osborne_x.Orderbook.Exhaust.{pop_filled-lt}
use osborne_x.Orderbook.Matching.{
  Tally, Matching, fill_quantity, pop_filled, match_level, record_trade, trade_of,
}

abbrev pub volume : List Order → ℕ
volume [] = 0
volume (o ∷ os) = o.remaining_quantity + volume os

abbrev pub traded : List Trade → ℕ
traded [] = 0
traded (t ∷ ts) = t.bid_trade.quantity + traded ts

pub traded-append : (ts us : List Trade) → traded (ts ++ us) ≡ traded ts + traded us
traded-append [] us = omega arith
traded-append (t ∷ ts) us = omega (arith, traded-append ts us)

-- To serve a quantity from a queue: the oldest orders first, the last one in part.
pub serve : ℕ → List Order → List Order
serve n [] = []
serve n (o ∷ os) =
    let rest = serve (n - o.remaining_quantity) os in
    if leb o.remaining_quantity n
    then rest
    else record o { remaining_quantity = o.remaining_quantity - n } ∷ os

abbrev pub IsOpen : Order → Type 0
IsOpen o = 0 < o.remaining_quantity

serve_zero : (os : List Order) → All IsOpen os → serve 0 os ≡ os
unfolding serve
serve_zero [] a = refl
serve_zero (o ∷ os) a = ground arith

-- A fill of the front order is the first part of serving more.
serve-fill :
    (q n : ℕ) (o : Order) (os : List Order)
    → q ≤ o.remaining_quantity
    → serve (q + n) (o ∷ os) ≡ serve n (pop_filled (fill o q) os)
unfolding serve pop_filled fill
serve-fill q n o os h = ground arith

pub pop_filled-IsOpen : (o : Order) (os : List Order) → All IsOpen os → All IsOpen (pop_filled o os)
unfolding pop_filled
pop_filled-IsOpen o os a = ground arith

pub volume-pop_filled :
    (o : Order) (q : ℕ) (os : List Order)
    → q ≤ o.remaining_quantity
    → volume (pop_filled (fill o q) os) + q ≡ o.remaining_quantity + volume os
unfolding pop_filled fill
volume-pop_filled o q os h = ground arith

volume_zero : (os : List Order) → All IsOpen os → volume os ≤ 0 → os ≡ []
volume_zero [] a h = refl
volume_zero (o ∷ os) a h = absurd (omega arith)

-- What running a level does to its queues, for a volume.
pub record Serves (bids asks : List Order) (t : Tally) (m : Matching) (v : ℕ) : Type 0 where
  pub bids_served : m.bids_at ≡ serve v bids
  pub asks_served : m.asks_at ≡ serve v asks
  pub volume_traded : traded m.trades ≡ traded t.trades + v

Serves-nothing :
    (bids asks : List Order) (t : Tally)
    → All IsOpen bids
    → All IsOpen asks
    → Serves bids asks t (record { bids_at = bids; asks_at = asks; tally = t }) 0
Serves-nothing bids asks t a b = record {
  bids_served = sym (serve_zero bids a);
  asks_served = sym (serve_zero asks b);
  volume_traded = omega arith;
}

-- A round with its fills, and then what is served after it.
Serves-more :
    (bid : Order) (bids : List Order) (ask : Order) (asks : List Order) (t : Tally) (m : Matching)
    (v : ℕ)
    → let q = fill_quantity bid ask in
      Serves
        (pop_filled (fill bid q) bids)
        (pop_filled (fill ask q) asks)
        (record_trade bid ask q (fill bid q) (fill ask q) t)
        m
        v
      → Serves (bid ∷ bids) (ask ∷ asks) t m (q + v)
unfolding record_trade
Serves-more bid bids ask asks t m v s =
    let q = fill_quantity bid ask in
    record {
      bids_served = s.bids_served ∙ sym (serve-fill q v bid bids (omega arith));
      asks_served = s.asks_served ∙ sym (serve-fill q v ask asks (omega arith));
      volume_traded =
          omega (arith, s.volume_traded, traded-append t.trades (trade_of bid ask q ∷ []));
    }

min-fill :
    (bid : Order) (bids : List Order) (ask : Order) (asks : List Order)
    → let q = fill_quantity bid ask in
      min (volume (bid ∷ bids)) (volume (ask ∷ asks))
      ≡ q + min (volume (pop_filled (fill bid q) bids)) (volume (pop_filled (fill ask q) asks))
min-fill bid bids ask asks = omega (
  arith,
  volume-pop_filled bid (fill_quantity bid ask) bids (omega arith),
  volume-pop_filled ask (fill_quantity bid ask) asks (omega arith),
)

-- The two queues of a price level trade the smaller of their volumes, each of them from its oldest
-- order on, and what is left of each queue stays in its order. Every order has a remaining quantity,
-- and there is as much fuel as there are orders.
pub match_level-Serves :
    (fuel : ℕ) (bids asks : List Order) (t : Tally)
    → length bids + length asks ≤ fuel
    → All IsOpen bids
    → All IsOpen asks
    → Serves bids asks t (match_level fuel bids asks t) (min (volume bids) (volume asks))
unfolding match_level
match_level-Serves zero [] [] t h a b = Serves-nothing [] [] t a b
match_level-Serves zero [] (ask ∷ asks) t h a b = absurd (omega arith)
match_level-Serves zero (bid ∷ bids) asks t h a b = absurd (omega arith)
match_level-Serves (suc fuel) [] asks t h a b =
    let e : min 0 (volume asks) ≡ 0 = omega arith in rw e (Serves-nothing [] asks t a b)
match_level-Serves (suc fuel) (bid ∷ bids) [] t h a b =
    let e : min (volume (bid ∷ bids)) 0 ≡ 0 = omega arith in
    rw e (Serves-nothing (bid ∷ bids) [] t a b)
match_level-Serves (suc fuel) (bid ∷ bids) (ask ∷ asks) t h a b = rw (min-fill bid bids ask asks) (
    Serves-more bid bids ask asks t _ _ (
      match_level-Serves fuel _ _ _ (omega (arith, pop_filled-lt bid bids ask asks))
        (pop_filled-IsOpen _ bids a.1) (pop_filled-IsOpen _ asks b.1)))
