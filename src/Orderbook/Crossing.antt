-- ===== src/Orderbook/Crossing.antt =====
-- The trades that `AddOrder` and `ModifyOrder` of Orderbook/src/orderbook.cpp return.
use osborne_x.Base.{
  inl, ℕ, zero, suc, ◌≤◌, ◌<◌, ◌≡◌, refl, false, List, [], ◌∷◌, arith, All, All-append,
}
use osborne_x.Base.Price.{Price, lt_price}
use osborne_x.Orderbook.Types.{OrderModify, to_order, buy, sell, Order, Trade}
use osborne_x.Orderbook.Levels.{Level}
use osborne_x.Orderbook.Book.{cancel_order, Orderbook}
use osborne_x.Orderbook.Matching.{
  Tally, fill_quantity, trade_of, record_trade, match_level, run_level, settle, match_orders,
}
use osborne_x.Orderbook.Operations.{modify_order, add_order}
use osborne_x.Orderbook.Sorted.{AreLevels, Stands}
use osborne_x.Orderbook.Standing.{pop_filled-All, fill-Stands}
use osborne_x.Orderbook.Filing.{
  IsFiled, IsPriced, settle-IsFiled, cancel_order-IsFiled, entered-IsFiled,
}
use osborne_x.Orderbook.Rounds.{modify_order_cases, match_orders_inv, add_order_cases}

-- A buyer never pays less than the seller asks, and both sides of the trade name one quantity.
abbrev pub IsCrossing : Trade → Type 0
IsCrossing t =
    (t.ask_trade.price ≤ t.bid_trade.price) × (t.ask_trade.quantity ≡ t.bid_trade.quantity)

module _ (p q : Price) (crossed : q ≤ p) where
  match_level-IsCrossing :
      (fuel : ℕ) (bids asks : List Order) (t : Tally)
      → All (Stands buy p) bids
      → All (Stands sell q) asks
      → All IsCrossing t.trades
      → All IsCrossing (match_level fuel bids asks t).trades
  unfolding match_level record_trade
  match_level-IsCrossing zero bids asks t a b h = h
  match_level-IsCrossing (suc fuel) [] asks t a b h = h
  match_level-IsCrossing (suc fuel) (bid ∷ bids) [] t a b h = h
  match_level-IsCrossing (suc fuel) (bid ∷ bids) (ask ∷ asks) t a b h =
      match_level-IsCrossing fuel _ _ _
        (pop_filled-All (Stands buy p) _ bids (fill-Stands buy p bid _ a.0) a.1)
        (pop_filled-All (Stands sell q) _ asks (fill-Stands sell q ask _ b.0) b.1)
        (All-append IsCrossing t.trades (trade_of bid ask (fill_quantity bid ask) ∷ []) h
          ((omega arith, refl), tt))

abbrev Traded : Orderbook → List Trade → Type 0
Traded b trades = IsFiled b × All IsCrossing trades

settle-Traded :
    (b : Orderbook) (trades : List Trade) (l : Level) (ls : List Level) (k : Level)
    (ks : List Level)
    → AreLevels buy (l ∷ ls)
    → AreLevels sell (k ∷ ks)
    → lt_price l.price k.price ≡ false
    → All IsCrossing trades
    → let m = run_level l k b trades in Traded (settle l ls k ks m) m.trades
unfolding run_level
settle-Traded b trades l ls k ks v w c h =
    let above : 0 < l.price = v.levels.0.0 in
    (
      settle-IsFiled b trades l ls k ks v w,
      match_level-IsCrossing l.price k.price (ground arith) _ l.orders k.orders _ v.levels.0.2
          w.levels.0.2 h,
    )

match_orders-Traded : (b : Orderbook) → IsFiled b → Traded (match_orders b).0 (match_orders b).1
match_orders-Traded b v =
    match_orders_inv Traded
      (λ b trades l ls k ks e f c h.
        settle-Traded b trades l ls k ks (rw e at h.0.bids) (rw f at h.0.asks) c h.1)
      (λ i b trades h. (cancel_order-IsFiled i b h.0, h.1)) b (v, tt)

-- Every trade that `AddOrder` returns has an ask price of at most its bid price, and one quantity
-- for both sides. The book is filed, and the order has a price or is a market order.
pub add_order-IsCrossing :
    (o : Order) (b : Orderbook) → IsPriced o → IsFiled b → All IsCrossing (add_order o b).1
add_order-IsCrossing o b h v =
    add_order_cases (λ r. All IsCrossing r.1) o b tt
      (λ o' _ p. (match_orders-Traded _ (entered-IsFiled o o' b h v p)).1)

-- Every trade that `ModifyOrder` returns has an ask price of at most its bid price, and one quantity for
-- both sides. The book is filed, and the new price is no NaN.
pub modify_order-IsCrossing :
    (m : OrderModify) (b : Orderbook)
    → 0 < m.price
    → IsFiled b
    → All IsCrossing (modify_order m b).1
modify_order-IsCrossing m b h v =
    modify_order_cases (λ r. All IsCrossing r.1) m b tt
      (λ e _.
        add_order-IsCrossing (to_order m e.order_type) (cancel_order m.order_id b) (inl h)
          (cancel_order-IsFiled m.order_id b v))
