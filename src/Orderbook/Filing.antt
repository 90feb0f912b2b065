-- ===== src/Orderbook/Filing.antt =====
-- Every member of Orderbook/src/orderbook.cpp keeps both sides sorted and filed right.
use osborne_x.Base.{ℕ, ◌<◌, ◌≡◌, refl, List, [], ◌∷◌, some, arith, All, ◌⊎◌, inl, inr}
use osborne_x.Base.Price.{Price}
use osborne_x.Orderbook.Types.{Side, buy, sell, Order, OrderType, OrderModify, Trade, to_order}
use osborne_x.Orderbook.Levels.{Level}
use osborne_x.Orderbook.Book.{
  OrderEntry, Orderbook, empty_book, levels_of, cancel_entry, cancel_order,
}
use osborne_x.Orderbook.Matching.{run_level, settle, match_orders}
use osborne_x.Orderbook.Operations.{worst_price, opposite, insert_order, add_order, modify_order}
use osborne_x.Orderbook.Sorted.{
  AreLevels, IsLevel, keep_level-AreLevels, erase_order-AreLevels, push_order-AreLevels,
}
use osborne_x.Orderbook.Standing.{match_level-Stands}
use osborne_x.Orderbook.Rounds.{
  cancel_order_cases, match_orders_inv, add_order_cases, IsPricedAs, price_market_cases,
  modify_order_cases,
}

pub record IsFiled (b : Orderbook) : Type 0 where
  pub bids : AreLevels buy b.bids
  pub asks : AreLevels sell b.asks

pub empty-IsFiled : IsFiled empty_book
empty-IsFiled = record {
  bids = record { levels = tt; sorted = tt };
  asks = record { levels = tt; sorted = tt };
}

cancel_entry-IsFiled : (e : OrderEntry) (b : Orderbook) → IsFiled b → IsFiled (cancel_entry e b)
unfolding cancel_entry
cancel_entry-IsFiled e b v = ground (
  arith,
  erase_order-AreLevels buy e.price e.order_id b.bids v.bids,
  erase_order-AreLevels sell e.price e.order_id b.asks v.asks,
)

pub cancel_order-IsFiled : (i : ℕ) (b : Orderbook) → IsFiled b → IsFiled (cancel_order i b)
cancel_order-IsFiled i b v = cancel_order_cases IsFiled i b v (λ e _. cancel_entry-IsFiled e b v)

pub settle-IsFiled :
    (b : Orderbook) (trades : List Trade) (l : Level) (ls : List Level) (k : Level)
    (ks : List Level)
    → AreLevels buy (l ∷ ls)
    → AreLevels sell (k ∷ ks)
    → IsFiled (settle l ls k ks (run_level l k b trades))
unfolding settle run_level
settle-IsFiled b trades l ls k ks v w =
    let kept = match_level-Stands l.price k.price _ l.orders k.orders _ v.levels.0.2 w.levels.0.2 in
    record {
      bids = keep_level-AreLevels buy l ls _ kept.0 v;
      asks = keep_level-AreLevels sell k ks _ kept.1 w;
    }

pub match_orders-IsFiled : (b : Orderbook) → IsFiled b → IsFiled (match_orders b).0
match_orders-IsFiled =
    match_orders_inv (λ b _. IsFiled b)
      (λ b trades l ls k ks e f _ v.
        settle-IsFiled b trades l ls k ks (rw e at v.bids) (rw f at v.asks))
      (λ i b _ v. cancel_order-IsFiled i b v)

insert_order-IsFiled_on :
    (s : Side) (o : Order) (b : Orderbook)
    → o.side ≡ s
    → 0 < o.price
    → IsFiled b
    → IsFiled (insert_order o b)
unfolding insert_order
insert_order-IsFiled_on buy o b e h v = ground (arith, push_order-AreLevels buy o b.bids e h v.bids)
insert_order-IsFiled_on sell o b e h v =
    ground (arith, push_order-AreLevels sell o b.asks e h v.asks)

insert_order-IsFiled :
    (o : Order) (b : Orderbook) → 0 < o.price → IsFiled b → IsFiled (insert_order o b)
insert_order-IsFiled o b = insert_order-IsFiled_on o.side o b refl

worst_price_pos :
    (s : Side) (ls : List Level) (p : Price) → All (IsLevel s) ls → worst_price ls ≡ some p → 0 < p
unfolding worst_price
worst_price_pos s [] p a e = cc
worst_price_pos s (l ∷ []) p a e = ground arith
worst_price_pos s (l ∷ k ∷ ls) p a e = worst_price_pos s (k ∷ ls) p a.1 e

levels_of-IsLevel : (s : Side) (b : Orderbook) → IsFiled b → All (IsLevel s) (levels_of s b)
levels_of-IsLevel buy b v = v.bids.levels
levels_of-IsLevel sell b v = v.asks.levels

-- A price that is no NaN, but for market orders, whose price is not read.
abbrev pub IsPriced : Order → Type 0
IsPriced o = (0 < o.price) ⊎ (o.order_type ≡ OrderType.market)

pub price_market_pos :
    (b : Orderbook) (o o' : Order) → IsFiled b → IsPriced o → IsPricedAs b o o' → 0 < o'.price
price_market_pos b o o' v h e = elim (price_market_cases b o o' e) [
  | inl (m, x) ↦ ground arith
  | inr (p, w, x) ↦
      let q : 0 < p =
        worst_price_pos (opposite o.side) (levels_of (opposite o.side) b) p
          (levels_of-IsLevel (opposite o.side) b v) w in
      ground arith
]

-- The book that an accepted order has entered, before it is matched.
pub entered-IsFiled :
    (o o' : Order) (b : Orderbook)
    → IsPriced o
    → IsFiled b
    → IsPricedAs b o o'
    → IsFiled (insert_order o' b)
entered-IsFiled o o' b h v p = insert_order-IsFiled o' b (price_market_pos b o o' v h p) v

-- `AddOrder` keeps the book filed: on both sides the levels stay strictly sorted and none is empty,
-- and each order stands on its own side at its own price. The order's price is no NaN, or it is a
-- market order.
pub add_order-IsFiled :
    (o : Order) (b : Orderbook) → IsPriced o → IsFiled b → IsFiled (add_order o b).0
add_order-IsFiled o b h v =
    add_order_cases (λ r. IsFiled r.0) o b v
      (λ o' _ p. match_orders-IsFiled _ (entered-IsFiled o o' b h v p))

-- `ModifyOrder` keeps the book filed: on both sides the levels stay strictly sorted and none is
-- empty, and each order stands on its own side at its own price. The new price is no NaN.
pub modify_order-IsFiled :
    (m : OrderModify) (b : Orderbook) → 0 < m.price → IsFiled b → IsFiled (modify_order m b).0
modify_order-IsFiled m b h v =
    modify_order_cases (λ r. IsFiled r.0) m b v
      (λ e _.
        add_order-IsFiled (to_order m e.order_type) (cancel_order m.order_id b) (inl h)
          (cancel_order-IsFiled m.order_id b v))
