-- ===== src/Orderbook/Tallied.antt =====
-- `MatchOrders` of Orderbook/src/orderbook.cpp keeps the index `orders_` in step with the levels.
use osborne_x.Base.{ℕ, ◌<◌, ◌≡◌, refl, sym, inl, inr, ap, false, List, [], ◌∷◌, arith}
use osborne_x.Base.Price.{Price}
use osborne_x.Orderbook.Types.{Side, buy, sell, Order, OrderModify, to_order}
use osborne_x.Orderbook.Levels.{push_order}
use osborne_x.Orderbook.Book.{
  OrderEntry, Orderbook, levels_of, with_levels, entry_of, contains, cancel_order, empty_book,
}
use osborne_x.Orderbook.Operations.{insert_order, add_order, modify_order}
use osborne_x.Orderbook.Filing.{
  IsFiled, IsPriced, cancel_order-IsFiled, entered-IsFiled, price_market_pos,
}
use osborne_x.Orderbook.Rounds.{add_order_cases, modify_order_cases, IsPricedAs, price_market_cases}
use osborne_x.Orderbook.Indexed.{cancel_order-IsIndexed}
use osborne_x.Orderbook.Index.{
  id_count, entry_count, place_count, IsIndexed, place_count-push_order,
}
use osborne_x.Orderbook.Tally.{match_orders-IsIndexed}

contains-id_count : (i : ℕ) (es : List OrderEntry) → contains i es ≡ false → id_count i es ≡ 0
unfolding contains
contains-id_count i [] h = refl
contains-id_count i (e ∷ es) h = ground (arith, contains-id_count i es)

insert_order-agrees :
    (t s : Side) (o : Order) (b : Orderbook) (p : Price) (i : ℕ)
    → o.side ≡ t
    → 0 < o.price
    → IsFiled b
    → IsIndexed b
    → entry_count s p i (entry_of o ∷ b.orders)
      ≡ place_count p i (levels_of s (with_levels t b (push_order t o.price o (levels_of t b))))
insert_order-agrees buy buy o b p i e h v x =
    ground (arith, x.agrees buy p i, place_count-push_order buy o p i b.bids h v.bids.levels)
insert_order-agrees buy sell o b p i e h v x = ground (arith, x.agrees sell p i)
insert_order-agrees sell buy o b p i e h v x = ground (arith, x.agrees buy p i)
insert_order-agrees sell sell o b p i e h v x =
    ground (arith, x.agrees sell p i, place_count-push_order sell o p i b.asks h v.asks.levels)

insert_order-levels :
    (o : Order) (b : Orderbook) (s : Side)
    → levels_of s (insert_order o b)
      ≡ levels_of s (with_levels o.side b (push_order o.side o.price o (levels_of o.side b)))
unfolding insert_order
insert_order-levels o b s = ground arith

pub insert_order-IsIndexed :
    (o : Order) (b : Orderbook)
    → contains o.order_id b.orders ≡ false
    → 0 < o.price
    → IsFiled b
    → IsIndexed b
    → IsIndexed (insert_order o b)
unfolding insert_order
insert_order-IsIndexed o b c h v x = record {
  agrees =
      λ s p i. rw (insert_order-levels o b s) (insert_order-agrees o.side s o b p i refl h v x);
  unique = λ i. ground (arith, contains-id_count o.order_id b.orders c, x.unique i);
}

price_market-id : (b : Orderbook) (o o' : Order) → IsPricedAs b o o' → o'.order_id ≡ o.order_id
price_market-id b o o' h = elim (price_market_cases b o o' h) [
  | inl (_, e) ↦ ap (λ o. o.order_id) (sym e)
  | inr (p, _, e) ↦ ap (λ o. o.order_id) (sym e)
]

-- `AddOrder` keeps the index in step with the levels: for each side, price and id, the index has as
-- many entries that point there as orders with the id rest there, and no id has two entries. The
-- book is filed, and the order has a price or is a market order.
pub add_order-IsIndexed :
    (o : Order) (b : Orderbook) → IsPriced o → IsFiled b → IsIndexed b → IsIndexed (add_order o b).0
add_order-IsIndexed o b h v x =
    add_order_cases (λ r. IsIndexed r.0) o b x
      (λ o' c p. match_orders-IsIndexed _ (entered-IsFiled o o' b h v p) (
        insert_order-IsIndexed o' b (rw (price_market-id b o o' p) c)
          (price_market_pos b o o' v h p) v x))

-- `ModifyOrder` keeps the index in step with the levels: for each side, price and id, the index has
-- as many entries that point there as orders with the id rest there, and no id has two entries. The
-- book is filed, and the new price is no NaN.
pub modify_order-IsIndexed :
    (m : OrderModify) (b : Orderbook)
    → 0 < m.price
    → IsFiled b
    → IsIndexed b
    → IsIndexed (modify_order m b).0
modify_order-IsIndexed m b h v x =
    modify_order_cases (λ r. IsIndexed r.0) m b x
      (λ e _.
        add_order-IsIndexed (to_order m e.order_type) (cancel_order m.order_id b) (inl h)
          (cancel_order-IsFiled m.order_id b v) (cancel_order-IsIndexed m.order_id b v x))

-- A new book is indexed.
pub empty-IsIndexed : IsIndexed empty_book
empty-IsIndexed = record {
  agrees = λ s p i. elim s as (λ t. 0 ≡ place_count p i (levels_of t empty_book)) [
    | buy ↦ refl
    | sell ↦ refl
  ];
  unique = λ i. omega arith;
}
