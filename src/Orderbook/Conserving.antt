-- ===== src/Orderbook/Conserving.antt =====
-- `AddOrder` of Orderbook/src/orderbook.cpp for an order that is no fill-and-kill order: the quantity
-- that it brings is traded or rests.
use osborne_x.Base.{
  ℕ, ◌+◌, ap, if◌then◌else◌, ◌≡◌, refl, sym, subst, ◌∙◌, inl, inr, true, List, arith,
}
use osborne_x.Orderbook.Types.{Side, buy, sell, Order, Trade}
use osborne_x.Orderbook.Book.{Orderbook, levels_of}
use osborne_x.Orderbook.Matching.{match_orders}
use osborne_x.Orderbook.Operations.{insert_order, add_order}
use osborne_x.Orderbook.Rounds.{price_market_cases, IsPricedAs}
use osborne_x.Orderbook.Everywhere.{insert_order-AllOrders}
use osborne_x.Orderbook.Patient.{IsPatient, IsCalm, match_orders-Conserves, Conserves}
use osborne_x.Orderbook.Priority.{traded}
use osborne_x.Orderbook.Volume.{resting, resting-push_order}
use osborne_x.Orderbook.Admission.{is_admitted, add_order_admits}

-- What an order adds to a side.
abbrev pub brought : Side → Side → ℕ → ℕ
brought buy buy q = q
brought sell sell q = q
brought _ _ q = 0

resting-insert_order :
    (s t : Side) (o : Order) (b : Orderbook)
    → o.side ≡ t
    → resting (levels_of s (insert_order o b))
      ≡ resting (levels_of s b) + brought t s o.remaining_quantity
unfolding insert_order
resting-insert_order buy buy o b e = ground (arith, resting-push_order buy o.price o b.bids)
resting-insert_order buy sell o b e = ground arith
resting-insert_order sell buy o b e = ground arith
resting-insert_order sell sell o b e = ground (arith, resting-push_order sell o.price o b.asks)

pub price_market-same :
    (b : Orderbook) (o o' : Order)
    → IsPricedAs b o o'
    → (o'.remaining_quantity ≡ o.remaining_quantity) × (o'.side ≡ o.side)
price_market-same b o o' h = elim (price_market_cases b o o' h) [
  | inl (_, e) ↦ (ap (λ o. o.remaining_quantity) (sym e), ap (λ o. o.side) (sym e))
  | inr (p, _, e) ↦ (ap (λ o. o.remaining_quantity) (sym e), ap (λ o. o.side) (sym e))
]

pub price_market-IsPatient :
    (b : Orderbook) (o o' : Order) → IsPricedAs b o o' → IsPatient o → IsPatient o'
price_market-IsPatient b o o' h i = elim (price_market_cases b o o' h) [
  | inl (_, e) ↦ subst IsPatient e i
  | inr (p, _, e) ↦ subst IsPatient e refl
]

-- The two sides after an order was offered, against the sides before.
abbrev pub Balances : Order → Orderbook → Orderbook × List Trade → Type 0
Balances o b r =
    (s : Side)
    → resting (levels_of s r.0) + traded r.1
      ≡ resting (levels_of s b)
        + (if is_admitted o b then brought o.side s o.remaining_quantity else 0)

levels_of-Conserves :
    (s : Side) (n m : ℕ) (b : Orderbook) (trades : List Trade)
    → Conserves n m b trades
    → resting (levels_of s b) + traded trades ≡ elim s [ buy ↦ n | sell ↦ m ]
levels_of-Conserves buy n m b trades h = h.1
levels_of-Conserves sell n m b trades h = h.2

sides :
    (s : Side) (b : Orderbook)
    → elim s as (λ _. ℕ) [ buy ↦ resting b.bids | sell ↦ resting b.asks ] ≡ resting (levels_of s b)
sides buy b = refl
sides sell b = refl

entered-Balances :
    (o o' : Order) (b : Orderbook)
    → is_admitted o b ≡ true
    → IsPricedAs b o o'
    → IsPatient o
    → IsCalm b
    → Balances o b (match_orders (insert_order o' b)) × IsCalm (match_orders (insert_order o' b)).0
entered-Balances o o' b a p h calm =
    let b' = insert_order o' b in
    let done =
      match_orders-Conserves b'
        (insert_order-AllOrders IsPatient o' b (price_market-IsPatient b o o' p h) calm) in
    let same = price_market-same b o o' p in
    (
      λ s. rw a (
          levels_of-Conserves s (resting b'.bids) (resting b'.asks) _ _ done
          ∙ sides s b'
          ∙ resting-insert_order s o'.side o' b refl
          ∙ ap (λ (t : Side). resting (levels_of s b) + brought t s o'.remaining_quantity) same.1
          ∙ ap (λ n. resting (levels_of s b) + brought o.side s n) same.0),
      done.0,
    )

-- What `AddOrder` does with an order that is no fill-and-kill order in a book without such orders: on
-- both sides what was there is then traded or rests, and so is the quantity of the order, on its own
-- side, where the order is let in. No fill-and-kill order is there afterwards.
pub add_order-Balances :
    (o : Order) (b : Orderbook)
    → IsPatient o
    → IsCalm b
    → Balances o b (add_order o b) × IsCalm (add_order o b).0
add_order-Balances o b h calm =
    add_order_admits (λ r. Balances o b r × IsCalm r.0) o b (λ a. (λ s. rw a (omega arith), calm))
      (λ o' a p. entered-Balances o o' b a p h calm)
