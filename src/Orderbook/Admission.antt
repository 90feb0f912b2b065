-- ===== src/Orderbook/Admission.antt =====
-- Which orders `AddOrder` of Orderbook/src/orderbook.cpp lets into the book.
use osborne_x.Base.{
  ◌&&◌, not, Bool, none, is_empty, Bool-cases, Option-cases, ◌≡◌, refl, sym, inl, inr, true, false,
  List, [], ◌∷◌, some, arith,
}
use osborne_x.Orderbook.Types.{
  Order, is_fill_and_kill, is_fill_or_kill, is_market, to_good_till_cancel, Trade,
}
use osborne_x.Orderbook.Levels.{Level}
use osborne_x.Base.Price.{Price}
use osborne_x.Orderbook.Book.{Orderbook, levels_of, contains, can_match, can_fully_fill}
use osborne_x.Orderbook.Matching.{match_orders}
use osborne_x.Orderbook.Operations.{
  opposite, worst_price, price_market, insert_order, accept_order, add_order,
}
use osborne_x.Orderbook.Rounds.{price_market_cases, IsPricedAs}

-- Whether `AddOrder` lets the order in: its id is new, a market order finds the other side not empty, a
-- fill-or-kill order can be filled, and a fill-and-kill order crosses the best price.
abbrev pub is_admitted : Order → Orderbook → Bool
is_admitted o b =
    not (contains o.order_id b.orders)
    && not (is_fill_and_kill o.order_type && not (can_match o.side o.price b))
    && not (is_market o.order_type && is_empty (levels_of (opposite o.side) b))
    && not
        (is_fill_or_kill o.order_type && not (can_fully_fill o.side o.price o.initial_quantity b))

worst_price-is_empty : (ls : List Level) (p : Price) → worst_price ls ≡ some p → is_empty ls ≡ false
unfolding worst_price
worst_price-is_empty [] p e = cc
worst_price-is_empty (l ∷ ls) p e = refl

worst_price-none : (ls : List Level) → worst_price ls ≡ none → is_empty ls ≡ true
unfolding worst_price
worst_price-none [] e = refl
worst_price-none (l ∷ []) e = cc
worst_price-none (l ∷ k ∷ ls) e = absurd (ground (arith, worst_price-none (k ∷ ls) e))

unpriced :
    (o : Order) (b : Orderbook)
    → price_market b o ≡ none
    → (is_market o.order_type && is_empty (levels_of (opposite o.side) b)) ≡ true
unfolding price_market to_good_till_cancel
unpriced o b e = elim (Bool-cases (is_market o.order_type)) [
  | inl m ↦ elim (Option-cases (worst_price (levels_of (opposite o.side) b))) [
    | inl w ↦ rw (m, worst_price-none (levels_of (opposite o.side) b) w) refl
    | inr (p, w) ↦ absurd (ground arith)
  ]
  | inr m ↦ absurd (ground arith)
]

priced :
    (o o' : Order) (b : Orderbook)
    → IsPricedAs b o o'
    → (is_market o.order_type && is_empty (levels_of (opposite o.side) b)) ≡ false
priced o o' b h = elim (price_market_cases b o o' h) [
  | inl (m, _) ↦ rw m refl
  | inr (p, w, _) ↦ ground (arith, worst_price-is_empty (levels_of (opposite o.side) b) p w)
]

fill_or_kill_same :
    (o o' : Order) (b : Orderbook)
    → IsPricedAs b o o'
    → (is_fill_or_kill o'.order_type && not (can_fully_fill o'.side o'.price o'.initial_quantity b))
      ≡ (is_fill_or_kill o.order_type && not (can_fully_fill o.side o.price o.initial_quantity b))
unfolding price_market to_good_till_cancel
fill_or_kill_same o o' b h = elim (price_market_cases b o o' h) [
  | inl (m, e) ↦ rw e refl
  | inr (p, w, e) ↦ ground arith
]

-- `AddOrder` matches what it admits, and leaves the book alone otherwise.
pub add_order_admits {κ} :
    (P : Orderbook × List Trade → Type κ) (o : Order) (b : Orderbook)
    → (is_admitted o b ≡ false → P (b, []))
    → ((o' : Order)
        → is_admitted o b ≡ true
        → IsPricedAs b o o'
        → P (match_orders (insert_order o' b)))
    → P (add_order o b)
unfolding add_order accept_order
add_order_admits P o b refused entered = elim (Bool-cases (contains o.order_id b.orders)) [
  | inl e ↦ rw e (refused (rw e refl))
  | inr e ↦
      rw e (elim (Bool-cases (is_fill_and_kill o.order_type && not (can_match o.side o.price b))) [
        | inl f ↦ rw f (refused (rw (e, f) refl))
        | inr f ↦ rw f (elim (Option-cases (price_market b o)) [
          | inl p ↦ rw p (refused (rw (e, f, unpriced o b p) refl))
          | inr (o', p) ↦
              rw p
                (elim (Bool-cases (
                  is_fill_or_kill o'.order_type
                  && not (can_fully_fill o'.side o'.price o'.initial_quantity b))) [
                    | inl g ↦ rw g (
                        refused
                          (rw (e, f, priced o o' b p, sym (fill_or_kill_same o o' b p), g) refl))
                    | inr g ↦ rw g (
                        entered o'
                          (rw (e, f, priced o o' b p, sym (fill_or_kill_same o o' b p), g) refl) p)
                  ])
        ])
      ])
]
