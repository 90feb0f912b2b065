-- ===== src/Orderbook/Everywhere.antt =====
-- What holds of each order on the levels of Orderbook/src/orderbook.cpp, as far as its fills keep it.
use osborne_x.Base.{
  ℕ, zero, suc, ◌≡◌, sym, subst, inl, inr, List, [], ◌∷◌, arith, All, All-append, Bool-cases,
  is_empty,
}
use osborne_x.Base.Price.{Price, eq_price}
use osborne_x.Orderbook.Types.{Side, buy, sell, Order, Trade, fill}
use osborne_x.Orderbook.Levels.{Level, before, push_order, keep_level, erase_order}
use osborne_x.Orderbook.Book.{
  with_levels, OrderEntry, Orderbook, levels_of, cancel_entry, cancel_order,
}
use osborne_x.Orderbook.Matching.{
  Tally, fill_quantity, pop_filled, match_level, run_level, settle, match_orders,
}
use osborne_x.Orderbook.Operations.{insert_order}
use osborne_x.Orderbook.Rounds.{cancel_order_cases, match_orders_inv}
use osborne_x.Orderbook.Sorted.{remove_order-All}

-- A fill and the pop after it keep the property.
abbrev pub FillKeeps {κ} : (Order → Type κ) → Type κ
FillKeeps P =
    (o : Order) (q : ℕ) (os : List Order) → P o → All P os → All P (pop_filled (fill o q) os)

-- The levels after the order of an entry is cancelled.
abbrev pub levels_without : OrderEntry → Orderbook → Orderbook
levels_without e b = with_levels e.side b (erase_order e.price e.order_id (levels_of e.side b))

pub cancel_entry-levels :
    (e : OrderEntry) (b : Orderbook)
    → ((cancel_entry e b).bids ≡ (levels_without e b).bids)
      × ((cancel_entry e b).asks ≡ (levels_without e b).asks)
unfolding cancel_entry
cancel_entry-levels e b = (ground arith, ground arith)

module _ {κ} (P : Order → Type κ) where
  abbrev pub Everywhere : List Level → Type κ
  Everywhere ls = All (λ (l : Level). All P l.orders) ls

  push_order-Everywhere :
      (s : Side) (p : Price) (o : Order) (ls : List Level)
      → P o
      → Everywhere ls
      → Everywhere (push_order s p o ls)
  unfolding push_order
  push_order-Everywhere s p o [] h a = ((h, tt), tt)
  push_order-Everywhere s p o (l ∷ ls) h a = elim (Bool-cases (before s p l.price)) [
    | inl e ↦ rw e ((h, tt), a)
    | inr e ↦ rw e (elim (Bool-cases (before s l.price p)) [
      | inl f ↦ rw f (a.0, push_order-Everywhere s p o ls h a.1)
      | inr f ↦ rw f (All-append P l.orders (o ∷ []) a.0 (h, tt), a.1)
    ])
  ]

  pub keep_level-Everywhere :
      (l : Level) (ls : List Level) → All P l.orders → Everywhere ls → Everywhere (keep_level l ls)
  unfolding keep_level
  keep_level-Everywhere l ls h a = elim (Bool-cases (is_empty l.orders)) [
    | inl e ↦ rw e a
    | inr e ↦ rw e (h, a)
  ]

  erase_order-Everywhere :
      (p : Price) (i : ℕ) (ls : List Level) → Everywhere ls → Everywhere (erase_order p i ls)
  unfolding erase_order
  erase_order-Everywhere p i [] a = tt
  erase_order-Everywhere p i (l ∷ ls) a = elim (Bool-cases (eq_price l.price p)) [
    | inl e ↦ rw e (keep_level-Everywhere _ ls (remove_order-All P i l.orders a.0) a.1)
    | inr e ↦ rw e (a.0, erase_order-Everywhere p i ls a.1)
  ]

  -- Each order of the book.
  pub record AllOrders (b : Orderbook) : Type κ where
    pub bids : Everywhere b.bids
    pub asks : Everywhere b.asks

  with_levels-Everywhere :
      (s : Side) (b : Orderbook) (ls : List Level)
      → Everywhere ls
      → AllOrders b
      → Everywhere (with_levels s b ls).bids × Everywhere (with_levels s b ls).asks
  with_levels-Everywhere buy b ls h a = (h, a.asks)
  with_levels-Everywhere sell b ls h a = (a.bids, h)

  levels_of-Everywhere : (s : Side) (b : Orderbook) → AllOrders b → Everywhere (levels_of s b)
  levels_of-Everywhere buy b a = a.bids
  levels_of-Everywhere sell b a = a.asks

  pub insert_order-AllOrders :
      (o : Order) (b : Orderbook) → P o → AllOrders b → AllOrders (insert_order o b)
  unfolding insert_order
  insert_order-AllOrders o b h a =
      let kept =
        with_levels-Everywhere o.side b (push_order o.side o.price o (levels_of o.side b))
          (push_order-Everywhere o.side o.price o (levels_of o.side b) h
            (levels_of-Everywhere o.side b a))
          a in
      record { bids = kept.0; asks = kept.1 }

  cancel_entry-AllOrders :
      (e : OrderEntry) (b : Orderbook) → AllOrders b → AllOrders (cancel_entry e b)
  cancel_entry-AllOrders e b a =
      let kept =
        with_levels-Everywhere e.side b (erase_order e.price e.order_id (levels_of e.side b))
          (erase_order-Everywhere e.price e.order_id (levels_of e.side b)
            (levels_of-Everywhere e.side b a))
          a in
      let same = cancel_entry-levels e b in
      record {
        bids = subst Everywhere (sym same.0) kept.0;
        asks = subst Everywhere (sym same.1) kept.1;
      }

  pub cancel_order-AllOrders : (i : ℕ) (b : Orderbook) → AllOrders b → AllOrders (cancel_order i b)
  cancel_order-AllOrders i b a =
      cancel_order_cases AllOrders i b a (λ e _. cancel_entry-AllOrders e b a)

  module _ (keeps : FillKeeps P) where
    match_level-Everywhere :
        (fuel : ℕ) (bids asks : List Order) (t : Tally)
        → All P bids
        → All P asks
        → All P (match_level fuel bids asks t).bids_at
          × All P (match_level fuel bids asks t).asks_at
    unfolding match_level
    match_level-Everywhere zero bids asks t a b = (a, b)
    match_level-Everywhere (suc fuel) [] asks t a b = (a, b)
    match_level-Everywhere (suc fuel) (bid ∷ bids) [] t a b = (a, b)
    match_level-Everywhere (suc fuel) (bid ∷ bids) (ask ∷ asks) t a b =
        match_level-Everywhere fuel _ _ _ (keeps bid (fill_quantity bid ask) bids a.0 a.1)
          (keeps ask (fill_quantity bid ask) asks b.0 b.1)

    pub settle-AllOrders :
        (b : Orderbook) (trades : List Trade) (l : Level) (ls : List Level) (k : Level)
        (ks : List Level)
        → Everywhere (l ∷ ls)
        → Everywhere (k ∷ ks)
        → AllOrders (settle l ls k ks (run_level l k b trades))
    unfolding settle run_level
    settle-AllOrders b trades l ls k ks a c =
        let kept = match_level-Everywhere _ l.orders k.orders _ a.0 c.0 in
        record {
          bids = keep_level-Everywhere _ ls kept.0 a.1;
          asks = keep_level-Everywhere _ ks kept.1 c.1;
        }

    pub match_orders-AllOrders : (b : Orderbook) → AllOrders b → AllOrders (match_orders b).0
    match_orders-AllOrders =
        match_orders_inv (λ b _. AllOrders b)
          (λ b trades l ls k ks e f _ a.
            settle-AllOrders b trades l ls k ks (rw e at a.bids) (rw f at a.asks))
          (λ i b _ a. cancel_order-AllOrders i b a)
