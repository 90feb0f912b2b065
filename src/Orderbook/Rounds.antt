-- ===== src/Orderbook/Rounds.antt =====
-- Rules for the members of Orderbook/src/orderbook.cpp that call one another: what holds of each
-- result that they can have, holds of the call.
use osborne_x.Base.{
  ℕ, zero, suc, ◌≡◌, refl, false, ◌&&◌, not, List, [], ◌∷◌, Option, none, some, arith, Option-cases,
  Bool-cases, inl, inr, ◌⊎◌,
}
use osborne_x.Base.Price.{Price, lt_price}
use osborne_x.Orderbook.Types.{
  Side, buy, sell, Order, OrderType, OrderModify, Trade, is_market, is_fill_and_kill,
  is_fill_or_kill, to_good_till_cancel, to_order,
}
use osborne_x.Orderbook.Levels.{Level}
use osborne_x.Orderbook.Book.{
  OrderEntry, Orderbook, levels_of, contains, can_match, can_fully_fill, find_entry, cancel_entry,
  cancel_order,
}
use osborne_x.Orderbook.Matching.{
  match_round, run_level, settle, front_to_kill, kill_front, match_loop, match_orders, level_count,
}
use osborne_x.Orderbook.Operations.{
  opposite, price_market, worst_price, insert_order, accept_order, add_order, modify_order,
}

pub cancel_order_cases {κ} :
    (P : Orderbook → Type κ) (i : ℕ) (b : Orderbook)
    → P b
    → ((e : OrderEntry) → find_entry i b.orders ≡ some e → P (cancel_entry e b))
    → P (cancel_order i b)
unfolding cancel_order
cancel_order_cases P i b keep gone = elim (Option-cases (find_entry i b.orders)) [
  | inl e ↦ rw (e, cancel_order) keep
  | inr (x, e) ↦ rw (e, cancel_order) (gone x e)
]

pub kill_front_cases {κ} :
    (P : Orderbook → Type κ) (s : Side) (b : Orderbook)
    → P b
    → ((i : ℕ) → P (cancel_order i b))
    → P (kill_front s b)
unfolding kill_front
kill_front_cases P s b keep kill = elim (Option-cases (front_to_kill (levels_of s b))) [
  | inl e ↦ rw (e, kill_front) keep
  | inr (i, e) ↦ rw (e, kill_front) (kill i)
]

-- A round of the outer loop at given levels.
abbrev pub Settles {κ} : (Orderbook → List Trade → Type κ) → Type κ
Settles P =
    (b : Orderbook) (trades : List Trade) (l : Level) (ls : List Level) (k : Level)
    (ks : List Level)
    → b.bids ≡ l ∷ ls
    → b.asks ≡ k ∷ ks
    → lt_price l.price k.price ≡ false
    → P b trades
    → let m = run_level l k b trades in P (settle l ls k ks m) m.trades

module _ {κ} (P : Orderbook → List Trade → Type κ) (settles : Settles P)
    (kills : (s : Side) (b : Orderbook) (trades : List Trade)
      → P b trades
      → P (kill_front s b) trades) where
  Next : Option (Orderbook × List Trade) → Type κ
  Next none = Unit
  Next (some (b, t)) = P b t

  match_round-keeps :
      (b : Orderbook) (trades : List Trade) (bids asks : List Level)
      → b.bids ≡ bids
      → b.asks ≡ asks
      → P b trades
      → Next (match_round b trades bids asks)
  unfolding match_round Next
  match_round-keeps b trades [] asks e f h = tt
  match_round-keeps b trades (l ∷ ls) [] e f h = tt
  match_round-keeps b trades (l ∷ ls) (k ∷ ks) e f h =
      elim (Bool-cases (lt_price l.price k.price)) [
        | inl x ↦ rw (x, match_round) tt
        | inr x ↦
            rw (x, match_round)
              (kills sell _ _ (kills buy _ _ (settles b trades l ls k ks e f x h)))
      ]

  -- An invariant of the rounds and of killing the front orders is one of the outer loop.
  pub match_loop-kills :
      (fuel : ℕ) (b : Orderbook) (trades : List Trade)
      → P b trades
      → let r = match_loop fuel b trades in P r.0 r.1
  unfolding match_loop Next
  match_loop-kills zero b trades h = h
  match_loop-kills (suc fuel) b trades h =
      go (match_round b trades b.bids b.asks) refl
        (match_round-keeps b trades b.bids b.asks refl refl h) (match_loop-kills fuel)
    where
      go :
          (o : Option (Orderbook × List Trade))
          → match_round b trades b.bids b.asks ≡ o
          → Next o
          → ((b' : Orderbook) (t' : List Trade)
              → P b' t'
              → P (match_loop fuel b' t').0 (match_loop fuel b' t').1)
          → P (match_loop (suc fuel) b trades).0 (match_loop (suc fuel) b trades).1
      go none e n ih = rw (e, match_loop) h
      go (some (b', t')) e n ih = rw (e, match_loop) (ih b' t' n)

  pub match_orders-kills : (b : Orderbook) → P b [] → P (match_orders b).0 (match_orders b).1
  unfolding match_orders
  match_orders-kills b h = match_loop-kills (level_count b) b [] h

-- An invariant of the rounds and of cancelling is one of the outer loop.
module _ {κ} (P : Orderbook → List Trade → Type κ) (settles : Settles P)
    (cancels : (i : ℕ) (b : Orderbook) (trades : List Trade)
      → P b trades
      → P (cancel_order i b) trades) where
  pub match_orders_inv : (b : Orderbook) → P b [] → P (match_orders b).0 (match_orders b).1
  match_orders_inv =
      match_orders-kills P settles
        (λ s b trades h. kill_front_cases (λ b'. P b' trades) s b h (λ i. cancels i b trades h))

-- Whether an order is turned away, and as which order it enters the book otherwise.
abbrev pub IsPricedAs : Orderbook → Order → Order → Type 0
IsPricedAs b o o' = price_market b o ≡ some o'

pub add_order_cases {κ} :
    (P : Orderbook × List Trade → Type κ) (o : Order) (b : Orderbook)
    → P (b, [])
    → ((o' : Order)
        → contains o.order_id b.orders ≡ false
        → IsPricedAs b o o'
        → P (match_orders (insert_order o' b)))
    → P (add_order o b)
unfolding add_order accept_order
add_order_cases P o b refused entered = elim (Bool-cases (contains o.order_id b.orders)) [
  | inl e ↦ rw e refused
  | inr e ↦
      rw e (elim (Bool-cases (is_fill_and_kill o.order_type && not (can_match o.side o.price b))) [
        | inl f ↦ rw f refused
        | inr f ↦ rw f (elim (Option-cases (price_market b o)) [
          | inl p ↦ rw p refused
          | inr (o', p) ↦
              rw p
                (elim (Bool-cases (
                  is_fill_or_kill o'.order_type
                  && not (can_fully_fill o'.side o'.price o'.initial_quantity b))) [
                    | inl g ↦ rw g refused
                    | inr g ↦ rw g (entered o' e p)
                  ])
        ])
      ])
]

pub modify_order_cases {κ} :
    (P : Orderbook × List Trade → Type κ) (m : OrderModify) (b : Orderbook)
    → P (b, [])
    → ((e : OrderEntry)
        → find_entry m.order_id b.orders ≡ some e
        → P (add_order (to_order m e.order_type) (cancel_order m.order_id b)))
    → P (modify_order m b)
unfolding modify_order
modify_order_cases P m b keep gone = elim (Option-cases (find_entry m.order_id b.orders)) [
  | inl e ↦ rw (e, modify_order) keep
  | inr (x, e) ↦ rw (e, modify_order) (gone x e)
]

-- An order enters as it is, or as a market order with the worst price of the other side.
pub price_market_cases :
    (b : Orderbook) (o o' : Order)
    → IsPricedAs b o o'
    → ((is_market o.order_type ≡ false) × (o ≡ o'))
      ⊎ ((p : Price) × (worst_price (levels_of (opposite o.side) b) ≡ some p)
          × (record o { order_type = OrderType.good_till_cancel; price = p } ≡ o'))
unfolding price_market to_good_till_cancel
price_market_cases b o o' h = elim (Bool-cases (is_market o.order_type)) [
  | inl m ↦ elim (Option-cases (worst_price (levels_of (opposite o.side) b))) [
    | inl e ↦ ground arith
    | inr (p, e) ↦ inr (p, e, ground arith)
  ]
  | inr m ↦ inl (m, ground arith)
]
