-- ===== src/Orderbook/Uncrossed.antt =====
-- The best prices of Orderbook/src/orderbook.cpp stay apart when orders leave, and while they are apart
-- `MatchOrders` does nothing.
use osborne_x.Base.{
  ℕ, zero, suc, ◌≡◌, refl, inl, inr, true, List, [], ◌∷◌, none, arith, Bool-cases, is_empty,
}
use osborne_x.Base.Price.{Price, eq_price}
use osborne_x.Orderbook.Types.{Side, buy, sell, Order, OrderModify, Trade, to_order}
use osborne_x.Orderbook.Levels.{Level, before, keep_level, erase_order, remove_order}
use osborne_x.Orderbook.Book.{Orderbook, OrderEntry, cancel_order}
use osborne_x.Orderbook.Matching.{match_round, match_loop}
use osborne_x.Orderbook.Operations.{add_order, modify_order}
use osborne_x.Orderbook.Exhaust.{IsUncrossed, match_orders-uncrosses}
use osborne_x.Orderbook.Sorted.{Chain, IsSorted}
use osborne_x.Orderbook.Filing.{IsFiled}
use osborne_x.Orderbook.Rounds.{add_order_cases, modify_order_cases, cancel_order_cases}
use osborne_x.Orderbook.Everywhere.{levels_without, cancel_entry-levels}

abbrev pub AreApart : Orderbook → Type 0
AreApart b = IsUncrossed b.bids b.asks

-- A best level that keeps its price, or goes.
pub keep_level-bids :
    (l : Level) (os : List Order) (ls asks : List Level)
    → Chain buy l.price ls
    → IsUncrossed (l ∷ ls) asks
    → IsUncrossed (keep_level (record l { orders = os }) ls) asks
unfolding keep_level
keep_level-bids l os ls [] c h = elim (Bool-cases (is_empty os)) [
  | inl e ↦ rw e (nothing ls)
  | inr e ↦ rw e tt
]
  where
    nothing : (ls : List Level) → IsUncrossed ls []
    nothing [] = tt
    nothing (l ∷ ls) = tt
keep_level-bids l os [] (k ∷ ks) c h = elim (Bool-cases (is_empty os)) [
  | inl e ↦ rw e tt
  | inr e ↦ rw e h
]
keep_level-bids l os (m ∷ ls) (k ∷ ks) c h = elim (Bool-cases (is_empty os)) [
  | inl e ↦ let below : before buy l.price m.price ≡ true = c.0 in rw e (ground arith)
  | inr e ↦ rw e h
]

pub keep_level-asks :
    (bids : List Level) (k : Level) (os : List Order) (ks : List Level)
    → Chain sell k.price ks
    → IsUncrossed bids (k ∷ ks)
    → IsUncrossed bids (keep_level (record k { orders = os }) ks)
unfolding keep_level
keep_level-asks [] k os ks c h = tt
keep_level-asks (l ∷ ls) k os [] c h = elim (Bool-cases (is_empty os)) [
  | inl e ↦ rw e tt
  | inr e ↦ rw e h
]
keep_level-asks (l ∷ ls) k os (m ∷ ks) c h = elim (Bool-cases (is_empty os)) [
  | inl e ↦ let above : before sell k.price m.price ≡ true = c.0 in rw e (ground arith)
  | inr e ↦ rw e h
]

erase_order-bids :
    (p : Price) (i : ℕ) (ls asks : List Level)
    → IsSorted buy ls
    → IsUncrossed ls asks
    → IsUncrossed (erase_order p i ls) asks
unfolding erase_order
erase_order-bids p i [] asks c h = tt
erase_order-bids p i (l ∷ ls) asks c h = elim (Bool-cases (eq_price l.price p)) [
  | inl e ↦ rw e (keep_level-bids l (remove_order i l.orders) ls asks c h)
  | inr e ↦ rw e (same asks h)
]
  where
    same :
        (asks : List Level) → IsUncrossed (l ∷ ls) asks → IsUncrossed (l ∷ erase_order p i ls) asks
    same [] h = tt
    same (k ∷ ks) h = h

erase_order-asks :
    (p : Price) (i : ℕ) (bids ks : List Level)
    → IsSorted sell ks
    → IsUncrossed bids ks
    → IsUncrossed bids (erase_order p i ks)
unfolding erase_order
erase_order-asks p i bids [] c h = h
erase_order-asks p i bids (k ∷ ks) c h = elim (Bool-cases (eq_price k.price p)) [
  | inl e ↦ rw e (keep_level-asks bids k (remove_order i k.orders) ks c h)
  | inr e ↦ rw e (same bids h)
]
  where
    same :
        (bids : List Level) → IsUncrossed bids (k ∷ ks) → IsUncrossed bids (k ∷ erase_order p i ks)
    same [] h = tt
    same (l ∷ ls) h = h

levels_without-AreApart :
    (e : OrderEntry) (s : Side) (b : Orderbook)
    → e.side ≡ s
    → IsFiled b
    → AreApart b
    → AreApart (levels_without e b)
levels_without-AreApart e buy b q v h =
    rw q (erase_order-bids e.price e.order_id b.bids b.asks v.bids.sorted h)
levels_without-AreApart e sell b q v h =
    rw q (erase_order-asks e.price e.order_id b.bids b.asks v.asks.sorted h)

-- Cancelling brings no prices together.
pub cancel_order-AreApart :
    (i : ℕ) (b : Orderbook) → IsFiled b → AreApart b → AreApart (cancel_order i b)
cancel_order-AreApart i b v h = cancel_order_cases AreApart i b h (λ e _.
    let (same, also) = cancel_entry-levels e b in
    rw (same, also) (levels_without-AreApart e e.side b refl v h))

pub add_order-AreApart : (o : Order) (b : Orderbook) → AreApart b → AreApart (add_order o b).0
add_order-AreApart o b h =
    add_order_cases (λ r. AreApart r.0) o b h (λ o' _ _. match_orders-uncrosses _)

pub modify_order-AreApart :
    (m : OrderModify) (b : Orderbook) → IsFiled b → AreApart b → AreApart (modify_order m b).0
modify_order-AreApart m b v h =
    modify_order_cases (λ r. AreApart r.0) m b h
      (λ e _.
        add_order-AreApart (to_order m e.order_type) (cancel_order m.order_id b)
          (cancel_order-AreApart m.order_id b v h))

match_round-AreApart :
    (b : Orderbook) (trades : List Trade) (bids asks : List Level)
    → IsUncrossed bids asks
    → match_round b trades bids asks ≡ none
unfolding match_round
match_round-AreApart b trades [] asks h = refl
match_round-AreApart b trades (l ∷ ls) [] h = refl
match_round-AreApart b trades (l ∷ ls) (k ∷ ks) h = rw h refl

-- Where the prices are apart the outer loop ends at once.
pub match_loop-AreApart :
    (fuel : ℕ) (b : Orderbook) (trades : List Trade)
    → AreApart b
    → match_loop fuel b trades ≡ (b, trades)
unfolding match_loop
match_loop-AreApart zero b trades h = refl
match_loop-AreApart (suc fuel) b trades h =
    rw (match_round-AreApart b trades b.bids b.asks h, match_loop) refl
