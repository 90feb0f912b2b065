-- ===== src/Orderbook/Tally.antt =====
-- The index by order id through `MatchOrders` of Orderbook/src/orderbook.cpp.
use osborne_x.Base.{
  ℕ, zero, suc, ◌+◌, ◌≤◌, ◌≡◌, inl, inr, ◌&&◌, List, [], ◌∷◌, arith, if◌then◌else◌, ◌==◌,
  Bool-cases,
}
use osborne_x.Base.Price.{Price}
use osborne_x.Orderbook.Types.{Side, buy, sell, Order, Trade, fill, is_filled}
use osborne_x.Orderbook.Levels.{Level}
use osborne_x.Orderbook.Book.{OrderEntry, Orderbook, levels_of}
use osborne_x.Orderbook.Matching.{
  Tally, Matching, pop_filled, erase_filled, record_trade, match_level, run_level, settle,
  match_orders,
}
use osborne_x.Orderbook.Filing.{IsFiled, settle-IsFiled, cancel_order-IsFiled}
use osborne_x.Orderbook.Rounds.{match_orders_inv}
use osborne_x.Orderbook.Indexed.{eq_side_refl, cancel_order-IsIndexed}
use osborne_x.Orderbook.Index.{
  eq_side, id_count, entry_count, order_count, place_count, IsIndexed, entry_count-le,
  entry_count-split, id_count-erase_entry, entry_count-erase_ne, entry_count-erase_self,
  place_count-keep_level,
}

-- What a level adds to the count at side `s` and price `p`.
abbrev at_level : Side → Price → Side → Price → ℕ → ℕ
at_level x q s p n = if eq_side x s && q == p then n else 0

fill-id : (o : Order) (q : ℕ) → (fill o q).order_id ≡ o.order_id
unfolding fill
fill-id o q = ground arith

module _ (R : Side → Price → ℕ → ℕ) (x : Side) (q : Price) where
  -- The front order of a level is filled, and leaves the level and the index if nothing is left.
  pop-agrees :
      (o o' : Order) (os : List Order) (es : List OrderEntry)
      → o'.order_id ≡ o.order_id
      → ((i : ℕ) → id_count i es ≤ 1)
      → ((s : Side) (p : Price) (i : ℕ)
          → entry_count s p i es ≡ at_level x q s p (order_count i (o ∷ os)) + R s p i)
      → (s : Side) (p : Price) (i : ℕ)
      → entry_count s p i (erase_filled o' es)
        ≡ at_level x q s p (order_count i (pop_filled o' os)) + R s p i
  unfolding erase_filled pop_filled
  pop-agrees o o' os es e u h s p i = elim (Bool-cases (is_filled o')) [
    | inr f ↦ rw f (ground (arith, h s p i))
    | inl f ↦ rw f (
        ground (
          arith,
          h s p i,
          h x q o'.order_id,
          eq_side_refl x,
          u i,
          u o'.order_id,
          entry_count-erase_ne s p o'.order_id i es,
          entry_count-erase_self s p o'.order_id es (u o'.order_id),
          entry_count-split x s q p o'.order_id es,
          entry_count-le x q o'.order_id es,
        ))
  ]

erase_filled_unique :
    (o : Order) (es : List OrderEntry)
    → ((i : ℕ) → id_count i es ≤ 1)
    → (i : ℕ) → id_count i (erase_filled o es) ≤ 1
unfolding erase_filled
erase_filled_unique o es u i =
    ground (arith, id_count-erase_entry o.order_id i es, u i, u o.order_id)

module _ (R : Side → Price → ℕ → ℕ) (p q : Price) where
  -- The index against the two lists of the inner loop and the rest of the book.
  abbrev Agrees : List Order → List Order → List OrderEntry → Type 0
  Agrees bids asks es =
      (s : Side) (r : Price) (i : ℕ)
      → entry_count s r i es
        ≡ at_level buy p s r (order_count i bids)
          + at_level sell q s r (order_count i asks)
          + R s r i

  abbrev Tallied : List Order → List Order → Tally → Type 0
  Tallied bids asks t = Agrees bids asks t.orders × ((i : ℕ) → id_count i t.orders ≤ 1)

  record_trade-Tallied :
      (bid : Order) (bids : List Order) (ask : Order) (asks : List Order) (t : Tally) (n : ℕ)
      → Tallied (bid ∷ bids) (ask ∷ asks) t
      → Tallied
          (pop_filled (fill bid n) bids)
          (pop_filled (fill ask n) asks)
          (record_trade bid ask n (fill bid n) (fill ask n) t)
  unfolding record_trade
  record_trade-Tallied bid bids ask asks t n (h, u) = (
    λ s r i. omega (
      arith,
      pop-agrees
          (λ s r i. at_level buy p s r (order_count i (pop_filled (fill bid n) bids)) + R s r i)
          sell q ask (fill ask n) asks (erase_filled (fill bid n) t.orders) (fill-id ask n)
          (erase_filled_unique (fill bid n) t.orders u)
          (λ s r i. omega (
            arith,
            pop-agrees (λ s r i. at_level sell q s r (order_count i (ask ∷ asks)) + R s r i) buy p
                bid (fill bid n) bids t.orders (fill-id bid n) u (λ s r i. omega (arith, h s r i)) s
                r i,
          ))
          s r i,
    ),
    erase_filled_unique (fill ask n) _ (erase_filled_unique (fill bid n) t.orders u),
  )

  match_level-Tallied :
      (fuel : ℕ) (bids asks : List Order) (t : Tally)
      → Tallied bids asks t
      → let m = match_level fuel bids asks t in Tallied m.bids_at m.asks_at m.tally
  unfolding match_level
  match_level-Tallied zero bids asks t h = h
  match_level-Tallied (suc fuel) [] asks t h = h
  match_level-Tallied (suc fuel) (bid ∷ bids) [] t h = h
  match_level-Tallied (suc fuel) (bid ∷ bids) (ask ∷ asks) t h =
      match_level-Tallied fuel _ _ _ (record_trade-Tallied bid bids ask asks t _ h)

-- What the levels behind the two best ones hold.
abbrev behind : List Level → List Level → Side → Price → ℕ → ℕ
behind ls ks buy p i = place_count p i ls
behind ls ks sell p i = place_count p i ks

start-Tallied :
    (b : Orderbook) (l : Level) (ls : List Level) (k : Level) (ks : List Level)
    (trades : List Trade)
    → b.bids ≡ l ∷ ls
    → b.asks ≡ k ∷ ks
    → IsIndexed b
    → Tallied
        (behind ls ks)
        l.price
        k.price
        l.orders
        k.orders
        (record { orders = b.orders; level_data = b.level_data; trades = trades })
start-Tallied b l ls k ks trades e f x = (start, x.unique)
  where
    start : Agrees (behind ls ks) l.price k.price l.orders k.orders b.orders
    start buy r i = ground (arith, x.agrees buy r i)
    start sell r i = ground (arith, x.agrees sell r i)

settle-IsIndexed :
    (b : Orderbook) (l : Level) (ls : List Level) (k : Level) (ks : List Level) (m : Matching)
    → Tallied (behind ls ks) l.price k.price m.bids_at m.asks_at m.tally
    → IsIndexed (settle l ls k ks m)
unfolding settle
settle-IsIndexed b l ls k ks m (h, u) = record { agrees = settled; unique = u }
  where
    settled :
        (s : Side) (p : Price) (i : ℕ)
        → entry_count s p i m.orders ≡ place_count p i (levels_of s (settle l ls k ks m))
    settled buy p i =
        ground (arith, h buy p i, place_count-keep_level p i (record l { orders = m.bids_at }) ls)
    settled sell p i =
        ground (arith, h sell p i, place_count-keep_level p i (record k { orders = m.asks_at }) ks)

-- What the index and the levels of a book are to be.
abbrev pub IsKept : Orderbook → Type 0
IsKept b = IsFiled b × IsIndexed b

pub settle-IsKept :
    (b : Orderbook) (trades : List Trade) (l : Level) (ls : List Level) (k : Level)
    (ks : List Level)
    → b.bids ≡ l ∷ ls
    → b.asks ≡ k ∷ ks
    → IsKept b
    → IsKept (settle l ls k ks (run_level l k b trades))
unfolding run_level
settle-IsKept b trades l ls k ks e f h = (
  settle-IsFiled b trades l ls k ks (rw e at h.0.bids) (rw f at h.0.asks),
  settle-IsIndexed b l ls k ks _ (
      match_level-Tallied (behind ls ks) l.price k.price _ l.orders k.orders _
        (start-Tallied b l ls k ks trades e f h.1)),
)

-- `MatchOrders` keeps the index in step with the levels.
pub match_orders-IsIndexed :
    (b : Orderbook) → IsFiled b → IsIndexed b → IsIndexed (match_orders b).0
match_orders-IsIndexed b v x =
    (match_orders_inv (λ b _. IsKept b)
      (λ b trades l ls k ks e f c h. settle-IsKept b trades l ls k ks e f h)
      (λ i b _ h. (cancel_order-IsFiled i b h.0, cancel_order-IsIndexed i b h.0 h.1)) b (v, x)).1
