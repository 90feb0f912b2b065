-- ===== src/Orderbook/Cancelling.antt =====
-- `CancelOrderInternal` of Orderbook/src/orderbook.cpp against what is left of a book without one order.
use osborne_x.Base.{
  ℕ, ◌<◌, ◌≡◌, refl, sym, subst, ◌∙◌, inl, inr, All, List, [], ◌∷◌, none, some, arith, ◌==◌,
  Bool-cases, Option-cases,
}
use osborne_x.Base.Price.{Price, eq_price}
use osborne_x.Orderbook.Types.{Side, buy, sell, Order}
use osborne_x.Orderbook.Levels.{Level, find_order, find_at, erase_order}
use osborne_x.Orderbook.Book.{
  OrderEntry, Orderbook, levels_of, with_levels, find_entry, on_order_cancelled, cancel_entry,
  cancel_order,
}
use osborne_x.Orderbook.Sorted.{IsLevel, Stands}
use osborne_x.Orderbook.Filing.{IsFiled}
use osborne_x.Orderbook.Index.{id_count, entry_count, entry_count-le, entry_count-split, IsIndexed}
use osborne_x.Orderbook.Indexed.{
  find_entry-counts, find_entry-id, cancel_entry-orders, cancel_entry-levels, levels_of-AreLevels,
}
use osborne_x.Orderbook.Cancel.{find_entry-find_at}
use osborne_x.Orderbook.Without.{
  without, other_entries, without-none, without-erase_order, erase_entry-others,
}
use osborne_x.Orderbook.Released.{IsReleased, update-IsReleased}

-- A book after an id was cancelled: the same if the id had no entry; else without the order of that id,
-- which stood where its entry says, in the levels, in the index and in the aggregates.
pub data Cancels (i : ℕ) (b b' : Orderbook) : Type 0 where
  unknown : id_count i b.orders ≡ 0 → b' ≡ b → Cancels i b b'
  known :
      (s : Side) (p : Price) (o : Order)
      → entry_count s p i b.orders ≡ 1
      → find_at p i (levels_of s b) ≡ some o
      → (o.order_id ≡ i) × (o.price ≡ p)
      → ((t : Side) → levels_of t b' ≡ without i (levels_of t b))
      → b'.orders ≡ other_entries i b.orders
      → IsReleased o b.level_data b'.level_data
      → Cancels i b b'

find_entry-none : (i : ℕ) (es : List OrderEntry) → find_entry i es ≡ none → id_count i es ≡ 0
unfolding find_entry
find_entry-none i [] h = refl
find_entry-none i (e ∷ es) h = ground (arith, find_entry-none i es)

find_order-All {κ} :
    (P : Order → Type κ) (i : ℕ) (os : List Order) (o : Order)
    → All P os
    → find_order i os ≡ some o
    → P o
unfolding find_order
find_order-All P i [] o a e = absurd cc
find_order-All P i (x ∷ os) o a e = elim (Bool-cases (x.order_id == i)) [
  | inl f ↦ subst P (ground arith) a.0
  | inr f ↦ find_order-All P i os o a.1 (ground arith)
]

find_at-price :
    (s : Side) (p : Price) (i : ℕ) (ls : List Level) (o : Order)
    → All (IsLevel s) ls
    → find_at p i ls ≡ some o
    → (o.price ≡ p) × (0 < p)
unfolding find_at
find_at-price s p i [] o a e = absurd cc
find_at-price s p i (l ∷ ls) o a e = elim (Bool-cases (eq_price l.price p)) [
  | inl f ↦
      let stands = find_order-All (Stands s l.price) i l.orders o a.0.2 (ground arith) in
      (ground (arith, stands.1), ground arith)
  | inr f ↦ find_at-price s p i ls o a.1 (ground arith)
]

cancelled-levels :
    (s t : Side) (p : Price) (i : ℕ) (b : Orderbook)
    → IsFiled b
    → IsIndexed b
    → entry_count s p i b.orders ≡ 1
    → levels_of t (with_levels s b (erase_order p i (levels_of s b))) ≡ without i (levels_of t b)
cancelled-levels buy buy p i b v x h =
    without-erase_order buy p i b.bids v.bids (omega (arith, h, x.agrees buy p i)) (λ q n.
      ground (arith, entry_count-split buy buy p q i b.orders, x.unique i, x.agrees buy q i))
cancelled-levels buy sell p i b v x h = sym (
    without-none sell i b.asks v.asks (λ q.
      ground
        (arith, entry_count-split buy sell p q i b.orders refl, x.unique i, x.agrees sell q i)))
cancelled-levels sell buy p i b v x h = sym (
    without-none buy i b.bids v.bids (λ q.
      ground (arith, entry_count-split sell buy p q i b.orders refl, x.unique i, x.agrees buy q i)))
cancelled-levels sell sell p i b v x h =
    without-erase_order sell p i b.asks v.asks (omega (arith, h, x.agrees sell p i)) (λ q n.
      ground (arith, entry_count-split sell sell p q i b.orders, x.unique i, x.agrees sell q i))

with_levels-data :
    (s : Side) (b : Orderbook) (ls : List Level) → (with_levels s b ls).level_data ≡ b.level_data
with_levels-data buy b ls = refl
with_levels-data sell b ls = refl

cancel_entry-data :
    (e : OrderEntry) (b : Orderbook) (o : Order)
    → find_at e.price e.order_id (levels_of e.side b) ≡ some o
    → (cancel_entry e b).level_data ≡ on_order_cancelled o b.level_data
unfolding cancel_entry
cancel_entry-data e b o h =
    ground (arith, with_levels-data e.side b (erase_order e.price e.order_id (levels_of e.side b)))

cancel_entry-Cancels :
    (b : Orderbook) (e : OrderEntry)
    → IsFiled b
    → IsIndexed b
    → find_entry e.order_id b.orders ≡ some e
    → Cancels e.order_id b (cancel_entry e b)
cancel_entry-Cancels b e v x f =
    let (o, at, id) = find_entry-find_at b e.order_id e v x f in
    let one : entry_count e.side e.price e.order_id b.orders ≡ 1 = omega (
      arith,
      find_entry-counts e.order_id b.orders e f,
      entry_count-le e.side e.price e.order_id b.orders,
      x.unique e.order_id,
    ) in
    let (priced, pos) =
      find_at-price e.side e.price e.order_id (levels_of e.side b) o
        (levels_of-AreLevels e.side b v).levels at in
    known e.side e.price o one at (id, priced)
      (λ t. cancel_entry-levels e b t ∙ cancelled-levels e.side t e.price e.order_id b v x one)
      (cancel_entry-orders e b ∙ erase_entry-others e.order_id b.orders (x.unique e.order_id))
      (subst (IsReleased o b.level_data) (sym (cancel_entry-data e b o at))
        (update-IsReleased o b.level_data (omega (arith, priced, pos))))

-- Cancelling an id that has no entry changes nothing. Otherwise the order of that id, which stands where its
-- entry says, is gone from the levels, with its level if it was alone there, and from the index, and all
-- other orders are as they were and in the same order. The aggregates at its price have one order less and
-- its remaining quantity less, modulo 2 to the power of 32, or are erased with the last order; at other
-- prices they are unchanged. The book is filed right and in step with its index.
pub cancel_order-Cancels :
    (i : ℕ) (b : Orderbook) → IsFiled b → IsIndexed b → Cancels i b (cancel_order i b)
unfolding cancel_order
cancel_order-Cancels i b v x = elim (Option-cases (find_entry i b.orders)) [
  | inl e ↦ unknown (find_entry-none i b.orders e) (rw (e, cancel_order) refl)
  | inr (y, e) ↦
      let id = find_entry-id i b.orders y e in
      rw (e, cancel_order)
        (subst (λ j. Cancels j b (cancel_entry y b)) id (cancel_entry-Cancels b y v x (simp id e)))
]
