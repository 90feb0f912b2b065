-- ===== src/Orderbook/Cancel.antt =====
-- What `CancelOrderInternal` of Orderbook/src/orderbook.cpp does to the levels.
use osborne_x.Base.{ℕ, ◌≤◌, ◌≡◌, refl, inl, inr, List, [], ◌∷◌, some, arith, ◌==◌, Bool-cases}
use osborne_x.Base.Price.{Price, eq_price}
use osborne_x.Orderbook.Types.{Side, Order}
use osborne_x.Orderbook.Levels.{Level, find_order, find_at}
use osborne_x.Orderbook.Book.{OrderEntry, Orderbook, levels_of, find_entry}
use osborne_x.Orderbook.Sorted.{AreLevels, Chain-IsSorted}
use osborne_x.Orderbook.Filing.{IsFiled}
use osborne_x.Orderbook.Index.{place_count-Chain, order_count, place_count, IsIndexed}
use osborne_x.Orderbook.Indexed.{find_entry-counts, levels_of-AreLevels}

find_order-some :
    (i : ℕ) (os : List Order)
    → 1 ≤ order_count i os
    → (o : Order) × (find_order i os ≡ some o) × (o.order_id ≡ i)
unfolding find_order
find_order-some i [] h = absurd (omega arith)
find_order-some i (o ∷ os) h = elim (Bool-cases (o.order_id == i)) [
  | inl e ↦ rw e (o, refl, ground arith)
  | inr e ↦ rw e (find_order-some i os (ground arith))
]

find_at-some :
    (s : Side) (p : Price) (i : ℕ) (ls : List Level)
    → AreLevels s ls
    → 1 ≤ place_count p i ls
    → (o : Order) × (find_at p i ls ≡ some o) × (o.order_id ≡ i)
unfolding find_at
find_at-some s p i [] a h = absurd (omega arith)
find_at-some s p i (l ∷ ls) v h = elim (Bool-cases (eq_price l.price p)) [
  | inl e ↦
      rw e (find_order-some i l.orders (ground (arith, place_count-Chain s l.price i ls v.sorted)))
  | inr e ↦ rw e (
      find_at-some s p i ls
        (record { levels = v.levels.1; sorted = Chain-IsSorted s l.price ls v.sorted })
        (let pos = v.levels.0.0 in ground arith))
]

-- An entry of the index always leads to its order: the level exists, and the order with the entry's
-- id is in it. So `at` does not throw and the iterator points at an order.
pub find_entry-find_at :
    (b : Orderbook) (i : ℕ) (e : OrderEntry)
    → IsFiled b
    → IsIndexed b
    → find_entry i b.orders ≡ some e
    → (o : Order) × (find_at e.price i (levels_of e.side b) ≡ some o) × (o.order_id ≡ i)
find_entry-find_at b i e v x h =
    find_at-some e.side e.price i (levels_of e.side b) (levels_of-AreLevels e.side b v)
      (omega (arith, x.agrees e.side e.price i, find_entry-counts i b.orders e h))
