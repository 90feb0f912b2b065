-- ===== src/Orderbook/Indexed.antt =====
-- Every member of Orderbook/src/orderbook.cpp keeps the index `orders_` in step with the levels.
use osborne_x.Base.{
  ℕ, ◌-◌, ◌≤◌, ◌<◌, ◌≡◌, refl, true, ◌&&◌, List, [], ◌∷◌, some, arith, if◌then◌else◌, ◌==◌, All,
}
use osborne_x.Base.Price.{Price}
use osborne_x.Orderbook.Types.{Side, buy, sell}
use osborne_x.Orderbook.Levels.{Level, erase_order}
use osborne_x.Orderbook.Book.{
  OrderEntry, Orderbook, levels_of, with_levels, find_entry, erase_entry, cancel_entry,
  cancel_order,
}
use osborne_x.Orderbook.Sorted.{AreLevels, IsLevel}
use osborne_x.Orderbook.Filing.{IsFiled}
use osborne_x.Orderbook.Rounds.{cancel_order_cases}
use osborne_x.Orderbook.Index.{
  eq_side, entry_count, place_count, IsIndexed, entry_count-le, entry_count-split,
  id_count-erase_entry, entry_count-erase_ne, entry_count-erase_self, place_count-erase_order,
}

pub find_entry-id :
    (i : ℕ) (es : List OrderEntry) (e : OrderEntry) → find_entry i es ≡ some e → e.order_id ≡ i
unfolding find_entry
find_entry-id i [] e h = cc
find_entry-id i (x ∷ es) e h = ground (arith, find_entry-id i es e)

pub eq_side_refl : (s : Side) → eq_side s s ≡ true
eq_side_refl buy = refl
eq_side_refl sell = refl

pub find_entry-counts :
    (i : ℕ) (es : List OrderEntry) (e : OrderEntry)
    → find_entry i es ≡ some e
    → 1 ≤ entry_count e.side e.price i es
unfolding find_entry
find_entry-counts i [] e h = cc
find_entry-counts i (x ∷ es) e h = ground (arith, find_entry-counts i es e, eq_side_refl e.side)

pub place_count_pos :
    (s : Side) (p : Price) (i : ℕ) (ls : List Level)
    → All (IsLevel s) ls
    → 1 ≤ place_count p i ls
    → 0 < p
place_count_pos s p i [] a h = absurd (omega arith)
place_count_pos s p i (l ∷ ls) a h = ground (arith, place_count_pos s p i ls a.1)

pub levels_of-AreLevels : (s : Side) (b : Orderbook) → IsFiled b → AreLevels s (levels_of s b)
levels_of-AreLevels buy b v = v.bids
levels_of-AreLevels sell b v = v.asks

erase_one :
    (b : Orderbook) (t s : Side) (q p : Price) (i j : ℕ)
    → IsFiled b
    → IsIndexed b
    → 1 ≤ entry_count t q i b.orders
    → place_count p j (levels_of s (with_levels t b (erase_order q i (levels_of t b)))) ≡ (
        if eq_side t s && (q == p && i == j)
        then place_count q i (levels_of t b) - 1
        else place_count p j (levels_of s b))
erase_one b buy buy q p i j v x h =
    let pos : 0 < q =
      place_count_pos buy q i b.bids v.bids.levels (omega (arith, x.agrees buy q i)) in
    place_count-erase_order buy q i p j b.bids pos v.bids
erase_one b buy sell q p i j v x h = refl
erase_one b sell buy q p i j v x h = refl
erase_one b sell sell q p i j v x h =
    let pos : 0 < q =
      place_count_pos sell q i b.asks v.asks.levels (omega (arith, x.agrees sell q i)) in
    place_count-erase_order sell q i p j b.asks pos v.asks

-- The order with id `i` leaves its place, side `t` at price `q`, in the index and in the levels.
leave-agrees :
    (b : Orderbook) (t s : Side) (q p : Price) (i j : ℕ)
    → IsFiled b
    → IsIndexed b
    → 1 ≤ entry_count t q i b.orders
    → entry_count s p j (erase_entry i b.orders)
      ≡ place_count p j (levels_of s (with_levels t b (erase_order q i (levels_of t b))))
leave-agrees b t s q p i j v x h = rw (erase_one b t s q p i j v x h) (
    ground (
      arith,
      x.agrees s p j,
      x.agrees t q i,
      x.unique i,
      entry_count-erase_ne s p i j b.orders,
      entry_count-erase_self s p i b.orders (x.unique i),
      entry_count-split t s q p i b.orders,
      entry_count-le t q i b.orders,
    ))

pub cancel_entry-orders :
    (e : OrderEntry) (b : Orderbook) → (cancel_entry e b).orders ≡ erase_entry e.order_id b.orders
unfolding cancel_entry
cancel_entry-orders e b = ground arith

pub cancel_entry-levels :
    (e : OrderEntry) (b : Orderbook) (s : Side)
    → levels_of s (cancel_entry e b)
      ≡ levels_of s (with_levels e.side b (erase_order e.price e.order_id (levels_of e.side b)))
unfolding cancel_entry
cancel_entry-levels e b s = ground arith

cancel_entry-IsIndexed :
    (e : OrderEntry) (b : Orderbook)
    → IsFiled b
    → IsIndexed b
    → find_entry e.order_id b.orders ≡ some e
    → IsIndexed (cancel_entry e b)
cancel_entry-IsIndexed e b v x h = record {
  agrees = λ s p j.
      rw (cancel_entry-levels e b s, cancel_entry-orders e b)
        (leave-agrees b e.side s e.price p e.order_id j v x
          (find_entry-counts e.order_id b.orders e h));
  unique = λ j.
      rw (cancel_entry-orders e b) (
        ground
          (arith, id_count-erase_entry e.order_id j b.orders, x.unique j, x.unique e.order_id));
}

pub cancel_order-IsIndexed :
    (i : ℕ) (b : Orderbook) → IsFiled b → IsIndexed b → IsIndexed (cancel_order i b)
cancel_order-IsIndexed i b v x =
    cancel_order_cases IsIndexed i b x
      (λ e h. cancel_entry-IsIndexed e b v x (simp (find_entry-id i b.orders e h) h))
