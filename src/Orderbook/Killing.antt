-- ===== src/Orderbook/Killing.antt =====
-- Fill-and-kill orders in `AddOrder` of Orderbook/src/orderbook.cpp: what becomes of one that enters the
-- book, in the round that it is matched in.
use osborne_x.Base.{
  ℕ, zero, suc, ◌≤◌, ◌<◌, ◌≡◌, refl, sym, subst, ap, ◌∙◌, inl, inr, ◌⊎◌, true, ◌&&◌, List, [], ◌∷◌,
  some, arith, Bool-cases, ◌==◌,
}
use osborne_x.Base.Price.{Price}
use osborne_x.Orderbook.Types.{Side, buy, sell, Order, Trade, fill, is_fill_and_kill}
use osborne_x.Orderbook.Levels.{Level, keep_level, erase_order, remove_order}
use osborne_x.Orderbook.Book.{
  Orderbook, OrderEntry, entry_of, levels_of, with_levels, find_entry, cancel_entry, cancel_order,
}
use osborne_x.Orderbook.Matching.{
  Tally, fill_quantity, pop_filled, match_level, run_level, front_order, front_to_kill, kill_front,
}
use osborne_x.Orderbook.Operations.{opposite}
use osborne_x.Orderbook.Index.{eq_side, entry_count, entry_count-split, IsIndexed, place_count}
use osborne_x.Orderbook.Indexed.{find_entry-id, find_entry-counts, levels_of-AreLevels}
use osborne_x.Orderbook.Sorted.{AreLevels}
use osborne_x.Orderbook.Everywhere.{Everywhere, levels_without, cancel_entry-levels}
use osborne_x.Orderbook.Tally.{IsKept}
use osborne_x.Orderbook.Patient.{IsPatient, kill_front-IsCalm}

-- A queue with the order of an entry, or with none.
abbrev pub Holds : OrderEntry → List Order → Type 0
Holds e os = (os ≡ []) ⊎ ((o : Order) × (os ≡ o ∷ []) × (entry_of o ≡ e))

fill-entry : (o : Order) (q : ℕ) → entry_of (fill o q) ≡ entry_of o
unfolding fill
fill-entry o q = ground arith

pop_filled-Holds : (o : Order) (q : ℕ) → Holds (entry_of o) (pop_filled (fill o q) [])
unfolding pop_filled
pop_filled-Holds o q = elim (Bool-cases ((fill o q).remaining_quantity == 0)) [
  | inl e ↦ rw e (inl refl)
  | inr e ↦ rw e (inr (fill o q, refl, fill-entry o q))
]

-- Where one order stands against a level, the inner loop leaves it or nothing.
match_level-Holds_bids :
    (e : OrderEntry) (fuel : ℕ) (bids asks : List Order) (t : Tally)
    → Holds e bids
    → Holds e (match_level fuel bids asks t).bids_at
unfolding match_level
match_level-Holds_bids e zero bids asks t h = h
match_level-Holds_bids e (suc fuel) [] asks t h = inl refl
match_level-Holds_bids e (suc fuel) (bid ∷ bids) [] t h = h
match_level-Holds_bids e (suc fuel) (bid ∷ bids) (ask ∷ asks) t (inl x) = absurd cc
match_level-Holds_bids e (suc fuel) (bid ∷ bids) (ask ∷ asks) t (inr (o, x, y)) =
    let alone : bids ≡ [] = cc in
    let same : entry_of bid ≡ e = cc in
    match_level-Holds_bids e fuel _ _ _
      (rw (alone, sym same) (pop_filled-Holds bid (fill_quantity bid ask)))

match_level-Holds_asks :
    (e : OrderEntry) (fuel : ℕ) (bids asks : List Order) (t : Tally)
    → Holds e asks
    → Holds e (match_level fuel bids asks t).asks_at
unfolding match_level
match_level-Holds_asks e zero bids asks t h = h
match_level-Holds_asks e (suc fuel) [] asks t h = h
match_level-Holds_asks e (suc fuel) (bid ∷ bids) [] t h = inl refl
match_level-Holds_asks e (suc fuel) (bid ∷ bids) (ask ∷ asks) t (inl x) = absurd cc
match_level-Holds_asks e (suc fuel) (bid ∷ bids) (ask ∷ asks) t (inr (o, x, y)) =
    let alone : asks ≡ [] = cc in
    let same : entry_of ask ≡ e = cc in
    match_level-Holds_asks e fuel _ _ _
      (rw (alone, sym same) (pop_filled-Holds ask (fill_quantity bid ask)))

pub run_level-Holds :
    (e : OrderEntry) (l k : Level) (b : Orderbook) (trades : List Trade)
    → let m = run_level l k b trades in
      (Holds e l.orders → Holds e m.bids_at) × (Holds e k.orders → Holds e m.asks_at)
unfolding run_level
run_level-Holds e l k b trades =
    (match_level-Holds_bids e _ l.orders k.orders _, match_level-Holds_asks e _ l.orders k.orders _)

-- In a book that is kept, an order that stands on a level has its entry in the index.
found :
    (s : Side) (p : Price) (i : ℕ) (es : List OrderEntry)
    → 1 ≤ entry_count s p i es
    → (e : OrderEntry) × (find_entry i es ≡ some e)
unfolding find_entry
found s p i [] h = absurd (omega arith)
found s p i (e ∷ es) h = elim (Bool-cases (e.order_id == i)) [
  | inl x ↦ (e, rw x refl)
  | inr x ↦ let (e', f) = found s p i es (ground arith) in (e', ground arith)
]

eq_side→≡ : (s t : Side) → eq_side s t ≡ true → s ≡ t
eq_side→≡ buy buy e = refl
eq_side→≡ buy sell e = cc
eq_side→≡ sell buy e = cc
eq_side→≡ sell sell e = refl

-- Where an order rests, there its entry points.
found_at :
    (s : Side) (p : Price) (i : ℕ) (b : Orderbook)
    → IsIndexed b
    → 1 ≤ place_count p i (levels_of s b)
    → (e : OrderEntry) × (find_entry i b.orders ≡ some e)
      × (e.side ≡ s)
      × (e.price ≡ p)
      × (e.order_id ≡ i)
found_at s p i b x h =
    let here : 1 ≤ entry_count s p i b.orders = omega (arith, x.agrees s p i) in
    let (e, f) = found s p i b.orders here in
    let there = find_entry-counts i b.orders e f in
    elim (Bool-cases (eq_side e.side s && e.price == p)) [
      | inl y ↦
          (e, f, eq_side→≡ e.side s (ground arith), ground arith, find_entry-id i b.orders e f)
      | inr y ↦
          absurd (omega (arith, x.unique i, entry_count-split e.side s e.price p i b.orders y))
    ]

erase_order-alone :
    (l : Level) (ls : List Level) (o : Order)
    → 0 < l.price
    → l.orders ≡ o ∷ []
    → erase_order l.price o.order_id (l ∷ ls) ≡ ls
unfolding erase_order remove_order keep_level
erase_order-alone l ls o h e = ground arith

front_to_kill-alone :
    (l : Level) (ls : List Level) (o : Order)
    → l.orders ≡ o ∷ []
    → is_fill_and_kill o.order_type ≡ true
    → front_to_kill (l ∷ ls) ≡ some o.order_id
unfolding front_to_kill front_order
front_to_kill-alone l ls o e f = rw (e, f) refl

with_levels-levels :
    (s t : Side) (b : Orderbook) (ls : List Level)
    → t ≡ s
    → (levels_of s (with_levels t b ls) ≡ ls)
      × (levels_of (opposite s) (with_levels t b ls) ≡ levels_of (opposite s) b)
with_levels-levels s buy b ls e = rw (sym e) (refl, refl)
with_levels-levels s sell b ls e = rw (sym e) (refl, refl)

levels_of-levels :
    (s : Side) (b c : Orderbook) → b.bids ≡ c.bids → b.asks ≡ c.asks → levels_of s b ≡ levels_of s c
levels_of-levels buy b c e f = e
levels_of-levels sell b c e f = f

kill_front-entry :
    (s : Side) (b : Orderbook) (i : ℕ) (e : OrderEntry)
    → front_to_kill (levels_of s b) ≡ some i
    → find_entry i b.orders ≡ some e
    → kill_front s b ≡ cancel_entry e b
unfolding kill_front cancel_order
kill_front-entry s b i e h g = ground arith

-- A fill-and-kill order that is alone at the best price is killed, and its level goes with it.
pub kill_front-alone :
    (s : Side) (b : Orderbook) (l : Level) (ls : List Level) (o : Order)
    → IsKept b
    → levels_of s b ≡ l ∷ ls
    → l.orders ≡ o ∷ []
    → is_fill_and_kill o.order_type ≡ true
    → (levels_of s (kill_front s b) ≡ ls)
      × (levels_of (opposite s) (kill_front s b) ≡ levels_of (opposite s) b)
kill_front-alone s b l ls o (v, x) e f k =
    let positive : 0 < l.price = (subst (AreLevels s) e (levels_of-AreLevels s b v)).levels.0.0 in
    let rests : 1 ≤ place_count l.price o.order_id (levels_of s b) = rw (e, f) (ground arith) in
    let (entry, at, side, price, id) = found_at s l.price o.order_id b x rests in
    let same = cancel_entry-levels entry b in
    let left =
      with_levels-levels s entry.side b
        (erase_order entry.price entry.order_id (levels_of entry.side b)) side in
    let gone : erase_order entry.price entry.order_id (levels_of entry.side b) ≡ ls =
      rw (price, id, side, e) (erase_order-alone l ls o positive f) in
    let cancelled : kill_front s b ≡ cancel_entry entry b =
      kill_front-entry s b o.order_id entry (ap front_to_kill e ∙ front_to_kill-alone l ls o f k)
        at in
    (
      ap (levels_of s) cancelled
          ∙ levels_of-levels s (cancel_entry entry b) (levels_without entry b) same.0 same.1
          ∙ left.0
          ∙ gone,
      ap (levels_of (opposite s)) cancelled
          ∙ levels_of-levels (opposite s) (cancel_entry entry b) (levels_without entry b) same.0
              same.1
          ∙ left.1,
    )

-- After a round in which that order stood alone against the other side, it is gone.
pub kill_front-clears :
    (s : Side) (b : Orderbook) (l : Level) (ls : List Level) (os : List Order) (e : OrderEntry)
    → IsKept b
    → levels_of s b ≡ keep_level (record l { orders = os }) ls
    → Holds e os
    → is_fill_and_kill e.order_type ≡ true
    → Everywhere IsPatient ls
    → (levels_of s (kill_front s b) ≡ ls)
      × (levels_of (opposite s) (kill_front s b) ≡ levels_of (opposite s) b)
unfolding keep_level
kill_front-clears s b l ls os e v at (inl x) k patient =
    let here : levels_of s b ≡ ls = ground arith in
    let same = kill_front-IsCalm s b (rw here patient) in
    (ap (levels_of s) same ∙ here, ap (levels_of (opposite s)) same)
kill_front-clears s b l ls os e v at (inr (o, x, y)) k patient =
    kill_front-alone s b (record l { orders = os }) ls o v (ground arith) x (ground arith)
