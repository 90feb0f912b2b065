-- ===== src/Orderbook/Without.antt =====
-- The levels and the index of a book of Orderbook/src/orderbook.cpp without one order.
use osborne_x.Base.{
  ℕ, ◌≤◌, ◌<◌, ◌≡◌, ◌≢◌, refl, sym, ap, ◌∙◌, inl, inr, false, List, [], ◌∷◌, arith, if◌then◌else◌,
  ◌==◌, length, is_empty, Bool-cases,
}
use osborne_x.Base.Price.{Price, eq_price}
use osborne_x.Orderbook.Types.{Side, Order}
use osborne_x.Orderbook.Levels.{Level, remove_order, keep_level, erase_order}
use osborne_x.Orderbook.Book.{OrderEntry, erase_entry}
use osborne_x.Orderbook.Sorted.{AreLevels, Chain-IsSorted}
use osborne_x.Orderbook.Index.{place_count-Chain, order_count, place_count, id_count}

-- The orders with other ids, in their order.
abbrev pub others : ℕ → List Order → List Order
others i [] = []
others i (o ∷ os) = if o.order_id == i then others i os else o ∷ others i os

-- The levels without the orders of an id; a level that has no order then is not there.
abbrev pub without : ℕ → List Level → List Level
without i [] = []
without i (l ∷ ls) =
    if is_empty (others i l.orders)
    then without i ls
    else record { price = l.price; orders = others i l.orders } ∷ without i ls

-- The entries of other ids, in their order.
abbrev pub other_entries : ℕ → List OrderEntry → List OrderEntry
other_entries i [] = []
other_entries i (e ∷ es) = if e.order_id == i then other_entries i es else e ∷ other_entries i es

others-none : (i : ℕ) (os : List Order) → order_count i os ≡ 0 → others i os ≡ os
others-none i [] h = refl
others-none i (o ∷ os) h = ground (arith, others-none i os)

others-remove_order :
    (i : ℕ) (os : List Order) → order_count i os ≤ 1 → remove_order i os ≡ others i os
unfolding remove_order
others-remove_order i [] h = refl
others-remove_order i (o ∷ os) h = ground (arith, others-remove_order i os, others-none i os)

not_empty : (os : List Order) → 0 < length os → is_empty os ≡ false
not_empty [] h = absurd (omega arith)
not_empty (o ∷ os) h = refl

without-kept :
    (i : ℕ) (l : Level) (ls : List Level)
    → 0 < length l.orders
    → order_count i l.orders ≡ 0
    → without i (l ∷ ls) ≡ l ∷ without i ls
without-kept i l ls h e =
    let same = others-none i l.orders e in
    let filled : is_empty (others i l.orders) ≡ false = ap is_empty same ∙ not_empty l.orders h in
    ground (arith, same, filled)

pub without-none :
    (s : Side) (i : ℕ) (ls : List Level)
    → AreLevels s ls
    → ((p : Price) → place_count p i ls ≡ 0)
    → without i ls ≡ ls
without-none s i [] v h = refl
without-none s i (l ∷ ls) v h =
    without-kept i l ls v.levels.0.1 (ground (arith, h l.price))
    ∙ ap (◌∷◌ l) (
        without-none s i ls
          (record { levels = v.levels.1; sorted = Chain-IsSorted s l.price ls v.sorted })
          (λ p. ground (arith, h p)))

pub without-erase_order :
    (s : Side) (p : Price) (i : ℕ) (ls : List Level)
    → AreLevels s ls
    → place_count p i ls ≡ 1
    → ((q : Price) → q ≢ p → place_count q i ls ≡ 0)
    → erase_order p i ls ≡ without i ls
unfolding erase_order keep_level
without-erase_order s p i [] v h k = refl
without-erase_order s p i (l ∷ ls) v h k =
    let rest : AreLevels s ls = record {
      levels = v.levels.1;
      sorted = Chain-IsSorted s l.price ls v.sorted;
    } in
    elim (Bool-cases (eq_price l.price p)) [
      | inl e ↦
          let behind = place_count-Chain s l.price i ls v.sorted in
          let gone = without-none s i ls rest (λ q. ground (arith, behind, k q)) in
          ground (arith, gone, e, others-remove_order i l.orders (ground (arith, h)))
      | inr e ↦
          let other : l.price ≢ p = let pos = v.levels.0.0 in ground arith in
          rw e (
            ap (◌∷◌ l)
              (without-erase_order s p i ls rest (ground arith) (λ q n. ground (arith, k q n)))
            ∙ sym (without-kept i l ls v.levels.0.1 (ground (arith, k l.price other))))
    ]

other_entries-none : (i : ℕ) (es : List OrderEntry) → id_count i es ≡ 0 → other_entries i es ≡ es
other_entries-none i [] h = refl
other_entries-none i (e ∷ es) h = ground (arith, other_entries-none i es)

pub erase_entry-others :
    (i : ℕ) (es : List OrderEntry) → id_count i es ≤ 1 → erase_entry i es ≡ other_entries i es
unfolding erase_entry
erase_entry-others i [] h = refl
erase_entry-others i (e ∷ es) h = ground (arith, erase_entry-others i es, other_entries-none i es)
