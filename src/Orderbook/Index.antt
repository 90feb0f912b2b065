-- ===== src/Orderbook/Index.antt =====
-- The counting that relates the index `orders_` of Orderbook/src/orderbook.cpp to the levels: for a
-- side, a price and an id, the entries of the index that point there, and the orders that rest there.
use osborne_x.Base.{
  ℕ, suc, ◌+◌, ◌-◌, ◌≤◌, ◌<◌, ◌≡◌, ◌≢◌, refl, inl, inr, Bool, true, false, ◌&&◌, List, [], ◌∷◌,
  ◌++◌, arith, if◌then◌else◌, ◌==◌, All, Bool-cases,
}
use osborne_x.Base.Price.{Price, eq_price}
use osborne_x.Orderbook.Types.{Side, buy, sell, Order}
use osborne_x.Orderbook.Levels.{Level, push_order, remove_order, keep_level, erase_order, before}
use osborne_x.Orderbook.Book.{OrderEntry, Orderbook, levels_of, erase_entry}
use osborne_x.Orderbook.Sorted.{Chain, Chain-mono, Chain-IsSorted, same_price, AreLevels, IsLevel}

abbrev pub eq_side : Side → Side → Bool
eq_side buy buy = true
eq_side sell sell = true
eq_side _ _ = false

-- Entries with an id.
abbrev pub id_count : ℕ → List OrderEntry → ℕ
id_count i [] = 0
id_count i (e ∷ es) = if e.order_id == i then suc (id_count i es) else id_count i es

-- Entries with an id that point at a level.
abbrev pub entry_count : Side → Price → ℕ → List OrderEntry → ℕ
entry_count s p i [] = 0
entry_count s p i (e ∷ es) =
    let rest = entry_count s p i es in
    if e.order_id == i && (eq_side e.side s && e.price == p) then suc rest else rest

-- Orders with an id in a list, and in the levels of a price.
abbrev pub order_count : ℕ → List Order → ℕ
order_count i [] = 0
order_count i (o ∷ os) = if o.order_id == i then suc (order_count i os) else order_count i os

abbrev pub place_count : Price → ℕ → List Level → ℕ
place_count p i [] = 0
place_count p i (l ∷ ls) = (if l.price == p then order_count i l.orders else 0) + place_count p i ls

-- The index and the levels agree, and no id stands twice.
pub record IsIndexed (b : Orderbook) : Type 0 where
  pub agrees :
      (s : Side) (p : Price) (i : ℕ) → entry_count s p i b.orders ≡ place_count p i (levels_of s b)
  pub unique : (i : ℕ) → id_count i b.orders ≤ 1

pub entry_count-le :
    (s : Side) (p : Price) (i : ℕ) (es : List OrderEntry) → entry_count s p i es ≤ id_count i es
entry_count-le s p i [] = omega arith
entry_count-le s p i (e ∷ es) = ground (arith, entry_count-le s p i es)

-- An id that stands at one place stands at no other.
pub entry_count-split :
    (s t : Side) (p q : Price) (i : ℕ) (es : List OrderEntry)
    → (eq_side s t && p == q) ≡ false
    → entry_count s p i es + entry_count t q i es ≤ id_count i es
entry_count-split s t p q i [] h = omega arith
entry_count-split s t p q i (e ∷ es) h = ground (arith, entry_count-split s t p q i es h)

pub id_count-erase_entry :
    (i j : ℕ) (es : List OrderEntry)
    → id_count j (erase_entry i es) ≡ (if i == j then id_count i es - 1 else id_count j es)
unfolding erase_entry
id_count-erase_entry i j [] = ground arith
id_count-erase_entry i j (e ∷ es) = ground (arith, id_count-erase_entry i j es)

pub entry_count-erase_ne :
    (s : Side) (p : Price) (i j : ℕ) (es : List OrderEntry)
    → i ≢ j
    → entry_count s p j (erase_entry i es) ≡ entry_count s p j es
unfolding erase_entry
entry_count-erase_ne s p i j [] h = refl
entry_count-erase_ne s p i j (e ∷ es) h = ground (arith, entry_count-erase_ne s p i j es h)

pub entry_count-erase_self :
    (s : Side) (p : Price) (i : ℕ) (es : List OrderEntry)
    → id_count i es ≤ 1
    → entry_count s p i (erase_entry i es) ≡ 0
entry_count-erase_self s p i es h =
    ground (arith, entry_count-le s p i (erase_entry i es), id_count-erase_entry i i es)

pub order_count-remove_order :
    (i j : ℕ) (os : List Order)
    → order_count j (remove_order i os)
      ≡ (if i == j then order_count i os - 1 else order_count j os)
unfolding remove_order
order_count-remove_order i j [] = ground arith
order_count-remove_order i j (o ∷ os) = ground (arith, order_count-remove_order i j os)

pub order_count-append :
    (i : ℕ) (os : List Order) (o : Order)
    → order_count i (os ++ o ∷ []) ≡ order_count i os + (if o.order_id == i then 1 else 0)
order_count-append i [] o = ground arith
order_count-append i (x ∷ os) o = ground (arith, order_count-append i os o)

pub place_count-keep_level :
    (p : Price) (i : ℕ) (l : Level) (ls : List Level)
    → place_count p i (keep_level l ls) ≡ place_count p i (l ∷ ls)
unfolding keep_level
place_count-keep_level p i l ls = ground arith

pub before_ne : (s : Side) (p q : Price) → before s p q ≡ true → p ≢ q
before_ne buy p q h e = ground arith
before_ne sell p q h e = ground arith

-- Behind a level of this price there is no other.
pub place_count-Chain :
    (s : Side) (p : Price) (i : ℕ) (ls : List Level) → Chain s p ls → place_count p i ls ≡ 0
place_count-Chain s p i [] c = refl
place_count-Chain s p i (l ∷ ls) c = ground (
  arith,
  before_ne s p l.price c.0,
  place_count-Chain s p i ls (Chain-mono s p l.price ls c.0 c.1),
)

pub place_count-erase_order :
    (s : Side) (p : Price) (i q : Price) (j : ℕ) (ls : List Level)
    → 0 < p
    → AreLevels s ls
    → place_count q j (erase_order p i ls)
      ≡ (if p == q && i == j then place_count p i ls - 1 else place_count q j ls)
unfolding erase_order
place_count-erase_order s p i q j [] h v = ground arith
place_count-erase_order s p i q j (l ∷ ls) h v = elim (Bool-cases (eq_price l.price p)) [
  | inl e ↦
      rw (e, place_count-keep_level)
        (ground
          (arith, order_count-remove_order i j l.orders, place_count-Chain s l.price i ls v.sorted))
  | inr e ↦ rw e (
      ground (
        arith,
        place_count-erase_order s p i q j ls h
            (record { levels = v.levels.1; sorted = Chain-IsSorted s l.price ls v.sorted }),
      ))
]

pub place_count-push_order :
    (s : Side) (o : Order) (q : Price) (j : ℕ) (ls : List Level)
    → 0 < o.price
    → All (IsLevel s) ls
    → place_count q j (push_order s o.price o ls)
      ≡ place_count q j ls + (if o.price == q && o.order_id == j then 1 else 0)
unfolding push_order
place_count-push_order s o q j [] h v = ground arith
place_count-push_order s o q j (l ∷ ls) h v = elim (Bool-cases (before s o.price l.price)) [
  | inl e ↦ rw e (ground arith)
  | inr e ↦ rw e (elim (Bool-cases (before s l.price o.price)) [
    | inl f ↦ rw f (ground (arith, place_count-push_order s o q j ls h v.1))
    | inr f ↦
        rw f (
          ground (arith, same_price s o.price l.price h v.0.0 e f, order_count-append j l.orders o))
  ])
]
