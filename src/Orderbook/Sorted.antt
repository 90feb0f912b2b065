-- ===== src/Orderbook/Sorted.antt =====
-- What holds of `bids_` and `asks_` of Orderbook/src/orderbook.cpp: the levels are sorted, none is
-- empty, and each order stands on its side at its price.
use osborne_x.Base.{
  ℕ, ◌<◌, ◌≡◌, refl, inl, inr, true, false, List, [], ◌∷◌, arith, length, length_pos, length-append,
  is_empty, All, All-append, Bool-cases, ◌==◌,
}
use osborne_x.Base.Price.{Price, eq_price}
use osborne_x.Orderbook.Types.{Side, buy, sell, Order}
use osborne_x.Orderbook.Levels.{Level, before, push_order, remove_order, keep_level, erase_order}

before_trans :
    (s : Side) (p q r : Price) → before s p q ≡ true → before s q r ≡ true → before s p r ≡ true
before_trans buy p q r h k = ground arith
before_trans sell p q r h k = ground arith

-- The prices go on strictly in the order of the side's comparator, from `p` on.
abbrev pub Chain : Side → Price → List Level → Type 0
Chain s p [] = Unit
Chain s p (l ∷ ls) = (before s p l.price ≡ true) × Chain s l.price ls

abbrev pub IsSorted : Side → List Level → Type 0
IsSorted s [] = Unit
IsSorted s (l ∷ ls) = Chain s l.price ls

abbrev pub Stands : Side → Price → Order → Type 0
Stands s p o = (o.side ≡ s) × (o.price ≡ p)

-- A level has a price that is no NaN and at least one order, all on this side at this price.
abbrev pub IsLevel : Side → Level → Type 0
IsLevel s l = (0 < l.price) × (0 < length l.orders) × All (Stands s l.price) l.orders

pub record AreLevels (s : Side) (ls : List Level) : Type 0 where
  pub levels : All (IsLevel s) ls
  pub sorted : IsSorted s ls

pub Chain-mono :
    (s : Side) (p q : Price) (ls : List Level) → before s p q ≡ true → Chain s q ls → Chain s p ls
Chain-mono s p q [] h c = tt
Chain-mono s p q (l ∷ ls) h c = (before_trans s p q l.price h c.0, c.1)

pub Chain-IsSorted : (s : Side) (p : Price) (ls : List Level) → Chain s p ls → IsSorted s ls
Chain-IsSorted s p [] c = tt
Chain-IsSorted s p (l ∷ ls) c = c.1

push_order-Chain :
    (s : Side) (p q : Price) (o : Order) (ls : List Level)
    → before s q p ≡ true
    → Chain s q ls
    → Chain s q (push_order s p o ls)
unfolding push_order
push_order-Chain s p q o [] h c = (h, tt)
push_order-Chain s p q o (l ∷ ls) h c = elim (Bool-cases (before s p l.price)) [
  | inl e ↦ rw e (h, (e, c.1))
  | inr e ↦ rw e (elim (Bool-cases (before s l.price p)) [
    | inl f ↦ rw f (c.0, push_order-Chain s p l.price o ls f c.1)
    | inr f ↦ rw f c
  ])
]

push_order-IsSorted :
    (s : Side) (p : Price) (o : Order) (ls : List Level)
    → IsSorted s ls
    → IsSorted s (push_order s p o ls)
unfolding push_order
push_order-IsSorted s p o [] c = tt
push_order-IsSorted s p o (l ∷ ls) c = elim (Bool-cases (before s p l.price)) [
  | inl e ↦ rw e (e, c)
  | inr e ↦ rw e (elim (Bool-cases (before s l.price p)) [
    | inl f ↦ rw f (push_order-Chain s p l.price o ls f c)
    | inr f ↦ rw f c
  ])
]

pub same_price :
    (s : Side) (p q : Price) → 0 < p → 0 < q → before s p q ≡ false → before s q p ≡ false → p ≡ q
same_price buy p q h k e f = ground arith
same_price sell p q h k e f = ground arith

push_order-IsLevel :
    (s : Side) (o : Order) (ls : List Level)
    → o.side ≡ s
    → 0 < o.price
    → All (IsLevel s) ls
    → All (IsLevel s) (push_order s o.price o ls)
unfolding push_order
push_order-IsLevel s o [] e h a = ((h, omega arith, ((e, refl), tt)), tt)
push_order-IsLevel s o (l ∷ ls) e h a = elim (Bool-cases (before s o.price l.price)) [
  | inl b ↦ rw b ((h, omega arith, ((e, refl), tt)), a)
  | inr b ↦ rw b (elim (Bool-cases (before s l.price o.price)) [
    | inl c ↦ rw c (a.0, push_order-IsLevel s o ls e h a.1)
    | inr c ↦ rw c (
      (
        a.0.0,
        omega (arith, length-append l.orders (o ∷ [])),
        All-append (Stands s l.price) l.orders (o ∷ []) a.0.2
            ((e, same_price s o.price l.price h a.0.0 b c), tt),
      ),
      a.1,
    )
  ])
]

-- `levels[price].push_back(order)` keeps the levels sorted and filed right.
pub push_order-AreLevels :
    (s : Side) (o : Order) (ls : List Level)
    → o.side ≡ s
    → 0 < o.price
    → AreLevels s ls
    → AreLevels s (push_order s o.price o ls)
push_order-AreLevels s o ls e h v = record {
  levels = push_order-IsLevel s o ls e h v.levels;
  sorted = push_order-IsSorted s o.price o ls v.sorted;
}

pub remove_order-All {κ} :
    (P : Order → Type κ) (i : ℕ) (os : List Order) → All P os → All P (remove_order i os)
unfolding remove_order
remove_order-All P i [] a = tt
remove_order-All P i (o ∷ os) a = elim (Bool-cases (o.order_id == i)) [
  | inl e ↦ rw e a.1
  | inr e ↦ rw e (a.0, remove_order-All P i os a.1)
]

keep_level-IsLevel :
    (s : Side) (l : Level) (ls : List Level)
    → 0 < l.price
    → All (Stands s l.price) l.orders
    → All (IsLevel s) ls
    → All (IsLevel s) (keep_level l ls)
unfolding keep_level
keep_level-IsLevel s l ls h a rest = elim (Bool-cases (is_empty l.orders)) [
  | inl e ↦ rw e rest
  | inr e ↦ rw e ((h, length_pos l.orders e, a), rest)
]

keep_level-Chain :
    (s : Side) (p : Price) (l : Level) (ls : List Level)
    → before s p l.price ≡ true
    → Chain s l.price ls
    → Chain s p (keep_level l ls)
unfolding keep_level
keep_level-Chain s p l ls h c = elim (Bool-cases (is_empty l.orders)) [
  | inl e ↦ rw e (Chain-mono s p l.price ls h c)
  | inr e ↦ rw e (h, c)
]

keep_level-IsSorted :
    (s : Side) (l : Level) (ls : List Level) → Chain s l.price ls → IsSorted s (keep_level l ls)
unfolding keep_level
keep_level-IsSorted s l ls c = elim (Bool-cases (is_empty l.orders)) [
  | inl e ↦ rw e (Chain-IsSorted s l.price ls c)
  | inr e ↦ rw e c
]

pub keep_level-AreLevels :
    (s : Side) (l : Level) (ls : List Level) (os : List Order)
    → All (Stands s l.price) os
    → AreLevels s (l ∷ ls)
    → AreLevels s (keep_level (record l { orders = os }) ls)
keep_level-AreLevels s l ls os a v = record {
  levels = keep_level-IsLevel s (record l { orders = os }) ls v.levels.0.0 a v.levels.1;
  sorted = keep_level-IsSorted s (record l { orders = os }) ls v.sorted;
}

erase_order-Chain :
    (s : Side) (p q : Price) (i : ℕ) (ls : List Level)
    → Chain s q ls
    → Chain s q (erase_order p i ls)
unfolding erase_order
erase_order-Chain s p q i [] c = tt
erase_order-Chain s p q i (l ∷ ls) c = elim (Bool-cases (eq_price l.price p)) [
  | inl e ↦ rw e (keep_level-Chain s q (record l { orders = remove_order i l.orders }) ls c.0 c.1)
  | inr e ↦ rw e (c.0, erase_order-Chain s p l.price i ls c.1)
]

erase_order-IsSorted :
    (s : Side) (p : Price) (i : ℕ) (ls : List Level)
    → IsSorted s ls
    → IsSorted s (erase_order p i ls)
unfolding erase_order
erase_order-IsSorted s p i [] c = tt
erase_order-IsSorted s p i (l ∷ ls) c = elim (Bool-cases (eq_price l.price p)) [
  | inl e ↦ rw e (keep_level-IsSorted s (record l { orders = remove_order i l.orders }) ls c)
  | inr e ↦ rw e (erase_order-Chain s p l.price i ls c)
]

erase_order-IsLevel :
    (s : Side) (p : Price) (i : ℕ) (ls : List Level)
    → All (IsLevel s) ls
    → All (IsLevel s) (erase_order p i ls)
unfolding erase_order
erase_order-IsLevel s p i [] a = tt
erase_order-IsLevel s p i (l ∷ ls) a = elim (Bool-cases (eq_price l.price p)) [
  | inl e ↦ rw e (
      keep_level-IsLevel s (record l { orders = remove_order i l.orders }) ls a.0.0
        (remove_order-All (Stands s l.price) i l.orders a.0.2) a.1)
  | inr e ↦ rw e (a.0, erase_order-IsLevel s p i ls a.1)
]

-- `erase(iterator)` keeps the levels sorted and filed right.
pub erase_order-AreLevels :
    (s : Side) (p : Price) (i : ℕ) (ls : List Level)
    → AreLevels s ls
    → AreLevels s (erase_order p i ls)
erase_order-AreLevels s p i ls v = record {
  levels = erase_order-IsLevel s p i ls v.levels;
  sorted = erase_order-IsSorted s p i ls v.sorted;
}
