-- ===== src/Orderbook/Coverage.antt =====
-- `CanMatch` and `CanFullyFill` of Orderbook/src/orderbook.cpp against what they are to decide.
use mathlib.Core.Bool.{Bool-set}
use mathlib.Core.List.{Perm, Permᴰ}
use mathlib.Core.Logic.{∥∥₁_elim}
use osborne_x.Base.{
  ℕ, ◌+◌, ◌-◌, ◌≡◌, refl, sym, ◌∙◌, inl, inr, Bool, true, false, ◌&&◌, [], ◌∷◌, arith,
  if◌then◌else◌, leb, Bool-cases,
}
use osborne_x.Base.Price.{Price}
use osborne_x.Orderbook.Types.{Side}
use osborne_x.Orderbook.LevelData.{LevelDataMap, skips, covers}

-- What the levels from the threshold to the price hold together, and whether there is one.
abbrev pub reachable : Side → Price → Price → LevelDataMap → ℕ
reachable s t price [] = 0
reachable s t price ((p, d) ∷ m) =
    let rest = reachable s t price m in if skips s t price p then rest else d.quantity + rest

abbrev pub reaches : Side → Price → Price → LevelDataMap → Bool
reaches s t price [] = false
reaches s t price ((p, d) ∷ m) = if skips s t price p then reaches s t price m else true

reachable_zero :
    (s : Side) (t price : Price) (m : LevelDataMap)
    → reaches s t price m ≡ false
    → reachable s t price m ≡ 0
reachable_zero s t price [] h = refl
reachable_zero s t price ((p, d) ∷ m) h = ground (arith, reachable_zero s t price m)

-- The loop of `CanFullyFill` answers whether the levels from the threshold to the price hold at
-- least the quantity, and one of them exists.
pub covers-reachable :
    (s : Side) (t price : Price) (q : ℕ) (m : LevelDataMap)
    → covers s t price q m ≡ (reaches s t price m && leb q (reachable s t price m))
unfolding covers
covers-reachable s t price q [] = refl
covers-reachable s t price q ((p, d) ∷ m) = elim (Bool-cases (skips s t price p)) [
  | inl e ↦ rw e (covers-reachable s t price q m)
  | inr e ↦ rw e (
      ground (
        arith,
        covers-reachable s t price (q - d.quantity) m,
        reachable_zero s t price m,
        Bool-cases (reaches s t price m),
      ))
]

reachable-perm :
    (s : Side) (t price : Price) {m m' : LevelDataMap}
    → Permᴰ m m'
    → reachable s t price m ≡ reachable s t price m'
reachable-perm s t price Permᴰ.nil = refl
reachable-perm s t price (Permᴰ.cons e h) = ground (arith, reachable-perm s t price h)
reachable-perm s t price (Permᴰ.swap e f) = ground arith
reachable-perm s t price (Permᴰ.trans h k) = reachable-perm s t price h ∙ reachable-perm s t price k

reaches-perm :
    (s : Side) (t price : Price) {m m' : LevelDataMap}
    → Permᴰ m m'
    → reaches s t price m ≡ reaches s t price m'
reaches-perm s t price Permᴰ.nil = refl
reaches-perm s t price (Permᴰ.cons e h) = ground (arith, reaches-perm s t price h)
reaches-perm s t price (Permᴰ.swap e f) = ground arith
reaches-perm s t price (Permᴰ.trans h k) = reaches-perm s t price h ∙ reaches-perm s t price k

-- The order in which the hash map is iterated does not change the answer.
pub covers-perm :
    (s : Side) (t price : Price) (q : ℕ) (m m' : LevelDataMap)
    → Perm m m'
    → covers s t price q m ≡ covers s t price q m'
covers-perm s t price q m m' h = ∥∥₁_elim h (Bool-set _ _) (λ d.
    covers-reachable s t price q m
    ∙ rw (reaches-perm s t price d, reachable-perm s t price d)
        (sym (covers-reachable s t price q m')))
