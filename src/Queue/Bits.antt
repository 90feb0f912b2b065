-- ===== src/Queue/Bits.antt =====
-- `std::bit_ceil`, and `&` with a mask of ones: the index arithmetic of Queue/inc/Queue/ring_buffer.hpp.
use Prim.Native.Nat.{bit_and, bit_and-bitwise, digits}
use native.Mathlib.Nat.{pow-succ', div-add-mod, mod-lt, mod-eq_of_lt, mul-add-mod_self_left}
use osborne_x.Base.{
  ℕ, zero, suc, ◌+◌, ◌-◌, ◌*◌, ◌/◌, ◌%◌, ◌^◌, ◌≤◌, ◌<◌, ◌≡◌, refl, ap, sym, ◌∙◌, ◌≢◌, min, arith,
  inl, inr, if◌then◌else◌, leb, Bool-cases, leb→le,
}

-- The power of two is doubled until it reaches `n`; `n` rounds are enough.
unfoldable pub ceil_from : ℕ → ℕ → ℕ → ℕ
ceil_from zero p n = p
ceil_from (suc fuel) p n = let rest = ceil_from fuel (2 * p) n in if leb n p then p else rest

unfoldable pub bit_ceil : ℕ → ℕ
unfolding ceil_from
bit_ceil n = ceil_from n 1 n

pub two-pow_pos : (k : ℕ) → 0 < 2 ^ k
two-pow_pos zero = omega arith
two-pow_pos (suc k) = omega (arith, pow-succ' 2 k, two-pow_pos k)

ceil_from_lem :
    (fuel k n : ℕ) → n ≤ 2 ^ k + fuel → (m : ℕ) × (ceil_from fuel (2 ^ k) n ≡ 2 ^ m) × (n ≤ 2 ^ m)
unfolding ceil_from
ceil_from_lem zero k n h = (k, refl, omega arith)
ceil_from_lem (suc fuel) k n h = elim (Bool-cases (leb n (2 ^ k))) [
  | inl e ↦ rw e (k, refl, leb→le n (2 ^ k) e)
  | inr e ↦
      rw (e, ← pow-succ' 2 k)
        (ceil_from_lem fuel (suc k) n (omega (arith, pow-succ' 2 k, two-pow_pos k)))
]

-- `bit_ceil` is a power of two that is not below its argument.
pub bit_ceil_lem : (n : ℕ) → (m : ℕ) × (bit_ceil n ≡ 2 ^ m) × (n ≤ 2 ^ m)
unfolding bit_ceil
bit_ceil_lem n = ceil_from_lem n 0 n (omega arith)

-- The loop over binary digits that `&` stands for, with `n` rounds.
abbrev digit_loop : ℕ → ℕ → ℕ → ℕ
digit_loop n x mask = digits (λ d. zero) min n x mask

-- More rounds than the number has digits change nothing.
digit_loop_enough : (n m x mask : ℕ) → x ≤ n → x ≤ m → digit_loop n x mask ≡ digit_loop m x mask
digit_loop_enough zero zero x mask h k = refl
digit_loop_enough zero (suc m) zero mask h k = refl
digit_loop_enough zero (suc m) (suc x) mask h k = absurd (omega arith)
digit_loop_enough (suc n) zero zero mask h k = refl
digit_loop_enough (suc n) zero (suc x) mask h k = absurd (omega arith)
digit_loop_enough (suc n) (suc m) zero mask h k = refl
digit_loop_enough (suc n) (suc m) (suc x) mask h k =
    omega (arith, digit_loop_enough n m (suc x / 2) (mask / 2) (omega arith) (omega arith))

bit_and-halves :
    (x mask : ℕ) → bit_and x mask ≡ bit_and (x / 2) (mask / 2) * 2 + min (x % 2) (mask % 2)
bit_and-halves zero mask = omega (arith, bit_and-bitwise 0 mask, bit_and-bitwise 0 (mask / 2))
bit_and-halves (suc x) mask = omega (
  arith,
  bit_and-bitwise (suc x) mask,
  bit_and-bitwise (suc x / 2) (mask / 2),
  digit_loop_enough x (suc x / 2) (suc x / 2) (mask / 2) (omega arith) (omega arith),
)

bit_and_zero_below : (n x : ℕ) → x ≤ n → bit_and x 0 ≡ 0
bit_and_zero_below zero x h = let e : x ≡ 0 = omega arith in rw e (bit_and-bitwise 0 0)
bit_and_zero_below (suc n) zero h = bit_and-bitwise 0 0
bit_and_zero_below (suc n) (suc x) h =
    omega (arith, bit_and-halves (suc x) 0, bit_and_zero_below n (suc x / 2) (omega arith))

mod-double : (x m : ℕ) → 0 < m → x % (2 * m) ≡ (x / 2 % m) * 2 + x % 2
mod-double x m h =
    let r : ℕ = (x / 2 % m) * 2 + x % 2 in
    let whole : 2 * m * (x / 2 / m) + r ≡ x = omega (arith, div-add-mod (x / 2) m) in
    let small : r < 2 * m = omega (arith, mod-lt (x / 2) h) in
    ap (λ y. y % (2 * m)) (sym whole)
    ∙ mul-add-mod_self_left (2 * m) (x / 2 / m) r
    ∙ mod-eq_of_lt small

mask_double :
    (x m : ℕ) → 0 < m → bit_and (x / 2) (m - 1) ≡ x / 2 % m → bit_and x (2 * m - 1) ≡ x % (2 * m)
mask_double x m h e =
    let half : (2 * m - 1) / 2 ≡ m - 1 = omega arith in
    let odd : (2 * m - 1) % 2 ≡ 1 = omega arith in
    rw (bit_and-halves x (2 * m - 1), half, odd, e, mod-double x m h) (omega arith)

-- `&` with a mask of `k` ones is the remainder by 2 to the power of `k`.
pub bit_and-mask : (k x : ℕ) → bit_and x (2 ^ k - 1) ≡ x % 2 ^ k
bit_and-mask zero x = omega (arith, bit_and_zero_below x x (omega arith))
bit_and-mask (suc k) x =
    rw (pow-succ' 2 k) (mask_double x (2 ^ k) (two-pow_pos k) (bit_and-mask k (x / 2)))

-- Fewer than `m` steps apart, two numbers differ by more than a multiple of `m`.
pub mod-ne : (m i n : ℕ) → i < n → n < i + m → i % m ≢ n % m
mod-ne m i n h k e = grind (arith, div-add-mod i m, div-add-mod n m)
