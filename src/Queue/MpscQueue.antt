-- ===== src/Queue/MpscQueue.antt =====
-- `MpscQueue` of Queue/inc/Queue/mpsc_queue.hpp. A call runs under the lock, so it is one step on the
-- state; where its wait would not end yet, it blocks and changes nothing.
use osborne_x.Base.{
  ℕ, Bool, true, false, ◌||◌, not, List, [], ◌∷◌, ◌++◌, ◌≡◌, refl, ◌⊎◌, inl, inr, Option, none,
  some, if◌then◌else◌, ltb, ◌==◌, length, is_empty,
}

pub record MpscQueue {ℓ} (A : Type ℓ) : Type ℓ where
  pub items : List A
  pub capacity : ℕ
  pub closed : Bool

pub data Outcome {ℓ} (A : Type ℓ) : Type ℓ where
  blocks : Outcome A
  returns : A → Outcome A

pub Outcome-cases {ℓ} : {A : Type ℓ} (o : Outcome A) → (o ≡ blocks) ⊎ ((a : A) × (o ≡ returns a))
Outcome-cases blocks = inl refl
Outcome-cases (returns a) = inr (a, refl)

module _ {ℓ} {A : Type ℓ} where
  unfoldable pub make_queue : ℕ → MpscQueue A
  make_queue n = record { items = []; capacity = if n == 0 then 1 else n; closed = false }

  -- The waiting condition, then the test for a closed queue.
  unfoldable pub push : A → MpscQueue A → Outcome (MpscQueue A)
  push v q =
      if ltb (length q.items) q.capacity || q.closed
      then (if q.closed then returns q else returns (record q { items = q.items ++ v ∷ [] }))
      else blocks

  unfoldable pub take_front : List A → MpscQueue A → Option A × MpscQueue A
  take_front [] q = (none, q)
  take_front (v ∷ vs) q = (some v, record q { items = vs })

  unfoldable pub pop_blocking : MpscQueue A → Outcome (Option A × MpscQueue A)
  unfolding take_front
  pop_blocking q =
      if not (is_empty q.items) || q.closed then returns (take_front q.items q) else blocks

  unfoldable pub close : MpscQueue A → MpscQueue A
  close q = record q { closed = true }

  unfoldable pub size : MpscQueue A → ℕ
  size q = length q.items
