-- ===== src/Queue/History.antt =====
-- What a `RingBuffer` of Queue/inc/Queue/ring_buffer.hpp holds of the values pushed so far.
use osborne_x.Base.{
  ℕ, zero, suc, ◌+◌, ◌-◌, ◌%◌, ◌^◌, ◌≤◌, ◌<◌, ◌≡◌, refl, sym, ap, subst, ◌∙◌, inl, inr, List, [],
  ◌∷◌, ◌++◌, some, Bool-cases, arith, if◌then◌else◌, ◌==◌, get_elem?, set, length, length-append,
  length-set, length-replicate, get_elem?-set_self, get_elem?-set_ne, get_elem?-append_last,
  get_elem?-append_left,
}
use Prim.Native.Nat.{bit_and}
use native.Mathlib.Nat.{mod-lt}
use osborne_x.Queue.Bits.{bit_ceil_lem, bit_and-mask, two-pow_pos, mod-ne}
use osborne_x.Queue.RingBuffer.{
  word, Slot, RingBuffer, capacity, slot_index, make_ring, write_value, write_seq, publish,
  push_overwrite, claim_blocking, push_blocking,
}

module _ {ℓ} {A : Type ℓ} where
  pub get_elem?-some : (xs : List A) (i : ℕ) → i < length xs → (x : A) × (get_elem? xs i ≡ some x)
  get_elem?-some [] i h = absurd (omega arith)
  get_elem?-some (x ∷ xs) zero h = (x, refl)
  get_elem?-some (x ∷ xs) (suc i) h = get_elem?-some xs i (omega arith)

  set-set : (xs : List A) (i : ℕ) (v w : A) → set (set xs i v) i w ≡ set xs i w
  set-set [] i v w = refl
  set-set (x ∷ xs) zero v w = refl
  set-set (x ∷ xs) (suc i) v w = ap (◌∷◌ x) (set-set xs i v w)

-- The buffer has 2 to the power of `k` slots, and its last so many values stand in their slots,
-- under their sequences.
pub record Holds {ℓ} {A : Type ℓ} (k : ℕ) (history : List A) (r : RingBuffer A) : Type ℓ where
  pub sized : capacity r ≡ 2 ^ k
  pub slotted : length r.slots ≡ 2 ^ k
  pub claimed : r.next_to_claim ≡ length history
  pub produced : r.producer_sequence ≡ length history
  pub kept :
      (i : ℕ)
      → i < length history
      → length history ≤ i + 2 ^ k
      → (v : A) × (get_elem? history i ≡ some v)
        × (get_elem? r.slots (i % 2 ^ k) ≡ some (record { seq = i; value = v }))

module _ {ℓ} {A : Type ℓ} where
  pub slot_index-mod :
      (k : ℕ) (r : RingBuffer A) (s : ℕ) → capacity r ≡ 2 ^ k → slot_index r s ≡ s % 2 ^ k
  slot_index-mod k r s h =
      let m : r.mask ≡ 2 ^ k - 1 = omega arith in ap (bit_and s) m ∙ bit_and-mask k s

  -- The constructor makes an empty buffer with a power of two of slots, not fewer than asked for.
  pub make_ring-Holds : (a : A) (n : ℕ) → (k : ℕ) × Holds k [] (make_ring a n) × (n ≤ 2 ^ k)
  unfolding make_ring
  make_ring-Holds a n =
      let (k, e, h) = bit_ceil_lem (if n == 0 then 1 else n) in
      (
        k,
        record {
          sized = omega (arith, two-pow_pos k);
          slotted = length-replicate _ _ ∙ omega (arith, e, two-pow_pos k);
          claimed = refl;
          produced = refl;
          kept = λ i h _. absurd (omega arith);
        },
        ground (arith, two-pow_pos k),
      )

  pub write_value_lem :
      (s : ℕ) (v : A) (r : RingBuffer A) (x : Slot A)
      → get_elem? r.slots (slot_index r s) ≡ some x
      → write_value s v r
        ≡ record r { slots = set r.slots (slot_index r s) (record x { value = v }) }
  unfolding write_value
  write_value_lem s v r x e = rw (e, write_value)

  write_seq_lem :
      (s : ℕ) (r : RingBuffer A) (x : Slot A)
      → get_elem? r.slots (slot_index r s) ≡ some x
      → (write_seq s r).slots ≡ set r.slots (slot_index r s) (record x { seq = s })
  unfolding write_seq
  write_seq_lem s r x e = rw (e, write_seq)

  pub slot_at :
      (k s : ℕ) (r : RingBuffer A)
      → capacity r ≡ 2 ^ k
      → length r.slots ≡ 2 ^ k
      → slot_index r s < length r.slots
  slot_at k s r h l = omega (arith, slot_index-mod k r s h, mod-lt s (two-pow_pos k))

  write-slots :
      (s : ℕ) (v : A) (r : RingBuffer A) (x : Slot A)
      → slot_index r s < length r.slots
      → get_elem? r.slots (slot_index r s) ≡ some x
      → (write_seq s (write_value s v r)).slots
        ≡ set r.slots (slot_index r s) (record { seq = s; value = v })
  write-slots s v r x h e = rw (write_value_lem s v r x e) (
      write_seq_lem s (record r { slots = set r.slots (slot_index r s) (record x { value = v }) })
        (record x { value = v })
        (get_elem?-set_self r.slots (slot_index r s) (record x { value = v }) h)
      ∙ set-set r.slots (slot_index r s) (record x { value = v }) (record { seq = s; value = v }))

  -- The two stores of a push put the value into its slot, under its sequence.
  push-slots :
      (k : ℕ) (v : A) (r : RingBuffer A) (s : ℕ)
      → capacity r ≡ 2 ^ k
      → length r.slots ≡ 2 ^ k
      → (publish s (write_value s v r)).slots
        ≡ set r.slots (s % 2 ^ k) (record { seq = s; value = v })
  unfolding publish
  push-slots k v r s h l =
      let (x, e) = get_elem?-some r.slots (slot_index r s) (slot_at k s r h l) in
      write-slots s v r x (slot_at k s r h l) e
      ∙ ap (λ i. set r.slots i (record { seq = s; value = v })) (slot_index-mod k r s h)

  mask-push : (v : A) (r : RingBuffer A) (s : ℕ) → (publish s (write_value s v r)).mask ≡ r.mask
  unfolding publish write_value write_seq
  mask-push v r s = ground arith

  push-kept :
      (k : ℕ) (history : List A) (v : A) (r : RingBuffer A) (i : ℕ)
      → Holds k history r
      → i < length history + 1
      → length history + 1 ≤ i + 2 ^ k
      → (x : A) × (get_elem? (history ++ v ∷ []) i ≡ some x)
        × (get_elem?
              (set r.slots (length history % 2 ^ k) (record { seq = length history; value = v }))
              (i % 2 ^ k)
            ≡ some (record { seq = i; value = x }))
  push-kept k history v r i h lt ge = elim (Bool-cases (i == length history)) [
    | inl e ↦
        let e' : i ≡ length history = ground arith in
        (
          v,
          rw e' (get_elem?-append_last history v),
          rw e' (
              get_elem?-set_self r.slots (length history % 2 ^ k) _
                (omega (arith, h.slotted, mod-lt (length history) (two-pow_pos k)))),
        )
    | inr e ↦
        let before : i < length history = ground arith in
        let (x, at, slot) = h.kept i before (omega arith) in
        (
          x,
          get_elem?-append_left history v i before ∙ at,
          get_elem?-set_ne r.slots (length history % 2 ^ k) (i % 2 ^ k) _
                (λ e. mod-ne (2 ^ k) i (length history) before (omega arith) (sym e))
              ∙ slot,
        )
  ]

  push-Holds :
      (k : ℕ) (history : List A) (v : A) (r : RingBuffer A)
      → length history + 1 < word
      → Holds k history r
      → let s = length history in Holds k (history ++ v ∷ []) (publish s (write_value s v r))
  unfolding publish
  push-Holds k history v r fits h = record {
    sized = omega (arith, mask-push v r (length history), h.sized);
    slotted = omega (
      arith,
      ap length (push-slots k v r (length history) h.sized h.slotted),
      length-set r.slots (length history % 2 ^ k) (record { seq = length history; value = v }),
      h.slotted,
    );
    claimed = omega (arith, length-append history (v ∷ []));
    produced = omega (arith, length-append history (v ∷ []));
    kept = λ i lt ge. rw (push-slots k v r (length history) h.sized h.slotted) (
        push-kept k history v r i h (omega (arith, length-append history (v ∷ [])))
          (omega (arith, length-append history (v ∷ []))));
  }

  -- `push_overwrite` appends the value to the history. Sequences have not yet wrapped.
  pub push_overwrite-Holds :
      (k : ℕ) (history : List A) (v : A) (r : RingBuffer A)
      → length history + 1 < word
      → Holds k history r
      → Holds k (history ++ v ∷ []) (push_overwrite v r)
  unfolding push_overwrite
  push_overwrite-Holds k history v r fits h =
      subst (λ s. Holds k (history ++ v ∷ []) (publish s (write_value s v r))) (sym h.claimed)
        (push-Holds k history v r fits h)

  -- `push_blocking` appends the value to the history, when it returns. Sequences have not yet wrapped.
  pub push_blocking-Holds :
      (k : ℕ) (history : List A) (v : A) (r r' : RingBuffer A)
      → length history + 1 < word
      → Holds k history r
      → push_blocking v r ≡ some r'
      → Holds k (history ++ v ∷ []) r'
  unfolding push_blocking claim_blocking push_overwrite
  push_blocking-Holds k history v r r' fits h e =
      subst (Holds k (history ++ v ∷ [])) (ground arith) (push_overwrite-Holds k history v r fits h)
