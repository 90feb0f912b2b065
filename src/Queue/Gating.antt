-- ===== src/Queue/Gating.antt =====
-- How `claim_blocking` of Queue/inc/Queue/ring_buffer.hpp holds the producer back.
use osborne_x.Base.{
  ℕ, ◌+◌, ◌^◌, ◌≤◌, ◌<◌, ◌≡◌, refl, sym, ap, subst, ◌∙◌, ◌⊎◌, inl, inr, true, List, [], ◌∷◌, ◌++◌,
  none, some, arith, All, length, Option-cases, Bool-cases, get_elem?,
}
use osborne_x.Queue.RingBuffer.{
  word, RingBuffer, Consumer, lossy, capacity, slot_index, is_free, write_value, write_seq, publish,
  claim_blocking, push_blocking,
}
use osborne_x.Queue.History.{Holds, push_blocking-Holds}

-- A cursor is not ahead of what was produced.
abbrev pub IsReader : ℕ → Consumer → Type 0
IsReader produced c = c.sequence ≤ produced

-- A lossless cursor is at most a whole buffer behind what was produced.
abbrev pub IsKept : ℕ → ℕ → Consumer → Type 0
IsKept size produced c = (c.policy ≡ lossy) ⊎ (produced ≤ c.sequence + size)

is_free-IsKept :
    (size produced : ℕ) (cs : List Consumer)
    → produced < word
    → All (IsReader produced) cs
    → is_free produced size cs ≡ true
    → All (IsKept size (produced + 1)) cs
unfolding is_free
is_free-IsKept size produced [] h a e = tt
is_free-IsKept size produced (c ∷ cs) h a e =
    (ground (arith, a.0), is_free-IsKept size produced cs h a.1 (ground arith))

-- A lossless cursor leaves at least one slot of the buffer to the producer.
abbrev pub IsClear : ℕ → ℕ → Consumer → Type 0
IsClear size produced c = (c.policy ≡ lossy) ⊎ (produced < c.sequence + size)

IsClear-is_free :
    (size produced : ℕ) (cs : List Consumer)
    → produced < word
    → All (IsReader produced) cs
    → All (IsClear size produced) cs
    → is_free produced size cs ≡ true
unfolding is_free
IsClear-is_free size produced [] h a c = refl
IsClear-is_free size produced (x ∷ cs) h a c =
    ground (arith, a.0, c.0, IsClear-is_free size produced cs h a.1 c.1)

is_free-IsClear :
    (size produced : ℕ) (cs : List Consumer)
    → produced < word
    → All (IsReader produced) cs
    → is_free produced size cs ≡ true
    → All (IsClear size produced) cs
unfolding is_free
is_free-IsClear size produced [] h a e = tt
is_free-IsClear size produced (c ∷ cs) h a e =
    (ground (arith, a.0), is_free-IsClear size produced cs h a.1 (ground arith))

module _ {ℓ} {A : Type ℓ} where
  write_value-consumers :
      (s : ℕ) (v : A) (r : RingBuffer A) → (write_value s v r).consumers ≡ r.consumers
  unfolding write_value
  write_value-consumers s v r = ground (arith, Option-cases (get_elem? r.slots (slot_index r s)))

  publish-consumers : (s : ℕ) (r : RingBuffer A) → (publish s r).consumers ≡ r.consumers
  unfolding publish write_seq
  publish-consumers s r = ground (arith, Option-cases (get_elem? r.slots (slot_index r s)))

  pub push_blocking-free :
      (v : A) (r r' : RingBuffer A)
      → push_blocking v r ≡ some r'
      → (is_free r.next_to_claim (capacity r) r.consumers ≡ true) × (r'.consumers ≡ r.consumers)
  unfolding push_blocking claim_blocking
  push_blocking-free v r r' e =
      elim (Bool-cases (is_free r.next_to_claim (capacity r) r.consumers)) [
        | inl h ↦ (
          h,
          ground (
            arith,
            write_value-consumers r.next_to_claim v r,
            publish-consumers r.next_to_claim (write_value r.next_to_claim v r),
          ),
        )
        | inr h ↦ absurd (ground arith)
      ]

  -- `push_blocking` does not overrun a lossless cursor: when it returns, the cursors are as they were,
  -- and each lossless one is still at most a whole buffer behind, the new value counted. No cursor is
  -- ahead of the producer, and sequences have not yet wrapped.
  pub push_blocking-IsKept :
      (k : ℕ) (history : List A) (v : A) (r r' : RingBuffer A)
      → length history < word
      → Holds k history r
      → All (IsReader (length history)) r.consumers
      → push_blocking v r ≡ some r'
      → (r'.consumers ≡ r.consumers) × All (IsKept (2 ^ k) (length history + 1)) r'.consumers
  push_blocking-IsKept k history v r r' fits h a e =
      let (free, same) = push_blocking-free v r r' e in
      let open_ : is_free (length history) (2 ^ k) r.consumers ≡ true =
        ap (λ n. is_free n (2 ^ k) r.consumers) (sym h.claimed)
        ∙ ap (λ n. is_free r.next_to_claim n r.consumers) (sym h.sized)
        ∙ free in
      (
        same,
        subst (All (IsKept (2 ^ k) (length history + 1))) (sym same)
            (is_free-IsKept (2 ^ k) (length history) r.consumers fits a open_),
      )

  is_free-Holds :
      (k : ℕ) (history : List A) (r : RingBuffer A)
      → Holds k history r
      → is_free r.next_to_claim (capacity r) r.consumers
        ≡ is_free (length history) (2 ^ k) r.consumers
  is_free-Holds k history r h =
      ap (λ n. is_free n (capacity r) r.consumers) h.claimed
      ∙ ap (λ n. is_free (length history) n r.consumers) h.sized

  -- `push_blocking` returns exactly if every lossless cursor leaves a slot of the buffer free, that is, is
  -- less than a whole buffer behind: then the buffer holds the new value after all the others.
  -- Otherwise it spins. No cursor is ahead of the producer, and sequences have not yet wrapped.
  pub push_blocking-returns :
      (k : ℕ) (history : List A) (v : A) (r : RingBuffer A)
      → length history + 1 < word
      → Holds k history r
      → All (IsReader (length history)) r.consumers
      → (All (IsClear (2 ^ k) (length history)) r.consumers
          × (r' : RingBuffer A) × (push_blocking v r ≡ some r')
          × Holds k (history ++ v ∷ []) r')
        ⊎ ((¬ All (IsClear (2 ^ k) (length history)) r.consumers) × (push_blocking v r ≡ none))
  unfolding push_blocking claim_blocking
  push_blocking-returns k history v r fits h a =
      let same = is_free-Holds k history r h in
      elim (Bool-cases (is_free (length history) (2 ^ k) r.consumers)) [
        | inl e ↦
            let r' = publish r.next_to_claim (write_value r.next_to_claim v r) in
            let returns : push_blocking v r ≡ some r' = ground (arith, same) in
            inl (
              is_free-IsClear (2 ^ k) (length history) r.consumers (omega arith) a e,
              r',
              returns,
              push_blocking-Holds k history v r r' fits h returns,
            )
        | inr e ↦ inr (
          λ c.
              let free = IsClear-is_free (2 ^ k) (length history) r.consumers (omega arith) a c in
              absurd cc,
          ground (arith, same),
        )
      ]
