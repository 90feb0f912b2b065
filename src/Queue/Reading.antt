-- ===== src/Queue/Reading.antt =====
-- What `try_read` of Queue/inc/Queue/ring_buffer.hpp returns, against the history of the buffer.
use osborne_x.Base.{
  ℕ, ◌+◌, ◌-◌, ◌%◌, ◌^◌, ◌≤◌, ◌<◌, ◌≡◌, refl, sym, ap, ap₂, ◌∙◌, ◌⊎◌, List, none, some, arith,
  if◌then◌else◌, ltb, get_elem?, set, length, get_elem?-set_self,
}
use native.Mathlib.Nat.{mod-lt, add-mod_right}
use osborne_x.Queue.Bits.{two-pow_pos}
use osborne_x.Queue.RingBuffer.{
  word, next, Slot, RingBuffer, lossy, Consumer, ok, empty, capacity, slot_index, write_value,
  catch_up, read_slot, read_at, try_read,
}
use osborne_x.Queue.History.{Holds, slot_index-mod, write_value_lem}

-- Where a cursor reads next: at its own position, or at the oldest value still held if that is
-- further on.
abbrev pub target : ℕ → ℕ → Consumer → ℕ
target produced size c = if ltb (c.sequence + size) produced then produced - size else c.sequence

-- The cursor there, the values that it skips counted, and the cursor after reading.
abbrev pub caught : ℕ → ℕ → Consumer → Consumer
caught produced size c = record c {
  sequence = target produced size c;
  dropped_count = (c.dropped_count + (target produced size c - c.sequence)) % word;
}

abbrev pub advanced : ℕ → ℕ → Consumer → Consumer
advanced produced size c = record (caught produced size c) { sequence = target produced size c + 1 }

-- A cursor behind the producer; a lossless one is at most a whole buffer behind.
pub record IsBehind (produced size : ℕ) (c : Consumer) : Type 0 where
  pub behind : c.sequence < produced
  pub gated : (c.policy ≡ lossy) ⊎ (produced ≤ c.sequence + size)
  pub counted : c.dropped_count < word

catch_up_lem :
    (produced size : ℕ) (c : Consumer)
    → produced < word
    → IsBehind produced size c
    → catch_up produced size c ≡ caught produced size c
unfolding catch_up
catch_up_lem produced size c h b = ground arith

target_bounds :
    (produced size : ℕ) (c : Consumer)
    → 0 < size
    → IsBehind produced size c
    → (target produced size c < produced) × (produced ≤ target produced size c + size)
target_bounds produced size c h b = ground arith

module _ {ℓ} {A : Type ℓ} where
  read_slot-ok :
      (x y z : Slot A) (c : Consumer)
      → x.seq ≡ c.sequence
      → z.seq ≡ c.sequence
      → read_slot (some x) (some y) (some z) c
        ≡ (ok, some y.value, record c { sequence = next c.sequence })
  unfolding read_slot
  read_slot-ok x y z c e f = ground arith

  read_at-ok :
      (k : ℕ) (r s t : RingBuffer A) (c : Consumer) (x y z : Slot A)
      → capacity r ≡ 2 ^ k
      → get_elem? r.slots (c.sequence % 2 ^ k) ≡ some x
      → get_elem? s.slots (c.sequence % 2 ^ k) ≡ some y
      → get_elem? t.slots (c.sequence % 2 ^ k) ≡ some z
      → x.seq ≡ c.sequence
      → z.seq ≡ c.sequence
      → read_at r s t c ≡ (ok, some y.value, record c { sequence = next c.sequence })
  unfolding read_at
  read_at-ok k r s t c x y z h e f g p q =
      rw (slot_index-mod k r c.sequence h, e, f, g) (read_slot-ok x y z c p q)

  -- A cursor that has seen everything gets `empty`, and stays.
  pub try_read-empty :
      (r s t : RingBuffer A) (c : Consumer)
      → r.producer_sequence ≤ c.sequence
      → try_read r s t c ≡ (empty, none, c)
  unfolding try_read
  try_read-empty r s t c h = ground arith

  try_read_behind :
      (r s t : RingBuffer A) (c : Consumer)
      → c.sequence < r.producer_sequence
      → try_read r s t c ≡ read_at r s t (catch_up r.producer_sequence (capacity r) c)
  unfolding try_read
  try_read_behind r s t c h = ground arith

  caught_up :
      (k : ℕ) (history : List A) (r : RingBuffer A) (c : Consumer)
      → length history < word
      → Holds k history r
      → IsBehind (length history) (2 ^ k) c
      → catch_up r.producer_sequence (capacity r) c ≡ caught (length history) (2 ^ k) c
  caught_up k history r c h v b =
      ap₂ (λ n m. catch_up n m c) v.produced v.sized ∙ catch_up_lem (length history) (2 ^ k) c h b

  -- A read by a cursor that is behind, given the slots that its three loads see.
  pub try_read-ok :
      (k : ℕ) (history : List A) (r s t : RingBuffer A) (c : Consumer) (x y z : Slot A)
      → length history < word
      → Holds k history r
      → IsBehind (length history) (2 ^ k) c
      → let i = target (length history) (2 ^ k) c in
        get_elem? r.slots (i % 2 ^ k) ≡ some x
        → get_elem? s.slots (i % 2 ^ k) ≡ some y
        → get_elem? t.slots (i % 2 ^ k) ≡ some z
        → x.seq ≡ i
        → z.seq ≡ i
        → try_read r s t c ≡ (ok, some y.value, advanced (length history) (2 ^ k) c)
  try_read-ok k history r s t c x y z h v b e f g p q =
      try_read_behind r s t c (omega (arith, v.produced, b.behind))
      ∙ ap (read_at r s t) (caught_up k history r c h v b)
      ∙ read_at-ok k r s t (caught (length history) (2 ^ k) c) x y z v.sized e f g p q
      ∙ ap
          (λ (n : ℕ).
            (ok, some y.value, record (caught (length history) (2 ^ k) c) { sequence = n }))
          (omega (arith, target_bounds (length history) (2 ^ k) c (two-pow_pos k) b))

  -- With nothing between its loads `try_read` returns the next value of the history: the one at the
  -- cursor, or for a lossy cursor that is more than a whole buffer behind the oldest one that is
  -- still held, with all that it skips counted as dropped. The cursor goes on by one from there.
  pub try_read_lem :
      (k : ℕ) (history : List A) (r : RingBuffer A) (c : Consumer)
      → length history < word
      → Holds k history r
      → IsBehind (length history) (2 ^ k) c
      → (v : A) × (get_elem? history (target (length history) (2 ^ k) c) ≡ some v)
        × (try_read r r r c ≡ (ok, some v, advanced (length history) (2 ^ k) c))
  try_read_lem k history r c h v b =
      let bounds = target_bounds (length history) (2 ^ k) c (two-pow_pos k) b in
      let (a, at, slot) = v.kept (target (length history) (2 ^ k) c) bounds.0 bounds.1 in
      (a, at, try_read-ok k history r r r c _ _ _ h v b slot slot slot refl refl)

  write_value-slot :
      (k n i : ℕ) (w : A) (r : RingBuffer A) (x : Slot A)
      → capacity r ≡ 2 ^ k
      → length r.slots ≡ 2 ^ k
      → n % 2 ^ k ≡ i % 2 ^ k
      → get_elem? r.slots (i % 2 ^ k) ≡ some x
      → get_elem? (write_value n w r).slots (i % 2 ^ k) ≡ some (record x { value = w })
  write_value-slot k n i w r x h l same e =
      let at : slot_index r n ≡ i % 2 ^ k = slot_index-mod k r n h ∙ same in
      ap (λ (s : RingBuffer A). get_elem? s.slots (i % 2 ^ k))
        (write_value_lem n w r x (ap (get_elem? r.slots) at ∙ e))
      ∙ ap (λ j. get_elem? (set r.slots j (record x { value = w })) (i % 2 ^ k)) at
      ∙ get_elem?-set_self r.slots (i % 2 ^ k) (record x { value = w })
          (omega (arith, mod-lt i (two-pow_pos k)))

  -- The two checks do not see an overwrite in progress. The buffer is full behind a cursor, and the
  -- producer has stored the value of its next push into the slot that the cursor reads, but not yet
  -- that slot's sequence: the read succeeds with the new value, in place of the one at the cursor.
  pub try_read-overwriting :
      (k : ℕ) (history : List A) (r : RingBuffer A) (c : Consumer) (w : A)
      → length history < word
      → Holds k history r
      → IsBehind (length history) (2 ^ k) c
      → length history ≡ c.sequence + 2 ^ k
      → let s = write_value (length history) w r in
        try_read r s s c ≡ (ok, some w, advanced (length history) (2 ^ k) c)
  try_read-overwriting k history r c w h v b full =
      let bounds = target_bounds (length history) (2 ^ k) c (two-pow_pos k) b in
      let (a, at, slot) = v.kept (target (length history) (2 ^ k) c) bounds.0 bounds.1 in
      let here : target (length history) (2 ^ k) c ≡ c.sequence = ground arith in
      let same : length history % 2 ^ k ≡ target (length history) (2 ^ k) c % 2 ^ k =
        ap (λ n. n % 2 ^ k) full
        ∙ add-mod_right c.sequence (2 ^ k)
        ∙ ap (λ n. n % 2 ^ k) (sym here) in
      let written = write_value-slot k (length history) _ w r _ v.sized v.slotted same slot in
      try_read-ok k history r _ _ c _ _ _ h v b slot written written refl refl
