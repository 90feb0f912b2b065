-- ===== src/PubSub/Quiet.antt =====
-- When the polling of PubSub/src/subscriber.cpp and Server/src/trade_stream_reader.cpp finds nothing.
use osborne_x.Base.{
  ℕ, ◌≤◌, ◌≡◌, refl, sym, ap, ap₂, ◌++◌, ◌∙◌, inl, inr, true, false, List, [], ◌∷◌, none, some,
  arith, All, get_elem?, Option-cases,
}
use osborne_x.Queue.RingBuffer.{
  RingBuffer, Consumer, Slot, capacity, slot_index, catch_up, read_slot, read_at, try_read,
  read_consumer,
}
use osborne_x.Queue.History.{Holds, slot_at, get_elem?-some}
use osborne_x.PubSub.Polling.{Source, event, progresses, poll}

module _ {ℓ} {A : Type ℓ} where
  -- The buffer holds the last values of some history.
  abbrev pub IsHeld : Source A → Type ℓ
  IsHeld s = (k : ℕ) × (history : List A) × Holds k history s.buffer

  -- The cursor has seen all that was pushed.
  abbrev pub IsDrained : Source A → Type 0
  IsDrained s = elim (get_elem? s.buffer.consumers s.consumer) [
    | none ↦ Unit
    | some c ↦ s.buffer.producer_sequence ≤ c.sequence
  ]

  read_slot-progresses :
      (x y z : Slot A) (c : Consumer) → progresses (read_slot (some x) (some y) (some z) c).0 ≡ true
  unfolding read_slot
  read_slot-progresses x y z c = ground arith

  read_at-progresses :
      (k : ℕ) (history : List A) (r : RingBuffer A) (c : Consumer)
      → Holds k history r
      → progresses (read_at r r r c).0 ≡ true
  unfolding read_at
  read_at-progresses k history r c h =
      let (x, e) =
        get_elem?-some r.slots (slot_index r c.sequence)
          (slot_at k c.sequence r h.sized h.slotted) in
      rw e (read_slot-progresses x x x c)

  try_read-IsDrained :
      (k : ℕ) (history : List A) (r : RingBuffer A) (c : Consumer)
      → Holds k history r
      → progresses (try_read r r r c).0 ≡ false
      → r.producer_sequence ≤ c.sequence
  unfolding try_read
  try_read-IsDrained k history r c h e =
      ground (arith, read_at-progresses k history r (catch_up r.producer_sequence (capacity r) c) h)

  try_read-event :
      (k : ℕ) (history : List A) (r : RingBuffer A) (c : Consumer)
      → Holds k history r
      → progresses (try_read r r r c).0 ≡ false
      → event (try_read r r r c).1 ≡ []
  unfolding try_read
  try_read-event k history r c h e =
      ground (arith, read_at-progresses k history r (catch_up r.producer_sequence (capacity r) c) h)

  read_consumer-result :
      (s : Source A) (c : Consumer)
      → get_elem? s.buffer.consumers s.consumer ≡ some c
      → let read = read_consumer s.consumer s.buffer in
        let tried = try_read s.buffer s.buffer s.buffer c in (read.0 ≡ tried.0) × (read.1 ≡ tried.1)
  unfolding read_consumer
  read_consumer-result s c e = (ground arith, ground arith)

  read_consumer-none :
      (s : Source A)
      → get_elem? s.buffer.consumers s.consumer ≡ none
      → (read_consumer s.consumer s.buffer).1 ≡ none
  unfolding read_consumer
  read_consumer-none s e = ground arith

  read_consumer-IsDrained :
      (s : Source A)
      → IsHeld s
      → progresses (read_consumer s.consumer s.buffer).0 ≡ false
      → IsDrained s × (event (read_consumer s.consumer s.buffer).1 ≡ [])
  read_consumer-IsDrained s (k, history, h) e =
      elim (Option-cases (get_elem? s.buffer.consumers s.consumer)) [
        | inl n ↦ (rw (n, IsDrained) tt, ap event (read_consumer-none s n))
        | inr (c, n) ↦
            let same = read_consumer-result s c n in
            let quiet = sym (ap progresses same.0) ∙ e in
            (
              rw (n, IsDrained) (try_read-IsDrained k history s.buffer c h quiet),
              ap event same.1 ∙ try_read-event k history s.buffer c h quiet,
            )
      ]

  -- A poll without progress has found no event, and every cursor had seen all that was pushed to its
  -- buffer. Each buffer holds the last values of some history.
  pub poll-quiet :
      (ss : List (Source A))
      → All IsHeld ss
      → (poll ss).2 ≡ false
      → ((poll ss).1 ≡ []) × All IsDrained ss
  unfolding poll
  poll-quiet [] h e = (refl, tt)
  poll-quiet (s ∷ ss) h e =
      let first = read_consumer-IsDrained s h.0 (ground arith) in
      let others = poll-quiet ss h.1 (ground arith) in
      (ap₂ (◌++◌) first.1 others.0, (first.0, others.1))
