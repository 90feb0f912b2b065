-- ===== src/Queue/RingBuffer.antt =====
-- `RingBuffer` of Queue/inc/Queue/ring_buffer.hpp. A call of the producer is written as the steps
-- that another thread can see, one for each store: the slot's value, then the slot's sequence, then the
-- producer's sequence. A call of a consumer takes the buffer as it is at each of its loads.
-- The thread assertions of debug builds stand in Sharding/Worker.
use Prim.Native.Nat.{bit_and}
use osborne_x.Base.{
  ℕ, ◌+◌, ◌-◌, ◌%◌, ◌^◌, Bool, true, false, ◌&&◌, ◌||◌, List, [], ◌∷◌, ◌++◌, Option, none, some,
  if◌then◌else◌, ltb, leb, ◌==◌, get_elem?, set, replicate,
}
use osborne_x.Queue.Bits.{bit_ceil}

-- 2 to the power of 64, the modulus of a `Sequence`.
abbrev pub word : ℕ
word = 2 ^ 64

abbrev pub next : ℕ → ℕ
next s = (s + 1) % word

abbrev pub distance : ℕ → ℕ → ℕ
distance a b = (a + word - b) % word

pub data ConsumerPolicy : Type 0 where
  lossless lossy : ConsumerPolicy

pub data ReadResult : Type 0 where
  empty ok dropped : ReadResult

pub record Slot {ℓ} (A : Type ℓ) : Type ℓ where
  pub seq : ℕ
  pub value : A

pub record Consumer : Type 0 where
  pub policy : ConsumerPolicy
  pub sequence : ℕ
  pub dropped_count : ℕ

pub record RingBuffer {ℓ} (A : Type ℓ) : Type ℓ where
  pub mask : ℕ
  pub slots : List (Slot A)
  pub next_to_claim : ℕ
  pub producer_sequence : ℕ
  pub consumers : List Consumer

abbrev pub is_lossy : ConsumerPolicy → Bool
is_lossy lossless = false
is_lossy lossy = true

-- Whether no lossless consumer holds the producer back at a sequence.
unfoldable pub is_free : ℕ → ℕ → List Consumer → Bool
is_free seq size [] = true
is_free seq size (c ∷ cs) =
    (is_lossy c.policy || ltb (distance seq c.sequence) size) && is_free seq size cs

-- `report_stale_slot`
unfoldable pub report_stale_slot : ℕ → Consumer → Consumer
report_stale_slot want c = record c { dropped_count = next c.dropped_count; sequence = next want }

-- Where a cursor is to read: a lossy one that is more than a whole buffer behind skips forward,
-- and counts what it skips.
unfoldable pub catch_up : ℕ → ℕ → Consumer → Consumer
catch_up produced size c =
    if is_lossy c.policy && ltb size (distance produced c.sequence)
    then (let target = distance produced size in
        record c {
          sequence = target;
          dropped_count = (c.dropped_count + distance target c.sequence) % word;
        })
    else c

module _ {ℓ} {A : Type ℓ} where
  -- The constructor; `a` is the value-initialised `T{}`.
  unfoldable pub make_ring : A → ℕ → RingBuffer A
  make_ring a capacity =
      let mask = bit_ceil (if capacity == 0 then 1 else capacity) - 1 in
      record {
        mask = mask;
        slots = replicate (mask + 1) (record { seq = 0; value = a });
        next_to_claim = 0;
        producer_sequence = 0;
        consumers = [];
      }

  abbrev pub capacity : RingBuffer A → ℕ
  capacity r = r.mask + 1

  abbrev pub slot_index : RingBuffer A → ℕ → ℕ
  slot_index r s = bit_and s r.mask

  -- `add_consumer`: the new cursor stands behind the others.
  unfoldable pub add_consumer : ConsumerPolicy → RingBuffer A → RingBuffer A
  add_consumer p r = record r {
    consumers = r.consumers ++ record { policy = p; sequence = 0; dropped_count = 0 } ∷ [];
  }

  -- `slot(sequence) = value`
  unfoldable pub write_value : ℕ → A → RingBuffer A → RingBuffer A
  write_value s v r = elim (get_elem? r.slots (slot_index r s)) [
    | none ↦ r
    | some x ↦ record r { slots = set r.slots (slot_index r s) (record x { value = v }) }
  ]

  -- The first store of `publish`: the slot's sequence.
  unfoldable pub write_seq : ℕ → RingBuffer A → RingBuffer A
  write_seq s r = elim (get_elem? r.slots (slot_index r s)) [
    | none ↦ r
    | some x ↦ record r { slots = set r.slots (slot_index r s) (record x { seq = s }) }
  ]

  unfoldable pub publish : ℕ → RingBuffer A → RingBuffer A
  unfolding write_seq
  publish s r = record (write_seq s r) { next_to_claim = next s; producer_sequence = next s }

  -- `claim_overwrite`
  abbrev pub claim_overwrite : RingBuffer A → ℕ
  claim_overwrite r = r.next_to_claim

  unfoldable pub push_overwrite : A → RingBuffer A → RingBuffer A
  push_overwrite v r = let s = claim_overwrite r in publish s (write_value s v r)

  -- `claim_blocking`; `none` means that the call spins, since a lossless consumer is a whole buffer
  -- behind.
  unfoldable pub claim_blocking : RingBuffer A → Option ℕ
  unfolding is_free
  claim_blocking r =
      if is_free r.next_to_claim (capacity r) r.consumers then some r.next_to_claim else none

  unfoldable pub push_blocking : A → RingBuffer A → Option (RingBuffer A)
  push_blocking v r = elim (claim_blocking r) [
    | none ↦ none
    | some s ↦ some (publish s (write_value s v r))
  ]

  -- The two checks of the slot's sequence, around the copy of its value. The three slots are the
  -- same place of the buffer at the first check, at the copy and at the second check.
  unfoldable pub read_slot :
      Option (Slot A)
      → Option (Slot A)
      → Option (Slot A)
      → Consumer
      → ReadResult × Option A × Consumer
  read_slot (some x) (some y) (some z) c =
      if x.seq == c.sequence
      then (if z.seq == c.sequence
          then (ok, some y.value, record c { sequence = next c.sequence })
          else (dropped, none, report_stale_slot c.sequence c))
      else (dropped, none, report_stale_slot c.sequence c)
  read_slot _ _ _ c = (empty, none, c)

  -- `r` is the buffer up to the first check, `copied` at the copy, `checked` at the second check. A
  -- slot's index is below the number of slots, so each is there.
  unfoldable pub read_at :
      RingBuffer A → RingBuffer A → RingBuffer A → Consumer → ReadResult × Option A × Consumer
  unfolding read_slot
  read_at r copied checked c =
      let i = slot_index r c.sequence in
      read_slot (get_elem? r.slots i) (get_elem? copied.slots i) (get_elem? checked.slots i) c

  unfoldable pub try_read :
      RingBuffer A → RingBuffer A → RingBuffer A → Consumer → ReadResult × Option A × Consumer
  try_read r copied checked c =
      if leb r.producer_sequence c.sequence
      then (empty, none, c)
      else read_at r copied checked (catch_up r.producer_sequence (capacity r) c)

  -- `try_read` of the consumer with a number, with nothing between its loads. Consumers are only
  -- read by their owners, which hold a number that `add_consumer` gave out.
  unfoldable pub read_consumer : ℕ → RingBuffer A → ReadResult × Option A × RingBuffer A
  read_consumer n r = elim (get_elem? r.consumers n) [
    | none ↦ (empty, none, r)
    | some c ↦
        let (result, value, c') = try_read r r r c in
        (result, value, record r { consumers = set r.consumers n c' })
  ]
