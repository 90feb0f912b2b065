-- ===== src/Tests/Queues.antt =====
-- Runs of the buffers of Queue/inc/Queue.
use osborne_x.Base.{
  All, none, ◌⊎◌, ℕ, ◌^◌, ◌≤◌, ◌≡◌, refl, inl, false, [], ◌∷◌, ◌++◌, some, arith, get_elem?,
}
use osborne_x.Queue.RingBuffer.{
  claim_blocking, RingBuffer, Consumer, lossless, lossy, ok, make_ring, push_overwrite,
  push_blocking, write_value, try_read,
}
use osborne_x.Queue.History.{Holds, make_ring-Holds, push_overwrite-Holds}
use osborne_x.Queue.Gating.{IsClear, push_blocking-returns}
use osborne_x.Queue.Reading.{target, advanced, try_read_lem, try_read-overwriting}
use osborne_x.Queue.MpscQueue.{MpscQueue, make_queue, push, pop_blocking}
use osborne_x.Queue.Monitor.{Run, Step, Run-fifo}

-- A new buffer of two slots, with a lossless consumer.
abbrev pub new_ring {ℓ} : {A : Type ℓ} → A → RingBuffer A
new_ring a = record {
  mask = 1;
  slots = record { seq = 0; value = a } ∷ record { seq = 0; value = a } ∷ [];
  next_to_claim = 0;
  producer_sequence = 0;
  consumers = record { policy = lossless; sequence = 0; dropped_count = 0 } ∷ [];
}

pub new_ring-Holds {ℓ} : {A : Type ℓ} (a : A) → Holds 1 [] (new_ring a)
new_ring-Holds a = record {
  sized = refl;
  slotted = refl;
  claimed = refl;
  produced = refl;
  kept = λ i h _. absurd (omega arith);
}

abbrev initial : ℕ
initial = 0

abbrev nine : ℕ
nine = 9

abbrev one_value : RingBuffer ℕ
one_value = push_overwrite 7 (new_ring initial)

abbrev two_values : RingBuffer ℕ
two_values = push_overwrite 8 one_value

one_value-Holds : Holds 1 (7 ∷ []) one_value
one_value-Holds = push_overwrite-Holds 1 [] 7 (new_ring initial) (omega arith) (new_ring-Holds 0)

two_values-Holds : Holds 1 (7 ∷ 8 ∷ []) two_values
two_values-Holds = push_overwrite-Holds 1 (7 ∷ []) 8 one_value (omega arith) one_value-Holds

make_ring-Holds_example : (k : ℕ) × Holds k [] (make_ring initial 5) × (5 ≤ 2 ^ k)
make_ring-Holds_example = make_ring-Holds initial 5

-- The third value overwrites the first one.
pushed : push_blocking nine (new_ring initial) ≡ some (push_overwrite nine (new_ring initial))
unfolding push_blocking push_overwrite claim_blocking
pushed = refl

abbrev cursor : Consumer
cursor = record { policy = lossy; sequence = 0; dropped_count = 0 }

three_values-Holds : Holds 1 (7 ∷ 8 ∷ 9 ∷ []) (push_overwrite 9 two_values)
three_values-Holds = push_overwrite-Holds 1 (7 ∷ 8 ∷ []) 9 two_values (omega arith) two_values-Holds

-- The cursor skips the value that is overwritten.
try_read_example :
    (v : ℕ) × (get_elem? (7 ∷ 8 ∷ 9 ∷ []) (target 3 2 cursor) ≡ some v)
    × (try_read
          (push_overwrite 9 two_values)
          (push_overwrite 9 two_values)
          (push_overwrite 9 two_values)
          cursor
        ≡ (ok, some v, advanced 3 2 cursor))
try_read_example =
    try_read_lem 1 (7 ∷ 8 ∷ 9 ∷ []) (push_overwrite 9 two_values) cursor (omega arith)
      three_values-Holds (record { behind = omega arith; gated = inl refl; counted = omega arith })

-- The cursor is at the value 7, and reads 9.
try_read-overwriting_example :
    try_read two_values (write_value 2 9 two_values) (write_value 2 9 two_values) cursor
    ≡ (ok, some 9, advanced 2 2 cursor)
try_read-overwriting_example =
    try_read-overwriting 1 (7 ∷ 8 ∷ []) two_values cursor 9 (omega arith) two_values-Holds
      (record { behind = omega arith; gated = inl refl; counted = omega arith }) refl

abbrev pushed_queue : MpscQueue ℕ
pushed_queue = record { items = 5 ∷ []; capacity = 1; closed = false }

abbrev popped_queue : MpscQueue ℕ
popped_queue = record { items = []; capacity = 1; closed = false }

abbrev push_step : Step (make_queue 0) (5 ∷ []) [] pushed_queue
unfolding make_queue push
push_step = Step.pushes 5 refl refl refl

abbrev pop_step : Step pushed_queue [] (5 ∷ []) popped_queue
unfolding pop_blocking
pop_step = Step.pops (some 5) refl refl refl

abbrev queue_run : Run 0 (5 ∷ []) (5 ∷ []) popped_queue
queue_run = Run.goes_on (Run.goes_on Run.starts push_step refl refl) pop_step refl refl

Run-fifo_example : 5 ∷ [] ≡ 5 ∷ [] ++ popped_queue.items
Run-fifo_example = Run-fifo queue_run

push_blocking-returns_example :
    (All (IsClear 2 0) (new_ring initial).consumers
      × (r : RingBuffer ℕ) × (push_blocking nine (new_ring initial) ≡ some r)
      × Holds 1 ([] ++ nine ∷ []) r)
    ⊎ ((¬ All (IsClear 2 0) (new_ring initial).consumers)
        × (push_blocking nine (new_ring initial) ≡ none))
push_blocking-returns_example =
    push_blocking-returns 1 [] nine (new_ring initial) (omega arith) (new_ring-Holds initial)
      (omega arith, tt)
