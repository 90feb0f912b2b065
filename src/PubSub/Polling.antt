-- ===== src/PubSub/Polling.antt =====
-- `Subscriber` of PubSub/inc/PubSub/subscriber.hpp and PubSub/src/subscriber.cpp, and
-- `TradeStreamReader` of Server/inc/Server/trade_stream_reader.hpp and
-- Server/src/trade_stream_reader.cpp: both poll their sources in turn. Nothing is
-- pushed to a buffer during a poll.
use osborne_x.Base.{
  ℕ, ◌+◌, ◌%◌, Bool, true, false, ◌||◌, List, [], ◌∷◌, ◌++◌, Option, none, some, get_elem?, length,
}
use osborne_x.Queue.RingBuffer.{
  word, RingBuffer, ReadResult, ok, empty, dropped, lossy, add_consumer, read_consumer,
}

-- A cursor, as the buffer that owns it and its number there.
pub record Source {ℓ} (A : Type ℓ) : Type ℓ where
  pub buffer : RingBuffer A
  pub consumer : ℕ

abbrev pub progresses : ReadResult → Bool
progresses empty = false
progresses ok = true
progresses dropped = true

-- `Subscriber`: its sources, and the events that `handle` has stored.
pub record Subscriber {ℓ} (A : Type ℓ) : Type ℓ where
  pub sources : List (Source A)
  pub events : List A

module _ {ℓ} {A : Type ℓ} where
  -- `register_producer`: the new cursor has the next number of its buffer.
  unfoldable pub register_producer : RingBuffer A → Subscriber A → Subscriber A
  register_producer r s = record s {
    sources =
        s.sources ++ record { buffer = add_consumer lossy r; consumer = length r.consumers } ∷ [];
  }

  abbrev pub event : Option A → List A
  event none = []
  event (some v) = v ∷ []

  -- The loop over the sources: the sources after it, the values read, and whether there was progress.
  unfoldable pub poll : List (Source A) → List (Source A) × List A × Bool
  poll [] = ([], [], false)
  poll (s ∷ ss) =
      let (result, value, r) = read_consumer s.consumer s.buffer in
      let (ss', events, progressed) = poll ss in
      (record s { buffer = r } ∷ ss', event value ++ events, progresses result || progressed)

  -- `poll_all_sources_once`, with `handle`.
  unfoldable pub poll_all_sources_once : Subscriber A → Subscriber A × Bool
  poll_all_sources_once s =
      let (sources, events, progressed) = poll s.sources in
      (record { sources = sources; events = s.events ++ events }, progressed)

  abbrev pub dropped_at : Source A → ℕ
  dropped_at s = elim (get_elem? s.buffer.consumers s.consumer) [
    | none ↦ 0
    | some c ↦ c.dropped_count
  ]

  unfoldable pub dropped_from : ℕ → List (Source A) → ℕ
  dropped_from total [] = total
  dropped_from total (s ∷ ss) = dropped_from ((total + dropped_at s) % word) ss

  unfoldable pub dropped_count : Subscriber A → ℕ
  dropped_count s = dropped_from 0 s.sources
