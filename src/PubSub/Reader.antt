-- ===== src/PubSub/Reader.antt =====
-- The thread of a subscriber: `start`, `stop` and `run` of PubSub/src/subscriber.cpp, and the same of
-- Server/src/trade_stream_reader.cpp. A value is pushed to a source between two polls. `none` is
-- `std::terminate`, or a loop that has not ended with its fuel.
use osborne_x.Base.{
  ℕ, zero, suc, ◌+◌, ◌≡◌, Bool, true, false, List, [], ◌∷◌, Option, none, some, if◌then◌else◌,
  get_elem?,
}
use osborne_x.Queue.RingBuffer.{capacity, push_overwrite}
use osborne_x.PubSub.Polling.{Source, Subscriber, poll_all_sources_once}
use osborne_x.PubSub.Sequences.{append_at}
use osborne_x.PubSub.Catching.{poll_until_quiet}

pub record Reader {ℓ} (A : Type ℓ) : Type ℓ where
  pub subscriber : Subscriber A
  pub running : Bool
  pub thread : Option ℕ

module _ {ℓ} {A : Type ℓ} where
  -- The constructor, with its sources registered.
  abbrev pub make_reader : List (Source A) → Reader A
  make_reader ss = record {
    subscriber = record { sources = ss; events = [] };
    running = false;
    thread = none;
  }

  -- `start`; `id` is the new thread.
  unfoldable pub start : ℕ → Reader A → Option (Reader A)
  start id r = if r.running then some r else elim r.thread [
    | some _ ↦ none
    | none ↦ some (record r { running = true; thread = some id })
  ]

  -- Rounds of `run`; a poll without sources does nothing.
  unfoldable pub run_polls : ℕ → Subscriber A → Subscriber A
  run_polls zero s = s
  run_polls (suc n) s = run_polls n (poll_all_sources_once s).0

  -- Rounds of the thread, where there is one.
  unfoldable pub work : ℕ → Reader A → Reader A
  unfolding run_polls
  work n r = elim r.thread [
    | none ↦ r
    | some id ↦ record r { subscriber = run_polls n r.subscriber }
  ]

  -- Fuel for the loop of `stop`: a buffer holds no more than its capacity.
  abbrev pub most : List (Source A) → ℕ
  most [] = 0
  most (s ∷ ss) = capacity s.buffer + most ss

  -- What `stop` does once the thread is joined.
  unfoldable pub catch_up : Subscriber A → Option (Subscriber A)
  catch_up s =
      let (s', ended) = poll_until_quiet (suc (most s.sources)) s in if ended then some s' else none

  -- `stop`; the thread goes through `n` more rounds before it is joined.
  unfoldable pub stop : ℕ → Reader A → Option (Reader A)
  unfolding work catch_up
  stop n r =
      if r.running
      then elim (catch_up (work n r).subscriber) [
        | none ↦ none
        | some s ↦ some (record { subscriber = s; running = false; thread = none })
      ]
      else some r

  -- The producer of the source with a number pushes a value.
  unfoldable pub push_at : ℕ → A → List (Source A) → List (Source A)
  push_at i v [] = []
  push_at zero v (s ∷ ss) = record s { buffer = push_overwrite v s.buffer } ∷ ss
  push_at (suc i) v (s ∷ ss) = s ∷ push_at i v ss

-- No value was pushed to any source.
abbrev pub no_values {ℓ} : {A : Type ℓ} → List (Source A) → List (List A)
no_values [] = []
no_values (s ∷ ss) = [] ∷ no_values ss

-- A step, with the values that were pushed to each source before and after it.
pub data Step {ℓ} {A : Type ℓ} (r : Reader A) (ps : List (List A)) (r' : Reader A)
    (ps' : List (List A)) : Type ℓ where
  starts : (id : ℕ) → start id r ≡ some r' → ps' ≡ ps → Step r ps r' ps'
  works : (rounds : ℕ) → r' ≡ work rounds r → ps' ≡ ps → Step r ps r' ps'
  stops : (rounds : ℕ) → stop rounds r ≡ some r' → ps' ≡ ps → Step r ps r' ps'
  pushes :
      (i : ℕ) (v : A) (s : Source A)
      → get_elem? r.subscriber.sources i ≡ some s
      → r' ≡ record r {
        subscriber = record r.subscriber { sources = push_at i v r.subscriber.sources };
      }
      → ps' ≡ append_at i v ps
      → Step r ps r' ps'

pub data Run {ℓ} {A : Type ℓ} (first : Reader A) : List (List A) → Reader A → Type ℓ where
  begins : Run first (no_values first.subscriber.sources) first
  goes_on :
      {ps ps' : List (List A)} {r r' : Reader A}
      → Run first ps r
      → Step r ps r' ps'
      → Run first ps' r'
