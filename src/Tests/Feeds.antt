-- ===== src/Tests/Feeds.antt =====
-- Runs of the subscribers and the publisher of PubSub/src.
use osborne_x.Base.{ℕ, ◌≡◌, refl, true, false, List, [], ◌∷◌, some, arith}
use osborne_x.Queue.RingBuffer.{RingBuffer, Consumer, lossy}
use osborne_x.Queue.Stream.{Holds-consumers}
use osborne_x.PubSub.Polling.{Source}
use osborne_x.PubSub.Publisher.{Publisher, add_subscriber, IsWired, add_subscriber-IsWired}
use osborne_x.PubSub.Reader
use osborne_x.PubSub.Reader.{Reader, make_reader, push_at}
use osborne_x.PubSub.Totals.{AreAccounted}
use osborne_x.PubSub.Sequences.{IsPart}
use osborne_x.PubSub.Running.{IsStopped, Run-accounts}
use osborne_x.Tests.Queues.{new_ring, new_ring-Holds}

abbrev initial : ℕ
initial = 0

abbrev nobody : Publisher ℕ
nobody = record { frozen = false; subscribers = []; producers = [] }

abbrev one_subscriber : Publisher ℕ
one_subscriber = add_subscriber nobody

one_subscriber-IsWired : IsWired one_subscriber
one_subscriber-IsWired = add_subscriber-IsWired nobody tt

abbrev cursor : Consumer
cursor = record { policy = lossy; sequence = 0; dropped_count = 0 }

-- A buffer with one lossy cursor.
abbrev fed : RingBuffer ℕ
fed = record (new_ring initial) { consumers = cursor ∷ [] }

abbrev sources : List (Source ℕ)
sources = record { buffer = fed; consumer = 0 } ∷ []

sources-AreAccounted : AreAccounted sources ([] ∷ []) ([] ∷ [])
sources-AreAccounted =
    AreAccounted.at_source
      (record {
        size = 1;
        held = Holds-consumers 1 [] (new_ring initial) fed.consumers (new_ring-Holds initial);
        seen = [];
        rest = [];
        split = refl;
        part = IsPart.nothing;
        reader = (cursor, refl, refl, refl, refl);
      })
      AreAccounted.nowhere

abbrev one_pushed : Reader ℕ
one_pushed = record {
  subscriber = record { sources = push_at 0 7 sources; events = [] };
  running = true;
  thread = some 3;
}

-- What was pushed to the source.
abbrev one_value : List (List ℕ)
one_value = (7 ∷ []) ∷ []

reading : Reader.Run (make_reader sources) one_value one_pushed
unfolding Reader.start
reading =
    Reader.Run.goes_on (Reader.Run.goes_on Reader.Run.begins (Reader.Step.starts 3 refl refl))
      (Reader.Step.pushes 0 7 (record { buffer = fed; consumer = 0 }) refl refl refl)

Run-accounts_example :
    ((r' : Reader ℕ) × (Reader.start 4 one_pushed ≡ some r'))
    × ((r' : Reader ℕ) × (Reader.stop 2 one_pushed ≡ some r')
        × IsStopped ([] ∷ []) one_value one_pushed r')
Run-accounts_example =
    Run-accounts sources one_value one_pushed sources-AreAccounted reading (omega arith) 4 2
