-- ===== src/Ingress/Receive.antt =====
-- `Ingress` of Ingress/inc/Ingress/ingress.hpp and Ingress/src/ingress.cpp. The sink is its caller's: a
-- message comes back stamped. The time is an argument, and the thread assertion of debug builds is
-- not modelled.
use osborne_x.Base.{ℕ, zero, suc, ◌+◌, ◌%◌, ◌≡◌, List, [], ◌∷◌, some, arith, subst, get_elem?}
use osborne_x.Messages.{OrderMessage}
use osborne_x.Queue.RingBuffer.{word}

-- The constructor: nothing is stamped yet.
abbrev pub first_sequence : ℕ
first_sequence = 0

-- The two stores of `receive` to the message.
unfoldable pub stamp : ℕ → ℕ → OrderMessage → OrderMessage
stamp now next_sequence m = record m { ingress_timestamp = now; ingress_sequence = next_sequence }

-- `receive`: the message for the sink, and the next sequence.
unfoldable pub receive : ℕ → OrderMessage → ℕ → OrderMessage × ℕ
unfolding stamp
receive now m next_sequence = (stamp now next_sequence m, (next_sequence + 1) % word)

-- Calls of `receive` one after the other, each at its time.
unfoldable pub receive_all : List (ℕ × OrderMessage) → ℕ → List OrderMessage
receive_all [] n = []
receive_all ((now, m) ∷ ms) n = let (m', n') = receive now m n in m' ∷ receive_all ms n'

-- The sink gets the messages in the order of the calls, each with the time of its call as its ingress
-- timestamp, with an ingress sequence that follows from the first one by steps of one, modulo 2 to the
-- power of 64, and with all else as it came.
pub receive_all-get_elem? :
    (ms : List (ℕ × OrderMessage)) (n i now : ℕ) (m : OrderMessage)
    → get_elem? ms i ≡ some (now, m)
    → get_elem? (receive_all ms (n % word)) i
      ≡ some (record m { ingress_timestamp = now; ingress_sequence = (n + i) % word })
unfolding receive_all receive stamp
receive_all-get_elem? [] n i now m e = absurd (ground arith)
receive_all-get_elem? ((then, m') ∷ ms) n zero now m e = ground arith
receive_all-get_elem? ((then, m') ∷ ms) n (suc i) now m e =
    subst (λ k. get_elem? (receive_all ms k) i ≡ some (stamp now ((n + suc i) % word) m))
      (omega arith)
      (subst (λ k. get_elem? (receive_all ms ((n + 1) % word)) i ≡ some (stamp now (k % word) m))
        (omega arith) (receive_all-get_elem? ms (n + 1) i now m e))
