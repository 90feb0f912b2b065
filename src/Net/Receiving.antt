-- ===== src/Net/Receiving.antt =====
-- The polling loop of `recv_all` of Net/src/order_entry_listener.cpp, and `connection_loop` over it. What
-- the rounds of the loop meet is a list of polls; a `recv` takes as much as it asks for of what has
-- arrived, and leaves the rest.
use osborne_x.Base.{
  ℕ, zero, suc, ◌+◌, ◌-◌, ◌≤◌, ◌≡◌, refl, ap, ◌∙◌, true, false, List, [], ◌∷◌, ◌++◌, Option, none,
  some, arith, length,
}
use mathlib.Core.List.{append_assoc, append-nil}
use osborne_x.Messages.{OrderMessage}
use osborne_x.Net.Wire.{OrderEntryWire, decode_order}
use osborne_x.Net.Frames.{FrameHeader, Layout, recv_all}
use osborne_x.Net.Connection.{is_order_entry}

-- What a round meets: `running_` is not set any more, or `wait_readable` runs into its timeout, or
-- bytes have arrived. No bytes are a peer that has closed, or an error.
pub data Poll : Type 0 where
  stopped idle : Poll
  arrives : List ℕ → Poll

pub data Outcome : Type 0 where
  waiting failed : Outcome
  received : List ℕ → List Poll → Outcome

-- The first bytes, so many at most, and the others.
unfoldable pub split_at : ℕ → List ℕ → List ℕ × List ℕ
split_at zero bytes = ([], bytes)
split_at (suc n) [] = ([], [])
split_at (suc n) (b ∷ bytes) = let (front, back) = split_at n bytes in (b ∷ front, back)

abbrev pub prepend : List ℕ → Outcome → Outcome
prepend bytes waiting = waiting
prepend bytes failed = failed
prepend bytes (received more ps) = received (bytes ++ more) ps

-- `recv_all` of so many bytes; `waiting` means that it has not returned by the last poll.
unfoldable pub recv_polled : List Poll → ℕ → Outcome
recv_polled ps zero = received [] ps
recv_polled [] (suc n) = waiting
recv_polled (stopped ∷ ps) (suc n) = failed
recv_polled (idle ∷ ps) (suc n) = recv_polled ps (suc n)
recv_polled (arrives [] ∷ ps) (suc n) = failed
recv_polled (arrives (b ∷ bytes) ∷ ps) (suc n) =
    let (front, back) = split_at n bytes in
    elim back [
      | [] ↦ prepend (b ∷ front) (recv_polled ps (n - length front))
      | c ∷ back' ↦ received (b ∷ front) (arrives (c ∷ back') ∷ ps)
    ]

-- `connection_loop` over `recv_polled`: the calls of its handler, a round for each unit of fuel.
module _ (header : Layout FrameHeader) (order : Layout OrderEntryWire) where
  unfoldable pub connection_polled : ℕ → List Poll → List (Option OrderMessage)
  connection_polled zero ps = []
  connection_polled (suc fuel) ps = elim (recv_polled ps header.size) [
    | waiting ↦ []
    | failed ↦ []
    | received head ps' ↦ elim (is_order_entry header order (header.read head)) [
      | false ↦ []
      | true ↦ elim (recv_polled ps' order.size) [
        | waiting ↦ []
        | failed ↦ []
        | received payload ps'' ↦ decode_order (order.read payload) ∷ connection_polled fuel ps''
      ]
    ]
  ]

-- The bytes that a connection gets: up to the stop, the close or the last poll.
unfoldable pub stream_of : List Poll → List ℕ
stream_of [] = []
stream_of (stopped ∷ ps) = []
stream_of (idle ∷ ps) = stream_of ps
stream_of (arrives [] ∷ ps) = []
stream_of (arrives (b ∷ bytes) ∷ ps) = (b ∷ bytes) ++ stream_of ps

pub split_at_lem : (n : ℕ) (bytes : List ℕ) → bytes ≡ (split_at n bytes).0 ++ (split_at n bytes).1
unfolding split_at
split_at_lem zero bytes = refl
split_at_lem (suc n) [] = refl
split_at_lem (suc n) (b ∷ bytes) = ap (◌∷◌ b) (split_at_lem n bytes)

length-split_at-le : (n : ℕ) (bytes : List ℕ) → length (split_at n bytes).0 ≤ n
unfolding split_at
length-split_at-le zero bytes = omega arith
length-split_at-le (suc n) [] = omega arith
length-split_at-le (suc n) (b ∷ bytes) = omega (arith, length-split_at-le n bytes)

split_at-full :
    (n : ℕ) (bytes : List ℕ) (c : ℕ) (back : List ℕ)
    → (split_at n bytes).1 ≡ c ∷ back
    → length (split_at n bytes).0 ≡ n
unfolding split_at
split_at-full zero bytes c back e = refl
split_at-full (suc n) [] c back e = cc
split_at-full (suc n) (b ∷ bytes) c back e = omega (arith, split_at-full n bytes c back e)

recv_all-more :
    (front stream bytes rest : List ℕ) (m k : ℕ)
    → m ≡ length front + k
    → recv_all k stream ≡ some (bytes, rest)
    → recv_all m (front ++ stream) ≡ some (front ++ bytes, rest)
unfolding recv_all
recv_all-more [] stream bytes rest m k h e =
    let same : m ≡ k = omega arith in ap (λ n. recv_all n stream) same ∙ e
recv_all-more (b ∷ front) stream bytes rest zero k h e = absurd (omega arith)
recv_all-more (b ∷ front) stream bytes rest (suc m) k h e =
    rw (recv_all-more front stream bytes rest m k (omega arith) e) refl

recv_all-short :
    (front stream : List ℕ) (m k : ℕ)
    → m ≡ length front + k
    → recv_all k stream ≡ none
    → recv_all m (front ++ stream) ≡ none
unfolding recv_all
recv_all-short [] stream m k h e =
    let same : m ≡ k = omega arith in ap (λ n. recv_all n stream) same ∙ e
recv_all-short (b ∷ front) stream zero k h e = absurd (omega arith)
recv_all-short (b ∷ front) stream (suc m) k h e =
    rw (recv_all-short front stream m k (omega arith) e) refl

-- What the polls bring, against the whole stream.
abbrev pub Agrees : Outcome → Option (List ℕ × List ℕ) → Type 0
Agrees waiting o = o ≡ none
Agrees failed o = o ≡ none
Agrees (received bytes ps) o = o ≡ some (bytes, stream_of ps)

prepend-Agrees :
    (front stream : List ℕ) (m k : ℕ) (o : Outcome)
    → m ≡ length front + k
    → Agrees o (recv_all k stream)
    → Agrees (prepend front o) (recv_all m (front ++ stream))
prepend-Agrees front stream m k waiting h a = recv_all-short front stream m k h a
prepend-Agrees front stream m k failed h a = recv_all-short front stream m k h a
prepend-Agrees front stream m k (received bytes ps) h a =
    recv_all-more front stream bytes (stream_of ps) m k h a

arrives-Agrees :
    (n b : ℕ) (bytes : List ℕ) (ps : List Poll) (front back : List ℕ)
    → bytes ≡ front ++ back
    → length front ≤ n
    → ((c : ℕ) (back' : List ℕ) → back ≡ c ∷ back' → length front ≡ n)
    → Agrees (recv_polled ps (n - length front)) (recv_all (n - length front) (stream_of ps))
    → Agrees
        (elim back [
          | [] ↦ prepend (b ∷ front) (recv_polled ps (n - length front))
          | c ∷ back' ↦ received (b ∷ front) (arrives (c ∷ back') ∷ ps)
        ])
        (recv_all (suc n) ((b ∷ bytes) ++ stream_of ps))
unfolding stream_of recv_all
arrives-Agrees n b bytes ps front [] e l f a =
    rw (e, append-nil front)
      (prepend-Agrees (b ∷ front) (stream_of ps) (suc n) (n - length front) _ (omega arith) a)
arrives-Agrees n b bytes ps front (c ∷ back) e l f a =
    let left = c ∷ (back ++ stream_of ps) in
    rw
      (
        e,
        append_assoc front (c ∷ back) (stream_of ps),
        recv_all-more front left [] left n 0 (omega (arith, f c back refl)) refl,
        append-nil front,
      )
      refl

-- `recv_all` over polls returns just what it would take off the whole stream, and leaves what is
-- behind; it does not return bytes before all are there.
pub recv_polled-Agrees :
    (ps : List Poll) (n : ℕ) → Agrees (recv_polled ps n) (recv_all n (stream_of ps))
unfolding recv_polled stream_of recv_all
recv_polled-Agrees [] zero = refl
recv_polled-Agrees (p ∷ ps) zero = refl
recv_polled-Agrees [] (suc n) = refl
recv_polled-Agrees (stopped ∷ ps) (suc n) = refl
recv_polled-Agrees (idle ∷ ps) (suc n) = recv_polled-Agrees ps (suc n)
recv_polled-Agrees (arrives [] ∷ ps) (suc n) = refl
recv_polled-Agrees (arrives (b ∷ bytes) ∷ ps) (suc n) =
    arrives-Agrees n b bytes ps (split_at n bytes).0 (split_at n bytes).1 (split_at_lem n bytes)
      (length-split_at-le n bytes) (split_at-full n bytes)
      (recv_polled-Agrees ps (n - length (split_at n bytes).0))
