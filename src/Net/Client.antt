-- ===== src/Net/Client.antt =====
-- `OrderEntryClient` of Net/inc/Net/order_entry_client.hpp and Net/src/order_entry_client.cpp. What the
-- calls of the system return is an argument: how much each `::send` takes, where 0 is an error, and for
-- each resolved address its socket and whether `::connect` succeeds.
use osborne_x.Base.{
  ℕ, zero, suc, ◌≡◌, ◌↔◌, refl, sym, ap, subst, ◌∙◌, Bool, true, false, ◌||◌, List, [], ◌∷◌, ◌++◌,
  Option, none, some, arith, if◌then◌else◌,
}
use mathlib.Core.List.{append_assoc, append-nil}
use osborne_x.Messages.{OrderMessage}
use osborne_x.Net.Wire.{OrderEntryWire, encode_order}
use osborne_x.Net.Sockets.{SocketHandle, is_valid, close_handle}
use osborne_x.Net.Frames.{order_entry, FrameHeader, Layout, make_header}
use osborne_x.Net.Connection.{send}
use osborne_x.Net.Receiving.{split_at, split_at_lem}

-- What came of sending bytes: those that are on the stream, and the returned value once there is one;
-- `none` is a call that has not returned.
pub record Sending : Type 0 where
  pub stream : List ℕ
  pub result : Option Bool
  pub takes : List ℕ

-- `send_all`
unfoldable pub send_all : List ℕ → List ℕ → Sending
send_all ts [] = record { stream = []; result = some true; takes = ts }
send_all [] (b ∷ bytes) = record { stream = []; result = none; takes = [] }
send_all (zero ∷ ts) (b ∷ bytes) = record { stream = []; result = some false; takes = ts }
send_all (suc n ∷ ts) (b ∷ bytes) =
    let (front, back) = split_at n bytes in
    let rest = send_all ts back in record rest { stream = (b ∷ front) ++ rest.stream }

abbrev pub and_then : Sending → (List ℕ → Sending) → Option Bool → Sending
and_then first next (some true) =
    let second = next first.takes in record second { stream = first.stream ++ second.stream }
and_then first next _ = first

-- `send` on a socket
unfoldable pub client_send :
    Layout FrameHeader → Layout OrderEntryWire → SocketHandle → List ℕ → OrderMessage → Sending
client_send header order socket ts m =
    if is_valid socket
    then (let first = send_all ts (header.bytes (make_header order_entry order.size)) in
        and_then first (λ us. send_all us (order.bytes (encode_order m))) first.result)
    else record { stream = []; result = some false; takes = ts }

-- An address that `getaddrinfo` resolved: the socket for it, and whether it connects.
pub record Candidate : Type 0 where
  pub socket : Option ℕ
  pub connects : Bool

-- The loop of `connect`: the socket that is kept, and those that are closed.
unfoldable pub try_candidates : List Candidate → SocketHandle × List ℕ
try_candidates [] = (none, [])
try_candidates (c ∷ cs) = elim c.socket [
  | none ↦ try_candidates cs
  | some h ↦ elim c.connects [
    | true ↦ (some h, [])
    | false ↦ let (kept, closed) = try_candidates cs in (kept, h ∷ closed)
  ]
]

-- `connect` on a client with a socket: its socket after it, the sockets closed, and the result. Where
-- nothing is resolved there are no candidates.
unfoldable pub connect : SocketHandle → Option (List Candidate) → SocketHandle × List ℕ × Bool
connect old none = (none, close_handle old [], false)
connect old (some cs) =
    let (kept, closed) = try_candidates cs in (kept, close_handle old closed, is_valid kept)

-- The bytes of a call are on the stream from the first one on; it returns true exactly when all are.
pub record Delivers (bytes : List ℕ) (s : Sending) : Type 0 where
  pub prefixed :
      (left : List ℕ) × (bytes ≡ s.stream ++ left) × ((s.result ≡ some true) ↔ (left ≡ []))

prepend-Delivers :
    (front back : List ℕ) (s : Sending)
    → Delivers back s
    → Delivers (front ++ back) (record s { stream = front ++ s.stream })
prepend-Delivers front back s d =
    let (left, e, f) = d.prefixed in
    record { prefixed = (left, ap (◌++◌ front) e ∙ sym (append_assoc front s.stream left), f) }

send_all-Delivers : (ts bytes : List ℕ) → Delivers bytes (send_all ts bytes)
unfolding send_all
send_all-Delivers [] [] = record { prefixed = ([], refl, (λ e. refl, λ e. refl)) }
send_all-Delivers (t ∷ ts) [] = record { prefixed = ([], refl, (λ e. refl, λ e. refl)) }
send_all-Delivers [] (b ∷ bytes) = record { prefixed = (b ∷ bytes, refl, (λ e. cc, λ e. cc)) }
send_all-Delivers (zero ∷ ts) (b ∷ bytes) = record {
  prefixed = (b ∷ bytes, refl, (λ e. cc, λ e. cc));
}
send_all-Delivers (suc n ∷ ts) (b ∷ bytes) =
    subst (λ l. Delivers (b ∷ l) (send_all (suc n ∷ ts) (b ∷ bytes))) (sym (split_at_lem n bytes))
      (prepend-Delivers (b ∷ (split_at n bytes).0) (split_at n bytes).1 _
        (send_all-Delivers ts (split_at n bytes).1))

none_not-true : ◌≡◌ {A = Option Bool} none (some true) → ⊥
none_not-true e = cc

false_not-true : ◌≡◌ {A = Option Bool} (some false) (some true) → ⊥
false_not-true e = cc

front-nil : (left back : List ℕ) → left ++ back ≡ [] → left ≡ []
front-nil [] back e = refl
front-nil (b ∷ left) back e = cc

and_then-Delivers :
    (front back : List ℕ) (first : Sending) (next : List ℕ → Sending) (r : Option Bool)
    → first.result ≡ r
    → Delivers front first
    → Delivers back (next first.takes)
    → Delivers (front ++ back) (and_then first next r)
and_then-Delivers front back first next none e d d' =
    let (left, s, f) = d.prefixed in
    record {
      prefixed = (
        left ++ back,
        ap (λ l. l ++ back) s ∙ append_assoc first.stream left back,
        (
          λ h. absurd (none_not-true (sym e ∙ h)),
          λ h. absurd (none_not-true (sym e ∙ f.1 (front-nil left back h))),
        ),
      );
    }
and_then-Delivers front back first next (some false) e d d' =
    let (left, s, f) = d.prefixed in
    record {
      prefixed = (
        left ++ back,
        ap (λ l. l ++ back) s ∙ append_assoc first.stream left back,
        (
          λ h. absurd (false_not-true (sym e ∙ h)),
          λ h. absurd (false_not-true (sym e ∙ f.1 (front-nil left back h))),
        ),
      );
    }
and_then-Delivers front back first next (some true) e d d' =
    let (left, s, f) = d.prefixed in
    let whole : front ≡ first.stream =
      s ∙ ap (◌++◌ first.stream) (f.0 e) ∙ append-nil first.stream in
    subst (λ l. Delivers (l ++ back) (and_then first next (some true))) (sym whole)
      (prepend-Delivers first.stream back (next first.takes) d')

-- `send` on a valid socket puts the frame of the message on the stream from its first byte on, and
-- returns true exactly when the whole frame is there.
pub client_send-Delivers :
    (header : Layout FrameHeader) (order : Layout OrderEntryWire) (h : ℕ) (ts : List ℕ)
    (m : OrderMessage)
    → Delivers (send header order m) (client_send header order (some h) ts m)
unfolding client_send send
client_send-Delivers header order h ts m =
    let first = send_all ts (header.bytes (make_header order_entry order.size)) in
    and_then-Delivers (header.bytes (make_header order_entry order.size))
      (order.bytes (encode_order m)) first (λ us. send_all us (order.bytes (encode_order m)))
      first.result refl (send_all-Delivers ts (header.bytes (make_header order_entry order.size)))
      (send_all-Delivers first.takes (order.bytes (encode_order m)))

-- The sockets that `connect` opens, in order.
abbrev pub opened : List Candidate → List ℕ
opened [] = []
opened (c ∷ cs) =
    let rest = opened cs in
    elim c.socket [ none ↦ rest | some h ↦ if c.connects then h ∷ [] else h ∷ rest ]

abbrev pub owns : SocketHandle → List ℕ
owns none = []
owns (some h) = h ∷ []

abbrev pub works : Candidate → Bool
works c = elim c.socket [ none ↦ false | some h ↦ c.connects ]

abbrev pub any_works : List Candidate → Bool
any_works [] = false
any_works (c ∷ cs) = works c || any_works cs

try_candidates-opened :
    (cs : List Candidate)
    → (opened cs ≡ (try_candidates cs).1 ++ owns (try_candidates cs).0)
      × (is_valid (try_candidates cs).0 ≡ any_works cs)
unfolding try_candidates
try_candidates-opened [] = (refl, refl)
try_candidates-opened (c ∷ cs) = ground (arith, try_candidates-opened cs)

-- `connect` leaks no socket: the old one and all that it opens are closed, but for the one that it keeps.
-- It returns true exactly when some address has a socket and connects.
pub connect-balances :
    (old : SocketHandle) (cs : List Candidate)
    → let (kept, closed, connected) = connect old (some cs) in
      (owns old ++ opened cs ≡ closed ++ owns kept) × (connected ≡ any_works cs)
unfolding connect
connect-balances none cs = try_candidates-opened cs
connect-balances (some h) cs =
    (ap (◌∷◌ h) (try_candidates-opened cs).0, (try_candidates-opened cs).1)
