-- ===== src/Net/Connection.antt =====
-- Orders over a connection: `send` of Net/src/order_entry_client.cpp and `connection_loop` of
-- Net/src/order_entry_listener.cpp.
use osborne_x.Base.{
  ℕ, zero, suc, ◌<◌, ◌≡◌, refl, ap, ◌∙◌, Bool, true, false, ◌&&◌, List, [], ◌∷◌, ◌++◌, map, Option,
  none, some, arith, ◌==◌, length,
}
use mathlib.Core.List.{append_assoc}
use osborne_x.Messages.{OrderMessage}
use osborne_x.Net.Wire.{OrderEntryWire, encode_order, decode_order, decode_order-encode_order}
use osborne_x.Net.Frames.{
  order_entry, FrameHeader, make_header, Layout, IsPacked, recv_all, is_ours, recv_all-struct,
  recv_all-closed, read-struct,
}

module _ (header : Layout FrameHeader) (order : Layout OrderEntryWire) where
  -- `send` of the client, on a socket that takes every byte.
  unfoldable pub send : OrderMessage → List ℕ
  send m = header.bytes (make_header order_entry order.size) ++ order.bytes (encode_order m)

  -- Whether `connection_loop` goes on to the payload.
  unfoldable pub is_order_entry : FrameHeader → Bool
  is_order_entry h = is_ours h && (h.message_type == order_entry && h.payload_length == order.size)

  -- `connection_loop`: the calls of its handler, a round for each unit of fuel.
  unfoldable pub connection_loop : ℕ → List ℕ → List (Option OrderMessage)
  connection_loop zero stream = []
  connection_loop (suc fuel) stream = elim (recv_all header.size stream) [
    | none ↦ []
    | some (head, rest) ↦ elim (is_order_entry (header.read head)) [
      | false ↦ []
      | true ↦ elim (recv_all order.size rest) [
        | none ↦ []
        | some (payload, rest') ↦ decode_order (order.read payload) ∷ connection_loop fuel rest'
      ]
    ]
  ]

  -- The bytes of one `send` after the other.
  unfoldable pub sent : List OrderMessage → List ℕ
  sent [] = []
  sent (m ∷ ms) = send m ++ sent ms

-- What a message is behind the wire: without the server's two stamps.
abbrev pub unstamped : OrderMessage → OrderMessage
unstamped m = record m { ingress_timestamp = 0; ingress_sequence = 0 }

module _ (header : Layout FrameHeader) (order : Layout OrderEntryWire) (p : IsPacked header)
    (q : IsPacked order) where
  is_order_entry_ours : is_order_entry header order (make_header order_entry order.size) ≡ true
  unfolding is_order_entry
  is_order_entry_ours = ground arith

  connection_loop_accepts :
      (fuel : ℕ) (stream head rest payload rest' : List ℕ)
      → recv_all header.size stream ≡ some (head, rest)
      → is_order_entry header order (header.read head) ≡ true
      → recv_all order.size rest ≡ some (payload, rest')
      → connection_loop header order (suc fuel) stream
        ≡ decode_order (order.read payload) ∷ connection_loop header order fuel rest'
  unfolding connection_loop
  connection_loop_accepts fuel stream head rest payload rest' e f g = ground arith

  connection_loop-round :
      (fuel : ℕ) (m : OrderMessage) (rest : List ℕ)
      → connection_loop header order (suc fuel) (send header order m ++ rest)
        ≡ some (unstamped m) ∷ connection_loop header order fuel rest
  unfolding send
  connection_loop-round fuel m rest =
      let head : FrameHeader = make_header order_entry order.size in
      let payload = encode_order m in
      connection_loop_accepts fuel _ (header.bytes head) (order.bytes payload ++ rest)
        (order.bytes payload) rest
        (ap (recv_all header.size) (append_assoc (header.bytes head) (order.bytes payload) rest)
          ∙ recv_all-struct header p head (order.bytes payload ++ rest))
        (ap (is_order_entry header order) (read-struct header p head) ∙ is_order_entry_ours)
        (recv_all-struct order q payload rest)
      ∙ ap (λ w. decode_order w ∷ connection_loop header order fuel rest)
          (read-struct order q payload)
      ∙ ap (λ o. o ∷ connection_loop header order fuel rest) (decode_order-encode_order m)

  connection_loop-closed : (fuel : ℕ) → 0 < header.size → connection_loop header order fuel [] ≡ []
  unfolding connection_loop
  connection_loop-closed zero h = refl
  connection_loop-closed (suc fuel) h = ground (arith, recv_all-closed header.size h)

  -- The handler of a connection gets what the client sent on it, message for message and in order,
  -- without the two stamps; as many rounds as there are messages, and one more, are enough. The
  -- layouts are packed, and a header has bytes.
  pub connection_loop-sent :
      (ms : List OrderMessage) (fuel : ℕ)
      → 0 < header.size
      → length ms < fuel
      → connection_loop header order fuel (sent header order ms) ≡ map (λ m. some (unstamped m)) ms
  unfolding sent
  connection_loop-sent [] fuel pos h = connection_loop-closed fuel pos
  connection_loop-sent (m ∷ ms) zero pos h = absurd (omega arith)
  connection_loop-sent (m ∷ ms) (suc fuel) pos h =
      connection_loop-round fuel m (sent header order ms)
      ∙ ap (◌∷◌ (some (unstamped m))) (connection_loop-sent ms fuel pos (omega arith))
