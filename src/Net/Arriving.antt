-- ===== src/Net/Arriving.antt =====
-- That it does not matter to `connection_loop` of Net/src/order_entry_listener.cpp how bytes arrive.
use osborne_x.Base.{
  ℕ, zero, suc, ◌<◌, ◌≡◌, refl, ap, ◌∙◌, inl, inr, List, [], ◌∷◌, map, Option, none, some, length,
  Bool-cases,
}
use osborne_x.Messages.{OrderMessage}
use osborne_x.Net.Wire.{OrderEntryWire, decode_order}
use osborne_x.Net.Frames.{FrameHeader, Layout, IsPacked, recv_all}
use osborne_x.Net.Connection.{
  is_order_entry, connection_loop, sent, unstamped, connection_loop-sent,
}
use osborne_x.Net.Receiving.{
  Poll, Outcome, waiting, failed, received, Agrees, recv_polled, recv_polled-Agrees,
  connection_polled, stream_of,
}

module _ (header : Layout FrameHeader) (order : Layout OrderEntryWire) where
  payload-stream :
      (fuel : ℕ) (o : Outcome) (t : Option (List ℕ × List ℕ))
      → Agrees o t
      → ((ps : List Poll)
          → connection_polled header order fuel ps
            ≡ connection_loop header order fuel (stream_of ps))
      → elim o as (λ _. List (Option OrderMessage)) [
        | waiting ↦ []
        | failed ↦ []
        | received payload ps ↦
            decode_order (order.read payload) ∷ connection_polled header order fuel ps
      ]
        ≡ elim t as (λ _. List (Option OrderMessage)) [
          | none ↦ []
          | some (payload, rest) ↦
              decode_order (order.read payload) ∷ connection_loop header order fuel rest
        ]
  payload-stream fuel waiting t a ih = rw a refl
  payload-stream fuel failed t a ih = rw a refl
  payload-stream fuel (received payload ps) t a ih =
      rw a (ap (◌∷◌ (decode_order (order.read payload))) (ih ps))

  header-stream :
      (fuel : ℕ) (ps : List Poll) (o : Outcome)
      → recv_polled ps header.size ≡ o
      → Agrees o (recv_all header.size (stream_of ps))
      → ((ps : List Poll)
          → connection_polled header order fuel ps
            ≡ connection_loop header order fuel (stream_of ps))
      → connection_polled header order (suc fuel) ps
        ≡ connection_loop header order (suc fuel) (stream_of ps)
  unfolding connection_polled connection_loop
  header-stream fuel ps waiting e a ih = rw (e, connection_polled, a, connection_loop) refl
  header-stream fuel ps failed e a ih = rw (e, connection_polled, a, connection_loop) refl
  header-stream fuel ps (received head ps') e a ih =
      rw (e, connection_polled, a, connection_loop)
        (elim (Bool-cases (is_order_entry header order (header.read head))) [
          | inl t ↦ rw t (
              payload-stream fuel (recv_polled ps' order.size) (recv_all order.size (stream_of ps'))
                (recv_polled-Agrees ps' order.size) ih)
          | inr t ↦ rw t refl
        ])

  -- However the bytes arrive, the handler of a connection gets what it would get from the whole stream:
  -- the one up to the close, the stop or the last poll.
  pub connection_polled-stream :
      (fuel : ℕ) (ps : List Poll)
      → connection_polled header order fuel ps ≡ connection_loop header order fuel (stream_of ps)
  unfolding connection_polled connection_loop
  connection_polled-stream zero ps = refl
  connection_polled-stream (suc fuel) ps =
      header-stream fuel ps (recv_polled ps header.size) refl (recv_polled-Agrees ps header.size)
        (connection_polled-stream fuel)

-- However the bytes of a client's orders arrive, the handler of the connection gets these orders, each
-- once and in order, without the two stamps. The layouts are packed, a header has bytes, and there is
-- more fuel than orders.
pub connection_polled-sent :
    (header : Layout FrameHeader) (order : Layout OrderEntryWire) (ms : List OrderMessage)
    (fuel : ℕ) (ps : List Poll)
    → IsPacked header
    → IsPacked order
    → 0 < header.size
    → length ms < fuel
    → stream_of ps ≡ sent header order ms
    → connection_polled header order fuel ps ≡ map (λ m. some (unstamped m)) ms
connection_polled-sent header order ms fuel ps p q pos enough e =
    connection_polled-stream header order fuel ps
    ∙ ap (connection_loop header order fuel) e
    ∙ connection_loop-sent header order p q ms fuel pos enough
