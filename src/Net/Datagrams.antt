-- ===== src/Net/Datagrams.antt =====
-- Market data in datagrams: `send_top_of_book`, `send_trade` and the loop of `run` of
-- Net/src/market_data_multicast.cpp.
use osborne_x.Base.{
  ℕ, ◌≡◌, refl, ap, ◌∙◌, false, ◌&&◌, List, ◌++◌, Option, none, some, arith, if◌then◌else◌, ltb,
  leb, ◌==◌, length, length-append,
}
use osborne_x.Messages.{TopOfBookUpdate, TradeExecution}
use osborne_x.Net.Wire.{
  TopOfBookUpdateWire, TradeExecutionWire, encode_top, decode_top, encode_trade, decode_trade,
  decode_top-encode_top, decode_trade-encode_trade,
}
use osborne_x.Net.Frames.{
  top_of_book_message, trade_execution, FrameHeader, make_header, Layout, IsPacked, drop, is_ours,
  drop-struct, read-struct,
}

-- What `run` hands to its handlers.
pub data Event : Type 0 where
  top : TopOfBookUpdate → Event
  trade : TradeExecution → Event

module _ (header : Layout FrameHeader) (top_wire : Layout TopOfBookUpdateWire)
    (trade_wire : Layout TradeExecutionWire) where
  unfoldable pub send_top_of_book : TopOfBookUpdate → List ℕ
  send_top_of_book u =
      header.bytes (make_header top_of_book_message top_wire.size) ++ top_wire.bytes (encode_top u)

  unfoldable pub send_trade : TradeExecution → List ℕ
  send_trade t =
      header.bytes (make_header trade_execution trade_wire.size)
      ++ trade_wire.bytes (encode_trade t)

  unfoldable pub payload_event : FrameHeader → List ℕ → Option Event
  payload_event h payload =
      if h.message_type == top_of_book_message && leb top_wire.size (length payload)
      then some (top (decode_top (top_wire.read payload)))
      else (if h.message_type == trade_execution && leb trade_wire.size (length payload)
          then some (trade (decode_trade (trade_wire.read payload)))
          else none)

  -- The body of the loop of `run`, on a datagram of at most 512 bytes.
  unfoldable pub receive_datagram : List ℕ → Option Event
  unfolding payload_event
  receive_datagram datagram =
      if ltb (length datagram) header.size
      then none
      else (let h = header.read datagram in
          if is_ours h then payload_event h (drop header.size datagram) else none)

module _ (header : Layout FrameHeader) (top_wire : Layout TopOfBookUpdateWire)
    (trade_wire : Layout TradeExecutionWire) (p : IsPacked header) (q : IsPacked top_wire)
    (r : IsPacked trade_wire) where
  header-fits :
      (h : FrameHeader) (rest : List ℕ) → ltb (length (header.bytes h ++ rest)) header.size ≡ false
  header-fits h rest = ground (arith, length-append (header.bytes h) rest, p.sized h)

  receive_datagram-payload :
      (t n : ℕ) (payload : List ℕ)
      → receive_datagram header top_wire trade_wire (header.bytes (make_header t n) ++ payload)
        ≡ payload_event header top_wire trade_wire (make_header t n) payload
  unfolding receive_datagram
  receive_datagram-payload t n payload =
      rw
        (
          header-fits (make_header t n) payload,
          p.restored (make_header t n) payload,
          drop-struct header p (make_header t n) payload,
        )
        refl

  payload_event-top :
      (n : ℕ) (payload : List ℕ)
      → length payload ≡ top_wire.size
      → payload_event header top_wire trade_wire (make_header top_of_book_message n) payload
        ≡ some (top (decode_top (top_wire.read payload)))
  unfolding payload_event
  payload_event-top n payload h = ground arith

  payload_event-trade :
      (n : ℕ) (payload : List ℕ)
      → length payload ≡ trade_wire.size
      → payload_event header top_wire trade_wire (make_header trade_execution n) payload
        ≡ some (trade (decode_trade (trade_wire.read payload)))
  unfolding payload_event
  payload_event-trade n payload h = ground arith

  -- A listener hands on each top of book that is sent to it, as it was. The layouts are packed.
  pub receive_datagram-send_top_of_book :
      (u : TopOfBookUpdate)
      → receive_datagram header top_wire trade_wire (send_top_of_book header top_wire trade_wire u)
        ≡ some (top u)
  unfolding send_top_of_book
  receive_datagram-send_top_of_book u =
      receive_datagram-payload top_of_book_message top_wire.size (top_wire.bytes (encode_top u))
      ∙ payload_event-top top_wire.size (top_wire.bytes (encode_top u)) (q.sized (encode_top u))
      ∙ ap (λ w. some (top (decode_top w))) (read-struct top_wire q (encode_top u))
      ∙ ap (λ v. some (top v)) (decode_top-encode_top u)

  -- A listener hands on each trade that is sent to it, as it was. The layouts are packed.
  pub receive_datagram-send_trade :
      (t : TradeExecution)
      → receive_datagram header top_wire trade_wire (send_trade header top_wire trade_wire t)
        ≡ some (trade t)
  unfolding send_trade
  receive_datagram-send_trade t =
      receive_datagram-payload trade_execution trade_wire.size (trade_wire.bytes (encode_trade t))
      ∙ payload_event-trade trade_wire.size (trade_wire.bytes (encode_trade t))
          (r.sized (encode_trade t))
      ∙ ap (λ w. some (trade (decode_trade w))) (read-struct trade_wire r (encode_trade t))
      ∙ ap (λ v. some (trade v)) (decode_trade-encode_trade t)
