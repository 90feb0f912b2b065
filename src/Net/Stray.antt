-- ===== src/Net/Stray.antt =====
-- Datagrams that `run` of Net/src/market_data_multicast.cpp passes over.
use osborne_x.Base.{
  ℕ, zero, suc, ◌+◌, ◌-◌, ◌<◌, ◌≡◌, ◌≢◌, ◌⊎◌, inl, inr, ltb, Bool-cases, List, [], ◌∷◌, none, arith,
  length,
}
use osborne_x.Net.Wire.{TopOfBookUpdateWire, TradeExecutionWire}
use osborne_x.Net.Frames.{
  FrameHeader, Layout, top_of_book_message, trade_execution, frame_magic, frame_version, drop,
}
use osborne_x.Net.Datagrams.{receive_datagram, payload_event}

length-drop : (n : ℕ) (bytes : List ℕ) → length (drop n bytes) ≡ length bytes - n
unfolding drop
length-drop zero bytes = omega arith
length-drop (suc n) [] = omega arith
length-drop (suc n) (b ∷ bytes) = omega (arith, length-drop n bytes)

module _ (header : Layout FrameHeader) (top_wire : Layout TopOfBookUpdateWire)
    (trade_wire : Layout TradeExecutionWire) where
  -- A datagram that is no event: it is too short for a header, has a foreign magic or another version, or
  -- is neither a top of book with all its bytes nor a trade with all its bytes.
  pub data IsStray (bytes : List ℕ) : Type 0 where
    short : length bytes < header.size → IsStray bytes
    foreign : (header.read bytes).magic ≢ frame_magic → IsStray bytes
    other_version : (header.read bytes).version ≢ frame_version → IsStray bytes
    no_event :
        ((header.read bytes).message_type ≢ top_of_book_message)
          ⊎ (length bytes < header.size + top_wire.size)
        → ((header.read bytes).message_type ≢ trade_execution)
          ⊎ (length bytes < header.size + trade_wire.size)
        → IsStray bytes

  payload_event-none :
      (h : FrameHeader) (payload : List ℕ)
      → (h.message_type ≢ top_of_book_message) ⊎ (length payload < top_wire.size)
      → (h.message_type ≢ trade_execution) ⊎ (length payload < trade_wire.size)
      → payload_event header top_wire trade_wire h payload ≡ none
  unfolding payload_event
  payload_event-none h payload a b = ground arith

  pub receive_datagram-IsStray :
      (bytes : List ℕ) → IsStray bytes → receive_datagram header top_wire trade_wire bytes ≡ none
  unfolding receive_datagram
  receive_datagram-IsStray bytes (short h) = ground arith
  receive_datagram-IsStray bytes (foreign h) = ground arith
  receive_datagram-IsStray bytes (other_version h) = ground arith
  receive_datagram-IsStray bytes (no_event a b) =
      elim (Bool-cases (ltb (length bytes) header.size)) [
        | inl e ↦ ground arith
        | inr e ↦ ground (
          arith,
          payload_event-none (header.read bytes) (drop header.size bytes)
              (ground (arith, length-drop header.size bytes))
              (ground (arith, length-drop header.size bytes)),
        )
      ]
