-- ===== src/Net/Multicast.antt =====
-- `MarketDataListener` of Net/src/market_data_multicast.cpp: its `start` and `stop`, and the loop of
-- `run` over what its rounds meet.
use osborne_x.Base.{
  ℕ, zero, suc, ◌+◌, ◌≤◌, ◌≡◌, refl, ap, Bool, true, false, List, [], ◌∷◌, Option, none, some,
  arith, if◌then◌else◌, length, length-append,
}
use osborne_x.Net.Wire.{TopOfBookUpdateWire, TradeExecutionWire, encode_top, encode_trade}
use osborne_x.Net.Frames.{
  FrameHeader, Layout, IsPacked, make_header, top_of_book_message, trade_execution,
}
use osborne_x.Net.Sockets.{SocketHandle, is_valid, close_handle}
use osborne_x.Net.Listener.{join}
use osborne_x.Net.Datagrams.{
  Event, top, trade, send_top_of_book, send_trade, receive_datagram,
  receive_datagram-send_top_of_book, receive_datagram-send_trade,
}
use osborne_x.Net.Stray.{IsStray, receive_datagram-IsStray}

pub record MarketDataListener : Type 0 where
  pub socket : SocketHandle
  pub running : Bool
  pub thread : Option ℕ
  pub joined : List ℕ
  pub closed : List ℕ

-- The constructor; no socket was closed yet.
unfoldable pub make_market_data : MarketDataListener
make_market_data = record {
  socket = none;
  running = false;
  thread = none;
  joined = [];
  closed = [];
}

-- What the system answers to `start`: a socket, whether it binds and joins the group, and the number of
-- the new thread.
pub record Answers : Type 0 where
  pub socket : Option ℕ
  pub binds : Bool
  pub joins : Bool
  pub thread : ℕ

abbrev pub reset_socket : SocketHandle → MarketDataListener → MarketDataListener
reset_socket h l = record l { socket = h; closed = close_handle l.socket l.closed }

abbrev pub give_up : MarketDataListener → MarketDataListener × Bool
give_up l = (record (reset_socket none l) { running = false }, false)

-- `start`, once it has a socket.
unfoldable pub start_on : ℕ → Answers → MarketDataListener → MarketDataListener × Bool
start_on h a l =
    let l' = reset_socket (some h) (record l { running = true }) in
    if a.binds
    then (if a.joins then (record l' { thread = some a.thread }, true) else give_up l')
    else give_up l'

unfoldable pub start : Answers → MarketDataListener → MarketDataListener × Bool
unfolding start_on
start a l =
    if l.running
    then (l, true)
    else elim a.socket [ none ↦ (record l { running = false }, false) | some h ↦ start_on h a l ]

unfoldable pub stop : MarketDataListener → MarketDataListener
stop l =
    if l.running
    then reset_socket none
        (record l { running = false; thread = none; joined = join l.thread l.joined })
    else l

-- What a round of `run` meets: `running_` is not set any more, or nothing is readable in time, or
-- `recv` returns no bytes, or a datagram.
pub data Poll : Type 0 where
  stopped idle failed : Poll
  arrives : List ℕ → Poll

-- The first bytes of a datagram, as many as the buffer holds.
unfoldable pub first_bytes : ℕ → List ℕ → List ℕ
first_bytes zero bytes = []
first_bytes (suc n) [] = []
first_bytes (suc n) (b ∷ bytes) = b ∷ first_bytes n bytes

abbrev pub buffer_size : ℕ
buffer_size = 512

abbrev pub handed_on : Option Event → List Event → List Event
handed_on none es = es
handed_on (some e) es = e ∷ es

module _ (header : Layout FrameHeader) (top_wire : Layout TopOfBookUpdateWire)
    (trade_wire : Layout TradeExecutionWire) where
  -- `run`: the calls of its handlers, up to the stop or the last poll.
  unfoldable pub run : List Poll → List Event
  run [] = []
  run (stopped ∷ ps) = []
  run (idle ∷ ps) = run ps
  run (failed ∷ ps) = run ps
  run (arrives bytes ∷ ps) =
      handed_on (receive_datagram header top_wire trade_wire (first_bytes buffer_size bytes))
        (run ps)

  -- What a publisher sends for an event.
  abbrev pub send_event : Event → List ℕ
  send_event (top u) = send_top_of_book header top_wire trade_wire u
  send_event (trade t) = send_trade header top_wire trade_wire t

  -- Polls that bring the datagrams of some events, among others that are no event in their first 512
  -- bytes.
  pub data Brings : List Poll → List Event → Type 0 where
    ends : Brings [] []
    is_stopped : {ps : List Poll} → Brings (stopped ∷ ps) []
    waits : {ps : List Poll} {es : List Event} → Brings ps es → Brings (idle ∷ ps) es
    fails : {ps : List Poll} {es : List Event} → Brings ps es → Brings (failed ∷ ps) es
    strays :
        {ps : List Poll} {es : List Event} (bytes : List ℕ)
        → IsStray header top_wire trade_wire (first_bytes buffer_size bytes)
        → Brings ps es
        → Brings (arrives bytes ∷ ps) es
    brings :
        {ps : List Poll} {es : List Event} (e : Event)
        → Brings ps es
        → Brings (arrives (send_event e) ∷ ps) (e ∷ es)

first_bytes-all : (n : ℕ) (bytes : List ℕ) → length bytes ≤ n → first_bytes n bytes ≡ bytes
unfolding first_bytes
first_bytes-all zero [] h = refl
first_bytes-all zero (b ∷ bytes) h = absurd (omega arith)
first_bytes-all (suc n) [] h = refl
first_bytes-all (suc n) (b ∷ bytes) h = ap (◌∷◌ b) (first_bytes-all n bytes (omega arith))

module _ (header : Layout FrameHeader) (top_wire : Layout TopOfBookUpdateWire)
    (trade_wire : Layout TradeExecutionWire) (p : IsPacked header) (q : IsPacked top_wire)
    (r : IsPacked trade_wire) where
  length-send_event :
      (e : Event)
      → length (send_event header top_wire trade_wire e)
        ≤ header.size + (top_wire.size + trade_wire.size)
  unfolding send_top_of_book send_trade
  length-send_event (top u) = omega (
    arith,
    p.sized (make_header top_of_book_message top_wire.size),
    q.sized (encode_top u),
    length-append (header.bytes (make_header top_of_book_message top_wire.size))
        (top_wire.bytes (encode_top u)),
  )
  length-send_event (trade t) = omega (
    arith,
    p.sized (make_header trade_execution trade_wire.size),
    r.sized (encode_trade t),
    length-append (header.bytes (make_header trade_execution trade_wire.size))
        (trade_wire.bytes (encode_trade t)),
  )

  receive_datagram-send_event :
      (e : Event)
      → receive_datagram header top_wire trade_wire (send_event header top_wire trade_wire e)
        ≡ some e
  receive_datagram-send_event (top u) =
      receive_datagram-send_top_of_book header top_wire trade_wire p q r u
  receive_datagram-send_event (trade t) =
      receive_datagram-send_trade header top_wire trade_wire p q r t

  -- `run` hands on each event that is sent, once, in order and as it was, and nothing else, whatever
  -- timeouts, failures and stray datagrams its rounds meet. A stray datagram has in its first 512 bytes no
  -- header, a foreign magic, another version, or no whole top of book and no whole trade. The layouts are
  -- packed, and a frame fits into the buffer.
  pub run-Brings :
      {ps : List Poll} {es : List Event}
      → header.size + (top_wire.size + trade_wire.size) ≤ buffer_size
      → Brings header top_wire trade_wire ps es
      → run header top_wire trade_wire ps ≡ es
  unfolding run
  run-Brings h ends = refl
  run-Brings h is_stopped = refl
  run-Brings h (waits b) = run-Brings h b
  run-Brings h (fails b) = run-Brings h b
  run-Brings h (strays bytes e b) =
      rw (receive_datagram-IsStray header top_wire trade_wire (first_bytes buffer_size bytes) e)
        (run-Brings h b)
  run-Brings h (brings e b) =
      rw
        (
          first_bytes-all buffer_size (send_event header top_wire trade_wire e)
              (omega (arith, h, length-send_event e)),
          receive_datagram-send_event e,
        )
        (ap (◌∷◌ e) (run-Brings h b))

-- Whether the listener runs, holds a socket and has a thread are the same.
pub record IsWhole (l : MarketDataListener) : Type 0 where
  pub held : is_valid l.socket ≡ l.running
  pub threaded : is_valid l.thread ≡ l.running

-- `start` and `stop` of a market data listener leave it whole: it runs with a socket and a thread or has
-- neither, and a `start` that fails closes the socket that it opened. It is whole before.
pub start-IsWhole :
    (a : Answers) (l : MarketDataListener)
    → IsWhole l
    → IsWhole (start a l).0
      × ((start a l).0.running ≡ (start a l).1)
      × IsWhole (stop l)
      × ((start a l).0.closed
          ≡ (if (start a l).1 then l.closed else close_handle a.socket l.closed))
unfolding start start_on stop
start-IsWhole a l w = (
  ground (arith, w.held, w.threaded),
  ground (arith, w.held),
  ground (arith, w.held, w.threaded),
  ground (arith, w.held),
)
