-- ===== src/Sharding/Shard.antt =====
-- `Shard` of Sharding/inc/Sharding/shard.hpp and Sharding/src/shard.cpp, but for its thread: `process`
-- runs on one message at a time, under the lock where other threads look on.
use osborne_x.Base.{
  ℕ, zero, suc, Bool, true, false, ◌&&◌, not, List, [], ◌∷◌, Option, none, some, if◌then◌else◌,
  ◌==◌, lookup, lookup_or, insert,
}
use osborne_x.Base.Price.{Price, is_nan, eq_price, invalid_price}
use osborne_x.Messages.{
  OrderMessage, OrderAction, add, cancel, modify, TopOfBookUpdate, no_top, TradeExecution,
}
use osborne_x.Orderbook.Types.{Trade, LevelInfo, make_order}
use osborne_x.Orderbook.Book.{Orderbook, empty_book, cancel_order}
use osborne_x.Orderbook.Operations.{add_order, modify_order, size, get_order_infos}
use osborne_x.Queue.RingBuffer.{
  RingBuffer, lossless, make_ring, add_consumer, push_blocking, push_overwrite, read_consumer,
}

pub record Shard : Type 0 where
  pub inbound : RingBuffer OrderMessage
  pub outbound : RingBuffer TopOfBookUpdate
  pub trade_outbound : RingBuffer TradeExecution
  pub books : List (ℕ × Orderbook)
  pub last_top : List (ℕ × TopOfBookUpdate)

-- The constructor; the arguments are the value-initialised message, update and trade. The inbound
-- cursor is the consumer 0 of the inbound buffer.
unfoldable pub make_shard : OrderMessage → TradeExecution → ℕ → ℕ → ℕ → Shard
make_shard m t inbound_capacity outbound_capacity trade_outbound_capacity = record {
  inbound = add_consumer lossless (make_ring m inbound_capacity);
  outbound = make_ring no_top outbound_capacity;
  trade_outbound = make_ring t trade_outbound_capacity;
  books = [];
  last_top = [];
}

-- `enqueue`; `none` means that the call spins, since the inbound buffer is full.
unfoldable pub enqueue : OrderMessage → Shard → Option Shard
enqueue m s = elim (push_blocking m s.inbound) [
  | none ↦ none
  | some r ↦ some (record s { inbound = r })
]

unfoldable pub book_size : ℕ → Shard → ℕ
book_size symbol s = elim (lookup symbol s.books) [ none ↦ 0 | some b ↦ size b ]

unfoldable pub has_book : ℕ → Shard → Bool
has_book symbol s = elim (lookup symbol s.books) [ none ↦ false | some b ↦ true ]

unfoldable pub same_price : Price → Price → Bool
same_price a b = if is_nan a && is_nan b then true else eq_price a b

unfoldable pub top_of_book_equal : TopOfBookUpdate → TopOfBookUpdate → Bool
unfolding same_price
top_of_book_equal a b =
    a.symbol == b.symbol
    && (same_price a.bid_price b.bid_price
        && (a.bid_quantity == b.bid_quantity
            && (same_price a.ask_price b.ask_price && a.ask_quantity == b.ask_quantity)))

-- The front of a side, with the defaults of the update where it has no level.
unfoldable pub front_info : List LevelInfo → LevelInfo
front_info [] = record { price = invalid_price; quantity = 0 }
front_info (i ∷ is) = i

unfoldable pub top_of : ℕ → ℕ → Option Orderbook → TopOfBookUpdate
unfolding front_info
top_of symbol sequence none = record no_top { symbol = symbol; sequence = sequence }
top_of symbol sequence (some b) =
    let infos = get_order_infos b in
    let bid = front_info infos.bids in
    let ask = front_info infos.asks in
    record {
      symbol = symbol;
      bid_price = bid.price;
      bid_quantity = bid.quantity;
      ask_price = ask.price;
      ask_quantity = ask.quantity;
      sequence = sequence;
    }

unfoldable pub make_top_of_book : ℕ → ℕ → List (ℕ × Orderbook) → TopOfBookUpdate
unfolding top_of
make_top_of_book symbol sequence books = top_of symbol sequence (lookup symbol books)

unfoldable pub top_of_book : ℕ → Shard → TopOfBookUpdate
top_of_book symbol s = make_top_of_book symbol 0 s.books

-- The `switch` of `process`.
unfoldable pub apply_action : OrderAction → OrderMessage → Orderbook → Orderbook × List Trade
apply_action add m b = add_order (make_order m.order_type m.order_id m.side m.price m.quantity) b
apply_action cancel m b = (cancel_order m.order_id b, [])
apply_action modify m b =
    modify_order
      (record { order_id = m.order_id; side = m.side; price = m.price; quantity = m.quantity }) b

abbrev pub execution_of : OrderMessage → Trade → TradeExecution
execution_of m t = record {
  symbol = m.symbol;
  sequence = m.ingress_sequence;
  timestamp = m.ingress_timestamp;
  bid_order_id = t.bid_trade.order_id;
  bid_price = t.bid_trade.price;
  ask_order_id = t.ask_trade.order_id;
  ask_price = t.ask_trade.price;
  quantity = t.bid_trade.quantity;
}

unfoldable pub publish_trades :
    OrderMessage → List Trade → RingBuffer TradeExecution → RingBuffer TradeExecution
publish_trades m [] r = r
publish_trades m (t ∷ ts) r = publish_trades m ts (push_overwrite (execution_of m t) r)

-- The part of `process` under the lock: the book of the symbol after the message and its trades.
abbrev pub book_of : ℕ → Shard → Orderbook
book_of symbol s = lookup_or symbol s.books empty_book

abbrev pub books_after : OrderMessage → Shard → List (ℕ × Orderbook)
books_after m s = insert m.symbol (apply_action m.action m (book_of m.symbol s)).0 s.books

abbrev pub trades_of : OrderMessage → Shard → List Trade
trades_of m s = (apply_action m.action m (book_of m.symbol s)).1

abbrev pub update_of : OrderMessage → Shard → TopOfBookUpdate
update_of m s = make_top_of_book m.symbol m.ingress_sequence (books_after m s)

abbrev pub top_changed : OrderMessage → Shard → Bool
top_changed m s = not (top_of_book_equal (lookup_or m.symbol s.last_top no_top) (update_of m s))

unfoldable pub process : OrderMessage → Shard → Shard
process m s =
    let last = lookup_or m.symbol s.last_top no_top in
    let update = update_of m s in
    let changed = top_changed m s in
    record s {
      books = books_after m s;
      last_top = insert m.symbol (if changed then update else last) s.last_top;
      trade_outbound = publish_trades m (trades_of m s) s.trade_outbound;
      outbound = if changed then push_overwrite update s.outbound else s.outbound;
    }

-- `drain`: a round for each message that is read; the number of messages waiting is enough fuel.
unfoldable pub drain : ℕ → Shard → Shard
drain zero s = s
drain (suc fuel) s =
    let (result, value, r) = read_consumer 0 s.inbound in
    let s' : Shard = record s { inbound = r } in
    elim value [ none ↦ s' | some m ↦ drain fuel (process m s') ]
