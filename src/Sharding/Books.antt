-- ===== src/Sharding/Books.antt =====
-- The order books of a shard of Sharding/src/shard.cpp.
use osborne_x.Base.{
  ℕ, ◌+◌, ◌≤◌, ◌<◌, ◌≡◌, ◌++◌, length, arith, inl, inr, ◌⊎◌, List, [], ◌∷◌, All, ◌==◌, Bool-cases,
  lookup_or, insert,
}
use osborne_x.Orderbook.Types.{Trade, market, make_order, OrderModify}
use osborne_x.Orderbook.Book.{Orderbook, empty_book}
use osborne_x.Orderbook.Sound.{
  IsSound, empty-IsSound, add_order-IsSound, cancel_order-IsSound, modify_order-IsSound,
}
use osborne_x.Orderbook.Crossing.{IsCrossing, add_order-IsCrossing, modify_order-IsCrossing}
use osborne_x.Messages.{TradeExecution, OrderMessage, OrderAction, add, cancel, modify}
use osborne_x.Queue.RingBuffer.{word}
use osborne_x.Queue.History.{Holds}
use osborne_x.Sharding.Streams.{AreReported, none_left, reports, process-trades}
use osborne_x.Sharding.Shard.{Shard, apply_action, book_of, trades_of, process}

-- A message names a price that is no NaN where it is to be read.
abbrev pub HasPrice : OrderAction → OrderMessage → Type 0
HasPrice add m = (0 < m.price) ⊎ (m.order_type ≡ market)
HasPrice cancel m = Unit
HasPrice modify m = 0 < m.price

pub apply_action-IsSound :
    (a : OrderAction) (m : OrderMessage) (b : Orderbook)
    → HasPrice a m
    → IsSound b
    → IsSound (apply_action a m b).0 × All IsCrossing (apply_action a m b).1
unfolding apply_action
apply_action-IsSound add m b h v =
    let o = make_order m.order_type m.order_id m.side m.price m.quantity in
    (add_order-IsSound o b h v, add_order-IsCrossing o b h v.filed)
apply_action-IsSound cancel m b h v = (cancel_order-IsSound m.order_id b v, tt)
apply_action-IsSound modify m b h v =
    let o : OrderModify = record {
      order_id = m.order_id;
      side = m.side;
      price = m.price;
      quantity = m.quantity;
    } in
    (modify_order-IsSound o b h v, modify_order-IsCrossing o b h v.filed)

abbrev pub AreSound : List (ℕ × Orderbook) → Type 0
AreSound books = All (λ e. IsSound e.1) books

pub lookup_or-IsSound :
    (symbol : ℕ) (books : List (ℕ × Orderbook))
    → AreSound books
    → IsSound (lookup_or symbol books empty_book)
lookup_or-IsSound symbol [] h = empty-IsSound
lookup_or-IsSound symbol ((j, b) ∷ books) h = elim (Bool-cases (j == symbol)) [
  | inl e ↦ rw (e, lookup_or) h.0
  | inr e ↦ rw (e, lookup_or) (lookup_or-IsSound symbol books h.1)
]

insert-AreSound :
    (symbol : ℕ) (b : Orderbook) (books : List (ℕ × Orderbook))
    → IsSound b
    → AreSound books
    → AreSound (insert symbol b books)
insert-AreSound symbol b [] v h = (v, tt)
insert-AreSound symbol b ((j, c) ∷ books) v h = elim (Bool-cases (j == symbol)) [
  | inl e ↦ rw e (v, h.1)
  | inr e ↦ rw e (h.0, insert-AreSound symbol b books v h.1)
]

pub books-AreSound :
    (m : OrderMessage) (s : Shard)
    → HasPrice m.action m
    → AreSound s.books
    → AreSound (process m s).books × All IsCrossing (trades_of m s)
unfolding process
books-AreSound m s h v =
    let applied =
      apply_action-IsSound m.action m (book_of m.symbol s) h
        (lookup_or-IsSound m.symbol s.books v) in
    (insert-AreSound m.symbol _ s.books applied.0 v, applied.1)

-- The buyer of an execution does not pay less than the seller asks.
abbrev pub IsFair : TradeExecution → Type 0
IsFair e = e.ask_price ≤ e.bid_price

AreReported-IsFair :
    (m : OrderMessage) {ts : List Trade} {es : List TradeExecution}
    → AreReported m ts es
    → All IsCrossing ts
    → All IsFair es
AreReported-IsFair m none_left a = tt
AreReported-IsFair m (reports r rs) a =
    (omega (arith, r.bid_price, r.ask_price, a.0.0), AreReported-IsFair m rs a.1)

-- `process` keeps every book of the shard sound: sorted, filed right, in step with its index, not
-- crossed, and without a fill-and-kill order. It publishes one execution for each trade of the book, and
-- each has an ask price of at most its bid price. The message names a price that is no NaN, where it is
-- to be read, and sequences have not yet wrapped.
pub process-AreSound :
    (k : ℕ) (m : OrderMessage) (s : Shard) (history : List TradeExecution)
    → HasPrice m.action m
    → AreSound s.books
    → length history + length (trades_of m s) < word
    → Holds k history s.trade_outbound
    → AreSound (process m s).books
      × (es : List TradeExecution) × AreReported m (trades_of m s) es
      × All IsFair es
      × Holds k (history ++ es) (process m s).trade_outbound
process-AreSound k m s history h v fits w =
    let (kept, crossing) = books-AreSound m s h v in
    let (es, reported, held) = process-trades k m s history fits w in
    (kept, es, reported, AreReported-IsFair m reported crossing, held)
