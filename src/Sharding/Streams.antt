-- ===== src/Sharding/Streams.antt =====
-- What `Shard::process` of Sharding/src/shard.cpp publishes.
use osborne_x.Base.{
  ℕ, ◌+◌, ◌<◌, ◌≡◌, refl, ap, subst, ◌∙◌, ◌⊎◌, inl, inr, true, false, List, [], ◌∷◌, ◌++◌, map,
  Option, none, some, if◌then◌else◌, ◌==◌, arith, lookup, lookup_or, insert, lookup-insert, length,
  length-append, Bool-cases,
}
use mathlib.Core.List.{append-nil, append_assoc}
use osborne_x.Base.Price.{Price}
use osborne_x.Messages.{OrderMessage, TopOfBookUpdate, no_top, TradeExecution}
use osborne_x.Orderbook.Types.{Trade}
use osborne_x.Orderbook.Book.{Orderbook}
use osborne_x.Queue.RingBuffer.{RingBuffer, word, push_overwrite}
use osborne_x.Queue.History.{Holds, push_overwrite-Holds}
use osborne_x.Sharding.Shard.{
  Shard, same_price, top_of_book_equal, top_of, make_top_of_book, book_of, apply_action,
  execution_of, publish_trades, trades_of, update_of, top_changed, process,
}

publish_trades-Holds :
    (k : ℕ) (m : OrderMessage) (ts : List Trade) (history : List TradeExecution)
    (r : RingBuffer TradeExecution)
    → length history + length ts < word
    → Holds k history r
    → Holds k (history ++ map (execution_of m) ts) (publish_trades m ts r)
unfolding publish_trades
publish_trades-Holds k m [] history r fits h = rw (append-nil history) h
publish_trades-Holds k m (t ∷ ts) history r fits h =
    subst (λ l. Holds k l (publish_trades m (t ∷ ts) r))
      (append_assoc history (execution_of m t ∷ []) (map (execution_of m) ts))
      (publish_trades-Holds k m ts (history ++ execution_of m t ∷ [])
        (push_overwrite (execution_of m t) r)
        (omega (arith, length-append history (execution_of m t ∷ [])))
        (push_overwrite-Holds k history (execution_of m t) r (omega arith) h))

-- What the execution of a trade tells: the symbol and the stamps of the message, and of the trade the two
-- orders, their prices and the quantity.
pub record Reports (m : OrderMessage) (t : Trade) (e : TradeExecution) : Type 0 where
  pub symbol : e.symbol ≡ m.symbol
  pub sequence : e.sequence ≡ m.ingress_sequence
  pub timestamp : e.timestamp ≡ m.ingress_timestamp
  pub bid_order_id : e.bid_order_id ≡ t.bid_trade.order_id
  pub bid_price : e.bid_price ≡ t.bid_trade.price
  pub ask_order_id : e.ask_order_id ≡ t.ask_trade.order_id
  pub ask_price : e.ask_price ≡ t.ask_trade.price
  pub quantity : e.quantity ≡ t.bid_trade.quantity

-- One execution for each trade, in their order.
pub data AreReported (m : OrderMessage) : List Trade → List TradeExecution → Type 0 where
  none_left : AreReported m [] []
  reports :
      {t : Trade} {e : TradeExecution} {ts : List Trade} {es : List TradeExecution}
      → Reports m t e
      → AreReported m ts es
      → AreReported m (t ∷ ts) (e ∷ es)

map-AreReported : (m : OrderMessage) (ts : List Trade) → AreReported m ts (map (execution_of m) ts)
map-AreReported m [] = none_left
map-AreReported m (t ∷ ts) =
    reports
      (record {
        symbol = refl;
        sequence = refl;
        timestamp = refl;
        bid_order_id = refl;
        bid_price = refl;
        ask_order_id = refl;
        ask_price = refl;
        quantity = refl;
      })
      (map-AreReported m ts)

-- `process` publishes one execution for each trade that the book returns, in their order, and no other:
-- each with the symbol and the stamps of the message, and with the ids of the trade's two orders, their
-- prices and the quantity. Sequences have not yet wrapped.
pub process-trades :
    (k : ℕ) (m : OrderMessage) (s : Shard) (history : List TradeExecution)
    → length history + length (trades_of m s) < word
    → Holds k history s.trade_outbound
    → (es : List TradeExecution) × AreReported m (trades_of m s) es
      × Holds k (history ++ es) (process m s).trade_outbound
unfolding process
process-trades k m s history fits h = (
  map (execution_of m) (trades_of m s),
  map-AreReported m (trades_of m s),
  publish_trades-Holds k m (trades_of m s) history s.trade_outbound fits h,
)

-- Two updates tell the same: all but the sequence agrees. No price agrees with no price.
pub record SameTop (u v : TopOfBookUpdate) : Type 0 where
  pub symbol : u.symbol ≡ v.symbol
  pub bid_price : u.bid_price ≡ v.bid_price
  pub bid_quantity : u.bid_quantity ≡ v.bid_quantity
  pub ask_price : u.ask_price ≡ v.ask_price
  pub ask_quantity : u.ask_quantity ≡ v.ask_quantity

equal-SameTop : (u v : TopOfBookUpdate) → top_of_book_equal u v ≡ true → SameTop u v
unfolding top_of_book_equal same_price
equal-SameTop u v e = record {
  symbol = ground arith;
  bid_price = ground arith;
  bid_quantity = ground arith;
  ask_price = ground arith;
  ask_quantity = ground arith;
}

SameTop-equal : (u v : TopOfBookUpdate) → SameTop u v → top_of_book_equal u v ≡ true
unfolding top_of_book_equal same_price
SameTop-equal u v t =
    ground (arith, t.symbol, t.bid_price, t.bid_quantity, t.ask_price, t.ask_quantity)

same_price_refl : (p : Price) → same_price p p ≡ true
unfolding same_price
same_price_refl p = ground arith

top_of_book_equal_refl : (u : TopOfBookUpdate) → top_of_book_equal u u ≡ true
unfolding top_of_book_equal
top_of_book_equal_refl u = ground (arith, same_price_refl u.bid_price, same_price_refl u.ask_price)

-- Each symbol's last update tells the top of its book as it is now, whatever sequence it has.
pub record IsCurrent (s : Shard) : Type 0 where
  pub current :
      (symbol : ℕ) (b : Orderbook)
      → lookup symbol s.books ≡ some b
      → (n : ℕ) → SameTop (lookup_or symbol s.last_top no_top) (make_top_of_book symbol n s.books)

-- Only the sequence of an update depends on the message that caused it.
top_of_sequence :
    (u : TopOfBookUpdate) (symbol n n' : ℕ) (o : Option Orderbook)
    → top_of_book_equal u (top_of symbol n o) ≡ top_of_book_equal u (top_of symbol n' o)
unfolding top_of top_of_book_equal
top_of_sequence u symbol n n' none = refl
top_of_sequence u symbol n n' (some b) = refl

make_top_of_book_sequence :
    (u : TopOfBookUpdate) (symbol n n' : ℕ) (books : List (ℕ × Orderbook))
    → top_of_book_equal u (make_top_of_book symbol n books)
      ≡ top_of_book_equal u (make_top_of_book symbol n' books)
unfolding make_top_of_book
make_top_of_book_sequence u symbol n n' books = top_of_sequence u symbol n n' (lookup symbol books)

make_top_of_book_other :
    (symbol n j : ℕ) (b : Orderbook) (books : List (ℕ × Orderbook))
    → (j == symbol) ≡ false
    → make_top_of_book symbol n (insert j b books) ≡ make_top_of_book symbol n books
unfolding make_top_of_book
make_top_of_book_other symbol n j b books h =
    ap (top_of symbol n) (ground (arith, lookup-insert j symbol b books))

-- `process` publishes nothing about the top where the top of the message's book has the symbol, the prices
-- and the quantities of the last update remembered for its symbol; otherwise it publishes one update,
-- with the new top. Sequences have not yet wrapped.
pub process-top :
    (k : ℕ) (m : OrderMessage) (s : Shard) (history : List TopOfBookUpdate)
    → length history + 1 < word
    → Holds k history s.outbound
    → (SameTop (lookup_or m.symbol s.last_top no_top) (update_of m s)
        × Holds k history (process m s).outbound)
      ⊎ ((¬ SameTop (lookup_or m.symbol s.last_top no_top) (update_of m s))
          × Holds k (history ++ update_of m s ∷ []) (process m s).outbound)
unfolding process
process-top k m s history fits h = elim (Bool-cases (top_changed m s)) [
  | inl e ↦ inr (
    λ t.
        let same = SameTop-equal (lookup_or m.symbol s.last_top no_top) (update_of m s) t in
        absurd (ground arith),
    rw e (push_overwrite-Holds k history (update_of m s) s.outbound fits h),
  )
  | inr e ↦
      inl (
        equal-SameTop (lookup_or m.symbol s.last_top no_top) (update_of m s) (ground arith),
        rw e h,
      )
]

last_top-process :
    (m : OrderMessage) (s : Shard)
    → top_of_book_equal (lookup_or m.symbol (process m s).last_top no_top) (update_of m s) ≡ true
unfolding process
last_top-process m s = ground (
  arith,
  lookup-insert m.symbol m.symbol
      (if top_changed m s then update_of m s else lookup_or m.symbol s.last_top no_top) s.last_top,
  top_of_book_equal_refl (update_of m s),
)

process-equal :
    (m : OrderMessage) (s : Shard)
    → ((symbol : ℕ) (b : Orderbook)
        → lookup symbol s.books ≡ some b
        → (n : ℕ)
        → top_of_book_equal (lookup_or symbol s.last_top no_top) (make_top_of_book symbol n s.books)
          ≡ true)
    → (symbol : ℕ) (b : Orderbook) → lookup symbol (process m s).books ≡ some b
    → (n : ℕ)
    → top_of_book_equal
        (lookup_or symbol (process m s).last_top no_top)
        (make_top_of_book symbol n (process m s).books)
      ≡ true
unfolding process
process-equal m s v symbol b e n = elim (Bool-cases (m.symbol == symbol)) [
  | inl h ↦
      let same : m.symbol ≡ symbol = ground arith in
      subst
        (λ j.
          top_of_book_equal (lookup_or j (process m s).last_top no_top)
            (make_top_of_book j n (process m s).books)
          ≡ true)
        same
        (make_top_of_book_sequence (lookup_or m.symbol (process m s).last_top no_top) m.symbol n
            m.ingress_sequence (process m s).books
          ∙ last_top-process m s)
  | inr h ↦
      rw
        (make_top_of_book_other symbol n m.symbol (apply_action m.action m (book_of m.symbol s)).0
          s.books h)
        (ground (
          arith,
          v symbol b
              (ground (
                arith,
                e,
                lookup-insert m.symbol symbol (apply_action m.action m (book_of m.symbol s)).0
                    s.books,
              ))
              n,
          lookup-insert m.symbol symbol
              (if top_changed m s then update_of m s else lookup_or m.symbol s.last_top no_top)
              s.last_top,
        ))
]

-- After `process` the last update of each symbol still tells the top of its book: it has the best price of
-- each side and the quantity there, as an update made of the book now has. It did so before.
pub process-IsCurrent : (m : OrderMessage) (s : Shard) → IsCurrent s → IsCurrent (process m s)
process-IsCurrent m s v = record {
  current = λ symbol b e n.
      equal-SameTop (lookup_or symbol (process m s).last_top no_top)
        (make_top_of_book symbol n (process m s).books)
        (process-equal m s
          (λ j c f k.
            SameTop-equal (lookup_or j s.last_top no_top) (make_top_of_book j k s.books)
              (v.current j c f k))
          symbol b e n);
}
