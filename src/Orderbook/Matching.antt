-- ===== src/Orderbook/Matching.antt =====
-- `MatchOrders` of Orderbook/src/orderbook.cpp: the inner loop over the orders of the two best
-- levels, and the outer loop over the levels. Both `while` loops take fuel; a round of the inner
-- one removes an order, a round of the outer one a level, so their numbers are enough.
use osborne_x.Base.{
  ℕ, zero, suc, ◌+◌, List, [], ◌∷◌, ◌++◌, Option, none, some, if◌then◌else◌, min, length, is_empty,
}
use osborne_x.Base.Price.{lt_price}
use osborne_x.Orderbook.Types.{Side, buy, sell, Order, Trade, fill, is_filled, is_fill_and_kill}
use osborne_x.Orderbook.Levels.{Level, keep_level}
use osborne_x.Orderbook.LevelData.{LevelDataMap, on_order_matched, erase_data}
use osborne_x.Orderbook.Book.{OrderEntry, Orderbook, levels_of, erase_entry, cancel_order}

-- What the inner loop changes beside the two lists: the index, the aggregates and the trades.
pub record Tally : Type 0 where
  pub orders : List OrderEntry
  pub level_data : LevelDataMap
  pub trades : List Trade

pub record Matching : Type 0 where
  pub bids_at : List Order
  pub asks_at : List Order
  pub tally : Tally
  pub open tally use *

abbrev pub fill_quantity : Order → Order → ℕ
fill_quantity bid ask = min bid.remaining_quantity ask.remaining_quantity

abbrev pub trade_of : Order → Order → ℕ → Trade
trade_of bid ask q = record {
  bid_trade = record { order_id = bid.order_id; price = bid.price; quantity = q };
  ask_trade = record { order_id = ask.order_id; price = ask.price; quantity = q };
}

-- The front order after its fill: popped if filled.
unfoldable pub pop_filled : Order → List Order → List Order
pop_filled o os = if is_filled o then os else o ∷ os

unfoldable pub erase_filled : Order → List OrderEntry → List OrderEntry
erase_filled o es = if is_filled o then erase_entry o.order_id es else es

-- One round of the inner loop, but for the two lists: `q` is the quantity of the trade, `bid'` and
-- `ask'` are the orders after their fills.
unfoldable pub record_trade : Order → Order → ℕ → Order → Order → Tally → Tally
unfolding erase_filled
record_trade bid ask q bid' ask' t = record {
  orders = erase_filled ask' (erase_filled bid' t.orders);
  level_data =
      on_order_matched ask.price q (is_filled ask')
        (on_order_matched bid.price q (is_filled bid') t.level_data);
  trades = t.trades ++ trade_of bid ask q ∷ [];
}

-- The inner loop over the orders of the two best levels.
unfoldable pub match_level : ℕ → List Order → List Order → Tally → Matching
match_level zero bids asks t = record { bids_at = bids; asks_at = asks; tally = t }
match_level (suc fuel) [] asks t = record { bids_at = []; asks_at = asks; tally = t }
match_level (suc fuel) (bid ∷ bids) [] t = record { bids_at = bid ∷ bids; asks_at = []; tally = t }
match_level (suc fuel) (bid ∷ bids) (ask ∷ asks) t =
    let q = fill_quantity bid ask in
    let bid' = fill bid q in
    let ask' = fill ask q in
    match_level fuel (pop_filled bid' bids) (pop_filled ask' asks)
      (record_trade bid ask q bid' ask' t)

-- The aggregates of a level that has run empty go with it.
unfoldable pub drop_data : Level → LevelDataMap → LevelDataMap
drop_data l m = if is_empty l.orders then erase_data l.price m else m

unfoldable pub front_order : List Order → Option Order
front_order [] = none
front_order (o ∷ os) = some o

-- The id of a fill-and-kill order at the front of the best level.
unfoldable pub front_to_kill : List Level → Option ℕ
unfolding front_order
front_to_kill [] = none
front_to_kill (l ∷ ls) = elim (front_order l.orders) [
  | none ↦ none
  | some o ↦ if is_fill_and_kill o.order_type then some o.order_id else none
]

unfoldable pub kill_front : Side → Orderbook → Orderbook
kill_front s b = elim (front_to_kill (levels_of s b)) [ none ↦ b | some i ↦ cancel_order i b ]

-- The book after the inner loop at the best levels `l` and `k`, before the check for orders to kill.
unfoldable pub settle : Level → List Level → Level → List Level → Matching → Orderbook
settle l ls k ks m =
    let l' : Level = record l { orders = m.bids_at } in
    let k' : Level = record k { orders = m.asks_at } in
    record {
      level_data = drop_data k' (drop_data l' m.level_data);
      bids = keep_level l' ls;
      asks = keep_level k' ks;
      orders = m.orders;
    }

-- The inner loop at the two best levels, from the trades so far.
unfoldable pub run_level : Level → Level → Orderbook → List Trade → Matching
run_level l k b trades =
    match_level (length l.orders + length k.orders) l.orders k.orders
      (record { orders = b.orders; level_data = b.level_data; trades = trades })

-- One round of the outer loop, given the levels of the two sides; `none` is its `break`.
unfoldable pub match_round :
    Orderbook → List Trade → List Level → List Level → Option (Orderbook × List Trade)
match_round b trades [] asks = none
match_round b trades (l ∷ ls) [] = none
match_round b trades (l ∷ ls) (k ∷ ks) =
    if lt_price l.price k.price
    then none
    else (let m = run_level l k b trades in
        some (kill_front sell (kill_front buy (settle l ls k ks m)), m.trades))

unfoldable pub match_loop : ℕ → Orderbook → List Trade → Orderbook × List Trade
match_loop zero b trades = (b, trades)
match_loop (suc fuel) b trades = elim (match_round b trades b.bids b.asks) [
  | none ↦ (b, trades)
  | some (b', trades') ↦ match_loop fuel b' trades'
]

abbrev pub level_count : Orderbook → ℕ
level_count b = length b.bids + length b.asks

unfoldable pub match_orders : Orderbook → Orderbook × List Trade
match_orders b = match_loop (level_count b) b []
