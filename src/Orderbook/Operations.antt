-- ===== src/Orderbook/Operations.antt =====
-- `AddOrder`, `ModifyOrder`, `Size` and `GetOrderInfos` of Orderbook/src/orderbook.cpp.
use osborne_x.Base.{
  ℕ, ◌+◌, ◌%◌, ◌&&◌, not, List, [], ◌∷◌, map, Option, none, some, if◌then◌else◌, length,
}
use osborne_x.Base.Price.{Price}
use osborne_x.Orderbook.Types.{
  Side, buy, sell, Order, OrderModify, Trade, LevelInfo, OrderbookLevelInfos, is_fill_and_kill,
  is_fill_or_kill, is_market, to_good_till_cancel, to_order,
}
use osborne_x.Orderbook.Levels.{Level, push_order}
use osborne_x.Orderbook.LevelData.{LevelDataMap, Action, update_level_data, word}
use osborne_x.Orderbook.Book.{
  Orderbook, levels_of, with_levels, entry_of, find_entry, contains, can_match, can_fully_fill,
  cancel_order,
}
use osborne_x.Orderbook.Matching.{match_orders}

-- The price of the last level, `rbegin()`.
unfoldable pub worst_price : List Level → Option Price
worst_price [] = none
worst_price (l ∷ []) = some l.price
worst_price (l ∷ k ∷ ls) = worst_price (k ∷ ls)

abbrev pub opposite : Side → Side
opposite buy = sell
opposite sell = buy

-- A market order becomes a good-till-cancel one at the worst price of the other side; `none` where
-- that side is empty.
unfoldable pub price_market : Orderbook → Order → Option Order
unfolding worst_price to_good_till_cancel
price_market b o =
    if is_market o.order_type
    then elim (worst_price (levels_of (opposite o.side) b)) [
      | none ↦ none
      | some p ↦ to_good_till_cancel o p
    ]
    else some o

-- `OnOrderAdded`
unfoldable pub on_order_added : Order → LevelDataMap → LevelDataMap
on_order_added o = update_level_data o.price o.initial_quantity Action.add

-- The order enters its level, the index and the aggregates.
unfoldable pub insert_order : Order → Orderbook → Orderbook
insert_order o b =
    let b' : Orderbook = with_levels o.side b (push_order o.side o.price o (levels_of o.side b)) in
    record b' { orders = entry_of o ∷ b.orders; level_data = on_order_added o b.level_data }

-- The second half of `AddOrder`, for an order that is no market order any more.
unfoldable pub accept_order : Order → Orderbook → Orderbook × List Trade
accept_order o b =
    if is_fill_or_kill o.order_type && not (can_fully_fill o.side o.price o.initial_quantity b)
    then (b, [])
    else match_orders (insert_order o b)

unfoldable pub add_order : Order → Orderbook → Orderbook × List Trade
unfolding accept_order
add_order o b =
    if contains o.order_id b.orders
    then (b, [])
    else if is_fill_and_kill o.order_type && not (can_match o.side o.price b)
    then (b, [])
    else elim (price_market b o) [ none ↦ (b, []) | some o' ↦ accept_order o' b ]

unfoldable pub modify_order : OrderModify → Orderbook → Orderbook × List Trade
modify_order m b = elim (find_entry m.order_id b.orders) [
  | none ↦ (b, [])
  | some e ↦ add_order (to_order m e.order_type) (cancel_order m.order_id b)
]

unfoldable pub size : Orderbook → ℕ
size b = length b.orders

-- `std::accumulate` over a `Quantity`, which wraps.
unfoldable pub accumulate : ℕ → List Order → ℕ
accumulate sum [] = sum
accumulate sum (o ∷ os) = accumulate ((sum + o.remaining_quantity) % word) os

unfoldable pub create_level_info : Level → LevelInfo
unfolding accumulate
create_level_info l = record { price = l.price; quantity = accumulate 0 l.orders }

unfoldable pub get_order_infos : Orderbook → OrderbookLevelInfos
unfolding create_level_info
get_order_infos b = record {
  bids = map create_level_info b.bids;
  asks = map create_level_info b.asks;
}
