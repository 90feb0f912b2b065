-- ===== src/Orderbook/Types.antt =====
-- Orders and trades: order_type.hpp, side.hpp, order.hpp, order_modify.hpp, trade_info.hpp,
-- trade.hpp and level_info.hpp of Orderbook/inc/Orderbook.
use osborne_x.Base.{ℕ, ◌-◌, Bool, true, false, List, Option, none, some, if◌then◌else◌, ltb, ◌==◌}
use osborne_x.Base.Price.{Price, invalid_price}

pub data Side : Type 0 where
  buy sell : Side

pub data OrderType : Type 0 where
  good_till_cancel fill_and_kill fill_or_kill market : OrderType

abbrev pub is_fill_and_kill : OrderType → Bool
is_fill_and_kill fill_and_kill = true
is_fill_and_kill _ = false

abbrev pub is_fill_or_kill : OrderType → Bool
is_fill_or_kill fill_or_kill = true
is_fill_or_kill _ = false

abbrev pub is_market : OrderType → Bool
is_market market = true
is_market _ = false

-- Quantities are 32-bit words and ids 64-bit words.
pub record Order : Type 0 where
  pub order_type : OrderType
  pub order_id : ℕ
  pub side : Side
  pub price : Price
  pub initial_quantity : ℕ
  pub remaining_quantity : ℕ

abbrev pub make_order : OrderType → ℕ → Side → Price → ℕ → Order
make_order t i s p q = record {
  order_type = t;
  order_id = i;
  side = s;
  price = p;
  initial_quantity = q;
  remaining_quantity = q;
}

-- The constructor of a market order.
abbrev pub make_market_order : ℕ → Side → ℕ → Order
make_market_order i s q = make_order market i s invalid_price q

-- `GetFilledQuantity`; `fill` never lets the remaining quantity pass the initial one.
unfoldable pub filled_quantity : Order → ℕ
filled_quantity o = o.initial_quantity - o.remaining_quantity

abbrev pub is_filled : Order → Bool
is_filled o = o.remaining_quantity == 0

-- `Fill`: a quantity above the remaining one is refused in silence.
unfoldable pub fill : Order → ℕ → Order
fill o q =
    if ltb o.remaining_quantity q
    then o
    else record o { remaining_quantity = o.remaining_quantity - q }

-- `ToGoodTillCancel`; `none` is the `std::logic_error` thrown for any other type than `market`.
unfoldable pub to_good_till_cancel : Order → Price → Option Order
to_good_till_cancel o p =
    if is_market o.order_type
    then some (record o { order_type = good_till_cancel; price = p })
    else none

pub record OrderModify : Type 0 where
  pub order_id : ℕ
  pub side : Side
  pub price : Price
  pub quantity : ℕ

abbrev pub to_order : OrderModify → OrderType → Order
to_order m t = make_order t m.order_id m.side m.price m.quantity

pub record TradeInfo : Type 0 where
  pub order_id : ℕ
  pub price : Price
  pub quantity : ℕ

pub record Trade : Type 0 where
  pub bid_trade : TradeInfo
  pub ask_trade : TradeInfo

pub record LevelInfo : Type 0 where
  pub price : Price
  pub quantity : ℕ

pub record OrderbookLevelInfos : Type 0 where
  pub bids : List LevelInfo
  pub asks : List LevelInfo
