-- ===== src/Net/Wire.antt =====
-- The messages on the wire: Net/inc/Net/wire/order_entry_wire.hpp, Net/inc/Net/wire/market_data_wire.hpp
-- and their sources in Net/src. The overloads `encode` and `decode` get a name for each message.
use osborne_x.Base.{ℕ, zero, suc, ◌≡◌, refl, Option, none, some, ◌>>=◌}
use osborne_x.Base.Price.{Price}
use osborne_x.Orderbook.Types.{
  Side, buy, sell, OrderType, good_till_cancel, fill_and_kill, fill_or_kill, market,
}
use osborne_x.Messages.{
  OrderAction, add, cancel, modify, OrderMessage, TopOfBookUpdate, TradeExecution,
}

pub record OrderEntryWire : Type 0 where
  pub source_timestamp : ℕ
  pub source : ℕ
  pub symbol : ℕ
  pub order_id : ℕ
  pub side : ℕ
  pub order_type : ℕ
  pub action : ℕ
  pub price : Price
  pub quantity : ℕ

pub record TopOfBookUpdateWire : Type 0 where
  pub symbol : ℕ
  pub bid_price : Price
  pub bid_quantity : ℕ
  pub ask_price : Price
  pub ask_quantity : ℕ
  pub sequence : ℕ

pub record TradeExecutionWire : Type 0 where
  pub symbol : ℕ
  pub sequence : ℕ
  pub timestamp : ℕ
  pub bid_order_id : ℕ
  pub bid_price : Price
  pub ask_order_id : ℕ
  pub ask_price : Price
  pub quantity : ℕ

-- `static_cast<std::uint8_t>` of the enumerators.
abbrev pub side_byte : Side → ℕ
side_byte buy = 0
side_byte sell = 1

abbrev pub order_type_byte : OrderType → ℕ
order_type_byte good_till_cancel = 0
order_type_byte fill_and_kill = 1
order_type_byte fill_or_kill = 2
order_type_byte market = 3

abbrev pub action_byte : OrderAction → ℕ
action_byte add = 0
action_byte cancel = 1
action_byte modify = 2

-- The casts back. A byte that is no enumerator's gives a value of the enumeration that has no name:
-- `none` here.
abbrev pub side_of : ℕ → Option Side
side_of zero = some buy
side_of (suc zero) = some sell
side_of _ = none

abbrev pub order_type_of : ℕ → Option OrderType
order_type_of zero = some good_till_cancel
order_type_of (suc zero) = some fill_and_kill
order_type_of (suc (suc zero)) = some fill_or_kill
order_type_of (suc (suc (suc zero))) = some market
order_type_of _ = none

abbrev pub action_of : ℕ → Option OrderAction
action_of zero = some add
action_of (suc zero) = some cancel
action_of (suc (suc zero)) = some modify
action_of _ = none

unfoldable pub encode_order : OrderMessage → OrderEntryWire
encode_order m = record {
  source_timestamp = m.source_timestamp;
  source = m.source;
  symbol = m.symbol;
  order_id = m.order_id;
  side = side_byte m.side;
  order_type = order_type_byte m.order_type;
  action = action_byte m.action;
  price = m.price;
  quantity = m.quantity;
}

-- `none` where one of the three bytes is no enumerator's. The code has no such case: it makes the
-- message all the same.
unfoldable pub decode_order : OrderEntryWire → Option OrderMessage
decode_order w = do
  side ← side_of w.side
  order_type ← order_type_of w.order_type
  action ← action_of w.action
  some (record {
    source_timestamp = w.source_timestamp;
    ingress_timestamp = 0;
    ingress_sequence = 0;
    source = w.source;
    symbol = w.symbol;
    order_id = w.order_id;
    side = side;
    price = w.price;
    quantity = w.quantity;
    order_type = order_type;
    action = action;
  })

unfoldable pub encode_top : TopOfBookUpdate → TopOfBookUpdateWire
encode_top u = record {
  symbol = u.symbol;
  bid_price = u.bid_price;
  bid_quantity = u.bid_quantity;
  ask_price = u.ask_price;
  ask_quantity = u.ask_quantity;
  sequence = u.sequence;
}

unfoldable pub decode_top : TopOfBookUpdateWire → TopOfBookUpdate
decode_top w = record {
  symbol = w.symbol;
  bid_price = w.bid_price;
  bid_quantity = w.bid_quantity;
  ask_price = w.ask_price;
  ask_quantity = w.ask_quantity;
  sequence = w.sequence;
}

unfoldable pub encode_trade : TradeExecution → TradeExecutionWire
encode_trade t = record {
  symbol = t.symbol;
  sequence = t.sequence;
  timestamp = t.timestamp;
  bid_order_id = t.bid_order_id;
  bid_price = t.bid_price;
  ask_order_id = t.ask_order_id;
  ask_price = t.ask_price;
  quantity = t.quantity;
}

unfoldable pub decode_trade : TradeExecutionWire → TradeExecution
decode_trade w = record {
  symbol = w.symbol;
  sequence = w.sequence;
  timestamp = w.timestamp;
  bid_order_id = w.bid_order_id;
  bid_price = w.bid_price;
  ask_order_id = w.ask_order_id;
  ask_price = w.ask_price;
  quantity = w.quantity;
}

side_of_byte : (s : Side) → side_of (side_byte s) ≡ some s
side_of_byte buy = refl
side_of_byte sell = refl

order_type_of_byte : (t : OrderType) → order_type_of (order_type_byte t) ≡ some t
order_type_of_byte good_till_cancel = refl
order_type_of_byte fill_and_kill = refl
order_type_of_byte fill_or_kill = refl
order_type_of_byte market = refl

action_of_byte : (a : OrderAction) → action_of (action_byte a) ≡ some a
action_of_byte add = refl
action_of_byte cancel = refl
action_of_byte modify = refl

-- An order message comes back from the wire as it was, but for the two stamps of the server's
-- ingress, which are 0 then.
pub decode_order-encode_order :
    (m : OrderMessage)
    → decode_order (encode_order m)
      ≡ some (record m { ingress_timestamp = 0; ingress_sequence = 0 })
unfolding decode_order encode_order
decode_order-encode_order m =
    rw (side_of_byte m.side, order_type_of_byte m.order_type, action_of_byte m.action) refl

pub decode_top-encode_top : (u : TopOfBookUpdate) → decode_top (encode_top u) ≡ u
unfolding decode_top encode_top
decode_top-encode_top u = refl

pub decode_trade-encode_trade : (t : TradeExecution) → decode_trade (encode_trade t) ≡ t
unfolding decode_trade encode_trade
decode_trade-encode_trade t = refl
