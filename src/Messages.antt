-- ===== src/Messages.antt =====
-- The messages between the parts of the program: Messages/inc/Messages/types.hpp and
-- Messages/inc/Messages/trade_execution.hpp.
use osborne_x.Base.{ℕ, Bool, ltb}
use osborne_x.Base.Price.{Price, invalid_price}
use osborne_x.Orderbook.Types.{Side, OrderType}

pub data OrderAction : Type 0 where
  add cancel modify : OrderAction

pub record OrderMessage : Type 0 where
  pub source_timestamp : ℕ
  pub ingress_timestamp : ℕ
  pub ingress_sequence : ℕ
  pub source : ℕ
  pub symbol : ℕ
  pub order_id : ℕ
  pub side : Side
  pub price : Price
  pub quantity : ℕ
  pub order_type : OrderType
  pub action : OrderAction

pub record TopOfBookUpdate : Type 0 where
  pub symbol : ℕ
  pub bid_price : Price
  pub bid_quantity : ℕ
  pub ask_price : Price
  pub ask_quantity : ℕ
  pub sequence : ℕ

-- `TopOfBookUpdate{}`: neither side has a price.
abbrev pub no_top : TopOfBookUpdate
no_top = record {
  symbol = 0;
  bid_price = invalid_price;
  bid_quantity = 0;
  ask_price = invalid_price;
  ask_quantity = 0;
  sequence = 0;
}

unfoldable pub has_bid : TopOfBookUpdate → Bool
has_bid u = ltb 0 u.bid_quantity

unfoldable pub has_ask : TopOfBookUpdate → Bool
has_ask u = ltb 0 u.ask_quantity

pub record TradeExecution : Type 0 where
  pub symbol : ℕ
  pub sequence : ℕ
  pub timestamp : ℕ
  pub bid_order_id : ℕ
  pub bid_price : Price
  pub ask_order_id : ℕ
  pub ask_price : Price
  pub quantity : ℕ
