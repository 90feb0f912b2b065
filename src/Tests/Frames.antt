-- ===== src/Tests/Frames.antt =====
-- Packed layouts for the wire formats of Net/src.
use osborne_x.Base.{ℕ, refl, List, [], ◌∷◌}
use osborne_x.Net.Wire.{OrderEntryWire, TopOfBookUpdateWire, TradeExecutionWire}
use osborne_x.Net.Frames.{FrameHeader, Layout, IsPacked}

-- Layouts of one place for each field.
abbrev header_read : List ℕ → FrameHeader
header_read (a ∷ b ∷ c ∷ d ∷ rest) = record {
  magic = a;
  version = b;
  message_type = c;
  payload_length = d;
}
header_read _ = record { magic = 0; version = 0; message_type = 0; payload_length = 0 }

abbrev pub header : Layout FrameHeader
header = record {
  size = 4;
  bytes = λ h. h.magic ∷ h.version ∷ h.message_type ∷ h.payload_length ∷ [];
  read = header_read;
}

pub header-IsPacked : IsPacked header
header-IsPacked = record { sized = λ h. refl; restored = λ h rest. refl }

abbrev order_read : List ℕ → OrderEntryWire
order_read (a ∷ b ∷ c ∷ d ∷ e ∷ f ∷ g ∷ h ∷ i ∷ rest) = record {
  source_timestamp = a;
  source = b;
  symbol = c;
  order_id = d;
  side = e;
  order_type = f;
  action = g;
  price = h;
  quantity = i;
}
order_read _ = record {
  source_timestamp = 0;
  source = 0;
  symbol = 0;
  order_id = 0;
  side = 0;
  order_type = 0;
  action = 0;
  price = 0;
  quantity = 0;
}

abbrev pub order : Layout OrderEntryWire
order = record {
  size = 9;
  bytes = λ w.
      w.source_timestamp ∷ w.source ∷ w.symbol ∷ w.order_id ∷ w.side ∷ w.order_type ∷ w.action
      ∷ w.price ∷ w.quantity ∷ [];
  read = order_read;
}

pub order-IsPacked : IsPacked order
order-IsPacked = record { sized = λ h. refl; restored = λ h rest. refl }

abbrev top_read : List ℕ → TopOfBookUpdateWire
top_read (a ∷ b ∷ c ∷ d ∷ e ∷ f ∷ rest) = record {
  symbol = a;
  bid_price = b;
  bid_quantity = c;
  ask_price = d;
  ask_quantity = e;
  sequence = f;
}
top_read _ = record {
  symbol = 0;
  bid_price = 0;
  bid_quantity = 0;
  ask_price = 0;
  ask_quantity = 0;
  sequence = 0;
}

abbrev pub top_wire : Layout TopOfBookUpdateWire
top_wire = record {
  size = 6;
  bytes =
      λ w. w.symbol ∷ w.bid_price ∷ w.bid_quantity ∷ w.ask_price ∷ w.ask_quantity ∷ w.sequence ∷ [];
  read = top_read;
}

pub top_wire-IsPacked : IsPacked top_wire
top_wire-IsPacked = record { sized = λ h. refl; restored = λ h rest. refl }

abbrev trade_read : List ℕ → TradeExecutionWire
trade_read (a ∷ b ∷ c ∷ d ∷ e ∷ f ∷ g ∷ h ∷ rest) = record {
  symbol = a;
  sequence = b;
  timestamp = c;
  bid_order_id = d;
  bid_price = e;
  ask_order_id = f;
  ask_price = g;
  quantity = h;
}
trade_read _ = record {
  symbol = 0;
  sequence = 0;
  timestamp = 0;
  bid_order_id = 0;
  bid_price = 0;
  ask_order_id = 0;
  ask_price = 0;
  quantity = 0;
}

abbrev pub trade_wire : Layout TradeExecutionWire
trade_wire = record {
  size = 8;
  bytes = λ w.
      w.symbol ∷ w.sequence ∷ w.timestamp ∷ w.bid_order_id ∷ w.bid_price ∷ w.ask_order_id
      ∷ w.ask_price ∷ w.quantity ∷ [];
  read = trade_read;
}

pub trade_wire-IsPacked : IsPacked trade_wire
trade_wire-IsPacked = record { sized = λ h. refl; restored = λ h rest. refl }
