-- ===== src/Orderbook/Book.antt =====
-- The state of `Orderbook`, with `CanMatch`, `CanFullyFill` and `CancelOrderInternal` of
-- Orderbook/src/orderbook.cpp.
use osborne_x.Base.{ℕ, Bool, true, false, List, [], ◌∷◌, Option, none, some, if◌then◌else◌, ◌==◌}
use osborne_x.Base.Price.{Price, le_price}
use osborne_x.Orderbook.Types.{Side, buy, sell, OrderType, Order}
use osborne_x.Orderbook.Levels.{Level, find_at, erase_order}
use osborne_x.Orderbook.LevelData.{LevelDataMap, Action, update_level_data, covers}

-- An entry of `orders_`: what never changes of the order that it points at while the order is in
-- the book. The order itself, with its remaining quantity, stands in its level.
pub record OrderEntry : Type 0 where
  pub order_id : ℕ
  pub order_type : OrderType
  pub side : Side
  pub price : Price

pub record Orderbook : Type 0 where
  pub level_data : LevelDataMap
  pub bids : List Level
  pub asks : List Level
  pub orders : List OrderEntry

abbrev pub empty_book : Orderbook
empty_book = record { level_data = []; bids = []; asks = []; orders = [] }

abbrev pub levels_of : Side → Orderbook → List Level
levels_of buy b = b.bids
levels_of sell b = b.asks

abbrev pub with_levels : Side → Orderbook → List Level → Orderbook
with_levels buy b ls = record b { bids = ls }
with_levels sell b ls = record b { asks = ls }

abbrev pub entry_of : Order → OrderEntry
entry_of o = record {
  order_id = o.order_id;
  order_type = o.order_type;
  side = o.side;
  price = o.price;
}

-- `orders_.find(id)`
unfoldable pub find_entry : ℕ → List OrderEntry → Option OrderEntry
find_entry i [] = none
find_entry i (e ∷ es) = if e.order_id == i then some e else find_entry i es

unfoldable pub contains : ℕ → List OrderEntry → Bool
contains i [] = false
contains i (e ∷ es) = if e.order_id == i then true else contains i es

-- `orders_.erase(id)`
unfoldable pub erase_entry : ℕ → List OrderEntry → List OrderEntry
erase_entry i [] = []
erase_entry i (e ∷ es) = if e.order_id == i then es else e ∷ erase_entry i es

unfoldable pub can_match : Side → Price → Orderbook → Bool
can_match buy p b = elim b.asks [ [] ↦ false | l ∷ _ ↦ le_price l.price p ]
can_match sell p b = elim b.bids [ [] ↦ false | l ∷ _ ↦ le_price p l.price ]

-- The best price of the other side, which `CanMatch` has found to be there.
unfoldable pub fill_threshold : Side → Orderbook → Option Price
fill_threshold buy b = elim b.asks [ [] ↦ none | l ∷ _ ↦ some l.price ]
fill_threshold sell b = elim b.bids [ [] ↦ none | l ∷ _ ↦ some l.price ]

unfoldable pub can_fully_fill : Side → Price → ℕ → Orderbook → Bool
unfolding fill_threshold
can_fully_fill s p q b =
    if can_match s p b
    then elim (fill_threshold s b) [ none ↦ false | some t ↦ covers s t p q b.level_data ]
    else false

-- `OnOrderCancelled`
unfoldable pub on_order_cancelled : Order → LevelDataMap → LevelDataMap
on_order_cancelled o = update_level_data o.price o.remaining_quantity Action.remove

-- The body of `CancelOrderInternal` once the entry is found. An entry always points at an order;
-- the case `none` keeps the function total.
unfoldable pub cancel_entry : OrderEntry → Orderbook → Orderbook
cancel_entry e b =
    let ls = levels_of e.side b in
    let b' : Orderbook = record (with_levels e.side b (erase_order e.price e.order_id ls)) {
      orders = erase_entry e.order_id b.orders;
    } in
    elim (find_at e.price e.order_id ls) [
      | none ↦ b'
      | some o ↦ record b' { level_data = on_order_cancelled o b'.level_data }
    ]

unfoldable pub cancel_order : ℕ → Orderbook → Orderbook
unfolding cancel_entry
cancel_order i b = elim (find_entry i b.orders) [ none ↦ b | some e ↦ cancel_entry e b ]

unfoldable pub cancel_orders : List ℕ → Orderbook → Orderbook
cancel_orders [] b = b
cancel_orders (i ∷ is) b = cancel_orders is (cancel_order i b)
