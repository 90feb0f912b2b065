-- ===== src/Orderbook/FillOrKill.antt =====
-- Fill-or-kill orders in `AddOrder` of Orderbook/src/orderbook.cpp.
use osborne_x.Base.{◌≤◌, ◌≡◌, some}
use osborne_x.Base.Price.{Price}
use osborne_x.Orderbook.Types.{Order}
use osborne_x.Orderbook.Book.{Orderbook, levels_of, fill_threshold}
use osborne_x.Orderbook.Operations.{opposite}
use osborne_x.Orderbook.Coverage.{reachable}
use osborne_x.Orderbook.Reach.{reach}

-- The aggregates tell no more than what rests in the reach of the order.
abbrev pub IsCovered : Order → Orderbook → Type 0
IsCovered o b =
    (t : Price)
    → fill_threshold o.side b ≡ some t
    → reachable o.side t o.price b.level_data ≤ reach o.side o.price (levels_of (opposite o.side) b)
