-- ===== src/Orderbook/Levels.antt =====
-- `BidLevels` and `AskLevels` of Orderbook/inc/Orderbook/orderbook.hpp: a `std::map` from prices to
-- lists of orders, as the list of its nodes in the order of its comparator, best price first. The
-- iterator that an order entry holds is the place of the order with its id in the list of its
-- level; list iterators stay valid while other orders come and go.
use osborne_x.Base.{ℕ, Bool, List, [], ◌∷◌, ◌++◌, Option, none, some, if◌then◌else◌, ◌==◌, is_empty}
use osborne_x.Base.Price.{Price, lt_price, eq_price}
use osborne_x.Orderbook.Types.{Side, buy, sell, Order}

pub record Level : Type 0 where
  pub price : Price
  pub orders : List Order

-- The comparators `std::greater` of the bids and `std::less` of the asks.
abbrev pub before : Side → Price → Price → Bool
before buy a b = lt_price b a
before sell a b = lt_price a b

-- `levels[price].push_back(order)`: the map makes a level where it has none.
unfoldable pub push_order : Side → Price → Order → List Level → List Level
push_order s p o [] = record { price = p; orders = o ∷ [] } ∷ []
push_order s p o (l ∷ ls) =
    if before s p l.price
    then record { price = p; orders = o ∷ [] } ∷ l ∷ ls
    else if before s l.price p
    then l ∷ push_order s p o ls
    else record l { orders = l.orders ++ o ∷ [] } ∷ ls

-- The order that an entry's iterator points at.
unfoldable pub find_order : ℕ → List Order → Option Order
find_order i [] = none
find_order i (o ∷ os) = if o.order_id == i then some o else find_order i os

unfoldable pub find_at : Price → ℕ → List Level → Option Order
find_at p i [] = none
find_at p i (l ∷ ls) = if eq_price l.price p then find_order i l.orders else find_at p i ls

-- `list::erase(iterator)`
unfoldable pub remove_order : ℕ → List Order → List Order
remove_order i [] = []
remove_order i (o ∷ os) = if o.order_id == i then os else o ∷ remove_order i os

-- A level with no order left is erased from the map.
unfoldable pub keep_level : Level → List Level → List Level
keep_level l ls = if is_empty l.orders then ls else l ∷ ls

-- `levels.at(price).erase(iterator)`, and the level with it if it is empty then. `at` throws where
-- the map has no such level; here nothing changes. A NaN is no price of a level here, where the map
-- takes it for equivalent to any of its keys.
unfoldable pub erase_order : Price → ℕ → List Level → List Level
unfolding keep_level
erase_order p i [] = []
erase_order p i (l ∷ ls) =
    if eq_price l.price p
    then keep_level (record l { orders = remove_order i l.orders }) ls
    else l ∷ erase_order p i ls
