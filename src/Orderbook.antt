-- ===== src/Orderbook.antt =====
-- The order book of one symbol: Orderbook/inc/Orderbook and Orderbook/src/orderbook.cpp. `Types` has
-- the orders, `Levels` the price-sorted maps, `LevelData` the aggregates by price, `Book` the state
-- with cancelling and the tests of a price, `Matching` the matching loops and `Operations` the other
-- public members; the other modules prove what these keep.
pub mod Types
pub mod Levels
pub mod LevelData
pub mod Book
pub mod Matching
pub mod Operations
pub mod Exhaust
pub mod Sorted
pub mod Standing
pub mod Rounds
pub mod Filing
pub mod Priority
pub mod Volume
pub mod Everywhere
pub mod Patient
pub mod Uncrossed
pub mod Admission
pub mod Conserving
pub mod Killing
pub mod FillAndKill
pub mod Immediate
pub mod Reach
pub mod Buying
pub mod Selling
pub mod Filling
pub mod Trading
pub mod Sound
pub mod FillOrKill
pub mod Crossing
pub mod Index
pub mod Indexed
pub mod Tops
pub mod Tally
pub mod Tallied
pub mod Cancel
pub mod Without
pub mod Released
pub mod Cancelling
pub mod Coverage
pub mod PartialFill
