-- ===== src/Bot.antt =====
-- `RandomStrategy` of Bot/inc/Bot/random_strategy.hpp and Bot/src/random_strategy.cpp. The generator
-- with its distributions and the arithmetic on doubles are parameters.
use osborne_x.Base.{
  ℕ, ◌+◌, ◌-◌, ◌*◌, ◌%◌, ◌^◌, Bool, true, false, List, [], ◌∷◌, Option, none, some, ◌>>=◌,
  if◌then◌else◌, ◌==◌, ◌&&◌, length, get_elem?, lookup, insert,
}
use osborne_x.Base.Price.{Price}
use osborne_x.Orderbook.Types.{Side, buy, sell, good_till_cancel}
use osborne_x.Messages.{OrderMessage, TopOfBookUpdate, has_bid, has_ask, add}
use osborne_x.Queue.RingBuffer.{word}
pub mod Center
pub mod Orders
pub mod Symbols
pub mod Connecting

-- The options, but for the pause, the spread and the seed, which are those of the parameters.
pub record RandomStrategyOptions : Type 0 where
  pub symbols : List ℕ
  pub source : ℕ
  pub default_price : Price
  pub min_quantity : ℕ
  pub max_quantity : ℕ

-- A strategy, with a generator of any type.
pub record RandomStrategy (G : Type 0) : Type 0 where
  pub options : RandomStrategyOptions
  pub last_known_tops : List (ℕ × TopOfBookUpdate)
  pub rng : G
  pub next_order_id : ℕ

-- What is used of `<random>` and of doubles: an integer between two bounds, the middle of two prices,
-- and a price near another one.
pub record Chance (G : Type 0) : Type 0 where
  pub uniform : ℕ → ℕ → G → ℕ × G
  pub middle : Price → Price → Price
  pub perturb : Price → G → Price × G

module _ {G : Type 0} where
  -- The constructor, with the generator that the seed gives.
  unfoldable pub make_strategy : RandomStrategyOptions → G → RandomStrategy G
  make_strategy o g = record { options = o; last_known_tops = []; rng = g; next_order_id = 1 }

  unfoldable pub on_top_of_book : TopOfBookUpdate → RandomStrategy G → RandomStrategy G
  on_top_of_book u s = record s { last_known_tops = insert u.symbol u s.last_known_tops }

abbrev pub local_id_bits : ℕ
local_id_bits = 48

-- The source in the high bits, and the counter in the low ones.
unfoldable pub order_id_of : ℕ → ℕ → ℕ
order_id_of source counter = (source * 2 ^ local_id_bits) % word + counter % 2 ^ local_id_bits

module _ {G : Type 0} (chance : Chance G) where
  -- The price around which an order is priced.
  unfoldable pub center_of : Option TopOfBookUpdate → Price → Price
  center_of none default_price = default_price
  center_of (some top) default_price =
      if has_bid top && has_ask top
      then chance.middle top.bid_price top.ask_price
      else (if has_bid top
          then top.bid_price
          else (if has_ask top then top.ask_price else default_price))

  -- `make_random_order`; `none` where there are no symbols, which its caller must not pass.
  unfoldable pub make_random_order : RandomStrategy G → Option (OrderMessage × RandomStrategy G)
  unfolding center_of order_id_of
  make_random_order s =
      let o = s.options in
      let (index, g) = chance.uniform 0 (length o.symbols - 1) s.rng in
      (do
        symbol ← get_elem? o.symbols index
        let center = center_of (lookup symbol s.last_known_tops) o.default_price
        let drawn_side = chance.uniform 0 1 g
        let drawn_price = chance.perturb center drawn_side.1
        let drawn_quantity = chance.uniform o.min_quantity o.max_quantity drawn_price.1
        some (
          record {
            source_timestamp = 0;
            ingress_timestamp = 0;
            ingress_sequence = 0;
            source = o.source;
            symbol = symbol;
            order_id = order_id_of o.source s.next_order_id;
            side = if drawn_side.0 == 0 then buy else sell;
            price = drawn_price.0;
            quantity = drawn_quantity.0;
            order_type = good_till_cancel;
            action = add;
          },
          record s { rng = drawn_quantity.1; next_order_id = (s.next_order_id + 1) % word },
        ))
