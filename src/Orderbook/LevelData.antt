-- ===== src/Orderbook/LevelData.antt =====
-- `LevelData` of Orderbook/inc/Orderbook/orderbook.hpp: quantity and number of orders by price, for
-- both sides together, with `UpdateLevelData` and the loop of `CanFullyFill` of
-- Orderbook/src/orderbook.cpp. The list is the `std::unordered_map` in its order of iteration.
use osborne_x.Base.{
  ℕ, ◌+◌, ◌-◌, ◌%◌, ◌^◌, Bool, true, false, ◌||◌, List, [], ◌∷◌, if◌then◌else◌, leb, ◌==◌,
}
use osborne_x.Base.Price.{Price, lt_price, eq_price}
use osborne_x.Orderbook.Types.{Side, buy, sell}

-- 2 to the power of 32, the modulus of a `Quantity`.
abbrev pub word : ℕ
word = 2 ^ 32

pub record LevelData : Type 0 where
  pub quantity : ℕ
  pub count : ℕ

pub data Action : Type 0 where
  add remove match : Action

abbrev pub LevelDataMap : Type 0
LevelDataMap = List (Price × LevelData)

-- What `operator[]` finds: the entry, or a new one of zeros.
unfoldable pub data_at : Price → LevelDataMap → LevelData
data_at p [] = record { quantity = 0; count = 0 }
data_at p ((k, d) ∷ m) = if eq_price k p then d else data_at p m

unfoldable pub put_data : Price → LevelData → LevelDataMap → LevelDataMap
put_data p d [] = (p, d) ∷ []
put_data p d ((k, e) ∷ m) = if eq_price k p then (k, d) ∷ m else (k, e) ∷ put_data p d m

unfoldable pub erase_data : Price → LevelDataMap → LevelDataMap
erase_data p [] = []
erase_data p ((k, e) ∷ m) = if eq_price k p then m else (k, e) ∷ erase_data p m

-- `count_ += -1`, `1` or `0`; a `Quantity` is unsigned and wraps.
unfoldable pub next_count : Action → ℕ → ℕ
next_count remove c = (c + word - 1) % word
next_count add c = (c + 1) % word
next_count match c = c

unfoldable pub next_quantity : Action → ℕ → ℕ → ℕ
next_quantity add old q = (old + q) % word
next_quantity remove old q = (old + word - q) % word
next_quantity match old q = (old + word - q) % word

unfoldable pub update_level_data : Price → ℕ → Action → LevelDataMap → LevelDataMap
update_level_data p q a m =
    let d = data_at p m in
    let d' : LevelData = record {
      quantity = next_quantity a d.quantity q;
      count = next_count a d.count;
    } in
    if d'.count == 0 then erase_data p m else put_data p d' m

unfoldable pub on_order_matched : Price → ℕ → Bool → LevelDataMap → LevelDataMap
on_order_matched p q is_fully_filled =
    update_level_data p q (if is_fully_filled then remove else match)

-- The two `continue` tests: a level better than the threshold, or beyond the order's price.
unfoldable pub skips : Side → Price → Price → Price → Bool
skips buy threshold price p = lt_price p threshold || lt_price price p
skips sell threshold price p = lt_price threshold p || lt_price p price

-- The loop over `levelData_`; `quantity -= levelData.quantity_` runs only where it does not wrap.
unfoldable pub covers : Side → Price → Price → ℕ → LevelDataMap → Bool
covers s threshold price q [] = false
covers s threshold price q ((p, d) ∷ m) =
    let skip = skips s threshold price p in
    let rest = covers s threshold price (if skip then q else q - d.quantity) m in
    if skip then rest else if leb q d.quantity then true else rest
