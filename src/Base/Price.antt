-- ===== src/Base/Price.antt =====
-- `Price` of Orderbook/inc/Orderbook/domain_types.hpp, a double. The book only compares prices, so
-- a price is the rank of the double in the order of all doubles, from 1 up (the two zeros share
-- one rank), and 0 is the NaN of Orderbook/inc/Orderbook/constants.hpp: every comparison with it
-- is false.
use Prim.Native.Nat.{ℕ}
use mathlib.Core.Bool.{Bool, ◌&&◌}
use osborne_x.Base.Tests.{ltb, leb, ◌==◌}

abbrev pub Price : Type 0
Price = ℕ

abbrev pub invalid_price : Price
invalid_price = 0

abbrev pub is_nan : Price → Bool
is_nan a = a == 0

-- a < b
abbrev pub lt_price : Price → Price → Bool
lt_price a b = ltb 0 a && ltb a b

-- a <= b
abbrev pub le_price : Price → Price → Bool
le_price a b = ltb 0 a && leb a b

-- a == b
abbrev pub eq_price : Price → Price → Bool
eq_price a b = ltb 0 a && a == b
