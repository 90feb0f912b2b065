-- ===== src/Tests/Bots.antt =====
-- Runs of the bots of Bot/src and Bot/apps, and of the market data on its way to the terminal.
use osborne_x.Base.{
  zero, suc, Option, ap, ◌==◌, All, ℕ, ◌≡◌, refl, true, false, List, [], ◌∷◌, ◌++◌, none, some,
  arith, length, get_elem?,
}
use osborne_x.Orderbook.Types.{buy}
use osborne_x.Messages.{OrderMessage, no_top}
use osborne_x.Net.Client.{Candidate, owns}
use osborne_x.Net.Datagrams.{Event, top, trade}
use osborne_x.Net.Stray.{IsStray}
use osborne_x.Net.Multicast.{
  Poll, first_bytes, idle, failed, arrives, run, Brings, run-Brings, send_event,
}
use osborne_x.Bot.{
  RandomStrategyOptions, RandomStrategy, Chance, make_strategy, order_id_of, make_random_order,
}
use osborne_x.Bot.Orders.{
  IsUniform, IsRandom, generate, generate-distinct, make_random_order-IsRandom,
}
use osborne_x.Bot.Symbols.{IsNumeral, comma}
use osborne_x.Bot.Connecting.{max_attempts, retry, opened_by, works_by, retry-balances}
use osborne_x.Tui.{make_view_model}
use osborne_x.Tui.View.{Shows, receive_all, receive_all-Shows}
use osborne_x.Tests.Shards.{message, no_trade}
use osborne_x.Tests.Frames.{
  header, header-IsPacked, top_wire, top_wire-IsPacked, trade_wire, trade_wire-IsPacked,
}

-- A generator that draws the lower bound.
abbrev lowest : Chance ℕ
lowest = record { uniform = λ lo hi g. (lo, g); middle = λ a b. a; perturb = λ p g. (p, g) }

lowest-IsUniform : IsUniform lowest
lowest-IsUniform = record { within = λ lo hi g h. (omega arith, h) }

abbrev options : ℕ → RandomStrategyOptions
options source = record {
  symbols = 5 ∷ 6 ∷ [];
  source = source;
  default_price = 100;
  min_quantity = 1;
  max_quantity = 20;
}

abbrev seed : ℕ
seed = 0

make_random_order-IsRandom_example :
    (m : OrderMessage) × (s' : RandomStrategy ℕ) × (make_random_order lowest
        (make_strategy (options 1) seed)
      ≡ some (m, s'))
    × IsRandom lowest (make_strategy (options 1) seed) m
unfolding make_strategy
make_random_order-IsRandom_example =
    make_random_order-IsRandom lowest (make_strategy (options 1) seed) lowest-IsUniform
      (omega arith) (omega arith)

-- The second order of a bot.
abbrev second_order : OrderMessage
second_order = record (message (order_id_of 1 2) buy) { source = 1; symbol = 5; quantity = 1 }

second : get_elem? (generate lowest 3 (make_strategy (options 1) seed)) 1 ≡ some second_order
unfolding generate make_random_order make_strategy order_id_of
second = refl

generate-distinct_example : ((options 1).source ≡ (options 1).source) × ◌≡◌ {A = ℕ} 1 1
generate-distinct_example =
    generate-distinct lowest 3 3 1 1 (options 1) (options 1) seed seed second_order second_order
      (omega arith) (omega arith) (omega arith) (omega arith) second second refl

-- Numbers that are shown in unary, behind another character.
abbrev digits : ℕ → List ℕ
digits zero = []
digits (suc n) = 49 ∷ digits n

abbrev print : ℕ → List ℕ
print n = 48 ∷ digits n

abbrev stoul : List ℕ → Option ℕ
stoul [] = none
stoul (c ∷ cs) = some (length cs)

length-digits : (n : ℕ) → length (digits n) ≡ n
length-digits zero = refl
length-digits (suc n) = omega (arith, length-digits n)

digits-plain : (n : ℕ) → All (λ c. (c == comma) ≡ false) (digits n)
digits-plain zero = tt
digits-plain (suc n) = (refl, digits-plain n)

print-IsNumeral : IsNumeral stoul print
print-IsNumeral = record {
  restored = λ n. ap some (length-digits n);
  plain = λ n. (refl, digits-plain n);
  filled = λ n e. cc;
}

-- A server that is up at the second attempt.
abbrev found : ℕ → List Candidate
found zero = record { socket = some 4; connects = false } ∷ []
found (suc n) = record { socket = some 5; connects = true } ∷ []

retry-balances_example :
    (owns none ++ opened_by max_attempts found
      ≡ (retry max_attempts found none).1 ++ owns (retry max_attempts found none).0)
    × ((retry max_attempts found none).2 ≡ works_by max_attempts found)
retry-balances_example = retry-balances max_attempts found none

-- Market data between timeouts and a stray byte.
abbrev events : List Event
events = top no_top ∷ trade no_trade ∷ []

abbrev polls : List Poll
polls =
    idle
    ∷ arrives (send_event header top_wire trade_wire (top no_top))
    ∷ arrives (1 ∷ [])
    ∷ failed
    ∷ arrives (send_event header top_wire trade_wire (trade no_trade))
    ∷ []

polls-Brings : Brings header top_wire trade_wire polls events
unfolding first_bytes
polls-Brings = Brings.waits (
    Brings.brings (top no_top) (
      Brings.strays (1 ∷ []) (IsStray.short (omega arith))
        (Brings.fails (Brings.brings (trade no_trade) Brings.ends))))

run-Brings_example : run header top_wire trade_wire polls ≡ events
run-Brings_example =
    run-Brings header top_wire trade_wire header-IsPacked top_wire-IsPacked trade_wire-IsPacked
      (omega arith) polls-Brings

receive_all-Shows_example :
    Shows events (make_view_model 3).max_trade_tape_size (receive_all events (make_view_model 3))
receive_all-Shows_example = receive_all-Shows events 3
