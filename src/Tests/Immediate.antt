-- ===== src/Tests/Immediate.antt =====
-- Runs of a book of Orderbook/src/orderbook.cpp with two offers.
use osborne_x.Base.{min, ◌≡◌, refl, inl, true, [], ◌∷◌, arith, List}
use osborne_x.Orderbook.Types.{
  buy, sell, good_till_cancel, fill_and_kill, fill_or_kill, Order, make_order,
}
use osborne_x.Orderbook.Levels.{Level, push_order, keep_level}
use osborne_x.Orderbook.LevelData.{
  data_at, put_data, erase_data, update_level_data, next_count, next_quantity,
}
use osborne_x.Orderbook.Book.{Orderbook, empty_book, contains, erase_entry, can_match}
use osborne_x.Orderbook.Matching.{match_orders, match_loop, match_round}
use osborne_x.Orderbook.Operations.{
  add_order, accept_order, price_market, insert_order, on_order_added,
}
use osborne_x.Orderbook.Sound.{IsSound, empty-IsSound, add_order-IsSound}
use osborne_x.Orderbook.Rounds.{IsPricedAs}
use osborne_x.Orderbook.Priority.{traded}
use osborne_x.Orderbook.Reach.{reach}
use osborne_x.Orderbook.Trading.{add_order-trades}
use osborne_x.Orderbook.Patient.{IsCalm}
use osborne_x.Orderbook.Admission.{is_admitted}
use osborne_x.Orderbook.Conserving.{Balances, add_order-Balances}
use osborne_x.Orderbook.FillAndKill.{IsKilled}
use osborne_x.Orderbook.Immediate.{add_order-IsKilled}

abbrev offer : Order
offer = make_order good_till_cancel 1 sell 100 10

abbrev next_offer : Order
next_offer = make_order good_till_cancel 2 sell 101 5

abbrev one_offer : Orderbook
one_offer = (add_order offer empty_book).0

abbrev two_offers : Orderbook
two_offers = (add_order next_offer one_offer).0

two_offers-IsSound : IsSound two_offers
two_offers-IsSound =
    add_order-IsSound next_offer one_offer (inl (omega arith))
      (add_order-IsSound offer empty_book (inl (omega arith)) empty-IsSound)

-- It could fill from both offers.
abbrev taker : Order
taker = make_order fill_and_kill 3 buy 101 12

abbrev best : Level
best = record { price = 100; orders = offer ∷ [] }

abbrev behind : List Level
behind = record { price = 101; orders = next_offer ∷ [] } ∷ []

taken : (is_admitted taker two_offers ≡ true) × (two_offers.asks ≡ best ∷ behind)
unfolding add_order accept_order price_market insert_order on_order_added push_order keep_level
    contains erase_entry can_match match_orders match_loop match_round update_level_data next_count
    next_quantity data_at put_data erase_data
taken = (refl, refl)

add_order-IsKilled_example :
    IsKilled buy two_offers.bids best behind 12 (add_order taker two_offers)
add_order-IsKilled_example =
    add_order-IsKilled taker two_offers best behind refl taken.0 taken.1 (omega arith)
      (two_offers-IsSound.filed, two_offers-IsSound.indexed) two_offers-IsSound.apart
      two_offers-IsSound.calm

add_order-Balances_example :
    Balances
      (make_order good_till_cancel 3 buy 101 12)
      two_offers
      (add_order (make_order good_till_cancel 3 buy 101 12) two_offers)
    × IsCalm (add_order (make_order good_till_cancel 3 buy 101 12) two_offers).0
add_order-Balances_example =
    add_order-Balances (make_order good_till_cancel 3 buy 101 12) two_offers refl
      two_offers-IsSound.calm

abbrev bid : Order
bid = make_order good_till_cancel 3 buy 101 12

bid_taken : is_admitted bid two_offers ≡ true
unfolding add_order accept_order price_market insert_order on_order_added push_order keep_level
    contains erase_entry can_match match_orders match_loop match_round update_level_data next_count
    next_quantity data_at put_data erase_data
bid_taken = refl

add_order-trades_example :
    (o' : Order) × IsPricedAs two_offers bid o'
    × (traded (add_order bid two_offers).1 ≡ min 12 (reach buy o'.price two_offers.asks))
add_order-trades_example =
    add_order-trades bid two_offers bid_taken refl (inl (omega arith)) two_offers-IsSound.filed
      two_offers-IsSound.calm two_offers-IsSound.apart

abbrev all_or_nothing : Order
all_or_nothing = make_order fill_or_kill 3 buy 101 12
