-- ===== src/Tests/Books.antt =====
-- Runs of the order book of Orderbook/src/orderbook.cpp.
use osborne_x.Base.{◌-◌, ◌≡◌, refl, inl, inr, [], ◌∷◌, min, arith}
use osborne_x.Orderbook.Types.{
  buy, sell, good_till_cancel, fill_or_kill, Order, make_order, make_market_order,
}
use osborne_x.Orderbook.LevelData.{LevelData}
use osborne_x.Orderbook.Book.{Orderbook, empty_book, cancel_order}
use osborne_x.Orderbook.Matching.{Tally, match_level, match_orders}
use osborne_x.Orderbook.Operations.{add_order, insert_order}
use osborne_x.Orderbook.Index.{IsIndexed}
use osborne_x.Orderbook.Exhaust.{IsUncrossed, match_orders-uncrosses}
use osborne_x.Orderbook.Filing.{IsFiled, empty-IsFiled, add_order-IsFiled}
use osborne_x.Orderbook.Tallied.{empty-IsIndexed, add_order-IsIndexed}
use osborne_x.Orderbook.Priority.{Serves, volume, match_level-Serves}
use osborne_x.Orderbook.Cancelling.{Cancels, cancel_order-Cancels}
use osborne_x.Orderbook.PartialFill.{fill_or_kill-partial_fill}

abbrev offer : Order
offer = make_order good_till_cancel 1 sell 100 10

abbrev bid : Order
bid = make_order good_till_cancel 2 buy 101 4

-- The book that the offer rests in.
abbrev one_offer : Orderbook
one_offer = (add_order offer empty_book).0

one_offer-IsFiled : IsFiled one_offer
one_offer-IsFiled = add_order-IsFiled offer empty_book (inl (omega arith)) empty-IsFiled

one_offer-IsIndexed : IsIndexed one_offer
one_offer-IsIndexed =
    add_order-IsIndexed offer empty_book (inl (omega arith)) empty-IsFiled empty-IsIndexed

match_orders-uncrosses_example :
    IsUncrossed
      (match_orders (insert_order bid one_offer)).0.bids
      (match_orders (insert_order bid one_offer)).0.asks
match_orders-uncrosses_example = match_orders-uncrosses (insert_order bid one_offer)

add_order-IsIndexed_example : IsIndexed (add_order (make_market_order 3 buy 4) one_offer).0
add_order-IsIndexed_example =
    add_order-IsIndexed (make_market_order 3 buy 4) one_offer (inr refl) one_offer-IsFiled
      one_offer-IsIndexed

abbrev no_tally : Tally
no_tally = record { orders = []; level_data = []; trades = [] }

match_level-Serves_example :
    Serves
      (bid ∷ [])
      (offer ∷ offer ∷ [])
      no_tally
      (match_level 3 (bid ∷ []) (offer ∷ offer ∷ []) no_tally)
      (min (volume (bid ∷ [])) (volume (offer ∷ offer ∷ [])))
match_level-Serves_example =
    match_level-Serves 3 (bid ∷ []) (offer ∷ offer ∷ []) no_tally (omega arith) (omega arith, tt)
      (omega arith, (omega arith, tt))

cancel_order-Cancels_example : Cancels 1 one_offer (cancel_order 1 one_offer)
cancel_order-Cancels_example =
    cancel_order-Cancels 1 one_offer one_offer-IsFiled one_offer-IsIndexed

abbrev at_100 : LevelData
at_100 = record { quantity = 10; count = 1 }

abbrev at_101 : LevelData
at_101 = record { quantity = 5; count = 2 }

fill_or_kill-partial_fill_example :
    let b = (add_order (make_order good_till_cancel 1 sell 100 10) empty_book).0 in
    let b' = (add_order (make_order good_till_cancel 2 buy 100 4) b).0 in
    (b'.asks
      ≡ record {
        price = 100;
        orders =
            record (make_order good_till_cancel 1 sell 100 10) { remaining_quantity = 10 - 4 } ∷ [];
      }
        ∷ [])
    × (b'.level_data ≡ [])
    × (add_order (make_order fill_or_kill 3 buy 100 6) b' ≡ (b', []))
fill_or_kill-partial_fill_example =
    fill_or_kill-partial_fill 100 10 4 1 2 3 6 (omega arith) (omega arith) (omega arith)
      (omega arith) (λ e. omega arith)
