-- ===== src/Orderbook/PartialFill.antt =====
-- A resting order that a smaller one at its own price has filled in part, in
-- Orderbook/src/orderbook.cpp: `MatchOrders` erases the aggregates of that price.
use osborne_x.Base.{ℕ, ◌+◌, ◌-◌, ◌%◌, ◌<◌, ◌≡◌, ◌≢◌, refl, [], ◌∷◌, some, arith}
use osborne_x.Orderbook.Types.{buy, sell, good_till_cancel, fill_or_kill, Order, make_order, fill}
use osborne_x.Orderbook.Levels.{push_order, keep_level}
use osborne_x.Orderbook.LevelData.{
  word, covers, data_at, put_data, erase_data, next_count, next_quantity, update_level_data,
  on_order_matched,
}
use osborne_x.Orderbook.Book.{
  Orderbook, empty_book, entry_of, contains, erase_entry, can_match, can_fully_fill,
}
use osborne_x.Orderbook.Matching.{
  pop_filled, erase_filled, record_trade, trade_of, match_level, run_level, settle, drop_data,
  kill_front, front_to_kill, match_round, match_loop, match_orders,
}
use osborne_x.Orderbook.Operations.{
  price_market, on_order_added, insert_order, accept_order, add_order,
}

module _ (p a c i j : ℕ) (priced : 0 < p) (smaller : c < a) (fits : a < word) (open_ : 0 < c)
    (apart : i ≢ j) where
  abbrev resting : Order
  resting = make_order good_till_cancel i sell p a

  abbrev incoming : Order
  incoming = make_order good_till_cancel j buy p c

  abbrev with_resting : Orderbook
  with_resting = record {
    level_data = (p, record { quantity = a; count = 1 }) ∷ [];
    bids = [];
    asks = record { price = p; orders = resting ∷ [] } ∷ [];
    orders = entry_of resting ∷ [];
  }

  abbrev left_over : Orderbook
  left_over = record {
    level_data = [];
    bids = [];
    asks = record { price = p; orders = record resting { remaining_quantity = a - c } ∷ [] } ∷ [];
    orders = entry_of resting ∷ [];
  }

  add_resting : (add_order resting empty_book).0 ≡ with_resting
  unfolding add_order contains can_match price_market accept_order insert_order push_order
      on_order_added update_level_data data_at next_count next_quantity erase_data put_data
      match_orders match_loop match_round
  add_resting = ground arith

  abbrev crossed : Orderbook
  crossed = record {
    level_data = (p, record { quantity = (a + c) % word; count = 2 }) ∷ [];
    bids = record { price = p; orders = incoming ∷ [] } ∷ [];
    asks = record { price = p; orders = resting ∷ [] } ∷ [];
    orders = entry_of incoming ∷ entry_of resting ∷ [];
  }

  insert_incoming : insert_order incoming with_resting ≡ crossed
  unfolding insert_order push_order on_order_added update_level_data data_at next_count
      next_quantity put_data
  insert_incoming = ground arith

  level_run :
      run_level
        (record { price = p; orders = incoming ∷ [] })
        (record { price = p; orders = resting ∷ [] })
        crossed
        []
      ≡ record {
        bids_at = [];
        asks_at = record resting { remaining_quantity = a - c } ∷ [];
        tally = record {
          orders = entry_of resting ∷ [];
          level_data =
              (
                p,
                record {
                  quantity = ((((a + c) % word + word - c) % word) + word - c) % word;
                  count = 1;
                },
              )
              ∷ [];
          trades = trade_of incoming resting c ∷ [];
        };
      }
  unfolding run_level match_level record_trade erase_filled erase_entry pop_filled fill
      on_order_matched update_level_data data_at next_count next_quantity put_data
  level_run = ground arith

  round :
      match_round crossed [] crossed.bids crossed.asks
      ≡ some (left_over, trade_of incoming resting c ∷ [])
  unfolding match_round settle drop_data erase_data keep_level kill_front front_to_kill
  round = rw level_run (ground arith)

  match_crossed : match_orders crossed ≡ (left_over, trade_of incoming resting c ∷ [])
  unfolding match_orders match_loop match_round
  match_crossed = rw (round, match_loop)

  add_incoming : add_order incoming with_resting ≡ (left_over, trade_of incoming resting c ∷ [])
  unfolding add_order contains can_match price_market accept_order
  add_incoming = ground (arith, match_crossed, insert_incoming)

  -- An order to be filled or killed, for no more than what still rests.
  abbrev kill_order : ℕ → ℕ → Order
  kill_order k n = make_order fill_or_kill k buy p n

  refuse_left_over : (k n : ℕ) → add_order (kill_order k n) left_over ≡ (left_over, [])
  unfolding add_order contains can_match price_market accept_order can_fully_fill covers
  refuse_left_over k n = ground arith

-- The aggregates forget a resting order that is filled in part at its own price. A sell order of
-- `a` rests alone in an otherwise empty book, at price `p`; a buy order of less, `c`, at the same price trades `c` and leaves
-- `a - c` on the book, but no aggregate for that price. A fill-or-kill order of any quantity at that
-- price is turned away then, also one that the resting order could fill.
pub fill_or_kill-partial_fill :
    (p a c i j k n : ℕ)
    → 0 < p
    → c < a
    → a < word
    → 0 < c
    → i ≢ j
    → let b = (add_order (make_order good_till_cancel i sell p a) empty_book).0 in
      let b' = (add_order (make_order good_till_cancel j buy p c) b).0 in
      (b'.asks
        ≡ record {
          price = p;
          orders =
              record (make_order good_till_cancel i sell p a) { remaining_quantity = a - c } ∷ [];
        }
          ∷ [])
      × (b'.level_data ≡ [])
      × (add_order (make_order fill_or_kill k buy p n) b' ≡ (b', []))
fill_or_kill-partial_fill p a c i j k n h q r s e =
    rw (add_resting p a c i j h q r s e)
      (rw (add_incoming p a c i j h q r s e) (refl, refl, refuse_left_over p a c i j h q r s e k n))
