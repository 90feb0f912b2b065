-- ===== src/Tests/Shards.antt =====
-- Runs of the shards of Sharding/src, and of the ingress before them.
use osborne_x.Base.{
  ℕ, subst, ◌+◌, ◌%◌, ◌≡◌, refl, List, [], ◌∷◌, ◌++◌, ◌⊎◌, inl, All, some, length, arith, get_elem?,
}
use osborne_x.Orderbook.Types.{Side, buy, sell, good_till_cancel, Order, make_order, fill}
use osborne_x.Orderbook.Levels.{push_order, keep_level}
use osborne_x.Orderbook.LevelData.{
  data_at, put_data, erase_data, update_level_data, next_count, next_quantity, on_order_matched,
}
use osborne_x.Orderbook.Book.{empty_book, entry_of, contains, erase_entry, can_match}
use osborne_x.Orderbook.Matching.{
  match_orders, match_loop, match_round, run_level, match_level, record_trade, pop_filled,
  erase_filled, settle, drop_data, kill_front, front_to_kill,
}
use osborne_x.Orderbook.Operations.{
  add_order, accept_order, price_market, insert_order, on_order_added,
}
use osborne_x.Orderbook.Sound.{IsSound, empty-IsSound, add_order-IsSound}
use osborne_x.Messages.{OrderMessage, add, TradeExecution, no_top}
use osborne_x.Queue.RingBuffer.{word, push_blocking, push_overwrite, claim_blocking}
use osborne_x.Queue.History.{Holds}
use osborne_x.Sharding.Shard.{Shard, book_of, apply_action, enqueue, trades_of, update_of, process}
use osborne_x.Sharding.Streams.{
  IsCurrent, AreReported, SameTop, process-trades, process-top, process-IsCurrent,
}
use osborne_x.Sharding.Books.{AreSound, IsFair, process-AreSound}
use osborne_x.Sharding.Router.{shard_for_symbol, route}
use osborne_x.Ingress.Receive.{stamp, receive, receive_all, receive_all-get_elem?}
use osborne_x.Ingress.Submit.{Simulation, submit}
use osborne_x.Tests.Queues.{new_ring, new_ring-Holds}

abbrev pub message : ℕ → Side → OrderMessage
message i s = record {
  source_timestamp = 0;
  ingress_timestamp = 0;
  ingress_sequence = 0;
  source = 1;
  symbol = 1;
  order_id = i;
  side = s;
  price = 100;
  quantity = 10;
  order_type = good_till_cancel;
  action = add;
}

abbrev pub no_trade : TradeExecution
no_trade = record {
  symbol = 0;
  sequence = 0;
  timestamp = 0;
  bid_order_id = 0;
  bid_price = 1;
  ask_order_id = 0;
  ask_price = 1;
  quantity = 0;
}

abbrev offer : Order
offer = make_order good_till_cancel 1 sell 100 10

-- A shard with no book yet.
abbrev pub new_shard : Shard
new_shard = record {
  inbound = new_ring (message 0 buy);
  outbound = new_ring no_top;
  trade_outbound = new_ring no_trade;
  books = [];
  last_top = [];
}

-- An offer rests in the book of symbol 1.
abbrev quoted : Shard
quoted = record new_shard {
  books =
      (
        1,
        record {
          level_data = (100, record { quantity = 10; count = 1 }) ∷ [];
          bids = [];
          asks = record { price = 100; orders = offer ∷ [] } ∷ [];
          orders = entry_of offer ∷ [];
        },
      )
      ∷ [];
}

quoted_book : (add_order offer empty_book).0 ≡ book_of 1 quoted
unfolding add_order contains can_match price_market accept_order insert_order push_order
    on_order_added update_level_data data_at next_count next_quantity put_data match_orders
    match_loop match_round kill_front front_to_kill
quoted_book = refl

quoted-AreSound : AreSound quoted.books
quoted-AreSound = (
  subst IsSound quoted_book (add_order-IsSound offer empty_book (inl (omega arith)) empty-IsSound),
  tt,
)

one_trade : length (trades_of (message 2 buy) quoted) ≡ 1
unfolding apply_action add_order contains can_match price_market accept_order insert_order
    push_order on_order_added update_level_data data_at next_count next_quantity put_data
    match_orders match_loop match_round run_level match_level record_trade erase_filled erase_entry
    pop_filled fill on_order_matched settle drop_data erase_data keep_level kill_front front_to_kill
one_trade = refl

process-trades_example :
    (es : List TradeExecution) × AreReported (message 2 buy) (trades_of (message 2 buy) quoted) es
    × Holds 1 ([] ++ es) (process (message 2 buy) quoted).trade_outbound
process-trades_example =
    process-trades 1 (message 2 buy) quoted [] (omega (arith, one_trade)) (new_ring-Holds no_trade)

process-top_example :
    (SameTop no_top (update_of (message 1 sell) new_shard)
      × Holds 1 [] (process (message 1 sell) new_shard).outbound)
    ⊎ ((¬ SameTop no_top (update_of (message 1 sell) new_shard))
        × Holds 1
            ([] ++ update_of (message 1 sell) new_shard ∷ [])
            (process (message 1 sell) new_shard).outbound)
process-top_example =
    process-top 1 (message 1 sell) new_shard [] (omega arith) (new_ring-Holds no_top)

process-AreSound_example :
    AreSound (process (message 2 buy) quoted).books
    × (es : List TradeExecution) × AreReported (message 2 buy) (trades_of (message 2 buy) quoted) es
    × All IsFair es
    × Holds 1 ([] ++ es) (process (message 2 buy) quoted).trade_outbound
process-AreSound_example =
    process-AreSound 1 (message 2 buy) quoted [] (inl (omega arith)) quoted-AreSound
      (omega (arith, one_trade)) (new_ring-Holds no_trade)

new_shard-IsCurrent : IsCurrent new_shard
new_shard-IsCurrent = record { current = λ symbol b e n. absurd (ground arith) }

process-IsCurrent_example : IsCurrent (process (message 1 sell) new_shard)
process-IsCurrent_example = process-IsCurrent (message 1 sell) new_shard new_shard-IsCurrent

-- `std::hash` of a number as many libraries have it.
abbrev pub hash : ℕ → ℕ
hash symbol = symbol

abbrev pub queued : OrderMessage → Shard
queued m = record new_shard { inbound = push_overwrite m (new_ring (message 0 buy)) }

at_one : get_elem? (new_shard ∷ new_shard ∷ []) (shard_for_symbol hash 1 2) ≡ some new_shard
unfolding shard_for_symbol
at_one = refl

abbrev pub before_submit : Simulation
before_submit = record { shards = new_shard ∷ new_shard ∷ []; next_sequence = 4 }

abbrev pub after_submit : Simulation
after_submit = record {
  shards =
      new_shard
      ∷ queued (record (message 1 sell) { ingress_timestamp = 50; ingress_sequence = 4 })
      ∷ [];
  next_sequence = 5;
}

pub submitted : submit hash 50 (message 1 sell) before_submit ≡ some after_submit
unfolding submit receive stamp route shard_for_symbol enqueue push_blocking push_overwrite
    claim_blocking
submitted = refl

receive_all_example :
    get_elem? (receive_all ((50, message 1 sell) ∷ (60, message 2 buy) ∷ []) (3 % word)) 1
    ≡ some (record (message 2 buy) { ingress_timestamp = 60; ingress_sequence = (3 + 1) % word })
receive_all_example =
    receive_all-get_elem? ((50, message 1 sell) ∷ (60, message 2 buy) ∷ []) 3 1 60 (message 2 buy)
      refl
