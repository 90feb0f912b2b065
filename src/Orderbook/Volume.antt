-- ===== src/Orderbook/Volume.antt =====
-- The quantity that rests on the two sides of a book of Orderbook/src/orderbook.cpp.
use osborne_x.Base.{ℕ, zero, suc, ◌+◌, ◌≡◌, refl, List, [], ◌∷◌, ◌++◌, arith, length}
use osborne_x.Base.Price.{Price}
use osborne_x.Orderbook.Types.{Side, Order, Trade, fill}
use osborne_x.Orderbook.Levels.{Level, push_order, keep_level}
use osborne_x.Orderbook.Book.{Orderbook}
use osborne_x.Orderbook.Matching.{
  Tally, fill_quantity, pop_filled, match_level, record_trade, trade_of, run_level, settle,
}
use osborne_x.Orderbook.Priority.{volume, traded, traded-append, volume-pop_filled}

abbrev pub resting : List Level → ℕ
resting [] = 0
resting (l ∷ ls) = volume l.orders + resting ls

volume-append : (os ps : List Order) → volume (os ++ ps) ≡ volume os + volume ps
volume-append [] ps = omega arith
volume-append (o ∷ os) ps = omega (arith, volume-append os ps)

-- An order that enters a side adds its quantity there.
pub resting-push_order :
    (s : Side) (p : Price) (o : Order) (ls : List Level)
    → resting (push_order s p o ls) ≡ resting ls + o.remaining_quantity
unfolding push_order
resting-push_order s p o [] = omega arith
resting-push_order s p o (l ∷ ls) =
    ground (arith, resting-push_order s p o ls, volume-append l.orders (o ∷ []))

resting-keep_level :
    (l : Level) (ls : List Level) → resting (keep_level l ls) ≡ volume l.orders + resting ls
unfolding keep_level
resting-keep_level l ls = ground arith

-- What the inner loop trades it takes off both queues.
pub volume-match_level :
    (fuel : ℕ) (bids asks : List Order) (t : Tally)
    → let m = match_level fuel bids asks t in
      (volume m.bids_at + traded m.trades ≡ volume bids + traded t.trades)
      × (volume m.asks_at + traded m.trades ≡ volume asks + traded t.trades)
unfolding match_level record_trade
volume-match_level zero bids asks t = (refl, refl)
volume-match_level (suc fuel) [] asks t = (refl, refl)
volume-match_level (suc fuel) (bid ∷ bids) [] t = (refl, refl)
volume-match_level (suc fuel) (bid ∷ bids) (ask ∷ asks) t =
    let q = fill_quantity bid ask in
    let rest =
      volume-match_level fuel (pop_filled (fill bid q) bids) (pop_filled (fill ask q) asks)
        (record_trade bid ask q (fill bid q) (fill ask q) t) in
    let more = traded-append t.trades (trade_of bid ask q ∷ []) in
    (
      omega (arith, rest.0, more, volume-pop_filled bid q bids (omega arith)),
      omega (arith, rest.1, more, volume-pop_filled ask q asks (omega arith)),
    )

-- A round of the outer loop takes what it trades off both sides.
pub resting-settle :
    (b : Orderbook) (trades : List Trade) (l : Level) (ls : List Level) (k : Level)
    (ks : List Level)
    → let m = run_level l k b trades in
      (resting (settle l ls k ks m).bids + traded m.trades ≡ resting (l ∷ ls) + traded trades)
      × (resting (settle l ls k ks m).asks + traded m.trades ≡ resting (k ∷ ks) + traded trades)
unfolding settle run_level
resting-settle b trades l ls k ks =
    let m = run_level l k b trades in
    let same =
      volume-match_level (length l.orders + length k.orders) l.orders k.orders
        (record { orders = b.orders; level_data = b.level_data; trades = trades }) in
    (
      omega (arith, same.0, resting-keep_level (record l { orders = m.bids_at }) ls),
      omega (arith, same.1, resting-keep_level (record k { orders = m.asks_at }) ks),
    )
