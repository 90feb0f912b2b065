-- ===== src/Orderbook/Exhaust.antt =====
-- `MatchOrders` of Orderbook/src/orderbook.cpp terminates: the fuel of its two loops suffices.
use osborne_x.Base.{
  ℕ, zero, suc, ◌+◌, ◌≤◌, ◌<◌, ◌≡◌, refl, ◌⊎◌, inl, inr, true, List, [], ◌∷◌, Option, none, some,
  arith, length, Option-cases, Bool-cases,
}
use osborne_x.Base.Price.{Price, lt_price}
use osborne_x.Orderbook.Types.{Side, buy, sell, Order, Trade, fill}
use osborne_x.Orderbook.Levels.{Level, keep_level, erase_order}
use osborne_x.Orderbook.Book.{
  Orderbook, OrderEntry, levels_of, find_entry, cancel_entry, cancel_order,
}
use osborne_x.Orderbook.Matching.{
  Tally, Matching, fill_quantity, pop_filled, match_level, match_round, run_level, settle,
  front_to_kill, kill_front, match_loop, match_orders, level_count,
}

pub pop_filled-lt :
    (bid : Order) (bids : List Order) (ask : Order) (asks : List Order)
    → let q = fill_quantity bid ask in
      length (pop_filled (fill bid q) bids) + length (pop_filled (fill ask q) asks)
      ≤ length bids + length asks + 1
unfolding pop_filled fill
pop_filled-lt bid bids ask asks = ground arith

abbrev pub IsExhausted : Matching → Type 0
IsExhausted m = (m.bids_at ≡ []) ⊎ (m.asks_at ≡ [])

-- With as much fuel as there are orders the inner loop ends by its own test: afterwards one of the
-- two lists is empty.
pub match_level-exhausts :
    (fuel : ℕ) (bids asks : List Order) (t : Tally)
    → length bids + length asks ≤ fuel
    → IsExhausted (match_level fuel bids asks t)
unfolding match_level
match_level-exhausts zero [] asks t h = inl refl
match_level-exhausts zero (bid ∷ bids) asks t h = absurd (omega arith)
match_level-exhausts (suc fuel) [] asks t h = inl refl
match_level-exhausts (suc fuel) (bid ∷ bids) [] t h = inr refl
match_level-exhausts (suc fuel) (bid ∷ bids) (ask ∷ asks) t h =
    match_level-exhausts fuel _ _ _ (omega (arith, pop_filled-lt bid bids ask asks))

pub run_level-exhausts :
    (l k : Level) (b : Orderbook) (trades : List Trade) → IsExhausted (run_level l k b trades)
unfolding run_level
run_level-exhausts l k b trades = match_level-exhausts _ l.orders k.orders _ (omega arith)

settle-lt :
    (l : Level) (ls : List Level) (k : Level) (ks : List Level) (m : Matching)
    → IsExhausted m
    → level_count (settle l ls k ks m) ≤ length ls + length ks + 1
unfolding settle keep_level
settle-lt l ls k ks m h = ground arith

length-erase_order-le :
    (p : Price) (i : ℕ) (ls : List Level) → length (erase_order p i ls) ≤ length ls
unfolding erase_order
length-erase_order-le p i [] = omega arith
length-erase_order-le p i (l ∷ ls) = ground (arith, length-erase_order-le p i ls)

cancel_entry-le : (e : OrderEntry) (b : Orderbook) → level_count (cancel_entry e b) ≤ level_count b
unfolding cancel_entry
cancel_entry-le e b = ground (
  arith,
  length-erase_order-le e.price e.order_id b.bids,
  length-erase_order-le e.price e.order_id b.asks,
)

cancel_order-le : (i : ℕ) (b : Orderbook) → level_count (cancel_order i b) ≤ level_count b
unfolding cancel_order
cancel_order-le i b = elim (Option-cases (find_entry i b.orders)) [
  | inl e ↦ rw (e, cancel_order) (omega arith)
  | inr (x, e) ↦ rw (e, cancel_order) (cancel_entry-le x b)
]

kill_front-le : (s : Side) (b : Orderbook) → level_count (kill_front s b) ≤ level_count b
unfolding kill_front
kill_front-le s b = elim (Option-cases (front_to_kill (levels_of s b))) [
  | inl e ↦ rw (e, kill_front) (omega arith)
  | inr (i, e) ↦ rw (e, kill_front) (cancel_order-le i b)
]

-- No level of a bid stands above an ask: the book is not crossed.
abbrev pub IsUncrossed : List Level → List Level → Type 0
IsUncrossed [] asks = Unit {0}
IsUncrossed (l ∷ ls) [] = Unit {0}
IsUncrossed (l ∷ ls) (k ∷ ks) = lt_price l.price k.price ≡ true

round-lt :
    (b : Orderbook) (trades : List Trade) (l : Level) (ls : List Level) (k : Level)
    (ks : List Level)
    → let m = run_level l k b trades in
      level_count (kill_front sell (kill_front buy (settle l ls k ks m)))
      ≤ length ls + length ks + 1
round-lt b trades l ls k ks = omega (
  arith,
  kill_front-le sell (kill_front buy (settle l ls k ks (run_level l k b trades))),
  kill_front-le buy (settle l ls k ks (run_level l k b trades)),
  settle-lt l ls k ks (run_level l k b trades) (run_level-exhausts l k b trades),
)

-- What a round tells: it breaks off exactly at an uncrossed book, and else leaves fewer levels.
abbrev Progress : List Level → List Level → Option (Orderbook × List Trade) → Type 0
Progress bids asks none = IsUncrossed bids asks
Progress bids asks (some (b', _)) = level_count b' < length bids + length asks

match_round-Progress :
    (b : Orderbook) (trades : List Trade) (bids asks : List Level)
    → Progress bids asks (match_round b trades bids asks)
unfolding match_round
match_round-Progress b trades [] asks = tt
match_round-Progress b trades (l ∷ ls) [] = tt
match_round-Progress b trades (l ∷ ls) (k ∷ ks) = elim (Bool-cases (lt_price l.price k.price)) [
  | inl e ↦ rw (e, match_round) e
  | inr e ↦ rw (e, match_round) (omega (arith, round-lt b trades l ls k ks))
]

empty-IsUncrossed : (bids asks : List Level) → length bids + length asks ≤ 0 → IsUncrossed bids asks
empty-IsUncrossed [] asks h = tt
empty-IsUncrossed (l ∷ ls) asks h = absurd (omega arith)

-- With as much fuel as there are levels the outer loop ends by its own test.
pub match_loop-uncrosses :
    (fuel : ℕ) (b : Orderbook) (trades : List Trade)
    → level_count b ≤ fuel
    → let r = match_loop fuel b trades in IsUncrossed r.0.bids r.0.asks
unfolding match_loop
match_loop-uncrosses zero b trades h = empty-IsUncrossed b.bids b.asks h
match_loop-uncrosses (suc fuel) b trades h =
    go (match_round b trades b.bids b.asks) refl (match_round-Progress b trades b.bids b.asks)
      (match_loop-uncrosses fuel)
  where
    go :
        (o : Option (Orderbook × List Trade))
        → match_round b trades b.bids b.asks ≡ o
        → Progress b.bids b.asks o
        → ((b' : Orderbook) (t' : List Trade)
            → level_count b' ≤ fuel
            → IsUncrossed (match_loop fuel b' t').0.bids (match_loop fuel b' t').0.asks)
        → let r = match_loop (suc fuel) b trades in IsUncrossed r.0.bids r.0.asks
    go none e p ih = rw (e, match_loop) p
    go (some (b', t')) e p ih = rw (e, match_loop) (ih b' t' (omega arith))

-- `MatchOrders` leaves no crossed prices, whatever the book was: a side is empty or the best bid price
-- is below the best ask price, so with the fuel that it gets the outer loop ends by its own test.
pub match_orders-uncrosses :
    (b : Orderbook) → IsUncrossed (match_orders b).0.bids (match_orders b).0.asks
unfolding match_orders
match_orders-uncrosses b = match_loop-uncrosses (level_count b) b [] (omega arith)
