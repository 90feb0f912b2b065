-- ===== src/Tui.antt =====
-- `MarketViewModel` of Tui/inc/Tui/market_view_model.hpp and Tui/src/market_view_model.cpp. The mutex
-- makes each of its operations one step.
use osborne_x.Base.{
  ℕ, zero, suc, ◌-◌, ◌<◌, ◌≤◌, ◌≡◌, refl, sym, ap, ◌∙◌, List, [], ◌∷◌, map, some, arith,
  if◌then◌else◌, ltb, ◌==◌, length, lookup, Bool-cases, inl, inr,
}
use osborne_x.Messages.{TopOfBookUpdate, TradeExecution}
pub mod View
pub mod Render

pub record MarketViewModel : Type 0 where
  pub books : List (ℕ × TopOfBookUpdate)
  pub trades : List TradeExecution
  pub max_trade_tape_size : ℕ

unfoldable pub make_view_model : ℕ → MarketViewModel
make_view_model max_trade_tape_size = record {
  books = [];
  trades = [];
  max_trade_tape_size = if max_trade_tape_size == 0 then 1 else max_trade_tape_size;
}

-- `books_[symbol] = update`; a `std::map` is in the order of its keys.
unfoldable pub assign :
    ℕ → TopOfBookUpdate → List (ℕ × TopOfBookUpdate) → List (ℕ × TopOfBookUpdate)
assign k u [] = (k, u) ∷ []
assign k u ((j, v) ∷ m) =
    let rest = assign k u m in
    if k == j then (j, u) ∷ m else (if ltb k j then (k, u) ∷ (j, v) ∷ m else (j, v) ∷ rest)

unfoldable pub on_top_of_book : TopOfBookUpdate → MarketViewModel → MarketViewModel
unfolding assign
on_top_of_book u v = record v { books = assign u.symbol u v.books }

unfoldable pub pop_back : List TradeExecution → List TradeExecution
pop_back [] = []
pop_back (t ∷ []) = []
pop_back (t ∷ t' ∷ ts) = t ∷ pop_back (t' ∷ ts)

-- The loop of `on_trade`, a round for each unit of fuel.
unfoldable pub trim : ℕ → ℕ → List TradeExecution → List TradeExecution
trim zero n ts = ts
trim (suc fuel) n ts = if ltb n (length ts) then trim fuel n (pop_back ts) else ts

-- The tape gets one trade longer, so as many rounds as it has trades are enough.
unfoldable pub on_trade : TradeExecution → MarketViewModel → MarketViewModel
on_trade t v =
    let ts = t ∷ v.trades in record v { trades = trim (length ts) v.max_trade_tape_size ts }

unfoldable pub snapshot_books : MarketViewModel → List TopOfBookUpdate
snapshot_books v = map (λ e. e.1) v.books

abbrev pub snapshot_trades : MarketViewModel → List TradeExecution
snapshot_trades v = v.trades

-- The first trades, so many at most.
unfoldable pub newest : ℕ → List TradeExecution → List TradeExecution
newest zero ts = []
newest (suc n) [] = []
newest (suc n) (t ∷ ts) = t ∷ newest n ts

length-pop_back : (ts : List TradeExecution) → length (pop_back ts) ≡ length ts - 1
unfolding pop_back
length-pop_back [] = refl
length-pop_back (t ∷ []) = refl
length-pop_back (t ∷ t' ∷ ts) = omega (arith, length-pop_back (t' ∷ ts))

newest-pop_back :
    (n : ℕ) (ts : List TradeExecution) → n < length ts → newest n (pop_back ts) ≡ newest n ts
unfolding newest pop_back
newest-pop_back zero ts h = refl
newest-pop_back (suc n) [] h = refl
newest-pop_back (suc zero) (t ∷ []) h = absurd (omega arith)
newest-pop_back (suc (suc n)) (t ∷ []) h = absurd (omega arith)
newest-pop_back (suc n) (t ∷ t' ∷ ts) h = ap (◌∷◌ t) (newest-pop_back n (t' ∷ ts) (omega arith))

newest_all : (n : ℕ) (ts : List TradeExecution) → length ts ≤ n → newest n ts ≡ ts
unfolding newest
newest_all zero [] h = refl
newest_all zero (t ∷ ts) h = absurd (omega arith)
newest_all (suc n) [] h = refl
newest_all (suc n) (t ∷ ts) h = ap (◌∷◌ t) (newest_all n ts (omega arith))

trim-newest :
    (fuel n : ℕ) (ts : List TradeExecution) → length ts ≤ fuel → trim fuel n ts ≡ newest n ts
unfolding trim
trim-newest zero n ts h = sym (newest_all n ts (omega arith))
trim-newest (suc fuel) n ts h = elim (Bool-cases (ltb n (length ts))) [
  | inl e ↦ rw e (
      trim-newest fuel n (pop_back ts) (omega (arith, length-pop_back ts))
      ∙ newest-pop_back n ts (ground arith))
  | inr e ↦ rw e (sym (newest_all n ts (ground arith)))
]

-- Keys of a map in order, all of them from some number on.
pub data IsOrdered : ℕ → List (ℕ × TopOfBookUpdate) → Type 0 where
  done : {n : ℕ} → IsOrdered n []
  entry :
      {n k : ℕ} {u : TopOfBookUpdate} {m : List (ℕ × TopOfBookUpdate)}
      → n ≤ k
      → IsOrdered (suc k) m
      → IsOrdered n ((k, u) ∷ m)

assign-IsOrdered :
    (n k : ℕ) (u : TopOfBookUpdate) (m : List (ℕ × TopOfBookUpdate))
    → n ≤ k
    → IsOrdered n m
    → IsOrdered n (assign k u m)
unfolding assign
assign-IsOrdered n k u [] h o = entry h done
assign-IsOrdered n k u ((j, v) ∷ m) h (entry b o) = elim (Bool-cases (k == j)) [
  | inl e ↦ rw e (entry b o)
  | inr e ↦ elim (Bool-cases (ltb k j)) [
    | inl l ↦ rw (e, l) (entry h (entry (ground arith) o))
    | inr l ↦ rw (e, l) (entry b (assign-IsOrdered (suc j) k u m (ground arith) o))
  ]
]

-- A symbol has the update that is assigned to it, and each other symbol what it had.
lookup-assign :
    (k j : ℕ) (u : TopOfBookUpdate) (m : List (ℕ × TopOfBookUpdate))
    → lookup j (assign k u m) ≡ (if k == j then some u else lookup j m)
unfolding assign
lookup-assign k j u [] = refl
lookup-assign k j u ((i, v) ∷ m) = ground (arith, lookup-assign k j u m)

-- What holds of a view after its construction and after each message.
pub record IsView (v : MarketViewModel) : Type 0 where
  pub ordered : IsOrdered 0 v.books
  pub positive : 0 < v.max_trade_tape_size
  pub bounded : length v.trades ≤ v.max_trade_tape_size

-- `on_trade` shows the new trade before the others, and drops the oldest ones past the limit.
pub on_trade_lem :
    (t : TradeExecution) (v : MarketViewModel)
    → snapshot_trades (on_trade t v) ≡ newest v.max_trade_tape_size (t ∷ v.trades)
unfolding on_trade
on_trade_lem t v =
    trim-newest (length (t ∷ v.trades)) v.max_trade_tape_size (t ∷ v.trades) (omega arith)

length-newest : (n : ℕ) (ts : List TradeExecution) → length (newest n ts) ≤ n
unfolding newest
length-newest zero ts = omega arith
length-newest (suc n) [] = omega arith
length-newest (suc n) (t ∷ ts) = omega (arith, length-newest n ts)

-- A new view has its books in the order of the symbols and no more trades than its positive limit.
pub make_view_model-IsView : (n : ℕ) → IsView (make_view_model n)
unfolding make_view_model
make_view_model-IsView n = record { ordered = done; positive = ground arith; bounded = omega arith }

-- After a trade the books are still in the order of the symbols, and the trades within the limit.
pub on_trade-IsView : (t : TradeExecution) (v : MarketViewModel) → IsView v → IsView (on_trade t v)
unfolding on_trade
on_trade-IsView t v h = record {
  ordered = h.ordered;
  positive = h.positive;
  bounded =
      omega
        (arith, ap length (on_trade_lem t v), length-newest v.max_trade_tape_size (t ∷ v.trades));
}

-- After an update the books are still in the order of the symbols, and the trades within the limit.
pub on_top_of_book-IsView :
    (u : TopOfBookUpdate) (v : MarketViewModel) → IsView v → IsView (on_top_of_book u v)
unfolding on_top_of_book
on_top_of_book-IsView u v h = record {
  ordered = assign-IsOrdered 0 u.symbol u v.books (omega arith) h.ordered;
  positive = h.positive;
  bounded = h.bounded;
}

-- The update is the symbol's latest one, and each other symbol keeps its own.
pub on_top_of_book_lem :
    (u : TopOfBookUpdate) (v : MarketViewModel) (symbol : ℕ)
    → lookup symbol (on_top_of_book u v).books
      ≡ (if u.symbol == symbol then some u else lookup symbol v.books)
unfolding on_top_of_book
on_top_of_book_lem u v symbol = lookup-assign u.symbol symbol u v.books
