-- ===== src/Tui/View.antt =====
-- What the view of Tui/src/market_view_model.cpp shows after any sequence of market data.
use osborne_x.Base.{
  ℕ, zero, suc, ◌≤◌, ◌≡◌, refl, ap, ◌∙◌, List, [], ◌∷◌, Option, none, some, arith, if◌then◌else◌,
  ◌==◌, lookup,
}
use osborne_x.Messages.{TopOfBookUpdate, TradeExecution}
use osborne_x.Net.Datagrams.{Event, top, trade}
use osborne_x.Tui.{
  MarketViewModel, make_view_model, on_top_of_book, on_trade, snapshot_trades, newest, on_trade_lem,
  on_top_of_book_lem, IsView, make_view_model-IsView, on_trade-IsView, on_top_of_book-IsView,
}

-- The handlers that the terminal application gives to the listener.
unfoldable pub receive : Event → MarketViewModel → MarketViewModel
receive (top u) v = on_top_of_book u v
receive (trade t) v = on_trade t v

-- The events in their order.
unfoldable pub receive_all : List Event → MarketViewModel → MarketViewModel
receive_all [] v = v
receive_all (e ∷ es) v = receive_all es (receive e v)

-- The trades of the events before some others, the last one first.
abbrev pub tape : List Event → List TradeExecution → List TradeExecution
tape [] ts = ts
tape (top u ∷ es) ts = tape es ts
tape (trade t ∷ es) ts = tape es (t ∷ ts)

-- The last update of a symbol.
abbrev pub latest : ℕ → List Event → Option TopOfBookUpdate → Option TopOfBookUpdate
latest symbol [] o = o
latest symbol (top u ∷ es) o = latest symbol es (if u.symbol == symbol then some u else o)
latest symbol (trade t ∷ es) o = latest symbol es o

-- The view against the events: sorted and within its limit, with the newest trades and for each symbol
-- its latest update.
pub record Shows (es : List Event) (limit : ℕ) (v : MarketViewModel) : Type 0 where
  pub viewed : IsView v
  pub limited : v.max_trade_tape_size ≡ limit
  pub taped : snapshot_trades v ≡ newest limit (tape es [])
  pub updated : (symbol : ℕ) → lookup symbol v.books ≡ latest symbol es none

newest-newest : (m n : ℕ) (ts : List TradeExecution) → m ≤ n → newest m (newest n ts) ≡ newest m ts
unfolding newest
newest-newest zero n ts h = refl
newest-newest (suc m) zero ts h = absurd (omega arith)
newest-newest (suc m) (suc n) [] h = refl
newest-newest (suc m) (suc n) (t ∷ ts) h = ap (◌∷◌ t) (newest-newest m n ts (omega arith))

newest-cons :
    (n : ℕ) (t : TradeExecution) (ts : List TradeExecution)
    → newest n (t ∷ newest n ts) ≡ newest n (t ∷ ts)
unfolding newest
newest-cons zero t ts = refl
newest-cons (suc n) t ts = ap (◌∷◌ t) (newest-newest n (suc n) ts (omega arith))

receive_all-IsView : (es : List Event) (v : MarketViewModel) → IsView v → IsView (receive_all es v)
unfolding receive_all receive
receive_all-IsView [] v h = h
receive_all-IsView (top u ∷ es) v h =
    receive_all-IsView es (on_top_of_book u v) (on_top_of_book-IsView u v h)
receive_all-IsView (trade t ∷ es) v h = receive_all-IsView es (on_trade t v) (on_trade-IsView t v h)

on_trade-limit :
    (t : TradeExecution) (v : MarketViewModel)
    → (on_trade t v).max_trade_tape_size ≡ v.max_trade_tape_size
unfolding on_trade
on_trade-limit t v = refl

newest-nil : (n : ℕ) → [] ≡ newest n []
unfolding newest
newest-nil zero = refl
newest-nil (suc n) = refl

receive_all-tape :
    (es : List Event) (limit : ℕ) (ts : List TradeExecution) (v : MarketViewModel)
    → v.max_trade_tape_size ≡ limit
    → v.trades ≡ newest limit ts
    → ((receive_all es v).max_trade_tape_size ≡ limit)
      × (snapshot_trades (receive_all es v) ≡ newest limit (tape es ts))
unfolding receive_all receive on_top_of_book
receive_all-tape [] limit ts v h e = (h, e)
receive_all-tape (top u ∷ es) limit ts v h e = receive_all-tape es limit ts (on_top_of_book u v) h e
receive_all-tape (trade t ∷ es) limit ts v h e =
    receive_all-tape es limit (t ∷ ts) (on_trade t v) (on_trade-limit t v ∙ h) (
      on_trade_lem t v
      ∙ ap (λ n. newest n (t ∷ v.trades)) h
      ∙ ap (λ l. newest limit (t ∷ l)) e
      ∙ newest-cons limit t ts)

receive_all-latest :
    (symbol : ℕ) (es : List Event) (v : MarketViewModel)
    → lookup symbol (receive_all es v).books ≡ latest symbol es (lookup symbol v.books)
unfolding receive_all receive on_trade
receive_all-latest symbol [] v = refl
receive_all-latest symbol (top u ∷ es) v =
    receive_all-latest symbol es (on_top_of_book u v)
    ∙ ap (latest symbol es) (on_top_of_book_lem u v symbol)
receive_all-latest symbol (trade t ∷ es) v = receive_all-latest symbol es (on_trade t v)

-- After any sequence of updates and trades a new view shows the newest trades, as many as its limit
-- allows, the last one first, and for each symbol its last update, in the order of the symbols.
pub receive_all-Shows :
    (es : List Event) (n : ℕ)
    → Shows es (make_view_model n).max_trade_tape_size (receive_all es (make_view_model n))
unfolding make_view_model newest
receive_all-Shows es n =
    let v = make_view_model n in
    let (limited, taped) =
      receive_all-tape es v.max_trade_tape_size [] v refl (newest-nil v.max_trade_tape_size) in
    record {
      viewed = receive_all-IsView es v (make_view_model-IsView n);
      limited = limited;
      taped = taped;
      updated = λ symbol. receive_all-latest symbol es v;
    }
