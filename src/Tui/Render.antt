-- ===== src/Tui/Render.antt =====
-- The tables of Tui/apps/tui_main.cpp: the texts of their cells, without widths, colours and borders.
-- The printing of a number and of a price that is no NaN are parameters.
use Prim.Native.String.{String}
use osborne_x.Base.{ℕ, List, [], ◌∷◌, ◌++◌, map, if◌then◌else◌, is_empty}
use osborne_x.Base.Price.{Price, is_nan}
use osborne_x.Messages.{TopOfBookUpdate, TradeExecution, has_bid, has_ask}
use osborne_x.Tui.{MarketViewModel, snapshot_books, snapshot_trades}

module _ (print : ℕ → String) (fixed : Price → String) where
  -- `FormatPrice`
  unfoldable pub format_price : Price → String
  format_price p = if is_nan p then "--" else fixed p

  unfoldable pub book_row : TopOfBookUpdate → List String
  unfolding format_price
  book_row u =
      print u.symbol
      ∷ (if has_bid u then print u.bid_quantity else "--")
      ∷ format_price u.bid_price
      ∷ format_price u.ask_price
      ∷ (if has_ask u then print u.ask_quantity else "--")
      ∷ []

  unfoldable pub trade_row : TradeExecution → List String
  unfolding format_price
  trade_row t = print t.symbol ∷ format_price t.bid_price ∷ print t.quantity ∷ []

  -- `RenderBooks`: the heading, and then the rows.
  unfoldable pub render_books : List TopOfBookUpdate → List (List String)
  unfolding book_row
  render_books books =
      ("Symbol" ∷ "Bid Qty" ∷ "Bid" ∷ "Ask" ∷ "Ask Qty" ∷ [])
      ∷ (map book_row books ++ (if is_empty books then ("(no market data yet)" ∷ []) ∷ [] else []))

  -- `RenderTrades`
  unfoldable pub render_trades : List TradeExecution → List (List String)
  unfolding trade_row
  render_trades trades =
      ("Symbol" ∷ "Price" ∷ "Qty" ∷ [])
      ∷ (map trade_row trades ++ (if is_empty trades then ("(no trades yet)" ∷ []) ∷ [] else []))

  -- The tables of the renderer.
  unfoldable pub render : MarketViewModel → List (List String) × List (List String)
  unfolding render_books render_trades
  render v = (render_books (snapshot_books v), render_trades (snapshot_trades v))
