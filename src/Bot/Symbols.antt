-- ===== src/Bot/Symbols.antt =====
-- The symbols of a bot in Bot/apps/bot_main.cpp: reading them from the command line, showing them, and
-- the updates that reach the strategy. A text is the list of its bytes; `std::stoul` and the printing of
-- a number are parameters.
use osborne_x.Base.{
  ℕ, ◌<◌, ◌%◌, ◌^◌, ◌≡◌, ◌≢◌, refl, ap, ◌∙◌, Bool, false, ◌||◌, List, [], ◌∷◌, ◌++◌, Option, some,
  ◌>>=◌, arith, All, if◌then◌else◌, ◌==◌, lookup, lookup-insert, ◌&&◌,
}
use mathlib.Core.List.{append-nil}
use osborne_x.Messages.{TopOfBookUpdate}
use osborne_x.Bot.{RandomStrategy, on_top_of_book}

abbrev pub comma : ℕ
comma = 44

-- A character before the first of the tokens.
abbrev pub before_token : ℕ → List (List ℕ) → List (List ℕ)
before_token c [] = (c ∷ []) ∷ []
before_token c (t ∷ ts) = (c ∷ t) ∷ ts

-- The tokens that `std::getline` takes off a text, up to a comma or the end; there is none behind a
-- comma at the end.
unfoldable pub tokens : List ℕ → List (List ℕ)
tokens [] = []
tokens (c ∷ cs) = let rest = tokens cs in if c == comma then [] ∷ rest else before_token c rest

module _ (stoul : List ℕ → Option ℕ) where
  -- The loop of `ParseSymbols`; `none` is an exception of `std::stoul`.
  unfoldable pub parse_tokens : List (List ℕ) → Option (List ℕ)
  parse_tokens [] = some []
  parse_tokens (t ∷ ts) = do n ← stoul t; symbols ← parse_tokens ts; some (n % 2 ^ 32 ∷ symbols)

  -- `ParseSymbols`
  unfoldable pub parse_symbols : List ℕ → Option (List ℕ)
  unfolding parse_tokens
  parse_symbols text = parse_tokens (tokens text)

-- What `main` shows of the symbols.
module _ (print : ℕ → List ℕ) where
  unfoldable pub show_rest : List ℕ → List ℕ
  show_rest [] = []
  show_rest (symbol ∷ symbols) = comma ∷ (print symbol ++ show_rest symbols)

  unfoldable pub show_symbols : List ℕ → List ℕ
  unfolding show_rest
  show_symbols [] = []
  show_symbols (symbol ∷ symbols) = print symbol ++ show_rest symbols

unfoldable pub contains_symbol : ℕ → List ℕ → Bool
contains_symbol symbol [] = false
contains_symbol symbol (j ∷ js) = j == symbol || contains_symbol symbol js

-- The handler that `main` gives to the listener.
unfoldable pub receive_update :
    {G : Type 0} → List ℕ → TopOfBookUpdate → RandomStrategy G → RandomStrategy G
unfolding contains_symbol on_top_of_book
receive_update symbols u s = if contains_symbol u.symbol symbols then on_top_of_book u s else s

-- What is used of numbers in a text: they are read as they are shown, in some characters without a
-- comma.
pub record IsNumeral (stoul : List ℕ → Option ℕ) (print : ℕ → List ℕ) : Type 0 where
  pub restored : (n : ℕ) → stoul (print n) ≡ some n
  pub plain : (n : ℕ) → All (λ c. (c == comma) ≡ false) (print n)
  pub filled : (n : ℕ) → print n ≢ []

tokens-comma :
    (t rest : List ℕ)
    → All (λ c. (c == comma) ≡ false) t
    → tokens (t ++ comma ∷ rest) ≡ t ∷ tokens rest
unfolding tokens
tokens-comma [] rest h = refl
tokens-comma (c ∷ t) rest h = rw (h.0, tokens-comma t rest h.1) refl

tokens-last : (t : List ℕ) → All (λ c. (c == comma) ≡ false) t → t ≢ [] → tokens t ≡ t ∷ []
unfolding tokens
tokens-last [] h ne = absurd (ne refl)
tokens-last (c ∷ []) h ne = rw h.0 refl
tokens-last (c ∷ d ∷ t) h ne = rw (h.0, tokens-last (d ∷ t) h.1 (λ e. cc)) refl

-- The tokens of what is shown.
shown : (ℕ → List ℕ) → List ℕ → List (List ℕ)
shown print [] = []
shown print (n ∷ ns) = print n ∷ shown print ns

module _ (stoul : List ℕ → Option ℕ) (print : ℕ → List ℕ) (numeral : IsNumeral stoul print) where
  tokens-rest :
      (symbol : ℕ) (symbols : List ℕ)
      → tokens (print symbol ++ show_rest print symbols) ≡ shown print (symbol ∷ symbols)
  unfolding show_rest shown
  tokens-rest symbol [] =
      ap tokens (append-nil (print symbol))
      ∙ tokens-last (print symbol) (numeral.plain symbol) (numeral.filled symbol)
  tokens-rest symbol (next ∷ symbols) =
      tokens-comma (print symbol) (print next ++ show_rest print symbols) (numeral.plain symbol)
      ∙ ap (◌∷◌ (print symbol)) (tokens-rest next symbols)

  parse_tokens-shown :
      (symbols : List ℕ)
      → All (λ n. n < 2 ^ 32) symbols
      → parse_tokens stoul (shown print symbols) ≡ some symbols
  unfolding parse_tokens shown
  parse_tokens-shown [] h = refl
  parse_tokens-shown (n ∷ ns) h =
      let small : n % 2 ^ 32 ≡ n = omega (arith, h.0) in
      rw (numeral.restored n, parse_tokens-shown ns h.1) (ap (λ k. some (k ∷ ns)) small)

  -- The symbols that a bot shows are read back from the text as they were. Symbols have 32 bits.
  pub parse_symbols-show_symbols :
      (symbols : List ℕ)
      → All (λ n. n < 2 ^ 32) symbols
      → parse_symbols stoul (show_symbols print symbols) ≡ some symbols
  unfolding parse_symbols show_symbols tokens shown
  parse_symbols-show_symbols [] h = parse_tokens-shown [] h
  parse_symbols-show_symbols (n ∷ ns) h =
      ap (parse_tokens stoul) (tokens-rest n ns) ∙ parse_tokens-shown (n ∷ ns) h

-- The strategy knows, after an update, the update for its symbol where that is one of the bot's, and
-- for every other symbol what it knew.
pub receive_update_lem :
    {G : Type 0} (symbols : List ℕ) (u : TopOfBookUpdate) (s : RandomStrategy G) (symbol : ℕ)
    → lookup symbol (receive_update symbols u s).last_known_tops ≡ (
        if contains_symbol u.symbol symbols && u.symbol == symbol
        then some u
        else lookup symbol s.last_known_tops)
unfolding receive_update
receive_update_lem symbols u s symbol =
    ground (arith, lookup-insert u.symbol symbol u s.last_known_tops)
