-- ===== src/Apps/Endpoints.antt =====
-- Whether Server/apps/server_main.cpp, Bot/apps/bot_main.cpp and Tui/apps/tui_main.cpp find one another.
use osborne_x.Base.{
  ℕ, ◌≤◌, ◌≡◌, refl, sym, inl, inr, List, [], ◌∷◌, Option, none, some, arith, length, Option-cases,
}
use osborne_x.Apps.{
  Text, ServerOptions, BotArguments, TuiArguments, word_arg, text_arg, symbols_arg, parse_server,
  parse_bot, parse_tui,
}

-- Where a server listens and sends.
pub record Endpoints : Type 0 where
  pub order_entry_port : ℕ
  pub market_data_group : Text
  pub market_data_port : ℕ

abbrev pub of_server : ServerOptions → Endpoints
of_server o = record {
  order_entry_port = o.order_entry_port;
  market_data_group = o.market_data_group;
  market_data_port = o.market_data_port;
}

abbrev pub of_bot : BotArguments → Endpoints
of_bot o = record {
  order_entry_port = o.order_entry_port;
  market_data_group = o.market_data_group;
  market_data_port = o.market_data_port;
}

abbrev pub of_tui : TuiArguments → Endpoints
of_tui o = record {
  order_entry_port = o.order_entry_port;
  market_data_group = o.market_data_group;
  market_data_port = o.market_data_port;
}

abbrev pub found {ℓ} : {A : Type ℓ} → (A → Endpoints) → Option A → Option Endpoints
found f none = none
found f (some a) = some (f a)

module _ (stoi stoul : Text → Option ℕ) where
  bot_agrees :
      (host : Text) (args : List Text)
      → length args ≤ 3
      → found of_server (parse_server stoi stoul args)
        ≡ found of_bot (parse_bot stoi stoul (host ∷ args))
  unfolding parse_server parse_bot word_arg text_arg symbols_arg
  bot_agrees host [] h = refl
  bot_agrees host (p ∷ []) h = ground arith
  bot_agrees host (p ∷ g ∷ []) h = ground arith
  bot_agrees host (p ∷ g ∷ m ∷ []) h = ground arith
  bot_agrees host (p ∷ g ∷ m ∷ x ∷ args) h = absurd (omega arith)

  tui_agrees :
      (host p g m : Text)
      → found of_tui (parse_tui stoi stoul (g ∷ m ∷ host ∷ p ∷ []))
        ≡ found of_server (parse_server stoi stoul (p ∷ g ∷ m ∷ []))
  unfolding parse_server parse_tui word_arg text_arg
  tui_agrees host p g m = elim (Option-cases (stoi p)) [
    | inl e ↦ elim (Option-cases (stoi m)) [ inl f ↦ rw (e, f) refl | inr (y, f) ↦ rw (e, f) refl ]
    | inr (x, e) ↦ elim (Option-cases (stoi m)) [
      | inl f ↦ rw (e, f) refl
      | inr (y, f) ↦ rw (e, f) refl
    ]
  ]

  -- The programs find one another: a bot that is given a host and then the arguments of a server, as many
  -- of them as there are, has the ports and the group of that server, and a view has them that is given
  -- all of them in its own order. Where a number of a server cannot be read, none of the three starts.
  -- A server has at most three arguments.
  pub parse-agrees :
      (host p g m : Text) (args : List Text)
      → length args ≤ 3
      → (found of_bot (parse_bot stoi stoul (host ∷ args))
          ≡ found of_server (parse_server stoi stoul args))
        × (found of_tui (parse_tui stoi stoul (g ∷ m ∷ host ∷ p ∷ []))
            ≡ found of_server (parse_server stoi stoul (p ∷ g ∷ m ∷ [])))
  parse-agrees host p g m args h = (sym (bot_agrees host args h), tui_agrees host p g m)
