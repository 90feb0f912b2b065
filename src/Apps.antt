-- ===== src/Apps.antt =====
-- The options of the three programs Server/apps/server_main.cpp, Bot/apps/bot_main.cpp and
-- Tui/apps/tui_main.cpp, and how they read them from the command line. A text is the list of its bytes,
-- and the arguments are those after the name of the program. `std::stoi` and `std::stoul` are parameters:
-- `none` is an exception, and an int is its 32-bit word.
pub mod Endpoints
use osborne_x.Base.{ℕ, ◌%◌, ◌^◌, List, [], ◌∷◌, Option, none, some, ◌>>=◌, get_elem?}
use osborne_x.Bot.Symbols.{parse_symbols}
use osborne_x.Ingress.Submit.{SimulationOptions}

abbrev pub Text : Type 0
Text = List ℕ

-- `ServerOptions`
pub record ServerOptions : Type 0 where
  pub order_entry_port : ℕ
  pub market_data_group : Text
  pub market_data_port : ℕ
  pub simulation_options : SimulationOptions
  pub inbound_queue_capacity : ℕ

-- "239.1.1.1"
abbrev pub default_group : Text
default_group = 50 ∷ 51 ∷ 57 ∷ 46 ∷ 49 ∷ 46 ∷ 49 ∷ 46 ∷ 49 ∷ []

-- "127.0.0.1"
abbrev pub default_host : Text
default_host = 49 ∷ 50 ∷ 55 ∷ 46 ∷ 48 ∷ 46 ∷ 48 ∷ 46 ∷ 49 ∷ []

abbrev pub default_server : ServerOptions
default_server = record {
  order_entry_port = 9001;
  market_data_group = default_group;
  market_data_port = 9002;
  simulation_options = record {
    shard_count = 4;
    shard_inbound_capacity = 4096;
    shard_outbound_capacity = 1024;
  };
  inbound_queue_capacity = 4096;
}

-- The variables of `main` of the bot.
pub record BotArguments : Type 0 where
  pub server_host : Text
  pub order_entry_port : ℕ
  pub market_data_group : Text
  pub market_data_port : ℕ
  pub symbols : List ℕ
  pub source : ℕ

-- The variables of `main` of the view.
pub record TuiArguments : Type 0 where
  pub market_data_group : Text
  pub market_data_port : ℕ
  pub order_entry_host : Text
  pub order_entry_port : ℕ

-- An argument where there is one, and else the default.
unfoldable pub text_arg : Text → Option Text → Text
text_arg default none = default
text_arg default (some t) = t

-- A number, cast to 16 bits.
unfoldable pub word_arg : (Text → Option ℕ) → ℕ → Option Text → Option ℕ
word_arg read default none = some default
word_arg read default (some t) = do n ← read t; some (n % 2 ^ 16)

unfoldable pub symbols_arg : (Text → Option ℕ) → List ℕ → Option Text → Option (List ℕ)
symbols_arg stoul default none = some default
symbols_arg stoul default (some t) = parse_symbols stoul t

module _ (stoi stoul : Text → Option ℕ) where
  -- `main` of the server, up to the `try`.
  unfoldable pub parse_server : List Text → Option ServerOptions
  unfolding word_arg text_arg
  parse_server args = do
    port ← word_arg stoi default_server.order_entry_port (get_elem? args 0)
    data_port ← word_arg stoi default_server.market_data_port (get_elem? args 2)
    some (record default_server {
      order_entry_port = port;
      market_data_group = text_arg default_server.market_data_group (get_elem? args 1);
      market_data_port = data_port;
    })

  -- `main` of the bot, up to the client.
  unfoldable pub parse_bot : List Text → Option BotArguments
  unfolding word_arg text_arg symbols_arg
  parse_bot args = do
    port ← word_arg stoi 9001 (get_elem? args 1)
    data_port ← word_arg stoi 9002 (get_elem? args 3)
    symbols ← symbols_arg stoul (1 ∷ []) (get_elem? args 4)
    source ← word_arg stoul 1 (get_elem? args 5)
    some (record {
      server_host = text_arg default_host (get_elem? args 0);
      order_entry_port = port;
      market_data_group = text_arg default_group (get_elem? args 2);
      market_data_port = data_port;
      symbols = symbols;
      source = source;
    })

  -- `main` of the view, up to the view model.
  unfoldable pub parse_tui : List Text → Option TuiArguments
  unfolding word_arg text_arg
  parse_tui args = do
    data_port ← word_arg stoi 9002 (get_elem? args 1)
    port ← word_arg stoi 9001 (get_elem? args 3)
    some (record {
      market_data_group = text_arg default_group (get_elem? args 0);
      market_data_port = data_port;
      order_entry_host = text_arg default_host (get_elem? args 2);
      order_entry_port = port;
    })
