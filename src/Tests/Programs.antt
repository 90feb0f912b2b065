-- ===== src/Tests/Programs.antt =====
-- Runs of the programs of Server/apps, Bot/apps and Tui/apps.
use osborne_x.Base.{ℕ, ◌≡◌, [], ◌∷◌, Option, none, some, arith, ◌==◌, if◌then◌else◌}
use osborne_x.Apps.{Text, parse_server, parse_bot, parse_tui}
use osborne_x.Apps.Endpoints.{found, of_server, of_bot, of_tui, parse-agrees}

-- A number of one digit, as `std::stoi` reads it.
abbrev digit : Text → Option ℕ
digit [] = none
digit (c ∷ cs) = if c == 53 then some 5 else if c == 54 then some 6 else none

abbrev five : Text
five = 53 ∷ []

abbrev six : Text
six = 54 ∷ []

abbrev group : Text
group = 49 ∷ 46 ∷ 50 ∷ []

parse-agrees_example :
    (found of_bot (parse_bot digit digit (group ∷ five ∷ []))
      ≡ found of_server (parse_server digit digit (five ∷ [])))
    × (found of_tui (parse_tui digit digit (group ∷ six ∷ group ∷ five ∷ []))
        ≡ found of_server (parse_server digit digit (five ∷ group ∷ six ∷ [])))
parse-agrees_example = parse-agrees digit digit group five group six (five ∷ []) (omega arith)
