-- ===== src/App/Connecting.antt =====
-- `lantalk connect` from the words of argv: CommandParser::parse of src/cli/command_parser.cpp, and main
-- and the start of runConnect of src/main.cpp.
use lantalk.Common.{ℕ, List, [], ◌∷◌, Bytes, codes}
use lantalk.Common.Decimal.{print_ℕ}
use lantalk.Cli.{ParsedArgs, no_args}
use lantalk.Cli.CommandLine.{Item}

abbrev connect_words : Bytes → Bytes → ℕ → List Bytes
connect_words program host p = program ∷ codes "connect" ∷ host ∷ codes "--port" ∷ print_ℕ p ∷ []

abbrev start : ParsedArgs
start = record no_args { command = codes "connect" }

abbrev items : Bytes → ℕ → List Item
items host p = Item.word host ∷ Item.option (codes "port") (print_ℕ p) ∷ []
