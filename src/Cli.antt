-- ===== src/Cli.antt =====
-- src/cli/command_parser.cpp: the command line and its typed accessors. The words of argv are byte
-- strings; std::map is the ordered dictionary.
pub mod CommandLine
use lantalk.Common.{
  ℕ, Bool, true, false, not, ◌&&◌, ◌||◌, List, [], ◌∷◌, ◌++◌, Option, none, some, Bytes, codes,
  eq_bytes, if◌then◌else◌, take, drop, ltb, leb,
}
use lantalk.Common.Dict.{Dict, lookup, insert}
use lantalk.Common.Int.{ℤ, pos, negsuc}
use lantalk.Common.Decimal.{stoi}

pub record ParsedArgs : Type 0 where
  pub command : Bytes
  pub positional : List Bytes
  pub flags : Dict Bytes

abbrev pub no_args : ParsedArgs
no_args = record { command = []; positional = []; flags = [] }

abbrev pub is_present {ℓ} : {A : Type ℓ} → Option A → Bool
is_present none = false
is_present (some a) = true

unfoldable pub has_flag : ParsedArgs → Bytes → Bool
has_flag args name = is_present (lookup name args.flags)

unfoldable pub get_flag : ParsedArgs → Bytes → Option Bytes
get_flag args name = lookup name args.flags

-- `port > 0 && port <= 65535`, then the cast, which changes nothing.
abbrev pub port_of : Option ℤ → Option ℕ
port_of none = none
port_of (some (negsuc n)) = none
port_of (some (pos n)) = if ltb 0 n && leb n 65535 then some n else none

abbrev pub int_from : Option Bytes → Option ℤ
int_from none = none
int_from (some s) = stoi s

unfoldable pub get_flag_as_port : ParsedArgs → Bytes → Option ℕ
unfolding get_flag
get_flag_as_port args name = port_of (int_from (get_flag args name))

unfoldable pub get_flag_as_int : ParsedArgs → Bytes → Option ℤ
unfolding get_flag
get_flag_as_int args name = int_from (get_flag args name)

-- `s.substr(0, 2) == "--"`.
abbrev pub is_flag : Bytes → Bool
is_flag s = eq_bytes (take 2 s) (codes "--")

abbrev pub set_flag : Bytes → Bytes → ParsedArgs → ParsedArgs
set_flag name value args = record args { flags = insert name value args.flags }

abbrev pub add_positional : Bytes → ParsedArgs → ParsedArgs
add_positional word args = record args { positional = args.positional ++ (word ∷ []) }

-- The loop of parse, on the words from index i on.
unfoldable pub parse_words : List Bytes → ParsedArgs → ParsedArgs
parse_words [] args = args
parse_words (word ∷ []) args =
    if is_flag word then set_flag (drop 2 word) (codes "true") args else add_positional word args
parse_words (word ∷ next ∷ words) args =
    let skipping = parse_words words (set_flag (drop 2 word) next args) in
    let switched = parse_words (next ∷ words) (set_flag (drop 2 word) (codes "true") args) in
    let plain = parse_words (next ∷ words) (add_positional word args) in
    if is_flag word then (if not (is_flag next) then skipping else switched) else plain

unfoldable pub parse : List Bytes → ParsedArgs
unfolding parse_words
parse [] = no_args
parse (program ∷ []) = no_args
parse (program ∷ first ∷ words) =
    if eq_bytes first (codes "--help") || eq_bytes first (codes "-h")
    then record no_args { command = codes "help" }
    else (if eq_bytes first (codes "--version") || eq_bytes first (codes "-v")
        then record no_args { command = codes "version" }
        else parse_words words (record no_args { command = first }))
