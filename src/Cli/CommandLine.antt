-- ===== src/Cli/CommandLine.antt =====
-- CommandParser::parse (src/cli/command_parser.cpp) on a command line written word by word.
use lantalk.Common.{
  ℕ, ◌^◌, ◌≤◌, ◌≡◌, refl, ◌∙◌, arith, true, false, List, [], ◌∷◌, ◌++◌, some, Bytes, codes,
  eq_bytes_refl, ◌||◌,
}
use lantalk.Common.ByteString.{eq_bytes}
use lantalk.Common.Dict.{lookup, insert, lookup-insert_self}
use lantalk.Common.Decimal.{
  print_ℕ, to_string, stoi, starts_with_digit, print_ℕ-starts_with_digit, parse_int-to_string,
}
use lantalk.Common.Int.{pos}
use lantalk.Cli.{
  ParsedArgs, no_args, get_flag_as_port, is_flag, set_flag, add_positional, parse_words, parse,
}

-- A command line as its writer means it.
pub data Item : Type 0 where
  word : Bytes → Item
  option : Bytes → Bytes → Item
  switch : Bytes → Item

abbrev pub flag_word : Bytes → Bytes
flag_word name = codes "--" ++ name

abbrev pub words : List Item → List Bytes
words [] = []
words (Item.word w ∷ is) = w ∷ words is
words (Item.option name value ∷ is) = flag_word name ∷ value ∷ words is
words (Item.switch name ∷ is) = flag_word name ∷ words is

-- The effect of one item, and of all in turn.
abbrev pub apply : Item → ParsedArgs → ParsedArgs
apply (Item.word w) args = add_positional w args
apply (Item.option name value) args = set_flag name value args
apply (Item.switch name) args = set_flag name (codes "true") args

abbrev pub apply_all : List Item → ParsedArgs → ParsedArgs
apply_all [] args = args
apply_all (i ∷ is) args = apply_all is (apply i args)

-- No positional word follows a switch, and no word or value starts with two dashes.
abbrev pub IsFlagNext : List Item → Type 0
IsFlagNext [] = Unit
IsFlagNext (Item.word w ∷ is) = ⊥
IsFlagNext (Item.option name value ∷ is) = Unit
IsFlagNext (Item.switch name ∷ is) = Unit

abbrev pub IsClear : List Item → Type 0
IsClear [] = Unit
IsClear (Item.word w ∷ is) = (is_flag w ≡ false) × IsClear is
IsClear (Item.option name value ∷ is) = (is_flag value ≡ false) × IsClear is
IsClear (Item.switch name ∷ is) = IsFlagNext is × IsClear is

is_flag-flag_word : (name : Bytes) → is_flag (flag_word name) ≡ true
is_flag-flag_word name = eq_bytes_refl (codes "--")

parse_words-word :
    (w : Bytes) (ws : List Bytes) (args : ParsedArgs)
    → is_flag w ≡ false
    → parse_words (w ∷ ws) args ≡ parse_words ws (add_positional w args)
unfolding parse_words
parse_words-word w [] args h = rw h refl
parse_words-word w (n ∷ ws) args h = rw h refl

parse_words-words :
    (is : List Item) (args : ParsedArgs)
    → IsClear is
    → parse_words (words is) args ≡ apply_all is args
unfolding parse_words eq_bytes
parse_words-words [] args h = refl
parse_words-words (Item.word w ∷ is) args h =
    parse_words-word w (words is) args h.0 ∙ parse_words-words is (add_positional w args) h.1
parse_words-words (Item.option name value ∷ is) args h =
    rw h.0 (parse_words-words is (set_flag name value args) h.1)
parse_words-words (Item.switch name ∷ []) args h = refl
parse_words-words (Item.switch name ∷ Item.word w ∷ is) args h = absurd h.0
parse_words-words (Item.switch name ∷ Item.option m value ∷ is) args h =
    parse_words-words (Item.option m value ∷ is) (set_flag name (codes "true") args) h.1
parse_words-words (Item.switch name ∷ Item.switch m ∷ is) args h =
    parse_words-words (Item.switch m ∷ is) (set_flag name (codes "true") args) h.1

-- The first word is a command, and not one that parse answers itself.
abbrev pub IsCommand : Bytes → Type 0
IsCommand c =
    (eq_bytes c (codes "--help") || eq_bytes c (codes "-h") ≡ false)
    × (eq_bytes c (codes "--version") || eq_bytes c (codes "-v") ≡ false)

-- A command line made of a command and items, in any order and number, is parsed to these: the
-- words in their order, and each flag with the value it was last given, "true" for a switch. No
-- word or value may start with two dashes, and no positional word may follow a switch.
pub parse-words :
    (program command : Bytes) (is : List Item)
    → IsCommand command
    → IsClear is
    → parse (program ∷ command ∷ words is) ≡ apply_all is (record no_args { command = command })
unfolding parse
parse-words program command is c h = rw (c.0, c.1) (parse_words-words is _ h)

IsClear-append :
    (is : List Item) (name value : Bytes)
    → IsClear is
    → is_flag value ≡ false
    → IsClear (is ++ (Item.option name value ∷ []))
IsClear-append [] name value h v = (v, tt)
IsClear-append (Item.word w ∷ is) name value h v = (h.0, IsClear-append is name value h.1 v)
IsClear-append (Item.option m w ∷ is) name value h v = (h.0, IsClear-append is name value h.1 v)
IsClear-append (Item.switch m ∷ []) name value h v = (tt, (v, tt))
IsClear-append (Item.switch m ∷ Item.word w ∷ is) name value h v = absurd h.0
IsClear-append (Item.switch m ∷ Item.option k w ∷ is) name value h v =
    (tt, IsClear-append (Item.option k w ∷ is) name value h.1 v)
IsClear-append (Item.switch m ∷ Item.switch k ∷ is) name value h v =
    (tt, IsClear-append (Item.switch k ∷ is) name value h.1 v)

apply_all-append :
    (is : List Item) (i : Item) (args : ParsedArgs)
    → apply_all (is ++ (i ∷ [])) args ≡ apply i (apply_all is args)
apply_all-append [] i args = refl
apply_all-append (j ∷ is) i args = apply_all-append is i (apply j args)

digit-is_flag : (s : Bytes) → starts_with_digit s ≡ true → is_flag s ≡ false
unfolding eq_bytes
digit-is_flag [] h = refl
digit-is_flag (c ∷ s) h = ground arith

pub print_ℕ-is_flag : (n : ℕ) → is_flag (print_ℕ n) ≡ false
print_ℕ-is_flag n = digit-is_flag (print_ℕ n) (print_ℕ-starts_with_digit n)

-- `--port N` behind any other items gives the port back, whatever value "port" had before: for
-- every N from 1 to 65535.
pub get_flag_as_port-parse :
    (program command : Bytes) (is : List Item) (n : ℕ)
    → IsCommand command
    → IsClear is
    → 1 ≤ n
    → n ≤ 65535
    → get_flag_as_port
        (parse (program ∷ command ∷ words (is ++ (Item.option (codes "port") (print_ℕ n) ∷ []))))
        (codes "port")
      ≡ some n
unfolding get_flag_as_port
get_flag_as_port-parse program command is n c h low high =
    let start : ParsedArgs = record no_args { command = command } in
    let last : Item = Item.option (codes "port") (print_ℕ n) in
    let parsed : parse (program ∷ command ∷ words (is ++ (last ∷ [])))
        ≡ apply last (apply_all is start) =
      parse-words program command (is ++ (last ∷ [])) c
        (IsClear-append is (codes "port") (print_ℕ n) h (print_ℕ-is_flag n))
      ∙ apply_all-append is last start in
    let found : lookup (codes "port") (insert (codes "port") (print_ℕ n) (apply_all is start).flags)
        ≡ some (print_ℕ n) =
      lookup-insert_self (codes "port") (print_ℕ n) (apply_all is start).flags in
    let number : stoi (print_ℕ n) ≡ some (pos n) =
      unfold to_string in parse_int-to_string (2 ^ 31) (pos n) (omega arith) in
    rw (parsed, found, number) (ground arith)
