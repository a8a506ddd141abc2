-- ===== src/Chat/Message/Values.antt =====
-- The values in the JSON text of src/chat/message.cpp, read back.
use lantalk.Common.{
  ℕ, ◌≡◌, refl, ◌∙◌, ◌≢◌, suc, ◌||◌, true, ◌^◌, [], ◌∷◌, ◌++◌, some, arith, Bytes, codes, ◌==◌,
  append-nil, All,
}
use lantalk.Common.Int.{ℤ, pos, negsuc, InRange}
use lantalk.Common.Decimal.{IsDigit, is_digit, to_string, print_ℕ-IsDigit, parse_int-to_string}
use lantalk.Common.Search.{quote, backslash, Lacks}
use lantalk.Chat.Message.{escape_json, unescape_json, until_quote, value_of, number_text, int_of}
use lantalk.Chat.Message.Escape.{unescape_json-escape_json}
use lantalk.Chat.Message.Scan.{
  last_byte, until_quote-escape_json, until_quote-escape_json-backslash,
}

-- The text does not end in a backslash.
abbrev pub EndsClean : Bytes → Type 0
EndsClean s = last_byte quote s ≢ backslash

unescape_nil : (s : Bytes) → s ++ unescape_json [] ≡ s
unfolding unescape_json
unescape_nil s = append-nil s

pub value_of-escape_json :
    (s rest : Bytes) → EndsClean s → value_of (some (escape_json s ++ quote ∷ rest)) ≡ s
value_of-escape_json s rest h =
    rw (until_quote-escape_json quote s rest h)
      (rw (append-nil (escape_json s)) at (unescape_json-escape_json s []) ∙ unescape_nil s)

pub value_of-backslash :
    (s : Bytes)
    → last_byte quote s ≡ backslash
    → value_of (some (escape_json s ++ (codes "\"}"))) ≡ s ++ codes "\"}"
unfolding until_quote unescape_json
value_of-backslash s h =
    rw (until_quote-escape_json-backslash quote s (codes "}") h)
      (unescape_json-escape_json s (codes "\"}"))

abbrev pub IsNumberByte : ℕ → Type 0
IsNumberByte c = (is_digit c || c == b'-') ≡ true

digits-IsNumberByte : (s : Bytes) → All IsDigit s → All IsNumberByte s
digits-IsNumberByte [] h = tt
digits-IsNumberByte (c ∷ s) h = (ground arith, digits-IsNumberByte s h.1)

pub to_string-IsNumberByte : (z : ℤ) → All IsNumberByte (to_string z)
unfolding to_string
to_string-IsNumberByte (pos n) = digits-IsNumberByte _ (print_ℕ-IsDigit n)
to_string-IsNumberByte (negsuc n) = (refl, digits-IsNumberByte _ (print_ℕ-IsDigit (suc n)))

pub IsNumberByte-Lacks : (s : Bytes) → All IsNumberByte s → Lacks quote s
IsNumberByte-Lacks [] h = tt
IsNumberByte-Lacks (c ∷ s) h = (ground arith, IsNumberByte-Lacks s h.1)

number_text-append : (s rest : Bytes) → All IsNumberByte s → number_text (s ++ b',' ∷ rest) ≡ s
unfolding number_text
number_text-append [] rest h = refl
number_text-append (c ∷ s) rest h = ground (arith, number_text-append s rest h.1)

pub int_of-to_string :
    (z : ℤ) (rest : Bytes) → InRange (2 ^ 63) z → int_of (some (to_string z ++ b',' ∷ rest)) ≡ z
int_of-to_string z rest h =
    rw (number_text-append (to_string z) rest (to_string-IsNumberByte z))
      (rw (parse_int-to_string (2 ^ 63) z h))
