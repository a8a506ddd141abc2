-- ===== src/Chat/Message/Escape.antt =====
-- escapeJson and unescapeJson of src/chat/message.cpp.
use lantalk.Common.{ℕ, ◌≡◌, refl, ap, ◌∙◌, ◌≢◌, [], ◌∷◌, ◌++◌, arith, Bytes, append_assoc}
use lantalk.Common.Search.{IsQuoted, nil, plain, pair, quote, backslash}
use lantalk.Chat.Message.{escape_char, escape_json, unescape_char, unescape_json}

escape_char-IsQuoted : (c : ℕ) {s : Bytes} → IsQuoted s → IsQuoted (escape_char c ++ s)
unfolding escape_char
escape_char-IsQuoted c q = ground (
  arith,
  λ (h : c ≢ quote) (g : c ≢ backslash). plain h g q,
  pair {b = backslash} {y = quote} refl q,
  pair {b = backslash} {y = backslash} refl q,
  pair {b = backslash} {y = b'n'} refl q,
  pair {b = backslash} {y = b'r'} refl q,
  pair {b = backslash} {y = b't'} refl q,
)

-- Escaped text can stand between quotes.
pub escape_json-IsQuoted : (s : Bytes) → IsQuoted (escape_json s)
unfolding escape_json
escape_json-IsQuoted [] = nil
escape_json-IsQuoted (c ∷ s) = escape_char-IsQuoted c (escape_json-IsQuoted s)

unescape_json-escape_char :
    (c : ℕ) (s : Bytes) → unescape_json (escape_char c ++ s) ≡ c ∷ unescape_json s
unfolding unescape_json escape_char unescape_char
unescape_json-escape_char c [] = ground arith
unescape_json-escape_char c (d ∷ s) = ground arith

-- unescapeJson undoes escapeJson, also in front of more text.
pub unescape_json-escape_json :
    (s rest : Bytes) → unescape_json (escape_json s ++ rest) ≡ s ++ unescape_json rest
unfolding escape_json
unescape_json-escape_json [] rest = refl
unescape_json-escape_json (c ∷ s) rest = rw (append_assoc (escape_char c) (escape_json s) rest) (
    unescape_json-escape_char c (escape_json s ++ rest)
    ∙ ap (◌∷◌ c) (unescape_json-escape_json s rest))
