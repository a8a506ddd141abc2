-- ===== src/Chat/Session/Json.antt =====
-- The JSON helpers of src/chat/chat_session.cpp, which are not those of message.cpp.
pub mod Strings
use lantalk.Common.{ℕ, [], ◌∷◌, ◌++◌, Option, none, some, Bytes, codes, ltb, ◌==◌, if◌then◌else◌}
use lantalk.Common.Hex.{hex_byte}
use lantalk.Common.Search.{find_after, key_pattern, quote, backslash}

-- One round of jsonEscape: `\u%04x` for the control characters that have no letter.
unfoldable pub escape_char : ℕ → Bytes
escape_char c =
    if c == quote
    then backslash ∷ quote ∷ []
    else if c == backslash
    then backslash ∷ backslash ∷ []
    else if c == b'\n'
    then backslash ∷ b'n' ∷ []
    else if c == b'\r'
    then backslash ∷ b'r' ∷ []
    else if c == b'\t'
    then backslash ∷ b't' ∷ []
    else if ltb c 0x20
    then backslash ∷ b'u' ∷ b'0' ∷ b'0' ∷ hex_byte c
    else c ∷ []

unfoldable pub json_escape : Bytes → Bytes
json_escape [] = []
json_escape (c ∷ s) = escape_char c ++ json_escape s

unfoldable pub json_str : Bytes → Bytes → Bytes
unfolding json_escape
json_str key value =
    quote ∷ (json_escape key ++ (codes "\":\"" ++ (json_escape value ++ codes "\"")))

-- The switch of extractStr on the character behind a backslash.
unfoldable pub reveal : ℕ → ℕ
reveal c = if c == b'n' then b'\n' else if c == b'r' then b'\r' else if c == b't' then b'\t' else c

-- The loop of extractStr. A backslash that ends the text is copied.
unfoldable pub scan : Bytes → Bytes
scan [] = []
scan (c ∷ []) = if c == quote then [] else c ∷ []
scan (c ∷ d ∷ s) =
    let escaped = reveal d ∷ scan s in
    let copied = c ∷ scan (d ∷ s) in
    if c == backslash then escaped else if c == quote then [] else copied

abbrev pub scanned : Option Bytes → Bytes
scanned none = []
scanned (some rest) = scan rest

unfoldable pub extract_str : Bytes → Bytes → Bytes
unfolding scan
extract_str json key = scanned (find_after (key_pattern key (quote ∷ [])) json)
