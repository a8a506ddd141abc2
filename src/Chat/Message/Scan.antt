-- ===== src/Chat/Message/Scan.antt =====
-- src/chat/message.cpp: extractJsonString's loop on escaped text, by whether the text ends in a backslash.
use lantalk.Common.{ℕ, ◌≡◌, sym, ap, ◌∙◌, ◌≢◌, [], ◌∷◌, ◌++◌, arith, Bytes, append_assoc}
use lantalk.Common.Search.{quote, backslash}
use lantalk.Chat.Message.{escape_char, escape_json, until_quote}

-- The last byte of `before ∷ s`.
abbrev pub last_byte : ℕ → Bytes → ℕ
last_byte before [] = before
last_byte before (c ∷ s) = last_byte c s

-- What the loop remembers behind an escaped byte.
abbrev after : ℕ → ℕ
after c = last_byte c (escape_char c)

until_quote-escape_char :
    (before c : ℕ) (t : Bytes)
    → until_quote before (escape_char c ++ t) ≡ escape_char c ++ until_quote (after c) t
unfolding until_quote escape_char
until_quote-escape_char before c t = ground arith

after-ne : (c : ℕ) (s : Bytes) → last_byte c s ≢ backslash → last_byte (after c) s ≢ backslash
unfolding escape_char
after-ne c [] h = ground arith
after-ne c (x ∷ s) h = h

after-eq : (c : ℕ) (s : Bytes) → last_byte c s ≡ backslash → last_byte (after c) s ≡ backslash
unfolding escape_char
after-eq c [] h = ground arith
after-eq c (x ∷ s) h = h

-- A text that does not end in a backslash is read up to its closing quote.
pub until_quote-escape_json :
    (before : ℕ) (s rest : Bytes)
    → last_byte before s ≢ backslash
    → until_quote before (escape_json s ++ quote ∷ rest) ≡ escape_json s
unfolding escape_json
until_quote-escape_json before [] rest h = unfold until_quote in ground arith
until_quote-escape_json before (c ∷ s) rest h =
    rw (append_assoc (escape_char c) (escape_json s) (quote ∷ rest)) (
      until_quote-escape_char before c _
      ∙ ap (◌++◌ (escape_char c)) (until_quote-escape_json (after c) s rest (after-ne c s h)))

-- A text that ends in a backslash is read past its closing quote.
pub until_quote-escape_json-backslash :
    (before : ℕ) (s rest : Bytes)
    → last_byte before s ≡ backslash
    → until_quote before (escape_json s ++ quote ∷ rest)
      ≡ escape_json s ++ quote ∷ until_quote quote rest
unfolding escape_json
until_quote-escape_json-backslash before [] rest h = unfold until_quote in ground arith
until_quote-escape_json-backslash before (c ∷ s) rest h =
    rw (append_assoc (escape_char c) (escape_json s) (quote ∷ rest)) (
      until_quote-escape_char before c _
      ∙ ap (◌++◌ (escape_char c))
          (until_quote-escape_json-backslash (after c) s rest (after-eq c s h))
      ∙ sym (append_assoc (escape_char c) (escape_json s) _))
