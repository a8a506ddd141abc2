-- ===== src/Chat/Session/Json/Strings.antt =====
-- src/chat/chat_session.cpp: extractStr on a string that jsonEscape wrote.
use lantalk.Common.{
  ℕ, ◌≤◌, ◌/◌, ◌%◌, ◌≡◌, refl, ap, ◌∙◌, ◌≢◌, [], ◌∷◌, ◌++◌, arith, Bytes, ltb, ◌==◌, if◌then◌else◌,
  append_assoc, All, Bool, false, ◌&&◌, not,
}
use lantalk.Common.Hex.{hex_byte, hex_digit}
use lantalk.Common.Search.{IsQuoted, nil, plain, pair, quote, backslash}
use lantalk.Chat.Session.Json.{escape_char, json_escape, reveal, scan}

-- A control character that jsonEscape writes as `\u00..`.
abbrev pub is_control : ℕ → Bool
is_control c = ltb c 0x20 && not (c == b'\n') && not (c == b'\r') && not (c == b'\t')

-- What the reader makes of one character.
abbrev pub seen_char : ℕ → Bytes
seen_char c = if is_control c then b'u' ∷ b'0' ∷ b'0' ∷ hex_byte c else c ∷ []

abbrev pub seen : Bytes → Bytes
seen [] = []
seen (c ∷ s) = seen_char c ++ seen s

hex_digit-plain : (n : ℕ) → (hex_digit n ≢ quote) × (hex_digit n ≢ backslash)
unfolding hex_digit
hex_digit-plain n = ground arith

escape_char-IsQuoted : (c : ℕ) {s : Bytes} → IsQuoted s → IsQuoted (escape_char c ++ s)
unfolding escape_char hex_byte
escape_char-IsQuoted c q =
    let (a1, a2) = hex_digit-plain (c / 16 % 16) in
    let (b1, b2) = hex_digit-plain (c % 16) in
    let zeros = λ (t : Bytes) (r : IsQuoted t). plain {c = b'0'} (omega arith) (omega arith) r in
    ground (
      arith,
      λ (h : c ≢ quote) (g : c ≢ backslash). plain h g q,
      pair {b = backslash} {y = quote} refl q,
      pair {b = backslash} {y = backslash} refl q,
      pair {b = backslash} {y = b'n'} refl q,
      pair {b = backslash} {y = b'r'} refl q,
      pair {b = backslash} {y = b't'} refl q,
      pair {b = backslash} {y = b'u'} refl (zeros _ (zeros _ (plain a1 a2 (plain b1 b2 q)))),
    )

pub json_escape-IsQuoted : (s : Bytes) → IsQuoted (json_escape s)
unfolding json_escape
json_escape-IsQuoted [] = nil
json_escape-IsQuoted (c ∷ s) = escape_char-IsQuoted c (json_escape-IsQuoted s)

-- One character that is not special.
scan-plain : (c : ℕ) (t : Bytes) → c ≢ quote → c ≢ backslash → scan (c ∷ t) ≡ c ∷ scan t
unfolding scan
scan-plain c [] h g = ground arith
scan-plain c (d ∷ t) h g = ground arith

scan-escaped : (d : ℕ) (t : Bytes) → scan (backslash ∷ d ∷ t) ≡ reveal d ∷ scan t
unfolding scan
scan-escaped d t = refl

scan-control :
    (c : ℕ) (t : Bytes)
    → scan (backslash ∷ b'u' ∷ b'0' ∷ b'0' ∷ (hex_byte c ++ t))
      ≡ b'u' ∷ b'0' ∷ b'0' ∷ (hex_byte c ++ scan t)
unfolding hex_byte reveal
scan-control c t =
    let x = hex_digit (c / 16 % 16) in
    let y = hex_digit (c % 16) in
    let (a1, a2) = hex_digit-plain (c / 16 % 16) in
    let (b1, b2) = hex_digit-plain (c % 16) in
    let digits : scan (x ∷ y ∷ t) ≡ x ∷ y ∷ scan t =
      scan-plain x (y ∷ t) a1 a2 ∙ ap (◌∷◌ x) (scan-plain y t b1 b2) in
    let zero_digit = λ (r : Bytes). scan-plain b'0' r (omega arith) (omega arith) in
    scan-escaped b'u' _
    ∙ ap (◌∷◌ b'u') (
        zero_digit (b'0' ∷ x ∷ y ∷ t)
        ∙ ap (◌∷◌ b'0') (zero_digit (x ∷ y ∷ t) ∙ ap (◌∷◌ b'0') digits))

scan-escape_char : (c : ℕ) (t : Bytes) → scan (escape_char c ++ t) ≡ seen_char c ++ scan t
unfolding escape_char reveal
scan-escape_char c t = ground (
  arith,
  scan-escaped quote t,
  scan-escaped backslash t,
  scan-escaped b'n' t,
  scan-escaped b'r' t,
  scan-escaped b't' t,
  scan-control c t,
  scan-plain c t,
)

scan-close : (t : Bytes) → scan (quote ∷ t) ≡ []
unfolding scan
scan-close [] = refl
scan-close (d ∷ t) = refl

-- A written string is read up to its closing quote, as what the reader makes of its characters.
pub scan-json_escape : (s rest : Bytes) → scan (json_escape s ++ quote ∷ rest) ≡ seen s
unfolding json_escape
scan-json_escape [] rest = scan-close rest
scan-json_escape (c ∷ s) rest =
    rw (append_assoc (escape_char c) (json_escape s) (quote ∷ rest))
      (scan-escape_char c _ ∙ ap (◌++◌ (seen_char c)) (scan-json_escape s rest))

-- A text with no control character other than newline, return and tab.
abbrev pub IsPlainText : Bytes → Type 0
IsPlainText = All (λ c. is_control c ≡ false)

pub seen-IsPlainText : (s : Bytes) → IsPlainText s → seen s ≡ s
seen-IsPlainText [] h = refl
seen-IsPlainText (c ∷ s) h = rw (h.0, seen-IsPlainText s h.1)

-- A key that needs no escapes is written as it is.
abbrev pub IsClear : ℕ → Type 0
IsClear c = (c ≢ quote) × (c ≢ backslash) × (0x20 ≤ c)

pub json_escape-clear : (s : Bytes) → All IsClear s → json_escape s ≡ s
unfolding json_escape escape_char
json_escape-clear [] h = refl
json_escape-clear (c ∷ s) h = ground (arith, json_escape-clear s h.1)
