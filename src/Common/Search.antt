-- ===== src/Common/Search.antt =====
-- std::string::find of a text, and the quoted keys and values of flat JSON objects.
pub mod Entries
use lantalk.Common.Tests.{◌==◌, if◌then◌else◌, Bool-cases}
use lantalk.Common.Lists.{All}
use lantalk.Common.ByteString.{Bytes}
use Prim.Native.Nat.{ℕ}
use mathlib.Core.Path.{◌≡◌, refl, ◌∙◌}
use mathlib.Core.Logic.{◌≢◌, ◌⊎◌, inl, inr}
use mathlib.Core.Option.{Option, none, some}
use mathlib.Core.List.{[], ◌∷◌, ◌++◌, append_assoc}
use native.Mathlib.Omega.{arith}

-- What is left behind a prefix.
unfoldable pub strip_prefix : Bytes → Bytes → Option Bytes
strip_prefix [] s = some s
strip_prefix (p ∷ ps) [] = none
strip_prefix (p ∷ ps) (c ∷ s) = let rest = strip_prefix ps s in if p == c then rest else none

-- `pos = s.find(p)`, and the text from `pos + p.size()` on; `none` for npos.
unfoldable pub find_after : Bytes → Bytes → Option Bytes
unfolding strip_prefix
find_after p [] = strip_prefix p []
find_after p (c ∷ s) = elim (strip_prefix p (c ∷ s)) [
  | some rest ↦ some rest
  | none ↦ find_after p s
]

abbrev pub quote : ℕ
quote = b'"'

abbrev pub backslash : ℕ
backslash = b'\\'

-- A byte of a key: neither part of the quoting nor one that follows a value.
abbrev pub IsKeyByte : ℕ → Type 0
IsKeyByte c = (c ≢ quote) × (c ≢ backslash) × (c ≢ b':') × (c ≢ b',') × (c ≢ b'}')

-- A key's first byte is there.
abbrev pub IsKey : Bytes → Type 0
IsKey [] = ⊥
IsKey (c ∷ s) = All IsKeyByte (c ∷ s)

-- The search text for a key, `"key":` and more.
abbrev pub key_pattern : Bytes → Bytes → Bytes
key_pattern key more = quote ∷ (key ++ quote ∷ b':' ∷ more)

-- Text in which each quote stands behind a backslash.
pub data IsQuoted : Bytes → Type 0 where
  nil : IsQuoted []
  plain : {c : ℕ} {s : Bytes} → c ≢ quote → c ≢ backslash → IsQuoted s → IsQuoted (c ∷ s)
  pair : {b y : ℕ} {s : Bytes} → b ≡ backslash → IsQuoted s → IsQuoted (b ∷ y ∷ s)

abbrev pub Lacks : ℕ → Bytes → Type 0
Lacks b = All (λ c. c ≢ b)

-- What may follow a closing quote in an object.
abbrev pub IsCloser : ℕ → Type 0
IsCloser c = (c ≡ b',') ⊎ (c ≡ b'}')

pub find_after-miss :
    (p : Bytes) (c : ℕ) (s : Bytes)
    → strip_prefix p (c ∷ s) ≡ none
    → find_after p (c ∷ s) ≡ find_after p s
unfolding find_after
find_after-miss p c s h = rw (h, find_after)

strip_prefix-ne : (p c : ℕ) (ps s : Bytes) → p ≢ c → strip_prefix (p ∷ ps) (c ∷ s) ≡ none
unfolding strip_prefix
strip_prefix-ne p c ps s h = ground arith

pub strip_prefix-eq : (c : ℕ) (ps s : Bytes) → strip_prefix (c ∷ ps) (c ∷ s) ≡ strip_prefix ps s
unfolding strip_prefix
strip_prefix-eq c ps s = ground arith

pub strip_prefix-append : (p s : Bytes) → strip_prefix p (p ++ s) ≡ some s
unfolding strip_prefix
strip_prefix-append [] s = refl
strip_prefix-append (c ∷ p) s = strip_prefix-eq c p (p ++ s) ∙ strip_prefix-append p s

pub find_after-here : (c : ℕ) (p s : Bytes) → find_after (c ∷ p) ((c ∷ p) ++ s) ≡ some s
unfolding find_after
find_after-here c p s = rw (strip_prefix-append (c ∷ p) s, find_after)

-- Text with no quote is passed over.
pub find_after-Lacks :
    (p t s : Bytes) → Lacks quote t → find_after (quote ∷ p) (t ++ s) ≡ find_after (quote ∷ p) s
find_after-Lacks p [] s h = refl
find_after-Lacks p (c ∷ t) s h =
    find_after-miss (quote ∷ p) c (t ++ s) (strip_prefix-ne quote c p (t ++ s) (omega arith))
    ∙ find_after-Lacks p t s h.1

-- A key is not found at a quote inside a value: the next quote stands behind a backslash, or closes
-- the value and is not followed by a colon.
pub strip_prefix-value :
    (key more : Bytes) {v : Bytes} (c : ℕ) (s : Bytes)
    → All IsKeyByte key
    → IsQuoted v
    → IsCloser c
    → strip_prefix (key ++ quote ∷ b':' ∷ more) (v ++ quote ∷ c ∷ s) ≡ none
unfolding strip_prefix
strip_prefix-value [] more c s k nil e = ground arith
strip_prefix-value [] more c s k (plain h g q) e = ground arith
strip_prefix-value [] more c s k (pair h q) e = ground arith
strip_prefix-value (x ∷ key) more c s k nil e = ground arith
strip_prefix-value (x ∷ key) more c s k (plain h g q) e =
    ground (arith, strip_prefix-value key more c s k.1 q e)
strip_prefix-value (x ∷ key) more c s k (pair h q) e = ground arith

pub strip_prefix-key :
    (key name more t : Bytes)
    → All IsKeyByte key
    → All IsKeyByte name
    → key ≢ name
    → strip_prefix (key ++ quote ∷ b':' ∷ more) (name ++ quote ∷ t) ≡ none
unfolding strip_prefix
strip_prefix-key [] [] more t k n d = absurd (d refl)
strip_prefix-key [] (y ∷ name) more t k n d = ground arith
strip_prefix-key (x ∷ key) [] more t k n d = ground arith
strip_prefix-key (x ∷ key) (y ∷ name) more t k n d = elim (Bool-cases (x == y)) [
  | inl same ↦
      let e : x ≡ y = ground arith in
      rw (same, strip_prefix) (strip_prefix-key key name more t k.1 n.1 (λ q. d (cc)))
  | inr other ↦ rw (other, strip_prefix)
]

-- The second byte of a pattern is a key byte.
pub strip_prefix-other :
    (key more : Bytes) (c : ℕ) (s : Bytes)
    → IsKey key
    → (c ≡ b':') ⊎ IsCloser c
    → strip_prefix (key_pattern key more) (quote ∷ c ∷ s) ≡ none
unfolding strip_prefix
strip_prefix-other [] more c s k h = elim k [ ]
strip_prefix-other (x ∷ key) more c s k h = ground arith

pub IsKey-All : (key : Bytes) → IsKey key → All IsKeyByte key
IsKey-All [] k = elim k [ ]
IsKey-All (x ∷ key) k = k

pub Lacks-key : (key : Bytes) → All IsKeyByte key → Lacks quote key
Lacks-key [] k = tt
Lacks-key (x ∷ key) k = (k.0.0, Lacks-key key k.1)
