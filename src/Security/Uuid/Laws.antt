-- ===== src/Security/Uuid/Laws.antt =====
-- The UUID generators against each other and against the form of a UUID v4.
use Prim.Native.Nat.{bit_and, bit_or}
use lantalk.Common.{
  false, if◌then◌else◌, ℕ, zero, suc, ◌/◌, ◌%◌, ◌<◌, ◌≡◌, refl, Bool, true, ◌||◌, [], ◌∷◌, some,
  arith, Bytes, ◌==◌, ==_iff, length, get_or, All, IsByte,
}
use lantalk.Common.Hex.{hex_byte, hex_digit}
use lantalk.Security.Uuid.{generate_id, crypto_uuid, config_uuid}

data Sixteen : Bytes → Type 0 where
  sixteen :
      (b0 b1 b2 b3 b4 b5 b6 b7 b8 b9 b10 b11 b12 b13 b14 b15 : ℕ)
      → Sixteen
          (b0 ∷ b1 ∷ b2 ∷ b3 ∷ b4 ∷ b5 ∷ b6 ∷ b7 ∷ b8 ∷ b9 ∷ b10 ∷ b11 ∷ b12 ∷ b13 ∷ b14 ∷ b15 ∷ [])

split-Sixteen : (bs : Bytes) → length bs ≡ 16 → Sixteen bs
split-Sixteen
      (b0 ∷ b1 ∷ b2 ∷ b3 ∷ b4 ∷ b5 ∷ b6 ∷ b7 ∷ b8 ∷ b9 ∷ b10 ∷ b11 ∷ b12 ∷ b13 ∷ b14 ∷ b15 ∷ []) h =
    sixteen b0 b1 b2 b3 b4 b5 b6 b7 b8 b9 b10 b11 b12 b13 b14 b15
split-Sixteen _ h = absurd (omega arith)

agree :
    {bs : Bytes}
    → Sixteen bs
    → (crypto_uuid (some bs) ≡ some (generate_id (some bs)))
      × (config_uuid (some bs) ≡ generate_id (some bs))
unfolding crypto_uuid config_uuid generate_id hex_byte
agree (sixteen b0 b1 b2 b3 b4 b5 b6 b7 b8 b9 b10 b11 b12 b13 b14 b15) = (refl, refl)

-- From the same sixteen random bytes the three generators print the same identifier.
pub generators_agree :
    (bs : Bytes)
    → length bs ≡ 16
    → (crypto_uuid (some bs) ≡ some (generate_id (some bs)))
      × (config_uuid (some bs) ≡ generate_id (some bs))
generators_agree bs h = agree (split-Sixteen bs h)

-- A test passed by every number under a bound, found by running it on each.
passes_below : (ℕ → Bool) → ℕ → Bool
passes_below test zero = true
passes_below test (suc top) = let rest = passes_below test top in if test top then rest else false

passed : (test : ℕ → Bool) (top b : ℕ) → passes_below test top ≡ true → b < top → test b ≡ true
unfolding passes_below
passed test zero b run below = absurd (omega arith)
passed test (suc top) b run below = ground (arith, passed test top b)

version_digit : (b : ℕ) → b < 256 → hex_digit (bit_or (bit_and b 0x0f) 0x40 / 16 % 16) ≡ b'4'
unfolding passes_below hex_digit
version_digit b h =
    (==_iff _ b'4').0
      (passed (λ x. hex_digit (bit_or (bit_and x 0x0f) 0x40 / 16 % 16) == b'4') 256 b refl h)

abbrev pub is_variant : ℕ → Bool
is_variant c = c == b'8' || c == b'9' || c == b'a' || c == b'b'

variant_digit :
    (b : ℕ) → b < 256 → is_variant (hex_digit (bit_or (bit_and b 0x3f) 0x80 / 16 % 16)) ≡ true
unfolding passes_below hex_digit
variant_digit b h =
    passed (λ x. is_variant (hex_digit (bit_or (bit_and x 0x3f) 0x80 / 16 % 16))) 256 b refl h

-- The form of a UUID v4: length, dashes, version and variant.
pub record IsUuid (s : Bytes) : Type 0 where
  pub length_eq : length s ≡ 36
  pub dashes :
      (get_or s 8 0 ≡ b'-')
      × (get_or s 13 0 ≡ b'-')
      × (get_or s 18 0 ≡ b'-')
      × (get_or s 23 0 ≡ b'-')
  pub version : get_or s 14 0 ≡ b'4'
  pub variant : is_variant (get_or s 19 0) ≡ true

form : {bs : Bytes} → Sixteen bs → All IsByte bs → IsUuid (generate_id (some bs))
unfolding generate_id hex_byte
form (sixteen b0 b1 b2 b3 b4 b5 b6 b7 b8 b9 b10 b11 b12 b13 b14 b15) h = record {
  length_eq = refl;
  dashes = (refl, refl, refl, refl);
  version = version_digit b6 (omega arith);
  variant = variant_digit b8 (omega arith);
}

-- Whatever the sixteen random bytes, the identifier has 36 characters, its four dashes in place, the
-- version digit 4 and a variant digit among 8, 9, a and b.
pub generate_id-IsUuid :
    (bs : Bytes) → length bs ≡ 16 → All IsByte bs → IsUuid (generate_id (some bs))
generate_id-IsUuid bs h bytes = form (split-Sixteen bs h) bytes
