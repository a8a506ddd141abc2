-- ===== src/Common/Hex/Decoding.antt =====
-- Hexadecimal text is read back.
use Prim.Native.Nat.{ℕ, ◌+◌, ◌-◌, ◌*◌, ◌/◌, ◌%◌, ◌<◌}
use mathlib.Core.Path.{◌≡◌, refl, ap, ◌∙◌}
use mathlib.Core.List.{[], ◌∷◌}
use native.Mathlib.Omega.{arith}
use lantalk.Common.Tests.{leb, if◌then◌else◌}
use lantalk.Common.Lists.{length, All}
use lantalk.Common.ByteString.{Bytes}
use lantalk.Common.Hex.{hex_digit, hex_byte, bytes_to_hex}

pub hex_value : ℕ → ℕ
hex_value c = if leb b'a' c then c - b'a' + 10 else c - b'0'

unfoldable pub of_hex : Bytes → Bytes
unfolding hex_value
of_hex [] = []
of_hex (h ∷ []) = []
of_hex (h ∷ l ∷ rest) = (16 * hex_value h + hex_value l) ∷ of_hex rest

hex_value-hex_digit : (n : ℕ) → n < 16 → hex_value (hex_digit n) ≡ n
unfolding hex_value hex_digit
hex_value-hex_digit n h = ground arith

pub of_hex-bytes_to_hex : (bs : Bytes) → All (λ b. b < 256) bs → of_hex (bytes_to_hex bs) ≡ bs
unfolding of_hex bytes_to_hex hex_byte
of_hex-bytes_to_hex [] h = refl
of_hex-bytes_to_hex (b ∷ bs) h =
    let e : 16 * hex_value (hex_digit (b / 16 % 16)) + hex_value (hex_digit (b % 16)) ≡ b = omega (
      arith,
      hex_value-hex_digit (b / 16 % 16) (omega arith),
      hex_value-hex_digit (b % 16) (omega arith),
      h.0,
    ) in
    ap (λ x. x ∷ of_hex (bytes_to_hex bs)) e ∙ ap (◌∷◌ b) (of_hex-bytes_to_hex bs h.1)

pub length-bytes_to_hex : (bs : Bytes) → length (bytes_to_hex bs) ≡ 2 * length bs
unfolding bytes_to_hex hex_byte
length-bytes_to_hex [] = refl
length-bytes_to_hex (b ∷ bs) = omega (arith, length-bytes_to_hex bs)
