-- ===== src/Common/Hex.antt =====
-- Lower-case hexadecimal digits: printf's %02x and std::hex with setw(2) and a fill of '0'.
pub mod Decoding
use Prim.Native.Nat.{ℕ, ◌+◌, ◌-◌, ◌/◌, ◌%◌}
use mathlib.Core.List.{[], ◌∷◌, ◌++◌}
use lantalk.Common.Tests.{ltb, if◌then◌else◌}
use lantalk.Common.ByteString.{Bytes}

unfoldable pub hex_digit : ℕ → ℕ
hex_digit n = if ltb n 10 then b'0' + n else b'a' + (n - 10)

-- Two digits of a byte.
unfoldable pub hex_byte : ℕ → Bytes
hex_byte b = hex_digit (b / 16 % 16) ∷ hex_digit (b % 16) ∷ []

unfoldable pub bytes_to_hex : Bytes → Bytes
bytes_to_hex [] = []
bytes_to_hex (b ∷ bs) = hex_byte b ++ bytes_to_hex bs
