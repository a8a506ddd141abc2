-- ===== src/Security/Uuid.antt =====
-- The three UUID v4 generators: ChatMessage::generateId, Crypto::generateUUID and
-- Config::generateUUID. Each stamps sixteen random bytes and prints them in its own way; `none`
-- stands for a failure of RAND_bytes.
pub mod Laws
use Prim.Native.Nat.{bit_and, bit_or}
use lantalk.Common.{
  ℕ, zero, suc, ◌+◌, ◌||◌, [], ◌∷◌, ◌++◌, Option, none, some, Bytes, codes, ◌==◌, if◌then◌else◌,
  get_or,
}
use lantalk.Common.Hex.{hex_byte}

-- bytes[i] = (bytes[i] & mask) | bits.
unfoldable pub stamp_at : ℕ → ℕ → ℕ → Bytes → Bytes
stamp_at i mask bits [] = []
stamp_at zero mask bits (b ∷ bs) = bit_or (bit_and b mask) bits ∷ bs
stamp_at (suc i) mask bits (b ∷ bs) = b ∷ stamp_at i mask bits bs

-- Version 4, variant 10.
unfoldable pub stamp : Bytes → Bytes
unfolding stamp_at
stamp bs = stamp_at 8 0x3f 0x80 (stamp_at 6 0x0f 0x40 bs)

abbrev pub hex_at : Bytes → ℕ → Bytes
hex_at bs i = hex_byte (get_or bs i 0)

-- The format string of snprintf in generateId.
unfoldable pub print_id : Bytes → Bytes
print_id bs =
    hex_at bs 0
    ++ (hex_at bs 1
        ++ (hex_at bs 2
            ++ (hex_at bs 3
                ++ (codes "-"
                    ++ (hex_at bs 4
                        ++ (hex_at bs 5
                            ++ (codes "-"
                                ++ (hex_at bs 6
                                    ++ (hex_at bs 7
                                        ++ (codes "-"
                                            ++ (hex_at bs 8
                                                ++ (hex_at bs 9
                                                    ++ (codes "-"
                                                        ++ (hex_at bs 10
                                                            ++ (hex_at bs 11
                                                            ++ (hex_at bs 12
                                                            ++ (hex_at bs 13
                                                            ++ (hex_at bs 14
                                                            ++ hex_at bs 15))))))))))))))))))

-- ChatMessage::generateId.
unfoldable pub generate_id : Option Bytes → Bytes
unfolding print_id stamp
generate_id none = []
generate_id (some bs) = print_id (stamp bs)

-- The loop of Crypto::generateUUID from index `i` on: a dash before bytes 4, 6, 8 and 10.
unfoldable pub crypto_loop : ℕ → Bytes → Bytes
crypto_loop i [] = []
crypto_loop i (b ∷ bs) =
    (if i == 4 || i == 6 || i == 8 || i == 10 then codes "-" else [])
    ++ (hex_byte b ++ crypto_loop (i + 1) bs)

-- Crypto::generateUUID; it throws where the random bytes fail.
unfoldable pub crypto_uuid : Option Bytes → Option Bytes
unfolding crypto_loop stamp
crypto_uuid none = none
crypto_uuid (some bs) = some (crypto_loop 0 (stamp bs))

-- The loop of Config::generateUUID: a dash behind bytes 3, 5, 7 and 9.
unfoldable pub config_loop : ℕ → Bytes → Bytes
config_loop i [] = []
config_loop i (b ∷ bs) =
    hex_byte b
    ++ ((if i == 3 || i == 5 || i == 7 || i == 9 then codes "-" else []) ++ config_loop (i + 1) bs)

unfoldable pub config_uuid : Option Bytes → Bytes
unfolding config_loop stamp
config_uuid none = codes "00000000-0000-0000-0000-000000000000"
config_uuid (some bs) = config_loop 0 (stamp bs)
