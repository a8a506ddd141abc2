-- ===== src/Security/Base64.antt =====
-- base64Encode, base64Decode and generateChallenge of src/security/crypto.cpp over the base64 filter
-- of OpenSSL.
use lantalk.Common.{
  ℕ, ◌+◌, ◌*◌, ◌/◌, ◌≡◌, Option, none, some, arith, [], Bytes, length, take, take_all, Bool,
}
use lantalk.Security.Digest.{random_bytes}

-- What BIO_f_base64 writes for some bytes, and what it reads from a text into a buffer of a size:
-- `none` for a negative result.
pub record Filter : Type 0 where
  pub write : Bytes → Bytes
  pub read : Bytes → ℕ → Option Bytes

unfoldable pub base64_encode : Filter → Bytes → Bytes
base64_encode f bytes = f.write bytes

-- buffer.resize(len) on what was read.
abbrev pub resized : Option Bytes → Bytes
resized none = []
resized (some bytes) = bytes

unfoldable pub base64_decode : Filter → Bytes → Bytes
base64_decode f encoded = resized (f.read encoded (length encoded))

-- An exception of randomBytes goes on.
abbrev pub encoded : Filter → Option Bytes → Option Bytes
encoded f none = none
encoded f (some bytes) = some (base64_encode f bytes)

unfoldable pub generate_challenge : Filter → (ℕ → Bool × Bytes) → Option Bytes
unfolding base64_encode random_bytes
generate_challenge f rand_bytes = encoded f (random_bytes rand_bytes 32)

-- Documented of the filter: four characters for every three bytes, rounded up; and of what it wrote
-- it reads back as many bytes as the buffer takes.
pub record IsBase64 (f : Filter) : Type 0 where
  pub length_written : (bytes : Bytes) → length (f.write bytes) ≡ 4 * ((length bytes + 2) / 3)
  pub reads_back : (bytes : Bytes) (size : ℕ) → f.read (f.write bytes) size ≡ some (take size bytes)

-- What base64Encode makes of some bytes base64Decode reads back whole: its buffer, of the length of
-- the text, is large enough.
pub base64_decode-encode :
    (f : Filter) (bytes : Bytes) → IsBase64 f → base64_decode f (base64_encode f bytes) ≡ bytes
unfolding base64_decode base64_encode
base64_decode-encode f bytes h =
    rw (h.reads_back bytes (length (f.write bytes)))
      (take_all (length (f.write bytes)) bytes (omega (arith, h.length_written bytes)))
