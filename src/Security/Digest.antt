-- ===== src/Security/Digest.antt =====
-- sha256, hmacSha256 and randomBytes of src/security/crypto.cpp over OpenSSL: what its calls return is
-- a parameter, and what they make and free is listed. The build is the one with OpenSSL 3, and its
-- `size_t*` conversion of the length is read as the length.
pub mod Outcomes
use lantalk.Common.{
  ℕ, Bool, true, not, ◌||◌, List, [], ◌∷◌, Option, none, some, Bytes, if◌then◌else◌,
}
use lantalk.Common.Hex.{bytes_to_hex}

-- What OpenSSL answers to the calls of one hash, and the functions that it computes.
pub record Evp : Type 0 where
  pub makes_context : Bool
  pub inits : Bool
  pub updates : Bool
  pub finals : Bool
  pub sha256 : Bytes → Bytes
  pub hmac_sha256 : Bytes → Bytes → Bytes

pub data Handle : Type 0 where
  md_context mac mac_context : Handle

-- `none` is an exception.
pub record Outcome : Type 0 where
  pub made : List Handle
  pub freed : List Handle
  pub result : Option Bytes

unfoldable pub sha256 : Evp → Bytes → Outcome
unfolding bytes_to_hex
sha256 e input =
    if not e.makes_context
    then record { made = []; freed = []; result = none }
    else if not e.inits || not e.updates || not e.finals
    then record { made = md_context ∷ []; freed = md_context ∷ []; result = none }
    else record {
      made = md_context ∷ [];
      freed = md_context ∷ [];
      result = some (bytes_to_hex (e.sha256 input));
    }

-- The fetch and the context are not tested.
unfoldable pub hmac_sha256 : Evp → Bytes → Bytes → Outcome
unfolding bytes_to_hex
hmac_sha256 e key message =
    if not e.inits || not e.updates || not e.finals
    then record { made = mac ∷ mac_context ∷ []; freed = mac_context ∷ mac ∷ []; result = none }
    else record {
      made = mac ∷ mac_context ∷ [];
      freed = mac_context ∷ mac ∷ [];
      result = some (bytes_to_hex (e.hmac_sha256 key message));
    }

-- RAND_bytes: whether it succeeds, and the bytes, for a count.
unfoldable pub random_bytes : (ℕ → Bool × Bytes) → ℕ → Option Bytes
random_bytes rand_bytes count =
    let (ok, buffer) = rand_bytes count in if ok then some buffer else none
