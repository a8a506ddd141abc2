-- ===== src/Security/Authentication.antt =====
-- src/security/authentication.cpp, with the helpers of src/security/crypto.cpp that it calls. OpenSSL
-- is a parameter: EVP_MAC's HMAC-SHA256 and CRYPTO_memcmp; that hmacSha256 throws where OpenSSL fails
-- is left out. A challenge, which generateChallenge draws, and the address of a connection are
-- arguments.
pub mod Exchange
use lantalk.Common.{
  ℕ, Bool, true, false, not, [], ◌∷◌, ◌++◌, Option, none, some, Bytes, codes, ◌==◌, if◌then◌else◌,
  is_empty, length,
}
use lantalk.Common.Dict.{Dict, lookup, insert, erase}
use lantalk.Common.Hex.{bytes_to_hex}
use lantalk.Common.Search.{find_after, key_pattern, quote, backslash}
use lantalk.Network.Protocol.Types.{MessageType}
use lantalk.Network.Connection.{Connection, send}

-- What is used of OpenSSL.
pub record OpenSsl : Type 0 where
  pub hmac : Bytes → Bytes → Bytes
  pub crypto_memcmp : Bytes → Bytes → ℕ

unfoldable pub hmac_sha256 : OpenSsl → Bytes → Bytes → Bytes
hmac_sha256 o key text = bytes_to_hex (o.hmac key text)

unfoldable pub secure_compare : OpenSsl → Bytes → Bytes → Bool
secure_compare o a b = if not (length a == length b) then false else o.crypto_memcmp a b == 0

abbrev pub json_pair : Bytes → Bytes → Bytes → Bytes
json_pair key value rest = quote ∷ (key ++ quote ∷ b':' ∷ quote ∷ (value ++ quote ∷ rest))

-- buildJson; an empty key is that of an entry left out.
unfoldable pub build_json : Bytes → Bytes → Bytes → Bytes → Bytes → Bytes → Bytes
build_json key1 val1 key2 val2 key3 val3 =
    let last = if is_empty key3 then codes "}" else b',' ∷ json_pair key3 val3 (codes "}") in
    let rest = if is_empty key2 then last else b',' ∷ json_pair key2 val2 last in
    b'{' ∷ json_pair key1 val1 rest

-- The loop of extractStr: a backslash gives way to the byte behind it, if there is one.
unfoldable pub scan : Bytes → Bytes
scan [] = []
scan (c ∷ []) = if c == quote then [] else c ∷ []
scan (c ∷ d ∷ s) =
    let escaped = d ∷ scan s in
    let copied = c ∷ scan (d ∷ s) in
    if c == quote then [] else if c == backslash then escaped else copied

abbrev pub scanned : Option Bytes → Bytes
scanned none = []
scanned (some rest) = scan rest

unfoldable pub extract_str : Bytes → Bytes → Bytes
unfolding scan
extract_str json key = scanned (find_after (key_pattern key (quote ∷ [])) json)

pub record Authenticator : Type 0 where
  pub psk_hash : Bytes
  pub device_id : Bytes
  pub pending_challenges : Dict Bytes

unfoldable pub store_pending_challenge : Authenticator → Bytes → Bytes → Authenticator
store_pending_challenge a cid challenge = record a {
  pending_challenges = insert cid challenge a.pending_challenges;
}

unfoldable pub get_pending_challenge : Authenticator → Bytes → Option Bytes
get_pending_challenge a cid = lookup cid a.pending_challenges

unfoldable pub clear_pending_challenge : Authenticator → Bytes → Authenticator
clear_pending_challenge a cid = record a { pending_challenges = erase cid a.pending_challenges }

unfoldable pub challenge_text : Bytes → Bytes
unfolding build_json
challenge_text challenge = build_json (codes "challenge") challenge [] [] [] []

unfoldable pub send_challenge :
    Authenticator → Connection → Bytes → Bytes → Authenticator × Connection
unfolding store_pending_challenge challenge_text
send_challenge a c address challenge = (
  store_pending_challenge a address challenge,
  (send c MessageType.auth_request (challenge_text challenge)).0,
)

unfoldable pub compute_expected_response : OpenSsl → Authenticator → Bytes → Bytes
unfolding hmac_sha256
compute_expected_response o a challenge =
    if is_empty a.psk_hash then [] else hmac_sha256 o a.psk_hash challenge

unfoldable pub verify_response : OpenSsl → Authenticator → Bytes → Bytes → Bool
unfolding extract_str secure_compare compute_expected_response
verify_response o a challenge payload =
    let response = extract_str payload (codes "response") in
    if is_empty a.psk_hash
    then true
    else if is_empty response
    then false
    else secure_compare o response (compute_expected_response o a challenge)

unfoldable pub build_response : OpenSsl → Authenticator → Bytes → Bytes
unfolding extract_str build_json compute_expected_response
build_response o a payload =
    let challenge = extract_str payload (codes "challenge") in
    let response = compute_expected_response o a challenge in
    if is_empty challenge
    then []
    else build_json (codes "response") response (codes "device_id") a.device_id [] []
