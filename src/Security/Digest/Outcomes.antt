-- ===== src/Security/Digest/Outcomes.antt =====
-- How sha256 and hmacSha256 of src/security/crypto.cpp end.
use lantalk.Common.{
  ℕ, ◌+◌, ◌*◌, ◌≡◌, refl, ◌⊎◌, inl, inr, true, List, [], ◌∷◌, none, some, Bytes, length, All,
  IsByte, ◌||◌, not, if_cases,
}
use lantalk.Common.Hex.Decoding.{of_hex, of_hex-bytes_to_hex, length-bytes_to_hex}
use lantalk.Common.Hex.{bytes_to_hex}
use lantalk.Security.Digest.{
  Evp, Handle, md_context, mac, mac_context, Outcome, sha256, hmac_sha256,
}

abbrev count_md : List Handle → ℕ
count_md [] = 0
count_md (md_context ∷ hs) = 1 + count_md hs
count_md (_ ∷ hs) = count_md hs

abbrev count_mac : List Handle → ℕ
count_mac [] = 0
count_mac (mac ∷ hs) = 1 + count_mac hs
count_mac (_ ∷ hs) = count_mac hs

abbrev count_mac_context : List Handle → ℕ
count_mac_context [] = 0
count_mac_context (mac_context ∷ hs) = 1 + count_mac_context hs
count_mac_context (_ ∷ hs) = count_mac_context hs

-- Of each kind, as many are freed as were made.
abbrev pub IsBalanced : Outcome → Type 0
IsBalanced o =
    (count_md o.freed ≡ count_md o.made)
    × (count_mac o.freed ≡ count_mac o.made)
    × (count_mac_context o.freed ≡ count_mac_context o.made)

-- A text of two digits for each byte, from which the bytes can be read.
abbrev pub Writes : Bytes → Bytes → Type 0
Writes digest text = (length text ≡ 2 * length digest) × (of_hex text ≡ digest)

-- Everything is freed, and the call throws or returns the digest's text.
abbrev pub Hashes : Bytes → Outcome → Type 0
Hashes digest o =
    IsBalanced o
    × ((o.result ≡ none) ⊎ ((text : Bytes) × (o.result ≡ some text) × Writes digest text))

Writes-bytes_to_hex : (bs : Bytes) → All IsByte bs → Writes bs (bytes_to_hex bs)
Writes-bytes_to_hex bs h = (length-bytes_to_hex bs, of_hex-bytes_to_hex bs h)

-- The calls of OpenSSL that a hash makes all succeed.
pub record Succeeds (e : Evp) : Type 0 where
  pub made : e.makes_context ≡ true
  pub init : e.inits ≡ true
  pub update : e.updates ≡ true
  pub final : e.finals ≡ true

-- Where the calls succeed there is a result.
abbrev pub Returns : Evp → Outcome → Type 0
Returns e o = Succeeds e → (text : Bytes) × (o.result ≡ some text)

sha256-Hashes :
    (e : Evp) (input : Bytes)
    → All IsByte (e.sha256 input)
    → Hashes (e.sha256 input) (sha256 e input)
unfolding sha256
sha256-Hashes e input h =
    if_cases (Hashes (e.sha256 input)) (not e.makes_context) (λ _. ((refl, refl, refl), inl refl))
      (λ _.
        if_cases (Hashes (e.sha256 input)) (not e.inits || not e.updates || not e.finals)
          (λ _. ((refl, refl, refl), inl refl))
          (λ _. ((refl, refl, refl), inr (_, refl, Writes-bytes_to_hex (e.sha256 input) h))))

hmac_sha256-Hashes :
    (e : Evp) (key message : Bytes)
    → All IsByte (e.hmac_sha256 key message)
    → Hashes (e.hmac_sha256 key message) (hmac_sha256 e key message)
unfolding hmac_sha256
hmac_sha256-Hashes e key message h =
    let d = e.hmac_sha256 key message in
    if_cases (Hashes d) (not e.inits || not e.updates || not e.finals)
      (λ _. ((refl, refl, refl), inl refl))
      (λ _. ((refl, refl, refl), inr (_, refl, Writes-bytes_to_hex d h)))

sha256-Returns : (e : Evp) (input : Bytes) → Returns e (sha256 e input)
unfolding sha256
sha256-Returns e input s = rw (s.made, s.init, s.update, s.final) (_, refl)

hmac_sha256-Returns : (e : Evp) (key message : Bytes) → Returns e (hmac_sha256 e key message)
unfolding hmac_sha256
hmac_sha256-Returns e key message s = rw (s.init, s.update, s.final) (_, refl)

-- Both hashes free what they made, of each kind, on every path, and throw or return the text of the
-- digest, which has two digits for each byte and from which the digest can be read; and they return
-- where every call of OpenSSL succeeds.
pub both_hash :
    (e : Evp) (input key message : Bytes)
    → All IsByte (e.sha256 input)
    → All IsByte (e.hmac_sha256 key message)
    → Hashes (e.sha256 input) (sha256 e input)
      × Hashes (e.hmac_sha256 key message) (hmac_sha256 e key message)
      × Returns e (sha256 e input)
      × Returns e (hmac_sha256 e key message)
both_hash e input key message h k = (
  sha256-Hashes e input h,
  hmac_sha256-Hashes e key message k,
  sha256-Returns e input,
  hmac_sha256-Returns e key message,
)
