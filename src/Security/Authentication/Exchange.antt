-- ===== src/Security/Authentication/Exchange.antt =====
-- src/security/authentication.cpp: a challenge and its response, between two devices.
use lantalk.Common.{
  ℕ, ◌≡◌, refl, ap, ◌∙◌, ◌≢◌, ◌↔◌, true, false, [], ◌∷◌, ◌++◌, arith, Bytes, codes, ◌==◌, ==_iff,
  Bool-cases, inl, inr, is_empty, length, All,
}
use lantalk.Common.Hex.{hex_digit, hex_byte, bytes_to_hex}
use lantalk.Common.Search.{quote, backslash, IsKey}
use lantalk.Common.Search.Entries.{find_after-skip, find_after-own}
use lantalk.Security.Authentication.{
  OpenSsl, hmac_sha256, secure_compare, json_pair, build_json, scan, extract_str, Authenticator,
  challenge_text, compute_expected_response, verify_response, build_response,
}

-- What is documented of OpenSSL: HMAC-SHA256 yields 32 bytes, and CRYPTO_memcmp 0 exactly on equal
-- memory.
pub record IsOpenSsl (o : OpenSsl) : Type 0 where
  pub length-hmac : (key text : Bytes) → length (o.hmac key text) ≡ 32
  pub memcmp_iff : (a b : Bytes) → length a ≡ length b → (o.crypto_memcmp a b ≡ 0) ↔ (a ≡ b)

-- Text without quotes and backslashes, as hexadecimal and base64 text is.
abbrev pub IsPlain : Bytes → Type 0
IsPlain = All (λ c. (c ≢ quote) × (c ≢ backslash))

scan-quote : (rest : Bytes) → scan (quote ∷ rest) ≡ []
unfolding scan
scan-quote [] = refl
scan-quote (c ∷ rest) = refl

ne→== : (c d : ℕ) → c ≢ d → (c == d) ≡ false
ne→== c d h = ground arith

scan-byte : (c : ℕ) (s : Bytes) → c ≢ quote → c ≢ backslash → scan (c ∷ s) ≡ c ∷ scan s
unfolding scan
scan-byte c [] h g = rw (ne→== c quote h, scan) refl
scan-byte c (d ∷ s) h g = rw (ne→== c quote h, ne→== c backslash g, scan) refl

scan-plain : (v rest : Bytes) → IsPlain v → scan (v ++ quote ∷ rest) ≡ v
scan-plain [] rest h = scan-quote rest
scan-plain (c ∷ v) rest h =
    scan-byte c (v ++ quote ∷ rest) h.0.0 h.0.1 ∙ ap (◌∷◌ c) (scan-plain v rest h.1)

-- The first entry of an object is read back.
extract_str-first :
    (key value rest : Bytes)
    → IsKey key
    → IsPlain value
    → extract_str (b'{' ∷ json_pair key value rest) key ≡ value
unfolding extract_str
extract_str-first key value rest k h =
    rw
      (
        find_after-skip key (quote ∷ []) k b'{' (json_pair key value rest) (omega arith),
        find_after-own key (quote ∷ []) k (value ++ quote ∷ rest),
      )
      (scan-plain value rest h)

hex-IsPlain : (bs : Bytes) → IsPlain (bytes_to_hex bs)
unfolding bytes_to_hex hex_byte hex_digit
hex-IsPlain [] = tt
hex-IsPlain (b ∷ bs) = (ground arith, (ground arith, hex-IsPlain bs))

length_eq : (a b : Bytes) → (length a == length b) ≡ true → length a ≡ length b
length_eq a b h = (==_iff (length a) (length b)).0 h

secure_compare-equal : (o : OpenSsl) (a : Bytes) → IsOpenSsl o → secure_compare o a a ≡ true
unfolding secure_compare
secure_compare-equal o a l =
    let same : (length a == length a) ≡ true = (==_iff (length a) (length a)).1 refl in
    let zeroes : o.crypto_memcmp a a ≡ 0 = (l.memcmp_iff a a refl).1 refl in
    rw (same, secure_compare) (rw zeroes refl)

secure_compare-true :
    (o : OpenSsl) (a b : Bytes) → IsOpenSsl o → secure_compare o a b ≡ true → a ≡ b
unfolding secure_compare
secure_compare-true o a b l h = elim (Bool-cases (length a == length b)) [
  | inl e ↦
      let zeroes : (o.crypto_memcmp a b == 0) ≡ true = rw (e, secure_compare) at h in
      (l.memcmp_iff a b (length_eq a b e)).0 ((==_iff (o.crypto_memcmp a b) 0).0 zeroes)
  | inr e ↦ let bad : false ≡ true = rw (e, secure_compare) at h in cc
]

bytes_to_hex-not_empty : (bs : Bytes) → length bs ≡ 32 → is_empty (bytes_to_hex bs) ≡ false
unfolding bytes_to_hex hex_byte
bytes_to_hex-not_empty [] h = absurd (omega arith)
bytes_to_hex-not_empty (b ∷ bs) h = refl

not_empty : (s : Bytes) → s ≢ [] → is_empty s ≡ false
not_empty [] h = absurd (h refl)
not_empty (c ∷ s) h = refl

module _ (o : OpenSsl) (l : IsOpenSsl o) where
  read_challenge :
      (challenge : Bytes)
      → IsPlain challenge
      → extract_str (challenge_text challenge) (codes "challenge") ≡ challenge
  unfolding challenge_text build_json
  read_challenge challenge plain =
      extract_str-first (codes "challenge") challenge (codes "}") (omega arith) plain

  expected :
      (a : Authenticator) (challenge : Bytes)
      → is_empty a.psk_hash ≡ false
      → compute_expected_response o a challenge ≡ hmac_sha256 o a.psk_hash challenge
  unfolding compute_expected_response
  expected a challenge e = rw e refl

  answer :
      (a : Authenticator) (challenge : Bytes)
      → is_empty a.psk_hash ≡ false
      → challenge ≢ []
      → IsPlain challenge
      → extract_str (build_response o a (challenge_text challenge)) (codes "response")
        ≡ hmac_sha256 o a.psk_hash challenge
  unfolding build_response build_json hmac_sha256
  answer a challenge e n plain =
      rw (read_challenge challenge plain, not_empty challenge n, expected a challenge e)
        (extract_str-first (codes "response") (hmac_sha256 o a.psk_hash challenge) _ (omega arith)
          (hex-IsPlain (o.hmac a.psk_hash challenge)))

  hmac_sha256-not_empty : (key text : Bytes) → is_empty (hmac_sha256 o key text) ≡ false
  unfolding hmac_sha256
  hmac_sha256-not_empty key text = bytes_to_hex-not_empty (o.hmac key text) (l.length-hmac key text)

-- Two devices with the same secret: the response that one builds for the other's challenge is
-- verified, provided that the challenge is text without quotes and backslashes and not empty.
pub verify_response-build_response :
    (o : OpenSsl) (server client : Authenticator) (challenge : Bytes)
    → IsOpenSsl o
    → client.psk_hash ≡ server.psk_hash
    → challenge ≢ []
    → IsPlain challenge
    → verify_response o server challenge (build_response o client (challenge_text challenge)) ≡ true
unfolding verify_response
verify_response-build_response o server client challenge l same n plain =
    elim (Bool-cases (is_empty server.psk_hash)) [
      | inl e ↦ rw (e, verify_response) refl
      | inr e ↦
          let f : is_empty client.psk_hash ≡ false = rw same e in
          let key = server.psk_hash in
          let got : extract_str (build_response o client (challenge_text challenge))
                (codes "response")
              ≡ hmac_sha256 o key challenge =
            answer o l client challenge f n plain ∙ ap (λ k. hmac_sha256 o k challenge) same in
          rw (e, got, hmac_sha256-not_empty o l key challenge, verify_response)
            (secure_compare-equal o (hmac_sha256 o key challenge) l)
    ]

-- Where a secret is configured, a payload is verified only if its response is the HMAC-SHA256 of the
-- very challenge under the secret.
pub verify_response_sound :
    (o : OpenSsl) (a : Authenticator) (challenge payload : Bytes)
    → IsOpenSsl o
    → a.psk_hash ≢ []
    → verify_response o a challenge payload ≡ true
    → extract_str payload (codes "response") ≡ hmac_sha256 o a.psk_hash challenge
unfolding verify_response compute_expected_response
verify_response_sound o a challenge payload l set h =
    let e : is_empty a.psk_hash ≡ false = not_empty a.psk_hash set in
    elim (Bool-cases (is_empty (extract_str payload (codes "response")))) [
      | inl f ↦ let bad : false ≡ true = rw (e, f, verify_response) at h in cc
      | inr f ↦
          secure_compare-true o _ _ l (rw (e, f, verify_response, compute_expected_response) at h)
    ]
