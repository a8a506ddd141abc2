-- ===== src/Examples/Secrets.antt =====
-- The Authenticator (src/security/authentication.cpp) at concrete inputs, over a stand-in for OpenSSL.
use lantalk.Common.{
  ℕ, ◌≡◌, refl, ◌↔◌, true, [], arith, Bytes, codes, eq_bytes_iff, length, replicate, if◌then◌else◌,
}
use lantalk.Common.ByteString.{eq_bytes}
use lantalk.Security.Authentication.{
  OpenSsl, hmac_sha256, extract_str, Authenticator, challenge_text, verify_response, build_response,
}
use lantalk.Security.Authentication.Exchange.{
  IsOpenSsl, IsPlain, verify_response-build_response, verify_response_sound,
}

-- A digest that tells lengths apart, and a comparison.
abbrev differs : Bytes → Bytes → ℕ
differs a b = if eq_bytes a b then 0 else 1

abbrev stand_in : OpenSsl
stand_in = record { hmac = λ key text. replicate 32 (length text); crypto_memcmp = differs }

differs_iff : (a b : Bytes) → length a ≡ length b → (differs a b ≡ 0) ↔ (a ≡ b)
differs_iff a b h = ground (arith, eq_bytes_iff a b)

stand_in-IsOpenSsl : IsOpenSsl stand_in
stand_in-IsOpenSsl = record { length-hmac = λ key text. refl; memcmp_iff = differs_iff }

abbrev server : Authenticator
server = record { psk_hash = codes "c0ffee"; device_id = codes "dev-a"; pending_challenges = [] }

abbrev client : Authenticator
client = record { psk_hash = codes "c0ffee"; device_id = codes "dev-b"; pending_challenges = [] }

abbrev nonce : Bytes
nonce = codes "q3J+"

nonce-IsPlain : IsPlain nonce
nonce-IsPlain = omega arith

verify_response-build_response_example :
    verify_response stand_in server nonce (build_response stand_in client (challenge_text nonce))
    ≡ true
verify_response-build_response_example =
    verify_response-build_response stand_in server client nonce stand_in-IsOpenSsl refl (λ h. cc)
      nonce-IsPlain

verify_response_sound_example :
    extract_str (build_response stand_in client (challenge_text nonce)) (codes "response")
    ≡ hmac_sha256 stand_in (codes "c0ffee") nonce
verify_response_sound_example =
    verify_response_sound stand_in server nonce
      (build_response stand_in client (challenge_text nonce)) stand_in-IsOpenSsl (λ h. cc)
      (verify_response-build_response stand_in server client nonce stand_in-IsOpenSsl refl (λ h. cc)
        nonce-IsPlain)
