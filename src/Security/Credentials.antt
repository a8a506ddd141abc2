-- ===== src/Security/Credentials.antt =====
-- The certificate of src/security/crypto.cpp: generateSelfSignedCert and getOrCreateTlsCredentials, over
-- whether the calls of OpenSSL and of the C library succeed. What PEM_write writes is not looked at.
use lantalk.Common.{
  ◌≡◌, refl, Bool, true, false, not, ◌&&◌, ◌||◌, List, [], ◌∷◌, if◌then◌else◌, if_cases,
}

pub record Tools : Type 0 where
  pub makes_context : Bool
  pub inits_keygen : Bool
  pub sets_bits : Bool
  pub generates : Bool
  pub signs : Bool
  pub opens_key_file : Bool
  pub opens_cert_file : Bool

pub data Resource : Type 0 where
  private_key certificate : Resource

-- The result, whether each of the two files is written, and what is not freed.
pub record Generated : Type 0 where
  pub ok : Bool
  pub wrote_key : Bool
  pub wrote_cert : Bool
  pub leaked : List Resource

abbrev pub fails : Bool → List Resource → Generated
fails key rs = record { ok = false; wrote_key = key; wrote_cert = false; leaked = rs }

unfoldable pub generate_self_signed_cert : Tools → Generated
generate_self_signed_cert o =
    if not o.makes_context
    then fails false []
    else if not (o.inits_keygen && o.sets_bits && o.generates)
    then fails false []
    else if not o.signs
    then fails false []
    else if not o.opens_key_file
    then fails false (private_key ∷ certificate ∷ [])
    else if not o.opens_cert_file
    then fails true (private_key ∷ certificate ∷ [])
    else record { ok = true; wrote_key = true; wrote_cert = true; leaked = [] }

-- The two files of the directory.
pub record Files : Type 0 where
  pub has_cert : Bool
  pub has_key : Bool

-- The files afterwards, and whether the call returns; it throws if the certificate cannot be made.
unfoldable pub get_or_create_tls_credentials : Tools → Files → Files × Bool
unfolding generate_self_signed_cert
get_or_create_tls_credentials o f =
    let g = generate_self_signed_cert o in
    let after : Files = record {
      has_cert = f.has_cert || g.wrote_cert;
      has_key = f.has_key || g.wrote_key;
    } in
    if not f.has_cert || not f.has_key then (after, g.ok) else (f, true)

-- A certificate that is returned is written, with its key, and nothing is leaked.
abbrev IsWhole : Generated → Type 0
IsWhole g = g.ok ≡ true → (g.wrote_cert ≡ true) × (g.wrote_key ≡ true) × (g.leaked ≡ [])

generate_self_signed_cert-IsWhole : (o : Tools) → IsWhole (generate_self_signed_cert o)
unfolding generate_self_signed_cert
generate_self_signed_cert-IsWhole o =
    if_cases IsWhole (not o.makes_context) (λ _ e. cc)
      (λ _.
        if_cases IsWhole (not (o.inits_keygen && o.sets_bits && o.generates)) (λ _ e. cc)
          (λ _.
            if_cases IsWhole (not o.signs) (λ _ e. cc)
              (λ _.
                if_cases IsWhole (not o.opens_key_file) (λ _ e. cc)
                  (λ _.
                    if_cases IsWhole (not o.opens_cert_file) (λ _ e. cc)
                      (λ _ _. (refl, refl, refl))))))

or_true_right : (b c : Bool) → c ≡ true → b || c ≡ true
or_true_right true c e = refl
or_true_right false c e = e

-- Nothing is done where both files are there.
abbrev AreThere : Tools → Files → Type 0
AreThere p g =
    (g.has_cert ≡ true) × (g.has_key ≡ true) × (get_or_create_tls_credentials p g ≡ (g, true))

both-AreThere :
    (p : Tools) (c k : Bool)
    → c ≡ true
    → k ≡ true
    → AreThere p (record { has_cert = c; has_key = k })
unfolding get_or_create_tls_credentials
both-AreThere p c k e f = rw (e, f) (refl, refl, refl)

again :
    (o p : Tools) (c k : Bool)
    → IsWhole (generate_self_signed_cert o)
    → (get_or_create_tls_credentials o (record { has_cert = c; has_key = k })).1 ≡ true
    → AreThere p (get_or_create_tls_credentials o (record { has_cert = c; has_key = k })).0
unfolding get_or_create_tls_credentials
again o p true true w h = both-AreThere p true true refl refl
again o p true false w h = let (wc, wk, l) = w h in both-AreThere p true _ refl wk
again o p false k w h = let (wc, wk, l) = w h in both-AreThere p _ _ wc (or_true_right k _ wk)

-- After a call that returns, both files are there, and a further call changes nothing, whatever
-- OpenSSL does in it.
get_or_create_tls_credentials-again :
    (o p : Tools) (f : Files)
    → (get_or_create_tls_credentials o f).1 ≡ true
    → AreThere p (get_or_create_tls_credentials o f).0
get_or_create_tls_credentials-again o p f =
    again o p f.has_cert f.has_key (generate_self_signed_cert-IsWhole o)
