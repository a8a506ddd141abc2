-- ===== src/Config/Typed.antt =====
-- The numbers of the configuration and their types in src/config/config.hpp.
pub mod Loading
use lantalk.Common.{
  ℕ, ◌-◌, ◌+◌, ◌%◌, ◌^◌, ◌≤◌, ◌<◌, ◌≡◌, ◌≢◌, refl, Bool, true, false, List, [], ◌∷◌, Option, none,
  some, arith, Bytes, codes, eq_bytes, ltb, leb, ◌==◌, if◌then◌else◌, if_cases, is_empty, All,
}
use lantalk.Common.Int.{ℤ, pos, negsuc, neg_ℕ, InRange}
use lantalk.Common.Decimal.{
  skip_spaces, starts_with_digit, read_digits, parse_magnitude, parse_sign, parse_int, stoi,
}
use lantalk.Config.{
  AppConfig, wrap, stoul, with_number, Stored, bad_value, unknown_key, stored, set,
  ensure_device_id, ensure_display_name,
}

-- uint16_t, uint32_t and int.
pub record IsTyped (c : AppConfig) : Type 0 where
  pub listen_port : c.listen_port < 2 ^ 16
  pub discovery_port : c.discovery_port < 2 ^ 16
  pub max_message_size : c.max_message_size < 2 ^ 32
  pub connect_timeout_secs : InRange (2 ^ 31) c.connect_timeout_secs
  pub read_timeout_secs : InRange (2 ^ 31) c.read_timeout_secs
  pub keepalive_interval_secs : InRange (2 ^ 31) c.keepalive_interval_secs

-- A predicate of what there is, if there is something.
abbrev pub IfSome {ℓ} : {A : Type ℓ} → (A → Type 0) → Option A → Type 0
IfSome P none = Unit
IfSome P (some a) = P a

IfSome-some {ℓ} :
    {A : Type ℓ} (P : A → Type 0) {o : Option A} {a : A} → IfSome P o → o ≡ some a → P a
IfSome-some P {o} {a} h e = rw e at h

neg_ℕ-InRange : (bound n : ℕ) → n ≤ bound → 0 < bound → InRange bound (neg_ℕ n)
neg_ℕ-InRange bound n h p = if_cases (InRange bound) (n == 0) (λ _. p) (λ e. ground arith)

parse_magnitude-IfSome :
    (P : ℤ → Type 0) (sign : ℕ → ℤ) (max : ℕ) (s : Bytes)
    → ((n : ℕ) → n ≤ max → P (sign n))
    → IfSome P (parse_magnitude sign max s)
unfolding parse_magnitude
parse_magnitude-IfSome P sign max s h =
    if_cases (IfSome P) (starts_with_digit s)
      (λ _.
        if_cases (IfSome P) (leb (read_digits 0 s) max) (λ e. h (read_digits 0 s) (ground arith))
          (λ _. tt))
      (λ _. tt)

parse_sign-InRange :
    (bound : ℕ) (s : Bytes) → 0 < bound → IfSome (InRange bound) (parse_sign bound s)
unfolding parse_sign
parse_sign-InRange bound [] p = tt
parse_sign-InRange bound (c ∷ s) p =
    let positive : (t : Bytes) → IfSome (InRange bound) (parse_magnitude pos (bound - 1) t) =
      λ t. parse_magnitude-IfSome (InRange bound) pos (bound - 1) t (λ n h. omega arith) in
    if_cases (IfSome (InRange bound)) (c == b'-')
      (λ _. parse_magnitude-IfSome (InRange bound) neg_ℕ bound s (λ n h. neg_ℕ-InRange bound n h p))
      (λ _. if_cases (IfSome (InRange bound)) (c == b'+') (λ _. positive s) (λ _. positive (c ∷ s)))

stoi-InRange : (v : Bytes) → IfSome (InRange (2 ^ 31)) (stoi v)
unfolding parse_int
stoi-InRange v = parse_sign-InRange (2 ^ 31) (skip_spaces v) (omega arith)

wrap16-lt : (z : ℤ) → wrap 16 z < 2 ^ 16
wrap16-lt (pos n) = omega arith
wrap16-lt (negsuc n) = omega arith

wrap32-lt : (z : ℤ) → wrap 32 z < 2 ^ 32
wrap32-lt (pos n) = omega arith
wrap32-lt (negsuc n) = omega arith

abbrev pub TypedResult : Stored → Type 0
TypedResult (stored c) = IsTyped c
TypedResult _ = Unit

with_number-Typed :
    (P : ℤ → Type 0) (o : Option ℤ) (f : ℤ → AppConfig)
    → IfSome P o
    → ((z : ℤ) → P z → IsTyped (f z))
    → TypedResult (with_number o f)
with_number-Typed P none f h k = tt
with_number-Typed P (some z) f h k = k z h

-- A chain of tests as a list.
abbrev choose : List (Bool × Stored) → Stored
choose [] = unknown_key
choose ((t, a) ∷ rest) = let later = choose rest in if t then a else later

choose-Typed :
    (branches : List (Bool × Stored))
    → All (λ b. TypedResult b.1) branches
    → TypedResult (choose branches)
choose-Typed [] h = tt
choose-Typed ((t, a) ∷ rest) h = if_cases TypedResult t (λ _. h.0) (λ _. choose-Typed rest h.1)

abbrev branches : AppConfig → Bytes → Bytes → List (Bool × Stored)
branches c key v =
    (eq_bytes key (codes "device_id"), stored (record c { device_id = v }))
    ∷ (eq_bytes key (codes "display_name"), stored (record c { display_name = v }))
    ∷ (eq_bytes key (codes "platform"), stored (record c { platform = v }))
    ∷ (
      eq_bytes key (codes "listen_port"),
      with_number (stoi v) (λ z. record c { listen_port = wrap 16 z }),
    )
    ∷ (
      eq_bytes key (codes "discovery_port"),
      with_number (stoi v) (λ z. record c { discovery_port = wrap 16 z }),
    )
    ∷ (
      eq_bytes key (codes "enable_ipv6"),
      stored (record c { enable_ipv6 = eq_bytes v (codes "true") }),
    )
    ∷ (
      eq_bytes key (codes "max_message_size"),
      with_number (stoul v) (λ z. record c { max_message_size = wrap 32 z }),
    )
    ∷ (
      eq_bytes key (codes "connect_timeout_secs"),
      with_number (stoi v) (λ z. record c { connect_timeout_secs = z }),
    )
    ∷ (
      eq_bytes key (codes "read_timeout_secs"),
      with_number (stoi v) (λ z. record c { read_timeout_secs = z }),
    )
    ∷ (
      eq_bytes key (codes "keepalive_interval_secs"),
      with_number (stoi v) (λ z. record c { keepalive_interval_secs = z }),
    )
    ∷ (
      eq_bytes key (codes "discovery_enabled"),
      stored (record c { discovery_enabled = eq_bytes v (codes "true") }),
    )
    ∷ (eq_bytes key (codes "psk_hash"), stored (record c { psk_hash = v }))
    ∷ (
      eq_bytes key (codes "require_auth"),
      stored (record c { require_auth = eq_bytes v (codes "true") }),
    )
    ∷ (eq_bytes key (codes "log_level"), stored (record c { log_level = v }))
    ∷ (eq_bytes key (codes "log_file"), stored (record c { log_file = v }))
    ∷ []

infixr 4 ◌&◌
◌&◌ : {A B : Type 0} → A → B → A × B
a & b = (a, b)

any : (o : Option ℤ) → IfSome (λ _. Unit {0}) o
any none = tt
any (some z) = tt

-- What set stores has its numbers within their types, if the configuration before had.
pub set-Typed : (c : AppConfig) (key v : Bytes) → IsTyped c → TypedResult (set c key v)
unfolding set
set-Typed c key v h =
    let int = stoi-InRange v in
    let typed : IsTyped c = h in
    choose-Typed (branches c key v) (
      ground arith
      & ground arith
      & ground arith
      & with_number-Typed (λ _. Unit) _ _ (any (stoi v)) (λ z _. ground (arith, wrap16-lt z))
      & with_number-Typed (λ _. Unit) _ _ (any (stoi v)) (λ z _. ground (arith, wrap16-lt z))
      & ground arith
      & with_number-Typed (λ _. Unit) _ _ (any (stoul v)) (λ z _. ground (arith, wrap32-lt z))
      & with_number-Typed (InRange (2 ^ 31)) _ _ int (λ z r. ground arith)
      & with_number-Typed (InRange (2 ^ 31)) _ _ int (λ z r. ground arith)
      & with_number-Typed (InRange (2 ^ 31)) _ _ int (λ z r. ground arith)
      & ground arith
      & ground arith
      & ground arith
      & ground arith
      & ground arith
      & tt)
