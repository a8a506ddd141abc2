-- ===== src/Config.antt =====
-- src/config/config.cpp: the configuration, its keys, and the text of its file. The file's content,
-- the host's name and the random identifier are arguments.
pub mod File
pub mod Keys
pub mod Typed
pub mod Store
use lantalk.Common.{
  ℕ, ◌+◌, ◌-◌, ◌%◌, ◌^◌, Bool, true, [], ◌∷◌, Option, none, some, Bytes, codes, eq_bytes, ◌==◌,
  if◌then◌else◌, is_empty,
}
use lantalk.Common.Int.{ℤ, pos, negsuc, neg_ℕ}
use lantalk.Common.Decimal.{stoi, skip_spaces, parse_magnitude}

pub record AppConfig : Type 0 where
  pub device_id : Bytes
  pub display_name : Bytes
  pub platform : Bytes
  pub listen_port : ℕ
  pub discovery_port : ℕ
  pub enable_ipv6 : Bool
  pub max_message_size : ℕ
  pub connect_timeout_secs : ℤ
  pub read_timeout_secs : ℤ
  pub keepalive_interval_secs : ℤ
  pub discovery_enabled : Bool
  pub psk_hash : Bytes
  pub require_auth : Bool
  pub log_level : Bytes
  pub log_file : Bytes

-- The conversions of std::stoi's int to uint16_t and of std::stoul's result to uint32_t.
abbrev pub wrap : ℕ → ℤ → ℕ
wrap w (pos n) = n % 2 ^ w
wrap w (negsuc n) = 2 ^ w - 1 - n % 2 ^ w

-- std::stoul: a minus sign negates modulo 2^64, which `wrap` then sees as a negative number.
unfoldable pub stoul_sign : Bytes → Option ℤ
unfolding parse_magnitude
stoul_sign [] = none
stoul_sign (c ∷ s) =
    if c == b'-'
    then parse_magnitude neg_ℕ (2 ^ 64 - 1) s
    else if c == b'+'
    then parse_magnitude pos (2 ^ 64 - 1) s
    else parse_magnitude pos (2 ^ 64 - 1) (c ∷ s)

abbrev pub stoul : Bytes → Option ℤ
stoul s = stoul_sign (skip_spaces s)

-- What `set` ends with: an exception of stoi or stoul, false, or true with the new configuration.
pub data Stored : Type 0 where
  bad_value unknown_key : Stored
  stored : AppConfig → Stored

abbrev pub with_number : Option ℤ → (ℤ → AppConfig) → Stored
with_number none f = bad_value
with_number (some z) f = stored (f z)

unfoldable pub set : AppConfig → Bytes → Bytes → Stored
set c key v =
    if eq_bytes key (codes "device_id")
    then stored (record c { device_id = v })
    else if eq_bytes key (codes "display_name")
    then stored (record c { display_name = v })
    else if eq_bytes key (codes "platform")
    then stored (record c { platform = v })
    else if eq_bytes key (codes "listen_port")
    then with_number (stoi v) (λ z. record c { listen_port = wrap 16 z })
    else if eq_bytes key (codes "discovery_port")
    then with_number (stoi v) (λ z. record c { discovery_port = wrap 16 z })
    else if eq_bytes key (codes "enable_ipv6")
    then stored (record c { enable_ipv6 = eq_bytes v (codes "true") })
    else if eq_bytes key (codes "max_message_size")
    then with_number (stoul v) (λ z. record c { max_message_size = wrap 32 z })
    else if eq_bytes key (codes "connect_timeout_secs")
    then with_number (stoi v) (λ z. record c { connect_timeout_secs = z })
    else if eq_bytes key (codes "read_timeout_secs")
    then with_number (stoi v) (λ z. record c { read_timeout_secs = z })
    else if eq_bytes key (codes "keepalive_interval_secs")
    then with_number (stoi v) (λ z. record c { keepalive_interval_secs = z })
    else if eq_bytes key (codes "discovery_enabled")
    then stored (record c { discovery_enabled = eq_bytes v (codes "true") })
    else if eq_bytes key (codes "psk_hash")
    then stored (record c { psk_hash = v })
    else if eq_bytes key (codes "require_auth")
    then stored (record c { require_auth = eq_bytes v (codes "true") })
    else if eq_bytes key (codes "log_level")
    then stored (record c { log_level = v })
    else if eq_bytes key (codes "log_file")
    then stored (record c { log_file = v })
    else unknown_key

unfoldable pub get_as_string : AppConfig → Bytes → Option Bytes
get_as_string c key =
    if eq_bytes key (codes "device_id")
    then some c.device_id
    else if eq_bytes key (codes "display_name")
    then some c.display_name
    else if eq_bytes key (codes "platform")
    then some c.platform
    else if eq_bytes key (codes "log_level")
    then some c.log_level
    else if eq_bytes key (codes "log_file")
    then some c.log_file
    else none

-- ensureDeviceId, with the identifier that generateUUID draws.
unfoldable pub ensure_device_id : Bytes → AppConfig → AppConfig
ensure_device_id uuid c = if is_empty c.device_id then record c { device_id = uuid } else c

-- ensureDisplayName, with readHostname's answer.
unfoldable pub ensure_display_name : Bytes → AppConfig → AppConfig
ensure_display_name host c =
    let name = if is_empty host then codes "UnknownUser" else host in
    if is_empty c.display_name then record c { display_name = name } else c
