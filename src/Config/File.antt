-- ===== src/Config/File.antt =====
-- The INI file of src/config/config.cpp: what save writes, and the loop of load.
pub mod Text
pub mod Entries
pub mod Savable
pub mod RoundTrip
use lantalk.Common.{
  ℕ, Bool, true, false, ◌&&◌, ◌||◌, List, [], ◌∷◌, ◌++◌, Option, none, some, Bytes, codes, ◌==◌,
  if◌then◌else◌, is_empty,
}
use lantalk.Common.Decimal.{to_string, print_ℕ}
use lantalk.Config.{
  AppConfig, Stored, bad_value, unknown_key, stored, set, ensure_device_id, ensure_display_name,
}

abbrev pub print_bool : Bool → Bytes
print_bool true = codes "true"
print_bool false = codes "false"

-- The lines of save; "\n\n" ends a line and an empty one.
abbrev pub save_lines : AppConfig → List Bytes
save_lines c =
    codes "[identity]"
    ∷ (codes "device_id = " ++ c.device_id)
    ∷ (codes "display_name = " ++ c.display_name)
    ∷ (codes "platform = " ++ c.platform)
    ∷ []
    ∷ codes "[network]"
    ∷ (codes "listen_port = " ++ print_ℕ c.listen_port)
    ∷ (codes "discovery_port = " ++ print_ℕ c.discovery_port)
    ∷ (codes "enable_ipv6 = " ++ print_bool c.enable_ipv6)
    ∷ (codes "max_message_size = " ++ print_ℕ c.max_message_size)
    ∷ (codes "connect_timeout_secs = " ++ to_string c.connect_timeout_secs)
    ∷ (codes "read_timeout_secs = " ++ to_string c.read_timeout_secs)
    ∷ (codes "keepalive_interval_secs = " ++ to_string c.keepalive_interval_secs)
    ∷ []
    ∷ codes "[discovery]"
    ∷ (codes "discovery_enabled = " ++ print_bool c.discovery_enabled)
    ∷ []
    ∷ codes "[security]"
    ∷ (codes "psk_hash = " ++ c.psk_hash)
    ∷ (codes "require_auth = " ++ print_bool c.require_auth)
    ∷ []
    ∷ codes "[logging]"
    ∷ (codes "log_level = " ++ c.log_level)
    ∷ (codes "log_file = " ++ c.log_file)
    ∷ []

unfoldable pub write_lines : List Bytes → Bytes
write_lines [] = []
write_lines (l ∷ ls) = l ++ b'\n' ∷ write_lines ls

-- The content of the file that save writes.
unfoldable pub save_text : AppConfig → Bytes
unfolding write_lines
save_text c = write_lines (save_lines c)

-- std::getline until the end of the file.
abbrev pub onto_first : ℕ → List Bytes → List Bytes
onto_first c [] = (c ∷ []) ∷ []
onto_first c (l ∷ ls) = (c ∷ l) ∷ ls

unfoldable pub lines : Bytes → List Bytes
lines [] = []
lines (c ∷ s) = let rest = lines s in if c == b'\n' then [] ∷ rest else onto_first c rest

abbrev pub is_blank : ℕ → Bool
is_blank c = c == b' ' || c == b'\t'

unfoldable pub trim_left : Bytes → Bytes
trim_left [] = []
trim_left (c ∷ s) = let rest = trim_left s in if is_blank c then rest else c ∷ s

unfoldable pub trim_right : Bytes → Bytes
trim_right [] = []
trim_right (c ∷ s) = let rest = trim_right s in if is_blank c && is_empty rest then [] else c ∷ rest

abbrev pub trim : Bytes → Bytes
trim s = trim_right (trim_left s)

abbrev pub onto_key : ℕ → Option (Bytes × Bytes) → Option (Bytes × Bytes)
onto_key c none = none
onto_key c (some (k, v)) = some (c ∷ k, v)

-- The text before the first '=' and behind it.
unfoldable pub split_eq : Bytes → Option (Bytes × Bytes)
split_eq [] = none
split_eq (c ∷ s) = let rest = onto_key c (split_eq s) in if c == b'=' then some ([], s) else rest

abbrev pub last_of : ℕ → Bytes → ℕ
last_of b [] = b
last_of b (c ∷ s) = last_of c s

-- A section's header.
abbrev pub is_section : ℕ → Bytes → Bool
is_section c s = c == b'[' && last_of c s == b']'

-- `set(key, value)` with its result dropped: `none` where it throws.
abbrev pub kept : AppConfig → Stored → Option AppConfig
kept c bad_value = none
kept c unknown_key = some c
kept c (stored d) = some d

abbrev pub load_entry : AppConfig → Option (Bytes × Bytes) → Option AppConfig
load_entry c none = some c
load_entry c (some (k, v)) = kept c (set c (trim k) (trim v))

unfoldable pub load_line : AppConfig → Bytes → Option AppConfig
unfolding trim_left trim_right split_eq
load_line c [] = some c
load_line c (x ∷ s) =
    if x == b';' || x == b'#'
    then some c
    else if is_section x s
    then some c
    else load_entry c (split_eq (x ∷ s))

unfoldable pub load_lines : AppConfig → List Bytes → Option AppConfig
unfolding load_line
load_lines c [] = some c
load_lines c (l ∷ ls) = elim (load_line c l) [ none ↦ none | some d ↦ load_lines d ls ]

-- The loop of load over the content of the file.
unfoldable pub load_text : AppConfig → Bytes → Option AppConfig
unfolding load_lines lines
load_text c text = load_lines c (lines text)

-- load of a file that is there and can be opened: its loop, then the fields that must not be empty.
unfoldable pub load : Bytes → Bytes → AppConfig → Bytes → Option AppConfig
unfolding load_text
load uuid host c text = elim (load_text c text) [
  | none ↦ none
  | some d ↦ some (ensure_display_name host (ensure_device_id uuid d))
]
