-- ===== src/Config/File/Savable.antt =====
-- The configurations that survive a save, and the lines that save writes, src/config/config.cpp.
use lantalk.Common.{
  ℕ, Bool, ◌^◌, ◌<◌, ◌≡◌, ◌≢◌, List, [], ◌∷◌, ◌++◌, arith, Bytes, codes, All, All-append,
}
use lantalk.Common.Int.{ℤ, InRange}
use lantalk.Common.Decimal.{print_ℕ, to_string, print_ℕ-IsDigit}
use lantalk.Common.Search.{Lacks}
use lantalk.Config.{AppConfig}
use lantalk.Config.File.{print_bool, save_lines, trim}
use lantalk.Config.File.Text.{digits-IsSolid, to_string-IsSolid, Lacks-IsSolid, print_bool-IsSolid}

-- A configuration whose texts have no line break and no blanks at their ends, and whose numbers fit
-- their types.
abbrev pub IsText : Bytes → Type 0
IsText s = (trim s ≡ s) × Lacks b'\n' s

pub record IsSavable (c : AppConfig) : Type 0 where
  pub device_id_text : IsText c.device_id
  pub display_name_text : IsText c.display_name
  pub platform_text : IsText c.platform
  pub listen_port_range : c.listen_port < 2 ^ 16
  pub discovery_port_range : c.discovery_port < 2 ^ 16
  pub max_message_size_range : c.max_message_size < 2 ^ 32
  pub connect_timeout_secs_range : InRange (2 ^ 31) c.connect_timeout_secs
  pub read_timeout_secs_range : InRange (2 ^ 31) c.read_timeout_secs
  pub keepalive_interval_secs_range : InRange (2 ^ 31) c.keepalive_interval_secs
  pub psk_hash_text : IsText c.psk_hash
  pub log_level_text : IsText c.log_level
  pub log_file_text : IsText c.log_file

-- The lines of save in three parts.
abbrev pub identity_lines : AppConfig → List Bytes
identity_lines c =
    codes "[identity]"
    ∷ (codes "device_id = " ++ c.device_id)
    ∷ (codes "display_name = " ++ c.display_name)
    ∷ (codes "platform = " ++ c.platform)
    ∷ []
    ∷ []

abbrev pub network_lines : AppConfig → List Bytes
network_lines c =
    codes "[network]"
    ∷ (codes "listen_port = " ++ print_ℕ c.listen_port)
    ∷ (codes "discovery_port = " ++ print_ℕ c.discovery_port)
    ∷ (codes "enable_ipv6 = " ++ print_bool c.enable_ipv6)
    ∷ (codes "max_message_size = " ++ print_ℕ c.max_message_size)
    ∷ (codes "connect_timeout_secs = " ++ to_string c.connect_timeout_secs)
    ∷ (codes "read_timeout_secs = " ++ to_string c.read_timeout_secs)
    ∷ (codes "keepalive_interval_secs = " ++ to_string c.keepalive_interval_secs)
    ∷ []
    ∷ []

abbrev pub other_lines : AppConfig → List Bytes
other_lines c =
    codes "[discovery]"
    ∷ (codes "discovery_enabled = " ++ print_bool c.discovery_enabled)
    ∷ []
    ∷ codes "[security]"
    ∷ (codes "psk_hash = " ++ c.psk_hash)
    ∷ (codes "require_auth = " ++ print_bool c.require_auth)
    ∷ []
    ∷ codes "[logging]"
    ∷ (codes "log_level = " ++ c.log_level)
    ∷ (codes "log_file = " ++ c.log_file)
    ∷ []

entry-Lacks : (k v : Bytes) → Lacks b'\n' k → Lacks b'\n' v → Lacks b'\n' (k ++ v)
entry-Lacks k v a b = All-append (λ c. c ≢ b'\n') k v a b

digits-Lacks : (n : ℕ) → Lacks b'\n' (print_ℕ n)
digits-Lacks n = Lacks-IsSolid _ (digits-IsSolid _ (print_ℕ-IsDigit n))

int-Lacks : (i : ℤ) → Lacks b'\n' (to_string i)
int-Lacks i = Lacks-IsSolid _ (to_string-IsSolid i)

bool-Lacks : (b : Bool) → Lacks b'\n' (print_bool b)
bool-Lacks b = Lacks-IsSolid _ (print_bool-IsSolid b)

-- The facts on the lines one after the other.
infixr 4 ◌&◌
◌&◌ : {A B : Type 0} → A → B → A × B
a & b = (a, b)

identity_lines-Lacks : (c : AppConfig) → IsSavable c → All (Lacks b'\n') (identity_lines c)
identity_lines-Lacks c s =
    omega arith
    & entry-Lacks (codes "device_id = ") _ (omega arith) (s.device_id_text.1)
    & entry-Lacks (codes "display_name = ") _ (omega arith) (s.display_name_text.1)
    & entry-Lacks (codes "platform = ") _ (omega arith) (s.platform_text.1)
    & tt
    & tt

network_lines-Lacks : (c : AppConfig) → IsSavable c → All (Lacks b'\n') (network_lines c)
network_lines-Lacks c s =
    omega arith
    & entry-Lacks (codes "listen_port = ") _ (omega arith) (digits-Lacks c.listen_port)
    & entry-Lacks (codes "discovery_port = ") _ (omega arith) (digits-Lacks c.discovery_port)
    & entry-Lacks (codes "enable_ipv6 = ") _ (omega arith) (bool-Lacks c.enable_ipv6)
    & entry-Lacks (codes "max_message_size = ") _ (omega arith) (digits-Lacks c.max_message_size)
    & entry-Lacks (codes "connect_timeout_secs = ") _ (omega arith)
        (int-Lacks c.connect_timeout_secs)
    & entry-Lacks (codes "read_timeout_secs = ") _ (omega arith) (int-Lacks c.read_timeout_secs)
    & entry-Lacks (codes "keepalive_interval_secs = ") _ (omega arith)
        (int-Lacks c.keepalive_interval_secs)
    & tt
    & tt

other_lines-Lacks : (c : AppConfig) → IsSavable c → All (Lacks b'\n') (other_lines c)
other_lines-Lacks c s =
    omega arith
    & entry-Lacks (codes "discovery_enabled = ") _ (omega arith) (bool-Lacks c.discovery_enabled)
    & tt
    & omega arith
    & entry-Lacks (codes "psk_hash = ") _ (omega arith) (s.psk_hash_text.1)
    & entry-Lacks (codes "require_auth = ") _ (omega arith) (bool-Lacks c.require_auth)
    & tt
    & omega arith
    & entry-Lacks (codes "log_level = ") _ (omega arith) (s.log_level_text.1)
    & entry-Lacks (codes "log_file = ") _ (omega arith) (s.log_file_text.1)
    & tt

pub save_lines-Lacks : (c : AppConfig) → IsSavable c → All (Lacks b'\n') (save_lines c)
save_lines-Lacks c s =
    All-append (Lacks b'\n') (identity_lines c) (network_lines c ++ other_lines c)
      (identity_lines-Lacks c s)
      (All-append (Lacks b'\n') (network_lines c) (other_lines c) (network_lines-Lacks c s)
        (other_lines-Lacks c s))
