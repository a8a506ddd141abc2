-- ===== src/Config/File/RoundTrip.antt =====
-- load of what save writes, src/config/config.cpp.
use lantalk.Common.{
  Option-cases, inl, inr, none, ◌≡◌, refl, sym, ap, ◌∙◌, List, [], ◌∷◌, ◌++◌, some, Bytes,
}
use lantalk.Config.{AppConfig}
use lantalk.Config.File.{save_lines, save_text, load_line, load_lines, load_text}
use lantalk.Config.File.Text.{lines-write_lines}
use lantalk.Config.File.Savable.{
  IsSavable, identity_lines, network_lines, other_lines, save_lines-Lacks,
}
use lantalk.Config.File.Entries

next_line :
    (c d : AppConfig) (l : Bytes) (ls : List Bytes)
    → load_line c l ≡ some d
    → load_lines c (l ∷ ls) ≡ load_lines d ls
unfolding load_lines
next_line c d l ls h = rw (h, load_lines) refl

then_line :
    (c d : AppConfig) {e : AppConfig} (l : Bytes) (ls : List Bytes)
    → load_line c l ≡ some d
    → load_lines d ls ≡ some e
    → load_lines c (l ∷ ls) ≡ some e
then_line c d l ls h k = next_line c d l ls h ∙ k

load_none : (c : AppConfig) → load_lines c [] ≡ some c
unfolding load_lines
load_none c = refl

some_injective : {c d : AppConfig} → some c ≡ some d → c ≡ d
some_injective e = cc

load_lines-append :
    (c d : AppConfig) (xs ys : List Bytes)
    → load_lines c xs ≡ some d
    → load_lines c (xs ++ ys) ≡ load_lines d ys
unfolding load_lines
load_lines-append c d [] ys h = ap (λ z. load_lines z ys) (some_injective h)
load_lines-append c d (l ∷ xs) ys h = elim (Option-cases (load_line c l)) [
  | inl e ↦ let bad : none ≡ some d = rw (e, load_lines) at h in cc
  | inr (b, e) ↦
      next_line c b l (xs ++ ys) e ∙ load_lines-append b d xs ys (sym (next_line c b l xs e) ∙ h)
]

-- What the first two parts leave.
abbrev with_identity : AppConfig → AppConfig → AppConfig
with_identity c0 c = record c0 {
  device_id = c.device_id;
  display_name = c.display_name;
  platform = c.platform;
}

abbrev with_network : AppConfig → AppConfig → AppConfig
with_network c0 c = record c0 {
  listen_port = c.listen_port;
  discovery_port = c.discovery_port;
  enable_ipv6 = c.enable_ipv6;
  max_message_size = c.max_message_size;
  connect_timeout_secs = c.connect_timeout_secs;
  read_timeout_secs = c.read_timeout_secs;
  keepalive_interval_secs = c.keepalive_interval_secs;
}

abbrev with_other : AppConfig → AppConfig → AppConfig
with_other c0 c = record c0 {
  discovery_enabled = c.discovery_enabled;
  psk_hash = c.psk_hash;
  require_auth = c.require_auth;
  log_level = c.log_level;
  log_file = c.log_file;
}

load_lines-identity :
    (c0 c : AppConfig) → IsSavable c → load_lines c0 (identity_lines c) ≡ some (with_identity c0 c)
load_lines-identity c0 c s = then_line _ _ _ _ (Entries.load_section _ _ refl) (
    then_line _ _ _ _ (Entries.load_device_id _ c.device_id s.device_id_text.0) (
      then_line _ _ _ _ (Entries.load_display_name _ c.display_name s.display_name_text.0) (
        then_line _ _ _ _ (Entries.load_platform _ c.platform s.platform_text.0)
          (then_line _ _ _ _ (Entries.load_empty _) (load_none _)))))

load_lines-network :
    (c0 c : AppConfig) → IsSavable c → load_lines c0 (network_lines c) ≡ some (with_network c0 c)
load_lines-network c0 c s = then_line _ _ _ _ (Entries.load_section _ _ refl) (
    then_line _ _ _ _ (Entries.load_listen_port _ c.listen_port s.listen_port_range) (
      then_line _ _ _ _ (Entries.load_discovery_port _ c.discovery_port s.discovery_port_range) (
        then_line _ _ _ _ (Entries.load_enable_ipv6 _ c.enable_ipv6) (
          then_line _ _ _ _
            (Entries.load_max_message_size _ c.max_message_size s.max_message_size_range)
            (then_line _ _ _ _
              (Entries.load_connect_timeout_secs _ c.connect_timeout_secs
                s.connect_timeout_secs_range)
              (then_line _ _ _ _
                (Entries.load_read_timeout_secs _ c.read_timeout_secs s.read_timeout_secs_range)
                (then_line _ _ _ _
                  (Entries.load_keepalive_interval_secs _ c.keepalive_interval_secs
                    s.keepalive_interval_secs_range)
                  (then_line _ _ _ _ (Entries.load_empty _) (load_none _)))))))))

load_lines-other :
    (c0 c : AppConfig) → IsSavable c → load_lines c0 (other_lines c) ≡ some (with_other c0 c)
load_lines-other c0 c s = then_line _ _ _ _ (Entries.load_section _ _ refl) (
    then_line _ _ _ _ (Entries.load_discovery_enabled _ c.discovery_enabled) (
      then_line _ _ _ _ (Entries.load_empty _) (
        then_line _ _ _ _ (Entries.load_section _ _ refl) (
          then_line _ _ _ _ (Entries.load_psk_hash _ c.psk_hash s.psk_hash_text.0) (
            then_line _ _ _ _ (Entries.load_require_auth _ c.require_auth) (
              then_line _ _ _ _ (Entries.load_empty _) (
                then_line _ _ _ _ (Entries.load_section _ _ refl) (
                  then_line _ _ _ _ (Entries.load_log_level _ c.log_level s.log_level_text.0) (
                    then_line _ _ _ _ (Entries.load_log_file _ c.log_file s.log_file_text.0)
                      (load_none _))))))))))

load_lines-save_lines : (c0 c : AppConfig) → IsSavable c → load_lines c0 (save_lines c) ≡ some c
load_lines-save_lines c0 c s =
    let c1 = with_identity c0 c in
    let c2 = with_network c1 c in
    load_lines-append c0 c1 (identity_lines c) (network_lines c ++ other_lines c)
      (load_lines-identity c0 c s)
    ∙ load_lines-append c1 c2 (network_lines c) (other_lines c) (load_lines-network c1 c s)
    ∙ load_lines-other c2 c s

-- A configuration that is saved and loaded again, into whatever configuration, is the same in all its
-- fifteen fields, provided that its texts have no line break and no blanks at their ends and that its
-- numbers fit their types.
pub load_text-save_text : (c0 c : AppConfig) → IsSavable c → load_text c0 (save_text c) ≡ some c
unfolding load_text save_text
load_text-save_text c0 c s =
    ap (load_lines c0) (lines-write_lines (save_lines c) (save_lines-Lacks c s))
    ∙ load_lines-save_lines c0 c s
