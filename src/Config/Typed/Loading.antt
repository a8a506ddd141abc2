-- ===== src/Config/Typed/Loading.antt =====
-- What src/config/config.cpp loads from a file, whatever is in it.
use lantalk.Common.{
  ◌≡◌, false, List, [], ◌∷◌, Option, none, some, arith, Bytes, ◌||◌, ◌==◌, if_cases, is_empty, inl,
  inr, Option-cases,
}
use lantalk.Config.{
  AppConfig, Stored, bad_value, unknown_key, stored, set, ensure_device_id, ensure_display_name,
}
use lantalk.Config.File.{
  trim, split_eq, is_section, kept, load_entry, load_line, load_lines, lines, load_text, load,
}
use lantalk.Config.Store.{
  Draw, Disk, Loaded, escapes, loads, initial_config, platform_name, new_config, read_hostname,
  loaded_text, load_content, load_file, start_up,
}
use lantalk.Config.Typed.{IsTyped, IfSome, TypedResult, set-Typed}

kept-Typed : (c : AppConfig) (r : Stored) → IsTyped c → TypedResult r → IfSome IsTyped (kept c r)
kept-Typed c bad_value h k = tt
kept-Typed c unknown_key h k = h
kept-Typed c (stored d) h k = k

load_entry-Typed :
    (c : AppConfig) (o : Option (Bytes × Bytes)) → IsTyped c → IfSome IsTyped (load_entry c o)
load_entry-Typed c none h = h
load_entry-Typed c (some (k, v)) h =
    kept-Typed c (set c (trim k) (trim v)) h (set-Typed c (trim k) (trim v) h)

load_line-Typed : (c : AppConfig) (l : Bytes) → IsTyped c → IfSome IsTyped (load_line c l)
unfolding load_line
load_line-Typed c [] h = h
load_line-Typed c (x ∷ s) h =
    if_cases (IfSome IsTyped) (x == b';' || x == b'#') (λ _. h)
      (λ _.
        if_cases (IfSome IsTyped) (is_section x s) (λ _. h)
          (λ _. load_entry-Typed c (split_eq (x ∷ s)) h))

load_lines-Typed : (c : AppConfig) (ls : List Bytes) → IsTyped c → IfSome IsTyped (load_lines c ls)
unfolding load_lines
load_lines-Typed c [] h = h
load_lines-Typed c (l ∷ ls) h = elim (Option-cases (load_line c l)) [
  | inl e ↦ rw (e, load_lines) tt
  | inr (d, e) ↦
      let k : IsTyped d = rw e at (load_line-Typed c l h) in
      rw (e, load_lines) (load_lines-Typed d ls k)
]

-- The numbers fit their types, and the device has an identifier and a name.
pub record IsReady (c : AppConfig) : Type 0 where
  pub typed : IsTyped c
  pub device_id : is_empty c.device_id ≡ false
  pub display_name : is_empty c.display_name ≡ false

ensured :
    (uuid host : Bytes) (c : AppConfig)
    → is_empty uuid ≡ false
    → IsTyped c
    → IsReady (ensure_display_name host (ensure_device_id uuid c))
unfolding ensure_display_name ensure_device_id
ensured uuid host c u h = record {
  typed = ground arith;
  device_id = ground arith;
  display_name = ground arith;
}

-- How a start ends.
abbrev pub StartsReady : Loaded → Type 0
StartsReady escapes = Unit
StartsReady (loads d c ok) = IsReady c

new_config-IsReady : (w : Draw) → is_empty w.uuid ≡ false → IsReady (new_config w)
unfolding new_config
new_config-IsReady w u =
    ensured w.uuid (read_hostname w.hostname) (record initial_config { platform = platform_name }) u
      (record {
        listen_port = omega arith;
        discovery_port = omega arith;
        max_message_size = omega arith;
        connect_timeout_secs = omega arith;
        read_timeout_secs = omega arith;
        keepalive_interval_secs = omega arith;
      })

module _ (w : Draw) (u : is_empty w.uuid ≡ false) where
  load-IfSome :
      (c : AppConfig) (text : Bytes)
      → IsTyped c
      → IfSome IsReady (load w.uuid (read_hostname w.hostname) c text)
  unfolding load_text load
  load-IfSome c text h = elim (Option-cases (load_text c text)) [
    | inl e ↦ rw (e, load) tt
    | inr (d, e) ↦
        let k : IsTyped d = rw e at (load_lines-Typed c (lines text) h) in
        rw (e, load) (ensured w.uuid (read_hostname w.hostname) d u k)
  ]

  loaded_text-StartsReady :
      (d : Disk) (o : Option AppConfig) → IfSome IsReady o → StartsReady (loaded_text d o)
  loaded_text-StartsReady d none h = tt
  loaded_text-StartsReady d (some c) h = h

  load_content-StartsReady :
      (d : Disk) (c : AppConfig) (content : Option Bytes)
      → IsReady c
      → StartsReady (load_content w d c content)
  unfolding load_content
  load_content-StartsReady d c none h = h
  load_content-StartsReady d c (some text) h =
      if_cases StartsReady d.readable
        (λ _. loaded_text-StartsReady d _ (load-IfSome c text h.typed)) (λ _. h)

  -- Whatever is in the file of the configuration, and whether or not it can be read or written: if
  -- no exception of stoi or stoul escapes, a command starts with a configuration in which the ports,
  -- the message size and the times are values of their types uint16_t, uint32_t and int, and the
  -- identifier and the name are not empty, provided that the identifier drawn at the start is not.
  pub start_up-StartsReady : (d : Disk) → StartsReady (start_up w d)
  unfolding start_up load_file
  start_up-StartsReady d = load_content-StartsReady d (new_config w) d.file (new_config-IsReady w u)
