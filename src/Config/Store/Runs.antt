-- ===== src/Config/Store/Runs.antt =====
-- class Config of src/config/config.cpp from one run of the program to the next.
use lantalk.Common.{
  ◌≡◌, refl, ap, ◌∙◌, Bool, true, false, not, ◌&&◌, [], ◌∷◌, none, some, arith, Bytes, codes,
  if◌then◌else◌, is_empty, if_cases,
}
use lantalk.Config.{AppConfig, ensure_device_id, ensure_display_name}
use lantalk.Config.File.{save_text, load, load_text, trim_left, trim_right}
use lantalk.Config.File.Savable.{IsText, IsSavable}
use lantalk.Config.File.RoundTrip.{load_text-save_text}
use lantalk.Config.Store.{
  Draw, new_config, Disk, save, loads, load_content, load_file, start_up, read_hostname,
}

-- A configuration with an identifier and a name.
abbrev pub IsIdentified : AppConfig → Type 0
IsIdentified c = (is_empty c.device_id ≡ false) × (is_empty c.display_name ≡ false)

ensure-IsIdentified :
    (uuid host : Bytes) (c : AppConfig)
    → IsIdentified c
    → ensure_display_name host (ensure_device_id uuid c) ≡ c
unfolding ensure_display_name ensure_device_id
ensure-IsIdentified uuid host c (d, n) = rw (d, n)

load_from :
    (uuid host : Bytes) (c0 c : AppConfig) (text : Bytes)
    → load_text c0 text ≡ some c
    → IsIdentified c
    → load uuid host c0 text ≡ some c
unfolding load
load_from uuid host c0 c text e i = rw (e, load) (rw (ensure-IsIdentified uuid host c i))

load-save_text :
    (uuid host : Bytes) (c0 c : AppConfig)
    → IsSavable c
    → IsIdentified c
    → load uuid host c0 (save_text c) ≡ some c
load-save_text uuid host c0 c s i =
    load_from uuid host c0 c (save_text c) (load_text-save_text c0 c s) i

-- What the next start of the program makes of a disk.
abbrev pub IsKept : Disk → AppConfig → Type 0
IsKept d c = (w : Draw) → start_up w d ≡ loads d c true

-- When save returns true, every later start of the program, whatever it draws, has the saved
-- configuration again and leaves the disk as it is, if the file can be read and the configuration has
-- an identifier, a name, texts without line breaks and outer blanks, and numbers in range. When save
-- returns false, the file is what it was.
pub save-IsKept :
    (d : Disk) (c : AppConfig)
    → IsSavable c
    → IsIdentified c
    → d.readable ≡ true
    → let r = save d c in (r.1 ≡ true → IsKept r.0 c) × (r.1 ≡ false → r.0.file ≡ d.file)
unfolding save start_up load_file load_content
save-IsKept d c s i readable =
    if_cases {A = Disk × Bool}
      (λ r. (r.1 ≡ true → IsKept r.0 c) × (r.1 ≡ false → r.0.file ≡ d.file))
      (not d.has_directory && not d.makes_directory) (λ _. ((λ e. cc), λ _. refl))
      (λ _.
        if_cases {A = Disk × Bool}
          (λ r. (r.1 ≡ true → IsKept r.0 c) × (r.1 ≡ false → r.0.file ≡ d.file)) d.writable
          (λ _. (
            (λ _ w.
                rw (
                  readable,
                  load-save_text w.uuid (read_hostname w.hostname) (new_config w) c s i,
                )),
            λ e. cc,
          ))
          (λ _. ((λ e. cc), λ _. refl)))

-- What a first start draws: an identifier and a host's name that can be written to the file.
abbrev pub IsUsual : Draw → Type 0
IsUsual w = IsText w.uuid × IsText (read_hostname w.hostname) × (is_empty w.uuid ≡ false)

abbrev host_name : Bytes → Bytes
host_name host = if is_empty host then codes "UnknownUser" else host

host_name-IsText : (host : Bytes) → IsText host → IsText (host_name host)
unfolding trim_left trim_right
host_name-IsText [] h = (refl, omega arith)
host_name-IsText (x ∷ host) h = h

host_name_not_empty : (host : Bytes) → is_empty (host_name host) ≡ false
host_name_not_empty [] = refl
host_name_not_empty (x ∷ host) = refl

new_config-IsSavable : (w : Draw) → IsUsual w → IsSavable (new_config w)
unfolding new_config ensure_display_name ensure_device_id trim_left trim_right
new_config-IsSavable w (u, h, e) = record {
  device_id_text = u;
  display_name_text = host_name-IsText (read_hostname w.hostname) h;
  platform_text = (refl, omega arith);
  listen_port_range = omega arith;
  discovery_port_range = omega arith;
  max_message_size_range = omega arith;
  connect_timeout_secs_range = omega arith;
  read_timeout_secs_range = omega arith;
  keepalive_interval_secs_range = omega arith;
  psk_hash_text = (refl, tt);
  log_level_text = (refl, omega arith);
  log_file_text = (refl, tt);
}

new_config-IsIdentified : (w : Draw) → IsUsual w → IsIdentified (new_config w)
unfolding new_config ensure_display_name ensure_device_id
new_config-IsIdentified w (u, h, e) = (e, host_name_not_empty (read_hostname w.hostname))

-- The first start of the program, when there is no file yet, save returns true and the file can be
-- read, and all later starts have one configuration: the identifier that the first start drew
-- stays, whatever the later ones would draw. The identifier is not empty, and it and the host's
-- name can be written as texts.
pub start_up-again :
    (w : Draw) (d : Disk)
    → IsUsual w
    → d.file ≡ none
    → d.readable ≡ true
    → (save d (new_config w)).1 ≡ true
    → (e : Disk) × (start_up w d ≡ loads e (new_config w) true)
      × ((v : Draw) → start_up v e ≡ loads e (new_config w) true)
      × ((new_config w).device_id ≡ w.uuid)
unfolding start_up load_file load_content new_config ensure_display_name ensure_device_id
start_up-again w d u none_yet readable saved =
    let c = new_config w in
    (
      (save d c).0,
      ap (load_content w d c) none_yet ∙ ap (loads (save d c).0 c) saved,
      (save-IsKept d c (new_config-IsSavable w u) (new_config-IsIdentified w u) readable).0 saved,
      refl,
    )
