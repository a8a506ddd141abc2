-- ===== src/Examples/Programs.antt =====
-- Runs of the program (src/main.cpp, src/config/config.cpp, src/logging/logger.cpp,
-- src/cli/terminal_ui.cpp) at concrete inputs.
use lantalk.Common.{◌≡◌, refl, true, false, List, [], ◌∷◌, ◌++◌, none, some, arith, codes}
use lantalk.Common.ByteString.{eq_bytes}
use lantalk.Common.Int.{pos}
use lantalk.Config.{AppConfig, stored, set, get_as_string}
use lantalk.Config.File.{trim_left, trim_right}
use lantalk.Config.File.Savable.{IsSavable}
use lantalk.Config.Store.{Draw, Disk, new_config, save, loads, start_up}
use lantalk.Config.Store.Runs.{start_up-again}
use lantalk.Cli.{ParsedArgs, no_args}
use lantalk.Logging.{
  level_info, level_warn, level_error, new_logger, set_level, set_quiet, Entry, log_all,
}
use lantalk.Logging.Filtering.{IsPart, log_all-filters}
use lantalk.Discovery.{Announced, Datagram, build_announce_packet, parse_announce_packet, scan}
use lantalk.Config.Typed.Loading.{StartsReady, start_up-StartsReady}
use lantalk.App.{done, run_config, shown_set}
use lantalk.App.Settings.{shown_value, config_set-get}
use lantalk.App.Target.{dials, has_dot, connect_target}
use lantalk.App.Finding.{no_results, connect_target-announced}
use lantalk.App.Finding.Entries.{IsFromOthers}

abbrev first_draw : Draw
first_draw = record { uuid = codes "0001-0002"; hostname = some (codes "ada-pc") }

abbrev empty_disk : Disk
empty_disk = record {
  has_directory = false;
  makes_directory = true;
  file = none;
  readable = true;
  writable = true;
}

empty_disk-saves : (save empty_disk (new_config first_draw)).1 ≡ true
unfolding save
empty_disk-saves = refl

-- A file with a port that does not fit its type.
abbrev odd_disk : Disk
odd_disk = record empty_disk { file = some (codes "listen_port = 70000") }

start_up-StartsReady_example : StartsReady (start_up first_draw odd_disk)
start_up-StartsReady_example = start_up-StartsReady first_draw refl odd_disk

start_up-again_example :
    (e : Disk) × (start_up first_draw empty_disk ≡ loads e (new_config first_draw) true)
    × ((v : Draw) → start_up v e ≡ loads e (new_config first_draw) true)
    × ((new_config first_draw).device_id ≡ codes "0001-0002")
unfolding trim_left trim_right
start_up-again_example =
    start_up-again first_draw empty_disk ((refl, omega arith), (refl, omega arith), refl) refl refl
      empty_disk-saves

abbrev settings : AppConfig
settings = record {
  device_id = codes "dev-a";
  display_name = codes "Ada";
  platform = codes "Linux";
  listen_port = 5050;
  discovery_port = 5051;
  enable_ipv6 = false;
  max_message_size = 65536;
  connect_timeout_secs = pos 10;
  read_timeout_secs = pos 30;
  keepalive_interval_secs = pos 15;
  discovery_enabled = true;
  psk_hash = [];
  require_auth = false;
  log_level = codes "INFO";
  log_file = [];
}

abbrev renamed : AppConfig
renamed = record settings { display_name = codes "Bob" }

renamed-IsSavable : IsSavable renamed
unfolding trim_left trim_right
renamed-IsSavable = record {
  device_id_text = (refl, omega arith);
  display_name_text = (refl, omega arith);
  platform_text = (refl, omega arith);
  listen_port_range = omega arith;
  discovery_port_range = omega arith;
  max_message_size_range = omega arith;
  connect_timeout_secs_range = omega arith;
  read_timeout_secs_range = omega arith;
  keepalive_interval_secs_range = omega arith;
  psk_hash_text = (refl, tt);
  log_level_text = (refl, omega arith);
  log_file_text = (refl, tt);
}

settings-display_name : get_as_string settings (codes "display_name") ≡ some (codes "Ada")
unfolding get_as_string eq_bytes
settings-display_name = refl

settings-renamed : set settings (codes "display_name") (codes "Bob") ≡ stored renamed
unfolding set eq_bytes
settings-renamed = refl

renamed-saves : (save empty_disk renamed).1 ≡ true
unfolding save
renamed-saves = refl

config_set-get_example :
    (b : Disk) × (run_config empty_disk settings
        (codes "/config.ini")
        (codes "set" ∷ codes "display_name" ∷ codes "Bob" ∷ [])
      ≡ done b renamed (shown_set (codes "/config.ini") (codes "display_name") (codes "Bob")))
    × ((w : Draw) → start_up w b ≡ loads b renamed true)
    × (run_config b renamed (codes "/config.ini") (codes "get" ∷ codes "display_name" ∷ [])
        ≡ done b renamed (shown_value (codes "display_name") (codes "Bob")))
config_set-get_example =
    config_set-get empty_disk settings renamed (codes "/config.ini") (codes "display_name")
      (codes "Bob") (codes "Ada") settings-display_name settings-renamed renamed-IsSavable
      (refl, refl) refl renamed-saves

abbrev two_entries : List Entry
two_entries =
    record {
      at = level_info;
      message = codes "up";
      timestamp = codes "t1";
      file_name = codes "main.cpp";
      line = 56;
    }
    ∷ record {
      at = level_error;
      message = codes "down";
      timestamp = codes "t2";
      file_name = codes "main.cpp";
      line = 60;
    }
    ∷ []

log_all-filters_example :
    IsPart
      (log_all (set_level new_logger level_warn) two_entries)
      (log_all (set_level new_logger level_info) two_entries)
    × ((log_all (set_quiet new_logger true) two_entries).screen ≡ [])
    × ((log_all (set_quiet new_logger true) two_entries).filed
        ≡ (log_all new_logger two_entries).filed)
log_all-filters_example = log_all-filters new_logger level_info level_warn two_entries (omega arith)

abbrev laptop : Announced
laptop = record { listen_port = 5050; device_id = codes "dev-b"; display_name = codes "Bob" }

abbrev connect_args : ParsedArgs
connect_args = record no_args { command = codes "connect"; positional = codes "Bob" ∷ [] }

-- A datagram that is no announcement.
abbrev noise : Datagram
noise = record { content = codes "hello"; sender = codes "10.0.0.9"; at = 1 }

noise-IsFromOthers : IsFromOthers (codes "Bob") (codes "dev-b") noise
unfolding parse_announce_packet
noise-IsFromOthers q e = let bad : some none ≡ some (some q) = e in cc

connect_target-announced_example :
    let d : Datagram = record {
      content = build_announce_packet laptop;
      sender = codes "10.0.0.2";
      at = 7;
    } in
    connect_target connect_args 5050
      (scan (codes "dev-a") ((noise ∷ []) ++ d ∷ []) no_results).results
    ≡ dials (codes "10.0.0.2") 5050
unfolding has_dot eq_bytes
connect_target-announced_example =
    connect_target-announced connect_args 5050 (codes "dev-a") (codes "Bob") [] laptop
      (codes "10.0.0.2") 7 (noise ∷ []) [] refl refl refl refl (omega arith) (omega arith)
      (refl, (refl, (refl, (refl, (refl, tt))))) (omega arith) (noise-IsFromOthers, tt) tt
