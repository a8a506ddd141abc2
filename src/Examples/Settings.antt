-- ===== src/Examples/Settings.antt =====
-- The configuration (src/config/config.cpp) at concrete inputs.
use lantalk.Common.{◌≡◌, refl, true, false, [], some, arith, codes}
use lantalk.Common.Int.{pos, negsuc}
use lantalk.Config.{AppConfig}
use lantalk.Config.File.{save_text, load_text, trim_left, trim_right}
use lantalk.Config.File.Savable.{IsSavable}
use lantalk.Config.File.RoundTrip.{load_text-save_text}

abbrev settings : AppConfig
settings = record {
  device_id = codes "dev-a";
  display_name = codes "Ada L";
  platform = codes "Linux";
  listen_port = 5050;
  discovery_port = 5051;
  enable_ipv6 = false;
  max_message_size = 65536;
  connect_timeout_secs = pos 10;
  read_timeout_secs = negsuc 0;
  keepalive_interval_secs = pos 15;
  discovery_enabled = true;
  psk_hash = [];
  require_auth = true;
  log_level = codes "INFO";
  log_file = [];
}

-- Another configuration, to load into.
abbrev defaults : AppConfig
defaults = record settings { device_id = codes "x"; psk_hash = codes "old"; listen_port = 1 }

settings-IsSavable : IsSavable settings
unfolding trim_left trim_right
settings-IsSavable = record {
  device_id_text = (refl, omega arith);
  display_name_text = (refl, omega arith);
  platform_text = (refl, omega arith);
  listen_port_range = omega arith;
  discovery_port_range = omega arith;
  max_message_size_range = omega arith;
  connect_timeout_secs_range = omega arith;
  read_timeout_secs_range = omega arith;
  keepalive_interval_secs_range = omega arith;
  psk_hash_text = (refl, tt);
  log_level_text = (refl, omega arith);
  log_file_text = (refl, tt);
}

load_text-save_text_example : load_text defaults (save_text settings) ≡ some settings
load_text-save_text_example = load_text-save_text defaults settings settings-IsSavable
