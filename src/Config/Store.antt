-- ===== src/Config/Store.antt =====
-- class Config of src/config/config.cpp over its file: the constructor, load and save, and what they
-- leave on the disk. The build is the one for Linux.
pub mod Runs
use lantalk.Common.{
  Bool, true, false, not, ◌&&◌, [], Option, none, some, Bytes, codes, if◌then◌else◌,
}
use lantalk.Common.Int.{pos}
use lantalk.Config.{AppConfig, ensure_device_id, ensure_display_name}
use lantalk.Config.File.{save_text, load}

-- The environment, and std::filesystem's `/`.
pub record Environment : Type 0 where
  pub xdg_config_home : Option Bytes
  pub home : Option Bytes
  pub current_path : Bytes
  pub join : Bytes → Bytes → Bytes

unfoldable pub config_directory : Environment → Bytes
config_directory e = elim e.xdg_config_home [
  | some x ↦ e.join x (codes "lantalk")
  | none ↦ elim e.home [
    | some h ↦ e.join (e.join h (codes ".config")) (codes "lantalk")
    | none ↦ e.join e.current_path (codes "config")
  ]
]

unfoldable pub config_file_path : Environment → Bytes
unfolding config_directory
config_file_path e = e.join (config_directory e) (codes "config.ini")

-- The initialisers of AppConfig's members.
abbrev pub initial_config : AppConfig
initial_config = record {
  device_id = [];
  display_name = [];
  platform = [];
  listen_port = 5050;
  discovery_port = 5051;
  enable_ipv6 = false;
  max_message_size = 65536;
  connect_timeout_secs = pos 10;
  read_timeout_secs = pos 30;
  keepalive_interval_secs = pos 15;
  discovery_enabled = true;
  psk_hash = [];
  require_auth = false;
  log_level = codes "INFO";
  log_file = [];
}

abbrev pub platform_name : Bytes
platform_name = codes "Linux"

-- readHostname, from what gethostname tells.
abbrev pub read_hostname : Option Bytes → Bytes
read_hostname none = []
read_hostname (some name) = name

-- What a start of the program draws from outside: an identifier (generateUUID) and the host's name.
pub record Draw : Type 0 where
  pub uuid : Bytes
  pub hostname : Option Bytes

-- Config::Config.
unfoldable pub new_config : Draw → AppConfig
unfolding ensure_device_id ensure_display_name
new_config w =
    ensure_display_name (read_hostname w.hostname)
      (ensure_device_id w.uuid (record initial_config { platform = platform_name }))

-- The directory and the file of the configuration: whether the directory is there, or can be made,
-- the file's content (`none` if there is no file), and whether it can be opened. What is written to an
-- open file arrives.
pub record Disk : Type 0 where
  pub has_directory : Bool
  pub makes_directory : Bool
  pub file : Option Bytes
  pub readable : Bool
  pub writable : Bool

unfoldable pub save : Disk → AppConfig → Disk × Bool
unfolding save_text
save d c =
    if not d.has_directory && not d.makes_directory
    then (d, false)
    else if d.writable
    then (record d { has_directory = true; file = some (save_text c) }, true)
    else (record d { has_directory = true }, false)

-- How load ends: by an exception of std::stoi or std::stoul, or with its result.
pub data Loaded : Type 0 where
  escapes : Loaded
  loads : Disk → AppConfig → Bool → Loaded

abbrev pub loaded_text : Disk → Option AppConfig → Loaded
loaded_text d none = escapes
loaded_text d (some c) = loads d c true

-- load, from the content of the file on.
unfoldable pub load_content : Draw → Disk → AppConfig → Option Bytes → Loaded
unfolding save load
load_content w d c none = loads (save d c).0 c (save d c).1
load_content w d c (some text) =
    if d.readable
    then loaded_text d (load w.uuid (read_hostname w.hostname) c text)
    else loads d c false

unfoldable pub load_file : Draw → Disk → AppConfig → Loaded
unfolding load_content
load_file w d c = load_content w d c d.file

-- The two lines of main that start every command but help and version.
unfoldable pub start_up : Draw → Disk → Loaded
unfolding new_config load_file
start_up w d = load_file w d (new_config w)
