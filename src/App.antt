-- ===== src/App.antt =====
-- src/main.cpp: the flags for the logger, the commands config, status and scan, the search for the
-- host of connect, and the choice of a command. Standard output, standard error and the log are listed.
pub mod Settings
pub mod Calling
pub mod Connecting
pub mod Finding
pub mod Lifecycle
pub mod Listening
pub mod Menu
pub mod Target
use lantalk.Common.{
  ℕ, ◌+◌, true, List, [], ◌∷◌, ◌++◌, Option, none, some, Bytes, codes, eq_bytes, ◌==◌,
  if◌then◌else◌, length,
}
use lantalk.Common.Decimal.{print_ℕ}
use lantalk.Cli.{ParsedArgs, has_flag, get_flag}
use lantalk.Config.{AppConfig, bad_value, unknown_key, stored, set, get_as_string}
use lantalk.Config.Store.{Disk, save}
use lantalk.Discovery.{DiscoveredPeer, Scan}
use lantalk.Logging.{
  LogLevel, level_trace, level_debug, level_info, level_warn, level_error, Logger, set_level,
  set_quiet,
}

-- What a command shows: on standard output, on standard error, or by the logger.
pub data Shown : Type 0 where
  prints : Bytes → Shown
  complains : Bytes → Shown
  logs : LogLevel → Bytes → Shown

-- The level that a name stands for.
unfoldable pub level_named : Bytes → Option LogLevel
level_named s =
    if eq_bytes s (codes "trace")
    then some level_trace
    else if eq_bytes s (codes "debug")
    then some level_debug
    else if eq_bytes s (codes "info")
    then some level_info
    else if eq_bytes s (codes "warn")
    then some level_warn
    else if eq_bytes s (codes "error")
    then some level_error
    else none

abbrev pub apply_level : Logger → Option Bytes → Logger × List Shown
apply_level l none = (l, [])
apply_level l (some s) = elim (level_named s) [
  | some v ↦ (set_level l v, [])
  | none ↦ (
    l,
    complains (codes "Unknown log level: " ++ s ++ codes ". Valid: trace debug info warn error\n")
        ∷ [],
  )
]

unfoldable pub apply_logging_flags : Logger → ParsedArgs → Logger × List Shown
unfolding has_flag get_flag set_quiet set_level level_named
apply_logging_flags l args =
    let l1 = if has_flag args (codes "quiet") then set_quiet l true else l in
    let l2 = if has_flag args (codes "verbose") then set_level l1 level_debug else l1 in
    apply_level l2 (get_flag args (codes "log-level"))

-- Config::print.
unfoldable pub print : AppConfig → List Shown
print c =
    logs level_info (
      codes "Config: display_name="
      ++ c.display_name
      ++ codes ", listen_port="
      ++ print_ℕ c.listen_port)
    ∷ []

-- How runConfig ends: by an exception of `set`, which nothing catches, or with the disk, the
-- configuration and what was shown.
pub data Ran : Type 0 where
  aborts : Ran
  done : Disk → AppConfig → List Shown → Ran

abbrev pub shown_set : Bytes → Bytes → Bytes → List Shown
shown_set path key value =
    prints (
      codes "Set "
      ++ key
      ++ codes " = "
      ++ value
      ++ codes "\nConfig saved to: "
      ++ path
      ++ codes "\n")
    ∷ []

unfoldable pub config_set : Disk → AppConfig → Bytes → Bytes → Bytes → Ran
unfolding set save
config_set d c path key value = elim (set c key value) [
  | bad_value ↦ aborts
  | unknown_key ↦ done d c (
      complains (
        codes "Unknown config key: "
        ++ key
        ++ codes "\nRun 'lantalk config show' to see valid keys.\n")
      ∷ [])
  | stored e ↦ done (save d e).0 e (shown_set path key value)
]

unfoldable pub config_get : AppConfig → Bytes → List Shown
unfolding get_as_string
config_get c key = elim (get_as_string c key) [
  | none ↦ complains (codes "Unknown config key: " ++ key ++ codes "\n") ∷ []
  | some v ↦ prints (key ++ codes " = " ++ v ++ codes "\n") ∷ []
]

-- `config set` and `config get`, from the words behind them.
abbrev pub config_set_words : Disk → AppConfig → Bytes → List Bytes → Ran
config_set_words d c path (key ∷ value ∷ more) = config_set d c path key value
config_set_words d c path _ =
    done d c (complains (codes "Usage: lantalk config set <key> <value>\n") ∷ [])

abbrev pub config_get_words : AppConfig → List Bytes → List Shown
config_get_words c (key ∷ more) = config_get c key
config_get_words c [] = complains (codes "Usage: lantalk config get <key>\n") ∷ []

-- runConfig, from the positional words; `path` is configFilePath.
unfoldable pub run_config : Disk → AppConfig → Bytes → List Bytes → Ran
unfolding config_set config_get print
run_config d c path [] = done d c (print c)
run_config d c path (sub ∷ words) =
    if eq_bytes sub (codes "show")
    then done d c (print c)
    else if eq_bytes sub (codes "set")
    then config_set_words d c path words
    else if eq_bytes sub (codes "get")
    then done d c (config_get_words c words)
    else done d c (
        complains (
          codes "Unknown config sub-command: "
          ++ sub
          ++ codes "\nUsage: lantalk config [show | set KEY VALUE | get KEY]\n")
        ∷ [])

unfoldable pub run_status : AppConfig → Bytes → List Shown
run_status c path =
    prints (
      codes "\nLanTalk Status\n"
      ++ codes "==============\n"
      ++ codes "Device ID:    "
      ++ c.device_id
      ++ codes "\nDisplay Name: "
      ++ c.display_name
      ++ codes "\nPlatform:     "
      ++ c.platform
      ++ codes "\nListen Port:  "
      ++ print_ℕ c.listen_port
      ++ codes "\nDiscovery:    "
      ++ (if c.discovery_enabled then codes "enabled" else codes "disabled")
      ++ codes "\nConfig file:  "
      ++ path
      ++ codes "\n")
    ∷ []

-- The peers that onFound prints, numbered from a count on.
unfoldable pub print_found : ℕ → List DiscoveredPeer → List Shown
print_found n [] = []
print_found n (p ∷ ps) =
    prints (
      print_ℕ (n + 1)
      ++ codes ". "
      ++ p.display_name
      ++ codes "\n   IP:       "
      ++ p.ip_address
      ++ codes "\n   Port:     "
      ++ print_ℕ p.tcp_port
      ++ codes "\n   Platform: "
      ++ p.platform
      ++ codes "\n   ID:       "
      ++ p.device_id
      ++ codes "\n\n")
    ∷ print_found (n + 1) ps

abbrev pub print_total : List DiscoveredPeer → List Shown
print_total [] =
    prints (
      codes "No LanTalk peers found.\n"
      ++ codes "Make sure other devices are running: lantalk listen\n")
    ∷ []
print_total (p ∷ ps) =
    prints (
      codes "Found "
      ++ print_ℕ (length (p ∷ ps))
      ++ codes " peer(s).\n"
      ++ codes "Connect with: lantalk connect <ip-or-name>\n")
    ∷ []

-- runScan, from what the scan returns and the peers for which it called onFound.
unfoldable pub run_scan : Scan → List Shown
unfolding print_found
run_scan s =
    prints (
        codes "\nScanning for LanTalk peers on the local network...\n"
        ++ codes "(waiting 3 seconds)\n\n")
      ∷ print_found 0 s.calls
    ++ print_total s.results
