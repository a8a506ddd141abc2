-- ===== src/App/Menu.antt =====
-- main and its menu, of src/main.cpp: which commands run on a command line and on what is typed, and
-- the status that the program exits with. The sockets of the system are initialised, as on POSIX.
use lantalk.Common.{
  ℕ, Bool, true, false, not, ◌||◌, List, [], ◌∷◌, ◌++◌, Option, none, some, Bytes, codes, eq_bytes,
  if◌then◌else◌, is_empty,
}
use lantalk.Cli.{ParsedArgs, has_flag, add_positional}

-- runListen, runConnect, runScan, runConfig and runStatus, and a message about a wrong choice.
pub data Command : Type 0 where
  listens : ParsedArgs → Command
  connects : ParsedArgs → Command
  scans : Command
  configures : ParsedArgs → Command
  shows_status : Command
  rejects : Command

-- A choice of the menu other than the third: the command, and whether the menu goes on.
unfoldable pub choose : ParsedArgs → Bytes → List Command × Bool
choose args choice =
    if eq_bytes choice (codes "1")
    then (listens args ∷ [], true)
    else if eq_bytes choice (codes "2")
    then (scans ∷ [], true)
    else if eq_bytes choice (codes "4")
    then (shows_status ∷ [], true)
    else if eq_bytes choice (codes "5")
        || eq_bytes choice (codes "exit")
        || eq_bytes choice (codes "quit")
    then ([], false)
    else if not (is_empty choice)
    then (rejects ∷ [], true)
    else ([], true)

-- The third choice, with the line that is read for the address.
abbrev pub connect_to : ParsedArgs → Option Bytes → List Command
connect_to args none = []
connect_to args (some []) = []
connect_to args (some (c ∷ s)) = connects (add_positional (c ∷ s) args) ∷ []

-- The loop of the menu on what std::getline reads, `none` for a failure, and whether it has ended.
unfoldable pub menu : ParsedArgs → List (Option Bytes) → List Command × Bool
unfolding choose
menu args [] = ([], false)
menu args (none ∷ rs) = ([], true)
menu args (some choice ∷ []) =
    let chosen = choose args choice in
    if eq_bytes choice (codes "3") then ([], false) else (chosen.0, not chosen.1)
menu args (some choice ∷ r ∷ rs) =
    let later = menu args (r ∷ rs) in
    let after = menu args rs in
    let chosen = choose args choice in
    if eq_bytes choice (codes "3")
    then (connect_to args r ++ after.0, after.1)
    else if chosen.1
    then (chosen.0 ++ later.0, later.1)
    else (chosen.0, true)

-- What main does: it shows the help or the version, or it loads the configuration and runs commands,
-- and it returns a status once it ends.
pub data Ended : Type 0 where
  helps : Ended
  shows_version : Ended
  ran : List Command → Option ℕ → Ended

abbrev pub menu_status : List Command × Bool → Ended
menu_status (cs, true) = ran cs (some 0)
menu_status (cs, false) = ran cs none

-- From `cfg.load()` on.
unfoldable pub dispatch : ParsedArgs → List (Option Bytes) → Ended
unfolding menu
dispatch args rs =
    if eq_bytes args.command (codes "listen")
    then ran (listens args ∷ []) (some 0)
    else if eq_bytes args.command (codes "connect")
    then ran (connects args ∷ []) (some 0)
    else if eq_bytes args.command (codes "scan")
    then ran (scans ∷ []) (some 0)
    else if eq_bytes args.command (codes "config")
    then ran (configures args ∷ []) (some 0)
    else if eq_bytes args.command (codes "status")
    then ran (shows_status ∷ []) (some 0)
    else if eq_bytes args.command (codes "peers")
    then ran (scans ∷ []) (some 0)
    else if is_empty args.command
    then menu_status (menu args rs)
    else ran (rejects ∷ []) (some 1)

unfoldable pub main : ParsedArgs → List (Option Bytes) → Ended
unfolding dispatch has_flag
main args rs =
    if eq_bytes args.command (codes "help") || has_flag args (codes "help")
    then helps
    else if eq_bytes args.command (codes "version") || has_flag args (codes "version")
    then shows_version
    else dispatch args rs
