-- ===== src/App/Listening.antt =====
-- runListen of src/main.cpp: what the callbacks of its session show, and what it starts and stops.
use lantalk.Common.{ℕ, Bool, List, [], ◌∷◌, ◌++◌, Bytes, codes, if◌then◌else◌}
use lantalk.Common.Int.{ℤ}
use lantalk.Common.Decimal.{print_ℕ}
use lantalk.Cli.{ParsedArgs, get_flag_as_port}
use lantalk.Chat.Message.{format_for_display}
use lantalk.Chat.Session.{Event, message, peer_event}
use lantalk.Terminal.{Terminal, Deed, print_message, print_info, print_listen_banner}
use lantalk.App.{complains, logs}
use lantalk.Logging.{level_info}
use lantalk.App.Lifecycle.{
  Deal, shows, starts_session, stops_session, starts_server, stops_server, starts_announce,
  stops_announce, makes_terminal, destroys_terminal, sets_pointer, clears_pointer, catches_signals,
  writes, enters_run, leaves_run,
}
use lantalk.App.Target.{port_or}

-- The message callback and the peer event callback, once there is a terminal.
unfoldable pub show_event : Terminal → (ℤ → Bytes) → Event → List Deed
unfolding print_message print_info format_for_display
show_event t clock (message m) = print_message t (format_for_display clock m)
show_event t clock (peer_event p connected) = print_info t (
    p.display_name
    ++ codes "@"
    ++ p.address
    ++ (if connected then codes " connected" else codes " disconnected"))

abbrev pub port_message : ℕ → Bytes
port_message port =
    codes "\nError: Could not bind to port "
    ++ print_ℕ port
    ++ codes ".\nPossible causes:\n"
    ++ codes "  - Port is already in use (try --port NNNN)\n"
    ++ codes "  - Insufficient permissions\n"

-- From the terminal to the end of its run.
abbrev pub chat : List Deed → List Deal
chat banner =
    makes_terminal
    ∷ sets_pointer
    ∷ catches_signals
    ∷ writes banner
    ∷ enters_run
    ∷ leaves_run
    ∷ clears_pointer
    ∷ []

-- From the configured port, whether discovery is enabled, and whether the server starts. The session
-- stops by its destructor where the server does not start, and the terminal is destroyed at the end.
unfoldable pub run_listen : Terminal → ParsedArgs → ℕ → Bool → Bool → List Deal
unfolding print_listen_banner get_flag_as_port
run_listen t args listen_port discovery_enabled bound =
    let port = port_or (get_flag_as_port args (codes "port")) listen_port in
    let announces = if discovery_enabled then starts_announce ∷ [] else [] in
    let served =
      starts_server ∷ announces
      ++ chat (print_listen_banner t (codes "0.0.0.0:" ++ print_ℕ port))
      ++ stops_announce ∷ stops_server ∷ stops_session ∷ destroys_terminal ∷ [] in
    shows (logs level_info (codes "Starting LanTalk server on port " ++ print_ℕ port))
    ∷ starts_session
    ∷ (if bound then served else shows (complains (port_message port)) ∷ stops_session ∷ [])
