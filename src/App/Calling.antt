-- ===== src/App/Calling.antt =====
-- runConnect of src/main.cpp: what it shows, and what it starts and stops. What the scan finds and
-- how TcpClient::connect ends are arguments.
use lantalk.Common.{ℕ, List, [], ◌∷◌, ◌++◌, Option, none, some, Bytes, codes, if◌then◌else◌}
use lantalk.Common.Decimal.{print_ℕ}
use lantalk.Cli.{ParsedArgs, get_flag_as_port}
use lantalk.Discovery.{DiscoveredPeer}
use lantalk.Terminal.{Terminal, print_banner}
use lantalk.App.{prints, complains}
use lantalk.App.Lifecycle.{
  Deal, shows, starts_session, stops_session, adds_connection, destroys_terminal,
}
use lantalk.App.Listening.{chat}
use lantalk.App.Target.{has_dot, find_peer, port_or}

abbrev pub failed_message : Bytes → ℕ → Bytes → Bytes
failed_message host port reason =
    codes "\nConnection failed: "
    ++ host
    ++ codes ":"
    ++ print_ℕ port
    ++ codes "\nReason: "
    ++ reason
    ++ codes "\nPossible causes:\n"
    ++ codes "  - LanTalk is not running on the remote device\n"
    ++ codes "  - TCP port "
    ++ print_ℕ port
    ++ codes " is blocked by a firewall\n"
    ++ codes "  - IP address is incorrect\n"

abbrev pub missing_message : Bytes → Bytes
missing_message host =
    codes "\nDevice \"" ++ host ++ codes "\" not found on LAN.\nTry: lantalk scan\n"

abbrev pub found_message : DiscoveredPeer → Bytes
found_message p =
    codes "Found: "
    ++ p.display_name
    ++ codes " at "
    ++ p.ip_address
    ++ codes ":"
    ++ print_ℕ p.tcp_port
    ++ codes "\n"

-- From the connection on; `some reason` is a ConnectError.
unfoldable pub dial : Terminal → (Bytes → ℕ → Option Bytes) → Bytes → ℕ → List Deal
unfolding print_banner
dial t connect host port = elim (connect host port) [
  | some reason ↦ shows (complains (failed_message host port reason)) ∷ []
  | none ↦
      starts_session
        ∷ adds_connection
        ∷ chat (print_banner t host (host ++ codes ":" ++ print_ℕ port))
      ++ stops_session ∷ destroys_terminal ∷ []
]

unfoldable pub dial_found :
    Terminal → (Bytes → ℕ → Option Bytes) → Bytes → Option DiscoveredPeer → List Deal
unfolding dial
dial_found t connect host none = shows (complains (missing_message host)) ∷ []
dial_found t connect host (some p) =
    shows (prints (found_message p)) ∷ dial t connect p.ip_address p.tcp_port

-- With a host on the command line.
unfoldable pub run_connect_to :
    Terminal → (Bytes → ℕ → Option Bytes) → Bytes → ℕ → List DiscoveredPeer → List Deal
unfolding dial dial_found has_dot find_peer
run_connect_to t connect host port peers =
    shows (prints (codes "Connecting to " ++ host ++ codes ":" ++ print_ℕ port ++ codes "...\n"))
    ∷ (if has_dot host
        then dial t connect host port
        else shows (prints (codes "Scanning LAN for device \"" ++ host ++ codes "\"...\n"))
          ∷ dial_found t connect host (find_peer host peers))

unfoldable pub run_connect :
    Terminal → (Bytes → ℕ → Option Bytes) → ParsedArgs → ℕ → List DiscoveredPeer → List Deal
unfolding run_connect_to get_flag_as_port
run_connect t connect args listen_port peers = elim args.positional [
  | [] ↦ shows (complains (codes "Usage: lantalk connect <host|ip> [--port PORT]\n")) ∷ []
  | host ∷ more ↦
      run_connect_to t connect host (port_or (get_flag_as_port args (codes "port")) listen_port)
        peers
]
