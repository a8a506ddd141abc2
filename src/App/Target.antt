-- ===== src/App/Target.antt =====
-- The start of runConnect of src/main.cpp: which host and port it dials.
use lantalk.Common.{
  ℕ, Bool, false, ◌||◌, List, [], ◌∷◌, Option, none, some, Bytes, codes, eq_bytes, ◌==◌,
  if◌then◌else◌,
}
use lantalk.Cli.{ParsedArgs, get_flag_as_port}
use lantalk.Discovery.{DiscoveredPeer}

-- `host.find('.') != std::string::npos`.
unfoldable pub has_dot : Bytes → Bool
has_dot [] = false
has_dot (c ∷ s) = c == b'.' || has_dot s

-- The loop over the peers that the scan found: the first one with this name or id.
unfoldable pub find_peer : Bytes → List DiscoveredPeer → Option DiscoveredPeer
find_peer host [] = none
find_peer host (p ∷ ps) =
    let later = find_peer host ps in
    if eq_bytes p.display_name host || eq_bytes p.device_id host then some p else later

-- Nothing to dial, or the host and the port that TcpClient::connect is called with.
pub data Target : Type 0 where
  no_host : Target
  not_found : Target
  dials : Bytes → ℕ → Target

abbrev pub dial_peer : Option DiscoveredPeer → Target
dial_peer none = not_found
dial_peer (some p) = dials p.ip_address p.tcp_port

-- The configured port, or that of `--port`.
abbrev pub port_or : Option ℕ → ℕ → ℕ
port_or none port = port
port_or (some p) port = p

abbrev pub host_target : ParsedArgs → ℕ → List DiscoveredPeer → Bytes → Target
host_target args listen_port peers host =
    if has_dot host
    then dials host (port_or (get_flag_as_port args (codes "port")) listen_port)
    else dial_peer (find_peer host peers)

-- From the command line, the configured port and what the scan finds.
unfoldable pub connect_target : ParsedArgs → ℕ → List DiscoveredPeer → Target
unfolding has_dot find_peer get_flag_as_port
connect_target args listen_port peers = elim args.positional [
  | [] ↦ no_host
  | host ∷ more ↦ host_target args listen_port peers host
]
