-- ===== src/App/Finding.antt =====
-- From LanDiscovery::announce on one device to runConnect on another: the announcement of
-- src/discovery/lan_discovery.cpp, its scan, and the search by name of src/main.cpp.
pub mod Entries
pub mod Search
use lantalk.Common.{
  ℕ, ◌≤◌, ◌<◌, ◌≡◌, refl, ap, ◌∙◌, true, false, ◌||◌, List, [], ◌∷◌, ◌++◌, some, Bytes, codes,
  eq_bytes, length, length-append, le→ltb, arith, take, take_all, All,
}
use lantalk.Cli.{ParsedArgs}
use lantalk.Discovery.{
  DiscoveredPeer, Announced, build_announce_packet, parse_announce_packet, Scan, Datagram, scan,
  resize, at_most,
}
use lantalk.Discovery.RoundTrip.{HasNoNul, length-resize, parse-build}
use lantalk.App.Target.{find_peer, has_dot, dials, host_target, connect_target}
use lantalk.App.Finding.Entries.{IsFromOthers}
use lantalk.App.Finding.Search.{scan-finds}

-- What scan makes of an announcement.
abbrev peer_of : Announced → Bytes → ℕ → DiscoveredPeer
peer_of g ip now = record {
  ip_address = ip;
  tcp_port = g.listen_port;
  device_id = g.device_id;
  display_name = g.display_name;
  platform = codes "linux";
  protocol_version = 1;
  last_seen = now;
}

-- An announcement fits into the 1024 bytes of scan's buffer.
length-build_announce_packet :
    (g : Announced)
    → length g.device_id ≤ 36
    → length g.display_name ≤ 255
    → length (build_announce_packet g) ≤ 1024
unfolding build_announce_packet
length-build_announce_packet g i n =
    let at : at_most 255 g.display_name ≡ g.display_name = rw (le→ltb 255 _ n) refl in
    rw at (
      omega (
        arith,
        n,
        length-resize 36 g.device_id i,
        length-append (resize 36 0 g.device_id)
            (length g.display_name ∷ g.display_name ++ 5 ∷ codes "linux"),
        length-append g.display_name (5 ∷ codes "linux"),
      ))

abbrev pub no_results : Scan
no_results = record { results = []; calls = [] }

host_target-found :
    (args : ParsedArgs) (listen_port : ℕ) (host : Bytes) (found : List DiscoveredPeer)
    (r : DiscoveredPeer)
    → has_dot host ≡ false
    → find_peer host found ≡ some r
    → host_target args listen_port found host ≡ dials r.ip_address r.tcp_port
host_target-found args listen_port host found r dot e = rw (dot, e) refl

-- A device that announces itself while another one scans can be connected to by its name or its
-- identifier: the search dials the address that the announcement came from and the port in it, for a
-- host without a dot, a device that is not the own one, an identifier of at most 36 bytes and no zero
-- byte, a name of at most 255 bytes and a 16-bit port, whatever datagrams come before and after it
-- from devices with other names and identifiers.
pub connect_target-announced :
    (args : ParsedArgs) (listen_port : ℕ) (own host : Bytes) (more : List Bytes) (g : Announced)
    (ip : Bytes) (now : ℕ) (before after : List Datagram)
    → args.positional ≡ host ∷ more
    → has_dot host ≡ false
    → (eq_bytes g.display_name host || eq_bytes g.device_id host) ≡ true
    → eq_bytes g.device_id own ≡ false
    → g.listen_port < 65536
    → length g.device_id ≤ 36
    → HasNoNul g.device_id
    → length g.display_name ≤ 255
    → All (IsFromOthers host g.device_id) before
    → All (IsFromOthers host g.device_id) after
    → let d : Datagram = record { content = build_announce_packet g; sender = ip; at = now } in
      let found = (scan own (before ++ d ∷ after) no_results).results in
      connect_target args listen_port found ≡ dials ip g.listen_port
unfolding connect_target find_peer
connect_target-announced args listen_port own host more g ip now before after pos dot hit own_id
      port short nul named bs cs =
    let d : Datagram = record { content = build_announce_packet g; sender = ip; at = now } in
    let p : take 1024 (build_announce_packet g) ≡ build_announce_packet g =
      take_all 1024 (build_announce_packet g) (length-build_announce_packet g short named) in
    let parsed =
      ap (λ c. parse_announce_packet c ip now) p ∙ parse-build g ip now port short nul named in
    let found =
      scan-finds own host (peer_of g ip now) before after d no_results bs cs parsed own_id (rw hit)
        refl in
    rw pos (host_target-found args listen_port host _ (peer_of g ip now) dot found)
