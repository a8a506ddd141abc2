-- ===== src/Discovery.antt =====
-- src/discovery/lan_discovery.cpp: the announce packet, and the peers that a scan collects. The UDP
-- socket is the system's: what it receives is an argument. The build is the one without _WIN32.
pub mod Safety
pub mod RoundTrip
pub mod Announcing
pub mod Peers
pub mod Latest
use lantalk.Common.{
  ◌&&◌, ℕ, ◌+◌, ◌-◌, Bool, List, [], ◌∷◌, ◌++◌, Option, none, some, Bytes, codes, ltb, leb, ◌==◌,
  if◌then◌else◌, eq_bytes, length, take, drop, get_elem?, replicate, to_be32, to_be16, from_be32,
  from_be16,
}

abbrev pub discovery_magic : ℕ
discovery_magic = 0x4c54_4c44

pub record DiscoveredPeer : Type 0 where
  pub ip_address : Bytes
  pub tcp_port : ℕ
  pub device_id : Bytes
  pub display_name : Bytes
  pub platform : Bytes
  pub protocol_version : ℕ
  pub last_seen : ℕ

-- The fields of AppConfig that an announcement holds.
pub record Announced : Type 0 where
  pub listen_port : ℕ
  pub device_id : Bytes
  pub display_name : Bytes

-- std::string::resize: cut, or filled up.
abbrev pub resize : ℕ → ℕ → Bytes → Bytes
resize n fill s = take n s ++ replicate (n - length s) fill

-- `if (s.length() > n) s.resize(n);`
abbrev pub at_most : ℕ → Bytes → Bytes
at_most n s = if ltb n (length s) then resize n 0 s else s

-- A length byte and the text.
abbrev pub short_text : Bytes → Bytes
short_text s = length s ∷ s

unfoldable pub build_announce_packet : Announced → Bytes
build_announce_packet g =
    to_be32 discovery_magic
    ++ (1
        ∷ (to_be16 g.listen_port
            ++ (resize 36 0 g.device_id
                ++ (short_text (at_most 255 g.display_name)
                    ++ short_text (at_most 255 (codes "linux"))))))

-- A read of the datagram's memory: `none` where it would leave the bytes received.
infixl 5 ◌>>=◌
abbrev pub ◌>>=◌ {ℓ κ} : {A : Type ℓ} {B : Type κ} → Option A → (A → Option B) → Option B
none >>= f = none
some a >>= f = f a

abbrev pub slice : Bytes → ℕ → ℕ → Option Bytes
slice d i n = if leb (i + n) (length d) then some (take n (drop i d)) else none

abbrev pub read32 : Bytes → ℕ → Option ℕ
read32 d i = do
  a ← get_elem? d i
  b ← get_elem? d (i + 1)
  c ← get_elem? d (i + 2)
  e ← get_elem? d (i + 3)
  some (from_be32 a b c e)

abbrev pub read16 : Bytes → ℕ → Option ℕ
read16 d i = do a ← get_elem? d i; b ← get_elem? d (i + 1); some (from_be16 a b)

-- Erased from the first zero byte on.
unfoldable pub until_nul : Bytes → Bytes
until_nul [] = []
until_nul (c ∷ s) = let rest = c ∷ until_nul s in if c == 0 then [] else rest

-- The platform, which may be missing or cut off.
abbrev pub cut_platform : Bytes → ℕ → ℕ → Option Bytes
cut_platform d i n = if leb (i + n) (length d) then slice d i n else some []

unfoldable pub read_platform : Bytes → ℕ → Option Bytes
read_platform d i =
    if ltb i (length d) then (get_elem? d i >>= λ n. cut_platform d (i + 1) n) else some []

-- The name and the platform, `n` the name's length.
unfoldable pub parse_texts :
    Bytes → (Bytes → Bytes → DiscoveredPeer) → ℕ → Option (Option DiscoveredPeer)
unfolding read_platform
parse_texts d peer n =
    if ltb (length d) (44 + n)
    then some none
    else (slice d 44 n >>= λ name.
        read_platform d (44 + n) >>= λ platform. some (some (peer name platform)))

-- From the version on.
unfoldable pub parse_fields : Bytes → Bytes → ℕ → Option (Option DiscoveredPeer)
unfolding parse_texts until_nul
parse_fields d ip now = do
  version ← get_elem? d 4
  port ← read16 d 5
  id ← slice d 7 36
  let peer : Bytes → Bytes → DiscoveredPeer = λ name platform. record {
    ip_address = ip;
    tcp_port = port;
    device_id = until_nul id;
    display_name = name;
    platform = platform;
    protocol_version = version;
    last_seen = now;
  }
  if leb (length d) 43 then some none else (get_elem? d 43 >>= λ n. parse_texts d peer n)

-- parseAnnouncePacket: `some none` for nullopt, and `none` for a read outside the datagram.
unfoldable pub parse_announce_packet : Bytes → Bytes → ℕ → Option (Option DiscoveredPeer)
unfolding parse_fields
parse_announce_packet d ip now =
    if ltb (length d) 44
    then some none
    else (read32 d 0 >>= λ magic.
        if magic == discovery_magic then parse_fields d ip now else some none)

-- One datagram of scan's loop: the results, and the peers for which onFound was called.
unfoldable pub replace_same : DiscoveredPeer → List DiscoveredPeer → Option (List DiscoveredPeer)
replace_same q [] = none
replace_same q (p ∷ ps) =
    let rest = replace_same q ps >>= λ l. some (p ∷ l) in
    if eq_bytes p.device_id q.device_id then some (q ∷ ps) else rest

pub record Scan : Type 0 where
  pub results : List DiscoveredPeer
  pub calls : List DiscoveredPeer

-- The peer `q` replaces the one with its id, or is new.
abbrev pub noting : DiscoveredPeer → Scan → Option (List DiscoveredPeer) → Scan
noting q s (some l) = record s { results = l }
noting q s none = record { results = s.results ++ (q ∷ []); calls = s.calls ++ (q ∷ []) }

unfoldable pub note_packet : Bytes → Option (Option DiscoveredPeer) → Scan → Scan
unfolding replace_same
note_packet own (some (some q)) s =
    if eq_bytes q.device_id own then s else noting q s (replace_same q s.results)
note_packet own _ s = s

-- What recvfrom yielded: a datagram of at most 1024 bytes, its sender and the time.
pub record Datagram : Type 0 where
  pub content : Bytes
  pub sender : Bytes
  pub at : ℕ

unfoldable pub scan : Bytes → List Datagram → Scan → Scan
unfolding note_packet parse_announce_packet
scan own [] s = s
scan own (g ∷ gs) s =
    scan own gs (note_packet own (parse_announce_packet (take 1024 g.content) g.sender g.at) s)

-- scan from its start: nothing is found if no socket can be made, or bound to the port.
unfoldable pub scan_port : Bytes → Bool → Bool → List Datagram → Scan
unfolding scan
scan_port own has_socket bound gs =
    let nothing : Scan = record { results = []; calls = [] } in
    if has_socket && bound then scan own gs nothing else nothing
