-- ===== src/Chat/Session/Commands.antt =====
-- What the program asks of a session (src/chat/chat_session.cpp): sending, listing, keepalive, start
-- and stop. Random bytes and the clock are arguments.
use lantalk.Common.{
  ℕ, ◌+◌, Bool, true, false, not, ◌&&◌, List, [], ◌∷◌, ◌++◌, Option, none, some, Bytes, codes,
  eq_bytes, if◌then◌else◌,
}
use lantalk.Common.Dict.{Dict, lookup, insert}
use lantalk.Common.Decimal.{print_ℕ}
use lantalk.Common.Hex.{bytes_to_hex}
use lantalk.Common.Int.{ℤ}
use lantalk.Network.Protocol.Types.{MessageType}
use lantalk.Network.Connection.{Connection, send}
use lantalk.Network.Connection
use lantalk.Chat.Message.{ChatMessage, to_json}
use lantalk.Chat.Session.{PeerInfo, SessionConfig, ChatSession, is_authenticated, sending}
use lantalk.Chat.Session.Handlers.{on_disconnect}

-- makeConnId: sixteen hexadecimal digits, or the time behind "conn" where RAND_bytes fails.
unfoldable pub make_conn_id : Option Bytes → ℕ → Bytes
make_conn_id none ticks = codes "conn" ++ print_ℕ ticks
make_conn_id (some bytes) ticks = bytes_to_hex bytes

-- The message that sendTo and broadcast build, from the identifier and the time that they draw.
unfoldable pub new_message : SessionConfig → Bytes → ℤ → Bytes → ChatMessage
new_message g id time text = record {
  msg_id = id;
  sender_id = g.device_id;
  sender_name = g.display_name;
  timestamp_utc = time;
  text = text;
}

-- The first peer, in key order, with this device and authenticated.
unfoldable pub find_target : Bytes → Dict PeerInfo → Option Bytes
find_target id [] = none
find_target id ((cid, p) ∷ m) =
    if eq_bytes p.device_id id && is_authenticated p.state then some cid else find_target id m

abbrev pub send_over : ChatSession → Bytes → ChatMessage → Option Connection → ChatSession × Bool
send_over s cid m none = (s, false)
send_over s cid m (some c) =
    let (c', done) = send c MessageType.chat_message (to_json m) in
    (record s { connections = insert cid c' s.connections }, done)

abbrev pub send_target : ChatSession → ChatMessage → Option Bytes → ChatSession × Bool
send_target s m none = (s, false)
send_target s m (some cid) = send_over s cid m (lookup cid s.connections)

unfoldable pub send_to : ChatSession → Bytes → ChatMessage → ChatSession × Bool
unfolding find_target
send_to s id m = send_target s m (find_target id s.peers)

abbrev pub is_authenticated_entry : Option PeerInfo → Bool
is_authenticated_entry none = false
is_authenticated_entry (some p) = is_authenticated p.state

-- The loop of broadcast over connections_.
unfoldable pub broadcast_over : Dict PeerInfo → Bytes → Dict Connection → Dict Connection
broadcast_over ps json [] = []
broadcast_over ps json ((cid, c) ∷ m) =
    let c' =
      if is_authenticated_entry (lookup cid ps)
      then sending MessageType.chat_message json c
      else c in
    (cid, c') ∷ broadcast_over ps json m

unfoldable pub broadcast : ChatSession → ChatMessage → ChatSession
unfolding broadcast_over
broadcast s m = record s { connections = broadcast_over s.peers (to_json m) s.connections }

-- The loop of peers.
unfoldable pub authenticated_peers : Dict PeerInfo → List PeerInfo
authenticated_peers [] = []
authenticated_peers ((cid, p) ∷ m) =
    let rest = authenticated_peers m in if is_authenticated p.state then p ∷ rest else rest

unfoldable pub peers : ChatSession → List PeerInfo
unfolding authenticated_peers
peers s = authenticated_peers s.peers

-- The loop of peerCount, from a count on.
unfoldable pub count_peers : ℕ → Dict PeerInfo → ℕ
count_peers n [] = n
count_peers n ((cid, p) ∷ m) = count_peers (if is_authenticated p.state then n + 1 else n) m

unfoldable pub peer_count : ChatSession → ℕ
unfolding count_peers
peer_count s = count_peers 0 s.peers

-- start: the ping thread runs ping_round every fifteen seconds.
unfoldable pub start : ChatSession → ChatSession
start s = record s { running = true }

unfoldable pub disconnect_all : Dict Connection → Dict Connection
disconnect_all [] = []
disconnect_all ((cid, c) ∷ m) =
    (cid, Connection.disconnect c (codes "session stopped")) ∷ disconnect_all m

-- stop: the session, and the connections that it has let go of.
unfoldable pub stop : ChatSession → ChatSession × Dict Connection
unfolding disconnect_all
stop s =
    if not s.running
    then (s, [])
    else (record s { running = false; connections = []; peers = [] }, disconnect_all s.connections)

-- The loop of pingLoop over connections_: what the map becomes, and the dead connections.
unfoldable pub ping_over : Dict Connection → Dict Connection × List Bytes
ping_over [] = ([], [])
ping_over ((cid, c) ∷ m) =
    let (c', done) = send c MessageType.ping (codes "{}") in
    let (m', dead) = ping_over m in ((cid, c') ∷ m', if not done then cid ∷ dead else dead)

unfoldable pub drop_all : ChatSession → List Bytes → ChatSession
drop_all s [] = s
drop_all s (cid ∷ dead) = drop_all (on_disconnect s cid) dead

-- One turn of pingLoop behind its sleep.
unfoldable pub ping_round : ChatSession → ChatSession
unfolding ping_over drop_all
ping_round s =
    let (m', dead) = ping_over s.connections in
    if not s.running then s else drop_all (record s { connections = m' }) dead
