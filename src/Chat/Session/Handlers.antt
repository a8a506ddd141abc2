-- ===== src/Chat/Session/Handlers.antt =====
-- The frame handlers of src/chat/chat_session.cpp, from sendHello to onDisconnect.
use lantalk.Common.{
  Bool, true, false, not, ◌++◌, Option, none, some, Bytes, codes, eq_bytes, if◌then◌else◌, is_empty,
}
use lantalk.Common.Dict.{lookup, insert, erase}
use lantalk.Common.Decimal.{print_ℕ}
use lantalk.Network.Protocol.Types.{MessageType}
use lantalk.Network.Protocol.Header.{Frame}
use lantalk.Network.Connection.{Connection, ConnectionState, authenticating, authenticated}
use lantalk.Network.Connection
use lantalk.Chat.Message.{ChatMessage, from_json}
use lantalk.Chat.Session.Json.{json_str, extract_str}
use lantalk.Chat.Session.{
  PeerInfo, new_peer, SessionConfig, message, peer_event, ChatSession, is_authenticated, notify,
  with_connection, sending, peer_at, set_peer,
}

-- The payload of sendHello.
unfoldable pub hello_payload : SessionConfig → Bytes
hello_payload g =
    codes "{"
    ++ (json_str (codes "device_id") g.device_id
        ++ (codes ","
            ++ (json_str (codes "display_name") g.display_name
                ++ (codes ","
                    ++ (json_str (codes "platform") g.platform
                        ++ (codes ","
                            ++ (codes "\"tcp_port\":" ++ (print_ℕ g.listen_port ++ codes "}"))))))))

unfoldable pub send_hello : ChatSession → Bytes → ChatSession
send_hello s cid = with_connection s cid (sending MessageType.hello (hello_payload s.config))

-- addConnection, with the identifier that makeConnId drew.
unfoldable pub add_connection : ChatSession → Bytes → Connection → ChatSession
add_connection s cid c =
    if not s.running
    then s
    else send_hello
        (record s {
          connections = insert cid (Connection.start c) s.connections;
          peers = insert cid new_peer s.peers;
        })
        cid

-- The AUTH_REQUEST that handleHello sends.
unfoldable pub challenge_payload : SessionConfig → Bytes → Bytes
challenge_payload g device_id =
    codes "{"
    ++ (json_str (codes "challenge") (device_id ++ (codes "|" ++ g.device_id)) ++ codes "}")

abbrev pub hello_peer : PeerInfo → Bytes → ConnectionState → PeerInfo
hello_peer p payload state = record p {
  device_id = extract_str payload (codes "device_id");
  display_name = extract_str payload (codes "display_name");
  platform = extract_str payload (codes "platform");
  state = state;
}

unfoldable pub handle_hello : ChatSession → Bytes → Bytes → ChatSession
handle_hello s cid payload =
    let device_id = extract_str payload (codes "device_id") in
    let waiting = hello_peer (peer_at s cid) payload authenticating in
    let accepted = hello_peer (peer_at s cid) payload authenticated in
    if is_empty device_id
    then with_connection s cid (λ c. Connection.disconnect c (codes "invalid HELLO"))
    else if s.config.require_auth
    then with_connection (set_peer s cid waiting) cid
        (sending MessageType.auth_request (challenge_payload s.config device_id))
    else notify (set_peer s cid accepted) (peer_event accepted true)

-- The validation of handleChatMessage: the peer is known and authenticated.
unfoldable pub is_authenticated_peer : ChatSession → Bytes → Bool
is_authenticated_peer s cid = elim (lookup cid s.peers) [
  | none ↦ false
  | some p ↦ is_authenticated p.state
]

abbrev pub deliver_message : ChatSession → Option ChatMessage → ChatSession
deliver_message s none = s
deliver_message s (some m) = notify s (message m)

unfoldable pub handle_chat_message : ChatSession → Bytes → Bytes → ChatSession
handle_chat_message s cid payload =
    if is_authenticated_peer s cid then deliver_message s (from_json payload) else s

unfoldable pub handle_ping : ChatSession → Bytes → ChatSession
handle_ping s cid = with_connection s cid (sending MessageType.pong (codes "{}"))

unfoldable pub handle_disconnect : ChatSession → Bytes → ChatSession
handle_disconnect s cid =
    with_connection s cid (λ c. Connection.disconnect c (codes "peer requested disconnect"))

-- The response to any challenge: the hash itself, or "ok" where there is none.
unfoldable pub auth_reply : SessionConfig → Bytes
auth_reply g = if is_empty g.psk_hash then codes "ok" else g.psk_hash

unfoldable pub response_payload : SessionConfig → Bytes
unfolding auth_reply
response_payload g =
    codes "{"
    ++ (json_str (codes "response") (auth_reply g)
        ++ (codes "," ++ (json_str (codes "device_id") g.device_id ++ codes "}")))

unfoldable pub handle_auth_request : ChatSession → Bytes → Bytes → ChatSession
handle_auth_request s cid payload =
    with_connection s cid (sending MessageType.auth_response (response_payload s.config))

unfoldable pub is_accepted : SessionConfig → Bytes → Bool
is_accepted g payload =
    if is_empty g.psk_hash
    then true
    else eq_bytes (extract_str payload (codes "response")) g.psk_hash

unfoldable pub handle_auth_response : ChatSession → Bytes → Bytes → ChatSession
handle_auth_response s cid payload = elim (lookup cid s.connections) [
  | none ↦ s
  | some c ↦
      let p = record (peer_at s cid) { state = authenticated } in
      let refused = sending MessageType.auth_fail (codes "{\"reason\":\"bad credentials\"}") c in
      if is_accepted s.config payload
      then notify
          (record s {
            peers = insert cid p s.peers;
            connections = insert cid (sending MessageType.auth_ok (codes "{}") c) s.connections;
          })
          (peer_event p true)
      else record s {
        connections =
            insert cid (Connection.disconnect refused (codes "authentication failed"))
              s.connections;
      }
]

-- onFrame's switch.
unfoldable pub dispatch : MessageType → ChatSession → Bytes → Bytes → ChatSession
unfolding handle_hello handle_auth_request handle_auth_response handle_chat_message handle_ping
    handle_disconnect
dispatch MessageType.hello s cid payload = handle_hello s cid payload
dispatch MessageType.auth_request s cid payload = handle_auth_request s cid payload
dispatch MessageType.auth_response s cid payload = handle_auth_response s cid payload
dispatch MessageType.chat_message s cid payload = handle_chat_message s cid payload
dispatch MessageType.ping s cid payload = handle_ping s cid
dispatch MessageType.pong s cid payload = s
dispatch MessageType.disconnect s cid payload = handle_disconnect s cid
dispatch _ s cid payload = s

abbrev pub on_frame : ChatSession → Bytes → Frame → ChatSession
on_frame s cid f = dispatch f.header.type s cid f.payload

-- Erasing a connection destroys it, which closes its socket.
unfoldable pub on_disconnect : ChatSession → Bytes → ChatSession
on_disconnect s cid =
    let gone = record s { peers = erase cid s.peers; connections = erase cid s.connections } in
    elim (lookup cid s.peers) [
      | none ↦ gone
      | some p ↦ if is_authenticated p.state then notify gone (peer_event p false) else gone
    ]
