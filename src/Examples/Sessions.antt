-- ===== src/Examples/Sessions.antt =====
-- The chat session (src/chat/chat_session.cpp) at concrete inputs.
use lantalk.Common.{◌≡◌, refl, true, false, List, [], ◌∷◌, ◌++◌, some, Bytes, codes}
use lantalk.Common.ByteString.{eq_bytes}
use lantalk.Common.Int.{pos}
use lantalk.Common.Dict.{lookup}
use lantalk.Network.Protocol.Types.{MessageType}
use lantalk.Network.Protocol.Header.{create}
use lantalk.Network.Connection.{Connection, authenticated, new_connection, start, send}
use lantalk.Chat.Message.{ChatMessage, to_json}
use lantalk.Chat.Session.{PeerInfo, new_peer, SessionConfig, ChatSession, is_authenticated}
use lantalk.Chat.Session.Handlers.{hello_payload, response_payload}
use lantalk.Chat.Session.Commands.{send_to, broadcast, ping_round}
use lantalk.Chat.Session.Keepalive.{AfterTurn, is_dead, ping_round-AfterTurn}
use lantalk.Chat.Session.Authentication.{Inv}
use lantalk.Chat.Session.History.{
  new_session, Step, starts, adds, frames, after, Presented, after-Presented,
}
use lantalk.Chat.Session.Routing.{Has, reached, map_option, send_to-delivers, broadcast-lookup}
use lantalk.Chat.Session.Isolation.Same.{Same}
use lantalk.Chat.Session.Isolation.Histories.{
  Happening, frame, ends, happen_all, only, happen_all-only,
}
use lantalk.Chat.Session.Handshake.{Decides, answered-Decides}
use lantalk.Chat.Session.Wiring.{
  MainStep, session_starts, connects, frame_callback, session_history,
}
use lantalk.Chat.Session.Wiring.Broadcast.{broadcast-wired}

abbrev guarded : SessionConfig
guarded = record {
  device_id = codes "dev-a";
  display_name = codes "Ada";
  platform = codes "Linux";
  listen_port = 5050;
  psk_hash = codes "c0ffee";
  require_auth = true;
}

abbrev note : ChatMessage
note = record {
  msg_id = codes "m1";
  sender_id = codes "dev-a";
  sender_name = codes "Ada";
  timestamp_utc = pos 0;
  text = codes "hi";
}

-- A connection says hello and presents the hash; newest first.
abbrev login : List Step
login =
    frames (codes "c1") (create MessageType.auth_response (response_payload guarded))
    ∷ frames (codes "c1") (create MessageType.hello (hello_payload guarded))
    ∷ adds (codes "c1") (new_connection 65536 true)
    ∷ starts
    ∷ []

after-Presented_example : Inv guarded (λ cid. Presented guarded cid login) (after guarded login)
after-Presented_example = after-Presented guarded login (λ h. cc) refl

-- A session with one authenticated peer.
abbrev friend : PeerInfo
friend = record new_peer { device_id = codes "dev-b"; state = authenticated }

abbrev open_link : Connection
open_link = start (new_connection 65536 true)

abbrev talking : ChatSession
talking = record (new_session guarded) {
  connections = (codes "c1", open_link) ∷ [];
  peers = (codes "c1", friend) ∷ [];
  running = true;
}

talking-sends : (send_to talking (codes "dev-b") note).1 ≡ true
unfolding send_to lookup eq_bytes send start
talking-sends = refl

send_to-delivers_example :
    (cid : Bytes) × (p : PeerInfo) × (c : Connection) × Has cid p talking.peers
    × (p.device_id ≡ codes "dev-b")
    × (is_authenticated p.state ≡ true)
    × (lookup cid talking.connections ≡ some c)
    × (lookup cid (send_to talking (codes "dev-b") note).0.connections
        ≡ some (record c { sent = c.sent ++ create MessageType.chat_message (to_json note) ∷ [] }))
    × ((k : Bytes)
        → eq_bytes cid k ≡ false
        → lookup k (send_to talking (codes "dev-b") note).0.connections
          ≡ lookup k talking.connections)
send_to-delivers_example = send_to-delivers talking (codes "dev-b") note talking-sends

broadcast-lookup_example :
    (lookup (codes "c1") (broadcast talking note).connections
      ≡ map_option
          (reached talking.peers (codes "c1") note)
          (lookup (codes "c1") talking.connections))
    × ((broadcast talking note).peers ≡ talking.peers)
    × ((broadcast talking note).events ≡ talking.events)
broadcast-lookup_example = broadcast-lookup talking note (codes "c1")

-- A peer connects and says hello; newest first.
abbrev visit : List MainStep
visit =
    frame_callback (create MessageType.hello (hello_payload guarded))
    ∷ connects (codes "c1") (new_connection 65536 true)
    ∷ session_starts
    ∷ []

broadcast-wired_example : let s = after guarded (session_history visit) in broadcast s note ≡ s
broadcast-wired_example = broadcast-wired guarded visit note (tt, ((λ h. cc), (tt, tt)))

-- Two sessions with one connection each, and two hashes.
abbrev greeter : ChatSession
greeter =
    record (new_session (record guarded { device_id = codes "dev-b"; psk_hash = codes "beef" })) {
      connections = (codes "c2", open_link) ∷ [];
      running = true;
    }

answered-Decides_example : Decides greeter talking (codes "c2") (codes "c1") open_link open_link
unfolding eq_bytes lookup
answered-Decides_example =
    answered-Decides greeter talking (codes "c2") (codes "c1") open_link open_link refl refl refl
      refl

-- Two connections, one of which says hello and leaves.
abbrev two_linked : ChatSession
two_linked = record talking { connections = (codes "c1", open_link) ∷ (codes "c3", open_link) ∷ [] }

abbrev mixed : List Happening
mixed =
    frame (codes "c3") (create MessageType.hello (hello_payload guarded))
    ∷ frame (codes "c1") (create MessageType.ping (codes "{}"))
    ∷ ends (codes "c3")
    ∷ []

happen_all-only_example :
    Same
      (codes "c1")
      (happen_all two_linked mixed)
      (happen_all two_linked (only (codes "c1") mixed))
happen_all-only_example =
    happen_all-only (codes "c1") mixed two_linked two_linked
      (record { connection = refl; peer = refl; config = refl })

-- One connection that is up, and one whose link is down.
abbrev half_dead : ChatSession
half_dead = record talking {
  connections = (codes "c1", open_link) ∷ (codes "c3", start (new_connection 65536 false)) ∷ [];
}

ping_round-AfterTurn_example :
    AfterTurn
      (codes "c3")
      half_dead
      (ping_round half_dead)
      (is_dead (lookup (codes "c3") half_dead.connections))
unfolding lookup eq_bytes
ping_round-AfterTurn_example = ping_round-AfterTurn half_dead (codes "c3") refl (refl, (refl, tt))
