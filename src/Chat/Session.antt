-- ===== src/Chat/Session.antt =====
-- src/chat/chat_session.hpp and chat_session.cpp: the state of a session. Its handlers are in
-- Handlers and its commands in Commands. Each handler holds connMutex_ where it touches the two maps, so a handler is a
-- function of the session that it finds; its callbacks come out as events, in order. The frames that
-- a connection sends are in its own record. Logging is left out.
pub mod Json
pub mod Handlers
pub mod Commands
pub mod Text
pub mod Authentication
pub mod History
pub mod Routing
pub mod Wiring
pub mod Stopping
pub mod Handshake
pub mod Isolation
pub mod Keepalive
pub mod Receiving
use lantalk.Common.{ℕ, ◌+◌, Bool, true, false, List, [], ◌∷◌, ◌++◌, none, some, Bytes}
use lantalk.Common.Dict.{Dict, lookup, insert}
use lantalk.Network.Protocol.Types.{MessageType}
use lantalk.Network.Connection.{Connection, ConnectionState, connected, authenticated, send}
use lantalk.Network.Connection
use lantalk.Chat.Message.{ChatMessage}

pub record PeerInfo : Type 0 where
  pub device_id : Bytes
  pub display_name : Bytes
  pub address : Bytes
  pub port : ℕ
  pub platform : Bytes
  pub state : ConnectionState

-- PeerInfo{}.
abbrev pub new_peer : PeerInfo
new_peer = record {
  device_id = [];
  display_name = [];
  address = [];
  port = 0;
  platform = [];
  state = connected;
}

-- The fields of AppConfig that the session reads.
pub record SessionConfig : Type 0 where
  pub device_id : Bytes
  pub display_name : Bytes
  pub platform : Bytes
  pub listen_port : ℕ
  pub psk_hash : Bytes
  pub require_auth : Bool

-- A call of messageCallback_ or of peerEventCallback_.
pub data Event : Type 0 where
  message : ChatMessage → Event
  peer_event : PeerInfo → Bool → Event

pub record ChatSession : Type 0 where
  pub config : SessionConfig
  pub connections : Dict Connection
  pub peers : Dict PeerInfo
  pub running : Bool
  pub events : List Event

abbrev pub is_authenticated : ConnectionState → Bool
is_authenticated authenticated = true
is_authenticated _ = false

-- Both callbacks are set before the session starts, as main does.
abbrev pub notify : ChatSession → Event → ChatSession
notify s e = record s { events = s.events ++ e ∷ [] }

-- A call on connections_[cid], if it is there: the map holds pointers, so the connection changes.
unfoldable pub with_connection : ChatSession → Bytes → (Connection → Connection) → ChatSession
with_connection s cid f = elim (lookup cid s.connections) [
  | none ↦ s
  | some c ↦ record s { connections = insert cid (f c) s.connections }
]

abbrev pub sending : MessageType → Bytes → Connection → Connection
sending t payload c = (send c t payload).0

-- peers_[cid], which makes an entry where there is none.
unfoldable pub peer_at : ChatSession → Bytes → PeerInfo
peer_at s cid = elim (lookup cid s.peers) [ none ↦ new_peer | some p ↦ p ]

abbrev pub set_peer : ChatSession → Bytes → PeerInfo → ChatSession
set_peer s cid p = record s { peers = insert cid p s.peers }
