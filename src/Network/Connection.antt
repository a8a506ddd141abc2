-- ===== src/Network/Connection.antt =====
-- src/network/connection.hpp and connection.cpp. The socket is the operating system's: a connection
-- records whether its handle is open and whether the system takes what is written (`link_up`), and
-- `sent` lists the frames whose bytes were written whole. Its threads call these functions one at a
-- time; the atomics and the send mutex make each access indivisible.
pub mod Receive
pub mod Lifecycle
pub mod Carried
use lantalk.Common.{ℕ, Bool, true, false, not, ◌||◌, List, [], ◌∷◌, ◌++◌, Bytes, if◌then◌else◌}
use lantalk.Network.Protocol.Types.{MessageType, disconnect as disconnect_type}
use lantalk.Network.Protocol.Header.{Frame, create}
use lantalk.Network.Protocol.Reader.{FrameReader, new_reader}

pub data ConnectionState : Type 0 where
  connected authenticating authenticated disconnecting disconnected : ConnectionState

abbrev pub is_disconnected : ConnectionState → Bool
is_disconnected disconnected = true
is_disconnected _ = false

pub record Connection : Type 0 where
  pub reader : FrameReader
  pub state : ConnectionState
  pub running : Bool
  pub socket_open : Bool
  pub link_up : Bool
  pub sent : List Frame

-- The constructor, over an open socket.
abbrev pub new_connection : ℕ → Bool → Connection
new_connection max link = record {
  reader = new_reader max;
  state = connected;
  running = false;
  socket_open = true;
  link_up = link;
  sent = [];
}

-- `start`; the thread that it makes runs Receive.recv_loop.
unfoldable pub start : Connection → Connection
start c = record c { running = true }

-- `send` of a frame: sendAll on a closed handle fails, and so does a link that is down.
unfoldable pub send_frame : Connection → Frame → Connection × Bool
send_frame c f =
    if not c.running || not c.socket_open
    then (c, false)
    else if c.link_up
    then (record c { sent = c.sent ++ f ∷ [] }, true)
    else (c, false)

-- `send` of a type and a JSON text.
unfoldable pub send : Connection → MessageType → Bytes → Connection × Bool
unfolding send_frame
send c t payload = send_frame c (create t payload)

unfoldable pub set_state : Connection → ConnectionState → Connection
set_state c s = record c { state = s }

-- TcpSocket::close.
abbrev pub close_socket : Connection → Connection
close_socket c = record c { socket_open = false }

unfoldable pub disconnect : Connection → Bytes → Connection
unfolding send set_state
disconnect c reason =
    let c1 = set_state c disconnecting in
    let c2 = (send c1 disconnect_type reason).0 in
    if is_disconnected c.state
    then c
    else set_state (close_socket (record c2 { running = false })) disconnected

-- The destructor, up to the join of the receiver thread.
unfoldable pub destroy : Connection → Connection
destroy c = close_socket (record c { running = false })
