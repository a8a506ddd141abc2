-- ===== src/Network/Client.antt =====
-- src/network/tcp_client.cpp, over what the resolver and the socket calls of the system return, and
-- with the handles that it opens and closes. The build is the one without _WIN32.
pub mod Outcomes
use lantalk.Common.{
  ℕ, ◌+◌, true, false, List, [], ◌∷◌, ◌++◌, Option, none, some, Bytes, codes, ◌==◌, if◌then◌else◌,
}
use lantalk.Network.Socket.{TcpSocket, close, set_blocking}

pub data Dial : Type 0 where
  at_once in_progress dial_fails : Dial

pub data Selected : Type 0 where
  ready timed_out select_fails : Selected

-- The system, in one call of TcpClient::connect.
pub record Net : Type 0 where
  -- getaddrinfo for AF_INET: the first address.
  pub getaddrinfo : Bytes → Option ℕ
  pub inet_ntop : ℕ → Bytes
  pub inet_pton : Bytes → ℕ
  -- ::socket.
  pub new_socket : Option ℕ
  -- What F_GETFL returns of the new descriptor, and of it again after ::connect.
  pub new_flags : Option ℕ
  -- ::connect to an address and a port: 0, EINPROGRESS or another error.
  pub dial : ℕ → ℕ → Dial
  -- select for so many seconds.
  pub wait_writable : ℕ → Selected
  -- SO_ERROR, `none` if getsockopt fails.
  pub so_error : Option ℕ
  pub last_error : Bytes

unfoldable pub resolve_hostname : Net → Bytes → Option Bytes
resolve_hostname net hostname = elim (net.getaddrinfo hostname) [
  | none ↦ none
  | some a ↦ some (net.inet_ntop a)
]

pub data Outcome : Type 0 where
  connected : TcpSocket → Option ℕ → Outcome
  throws : Bytes → Outcome

-- How connect ends, with the flags of the descriptor, what it opened and closed, and what it dialled.
pub record Made : Type 0 where
  pub outcome : Outcome
  pub opened : List ℕ
  pub closed : List ℕ
  pub dialled : List (ℕ × ℕ)

-- A throw while the unique_ptr holds the socket, which it destroys.
unfoldable pub throw_with : ℕ → List (ℕ × ℕ) → Bytes → Made
unfolding close
throw_with h d msg = record {
  outcome = throws msg;
  opened = h ∷ [];
  closed = (close (record { handle = some h })).1;
  dialled = d;
}

-- What F_SETFL leaves of the flags.
abbrev pub flags_after : Option ℕ → Option ℕ → Option ℕ
flags_after old none = old
flags_after old (some f) = some f

-- The last two lines of connect.
unfoldable pub finish : ℕ → Option ℕ → List (ℕ × ℕ) → Made
unfolding set_blocking
finish h flags d = record {
  outcome =
      connected (record { handle = some h })
        (flags_after flags (set_blocking (record { handle = some h }) true flags));
  opened = h ∷ [];
  closed = [];
  dialled = d;
}

-- `int soError = 0`, and getsockopt.
abbrev pub socket_error : Net → ℕ
socket_error net = elim net.so_error [ none ↦ 0 | some e ↦ e ]

-- After EINPROGRESS.
unfoldable pub await_connection : Net → ℕ → Option ℕ → List (ℕ × ℕ) → ℕ → Made
unfolding throw_with finish
await_connection net h flags d timeout = elim (net.wait_writable timeout) [
  | timed_out ↦ throw_with h d (codes "Connection timed out")
  | select_fails ↦ throw_with h d (codes "Select error")
  | ready ↦
      if socket_error net == 0
      then finish h flags d
      else throw_with h d (codes "Connection refused")
]

-- After `setBlocking(false)`.
abbrev pub flags_unblocked : Net → ℕ → Option ℕ
flags_unblocked net h =
    flags_after net.new_flags (set_blocking (record { handle = some h }) false net.new_flags)

-- From the new socket on.
unfoldable pub connect_socket : Net → ℕ → Bytes → ℕ → ℕ → Made
unfolding await_connection throw_with finish
connect_socket net h ip port timeout =
    let flags = flags_unblocked net h in
    let address = net.inet_pton ip in
    let d = (address, port) ∷ [] in
    elim (net.dial address port) [
      | at_once ↦ finish h flags d
      | dial_fails ↦ throw_with h d (codes "Connect error: " ++ net.last_error)
      | in_progress ↦ await_connection net h flags d timeout
    ]

abbrev pub throw_early : Bytes → Made
throw_early msg = record { outcome = throws msg; opened = []; closed = []; dialled = [] }

unfoldable pub connect : Net → Bytes → ℕ → ℕ → Made
unfolding resolve_hostname connect_socket
connect net host port timeout = elim (resolve_hostname net host) [
  | none ↦ throw_early (codes "Failed to resolve hostname: " ++ host)
  | some ip ↦ elim net.new_socket [
    | none ↦ throw_early (codes "Failed to create socket: " ++ net.last_error)
    | some h ↦ connect_socket net h ip port timeout
  ]
]
