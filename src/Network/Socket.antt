-- ===== src/Network/Socket.antt =====
-- src/network/tcp_socket.cpp: the owner of a socket handle, and its loops over ::send and ::recv. The
-- system is a parameter: what a call of ::send or ::recv returns is an argument, and the handles that
-- are passed to ::close are listed. The build is the one without _WIN32.
pub mod Delivery
pub mod Ownership
pub mod Writing
use lantalk.Common.{
  ℕ, zero, suc, ◌+◌, ◌-◌, ◌*◌, ◌/◌, ◌%◌, Bool, true, false, List, [], ◌∷◌, ◌++◌, Option, none, some,
  Bytes, ltb, if◌then◌else◌, length, take, drop,
}

-- `none` is kInvalidSocket.
pub record TcpSocket : Type 0 where
  pub handle : Option ℕ

abbrev pub invalid_socket : TcpSocket
invalid_socket = record { handle = none }

abbrev pub to_handles : Option ℕ → List ℕ
to_handles none = []
to_handles (some h) = h ∷ []

-- close, with what it passes to ::close.
unfoldable pub close : TcpSocket → TcpSocket × List ℕ
close s = (invalid_socket, to_handles s.handle)

-- The move constructor: the new socket, and the one that it moved from.
unfoldable pub move_construct : TcpSocket → TcpSocket × TcpSocket
move_construct other = (record { handle = other.handle }, invalid_socket)

-- The move assignment between two sockets: both, and what is closed. Within one socket it does nothing.
unfoldable pub move_assign : TcpSocket → TcpSocket → TcpSocket × TcpSocket × List ℕ
move_assign self other = (record { handle = other.handle }, invalid_socket, to_handles self.handle)

unfoldable pub release : TcpSocket → TcpSocket × Option ℕ
release s = (invalid_socket, s.handle)

unfoldable pub is_valid : TcpSocket → Bool
is_valid s = elim s.handle [ none ↦ false | some h ↦ true ]

-- What one call of ::send comes to: some bytes taken, an error that is tried again (EAGAIN,
-- EWOULDBLOCK, EINTR), or any other error.
pub data Sent : Type 0 where
  accepted : ℕ → Sent
  retry : Sent
  failed : Sent

-- What ::send returns in a round, on the bytes it is offered. `static_cast<int>` leaves their number as
-- it is: it is below 2^31.
abbrev pub Kernel : Type 0
Kernel = ℕ → Bytes → Sent

pub data Outcome : Type 0 where
  done broken out_of_fuel : Outcome

-- The loop of sendAll from a round and a count on: how it ends, and what the system has taken.
unfoldable pub send_loop : ℕ → Kernel → ℕ → Bytes → ℕ → Bytes → Outcome × Bytes
send_loop zero k i bytes total wire = (out_of_fuel, wire)
send_loop (suc fuel) k i bytes total wire =
    let offered = drop total bytes in
    let round = elim (k i offered) as (λ _. Outcome × Bytes) [
      | accepted n ↦ send_loop fuel k (i + 1) bytes (total + n) (wire ++ take n offered)
      | retry ↦ send_loop fuel k (i + 1) bytes total wire
      | failed ↦ (broken, wire)
    ] in
    if ltb total (length bytes) then round else (done, wire)

-- sendAll, for so many rounds.
unfoldable pub send_all : ℕ → Kernel → TcpSocket → Bytes → Outcome × Bytes
unfolding send_loop is_valid
send_all fuel k s bytes = if is_valid s then send_loop fuel k 0 bytes 0 [] else (broken, [])

-- What one call of ::recv comes to: some bytes (none at the end of the stream), an error that is tried
-- again, or any other error.
pub data Received : Type 0 where
  arrived : Bytes → Received
  interrupted : Received
  unreadable : Received

-- recv: `none` for -1. An interrupted call gives 0, as the end of the stream does.
unfoldable pub recv : Received → TcpSocket → Option Bytes
recv r s = elim s.handle [
  | none ↦ none
  | some h ↦ elim r [ arrived bytes ↦ some bytes | interrupted ↦ some [] | unreadable ↦ none ]
]

-- A call of setsockopt: the handle, the option's name and the value.
pub data OptionName : Type 0 where
  receive_timeout send_timeout keep_alive no_delay receive_buffer : OptionName

pub record OptionCall : Type 0 where
  pub target : ℕ
  pub name : OptionName
  pub values : List ℕ

unfoldable pub apply_socket_option : TcpSocket → OptionName → List ℕ → List OptionCall
apply_socket_option s o v = elim s.handle [
  | none ↦ []
  | some h ↦ record { target = h; name = o; values = v } ∷ []
]

-- The struct timeval of so many milliseconds: seconds and microseconds.
abbrev pub timeval : ℕ → List ℕ
timeval ms = ms / 1000 ∷ ms % 1000 * 1000 ∷ []

unfoldable pub set_receive_timeout : TcpSocket → ℕ → List OptionCall
unfolding apply_socket_option
set_receive_timeout s ms = apply_socket_option s receive_timeout (timeval ms)

unfoldable pub set_send_timeout : TcpSocket → ℕ → List OptionCall
unfolding apply_socket_option
set_send_timeout s ms = apply_socket_option s send_timeout (timeval ms)

unfoldable pub set_keep_alive : TcpSocket → Bool → List OptionCall
unfolding apply_socket_option
set_keep_alive s on = apply_socket_option s keep_alive ((if on then 1 else 0) ∷ [])

unfoldable pub set_no_delay : TcpSocket → Bool → List OptionCall
unfolding apply_socket_option
set_no_delay s on = apply_socket_option s no_delay ((if on then 1 else 0) ∷ [])

unfoldable pub set_receive_buffer_size : TcpSocket → ℕ → List OptionCall
unfolding apply_socket_option
set_receive_buffer_size s n = apply_socket_option s receive_buffer (n ∷ [])

-- O_NONBLOCK, and whether a descriptor's flags have it.
abbrev pub o_nonblock : ℕ
o_nonblock = 2048

abbrev pub nonblock_bit : ℕ → ℕ
nonblock_bit flags = flags / o_nonblock % 2

-- setBlocking, from what F_GETFL returns (`none` for -1) to what goes to F_SETFL.
unfoldable pub set_blocking : TcpSocket → Bool → Option ℕ → Option ℕ
set_blocking s on flags = elim s.handle [
  | none ↦ none
  | some h ↦ elim flags [
    | none ↦ none
    | some f ↦
        some (if on then f - nonblock_bit f * o_nonblock else f + (1 - nonblock_bit f) * o_nonblock)
  ]
]

-- What getsockname and getpeername tell: an address, as inet_ntop writes it, and a port, as ntohs
-- reads it; `none` if they fail.
abbrev pub EndName : Type 0
EndName = Option (Bytes × ℕ)

unfoldable pub local_address : TcpSocket → EndName → Bytes
unfolding is_valid
local_address s n = if is_valid s then elim n [ none ↦ [] | some (a, p) ↦ a ] else []

unfoldable pub local_port : TcpSocket → EndName → ℕ
unfolding is_valid
local_port s n = if is_valid s then elim n [ none ↦ 0 | some (a, p) ↦ p ] else 0

unfoldable pub remote_address : TcpSocket → EndName → Bytes
unfolding is_valid
remote_address s n = if is_valid s then elim n [ none ↦ [] | some (a, p) ↦ a ] else []

unfoldable pub remote_port : TcpSocket → EndName → ℕ
unfolding is_valid
remote_port s n = if is_valid s then elim n [ none ↦ 0 | some (a, p) ↦ p ] else 0
