-- ===== src/Network/Server.antt =====
-- src/network/tcp_server.cpp: the listening socket, and the thread that accepts. What the system's
-- calls return is given step by step, so that stop can come between any two steps of the thread: its
-- test, ::accept, its read of `running_` behind that, and the start of the detached thread for a
-- connection. That thread calls the callback in a step of its own, whenever it gets to it.
pub mod Accepting
pub mod Handing
use lantalk.Common.{
  ℕ, zero, suc, get_elem?, Bool, true, false, not, ◌&&◌, List, [], ◌∷◌, ◌++◌, Option, none, some,
  if◌then◌else◌,
}
use lantalk.Network.Socket.{TcpSocket, invalid_socket, close, move_assign}

-- What ::accept returns: a handle, EINTR or another error.
pub data Accepted : Type 0 where
  client : ℕ → Accepted
  interrupted : Accepted
  accept_fails : Accepted

-- Where the accept thread is: not running, at the loop's test, in ::accept, behind it, or about to
-- start the detached thread for a connection, with `running_` read as true.
pub data Phase : Type 0 where
  no_thread : Phase
  at_test : Phase
  in_accept : Phase
  returned : Accepted → Phase
  passed : ℕ → Phase

-- The class, and its threads. `accepted` lists what ::accept returned, `settled` what became of it,
-- with `true` for a detached thread and `false` for ::close. `waiting` are the connections of the
-- detached threads that have not called the callback yet, `called` those that it was called with.
-- `reports` counts the lines on std::cerr.
pub record TcpServer : Type 0 where
  pub has_callback : Bool
  pub listen_socket : TcpSocket
  pub running : Bool
  pub acceptor : Phase
  pub accepted : List ℕ
  pub settled : List (ℕ × Bool)
  pub waiting : List ℕ
  pub called : List ℕ
  pub reports : ℕ
  pub closed : List ℕ

abbrev pub new_server : Bool → TcpServer
new_server callback = record {
  has_callback = callback;
  listen_socket = invalid_socket;
  running = false;
  acceptor = no_thread;
  accepted = [];
  settled = [];
  waiting = [];
  called = [];
  reports = 0;
  closed = [];
}

-- `listenSocket_ = TcpSocket(h)`.
abbrev pub take_handle : TcpServer → ℕ → TcpServer
take_handle s h = record s {
  listen_socket = (move_assign s.listen_socket (record { handle = some h })).0;
  closed = s.closed ++ (move_assign s.listen_socket (record { handle = some h })).2;
}

-- `listenSocket_.close()`.
abbrev pub close_listening : TcpServer → TcpServer
close_listening s = record s {
  listen_socket = (close s.listen_socket).0;
  closed = s.closed ++ (close s.listen_socket).1;
}

-- start: what ::socket returns, and whether ::bind and ::listen succeed.
unfoldable pub start : TcpServer → Option ℕ → Bool → Bool → TcpServer × Bool
unfolding close move_assign
start s socket bound listening = if s.running then (s, true) else elim socket [
  | none ↦ (s, false)
  | some h ↦
      let s1 = take_handle s h in
      if not bound
      then (close_listening s1, false)
      else if not listening
      then (close_listening s1, false)
      else (record s1 { running = true; acceptor = at_test }, true)
]

-- stop, up to the join of the thread.
unfoldable pub stop : TcpServer → TcpServer
unfolding close
stop s = if s.running then close_listening (record s { running = false }) else s

abbrev pub remove : List ℕ → ℕ → List ℕ
remove [] i = []
remove (x ∷ xs) zero = xs
remove (x ∷ xs) (suc i) = x ∷ remove xs i

-- Behind ::accept: `continue`, `break`, or the test of `running_` and of the callback, with ::close.
unfoldable pub settle : TcpServer → Accepted → TcpServer
settle s interrupted = record s { acceptor = at_test }
settle s accept_fails = record s {
  acceptor = no_thread;
  reports = if s.running then suc s.reports else s.reports;
}
settle s (client h) =
    if s.running && s.has_callback
    then record s { acceptor = passed h }
    else record s { acceptor = at_test; settled = s.settled ++ (h, false) ∷ [] }

-- The construction of the std::thread, and its detach.
unfoldable pub hand_off : TcpServer → ℕ → TcpServer
hand_off s h = record s {
  acceptor = at_test;
  settled = s.settled ++ (h, true) ∷ [];
  waiting = s.waiting ++ h ∷ [];
}

-- A detached thread, the one at this place of `waiting`, calls `onAccept_`. It reads no flag, and stop
-- does not wait for it.
unfoldable pub call_back : TcpServer → ℕ → TcpServer
call_back s i = elim (get_elem? s.waiting i) [
  | none ↦ s
  | some h ↦ record s { waiting = remove s.waiting i; called = s.called ++ h ∷ [] }
]

abbrev pub note_accepted : TcpServer → Accepted → TcpServer
note_accepted s (client h) = record s { accepted = s.accepted ++ h ∷ [] }
note_accepted s interrupted = s
note_accepted s accept_fails = s

-- The thread's next step from where it is; `r` is what ::accept returns, if it is in it.
unfoldable pub accept_in : TcpServer → Accepted → Phase → TcpServer
unfolding settle hand_off
accept_in s r no_thread = s
accept_in s r at_test =
    if s.running then record s { acceptor = in_accept } else record s { acceptor = no_thread }
accept_in s r in_accept = record (note_accepted s r) { acceptor = returned r }
accept_in s r (returned a) = settle s a
accept_in s r (passed h) = hand_off s h

abbrev pub accept_step : TcpServer → Accepted → TcpServer
accept_step s r = accept_in s r s.acceptor

abbrev pub has_thread : Phase → Bool
has_thread no_thread = false
has_thread at_test = true
has_thread in_accept = true
has_thread (returned a) = true
has_thread (passed h) = true

pub data Step : Type 0 where
  starts : Option ℕ → Bool → Bool → Step
  stops : Step
  steps : Accepted → Step
  calls : ℕ → Step

-- One step of the owner or of a thread. The owner is in stop until the thread has ended, so it
-- does not start the server again before.
unfoldable pub step : TcpServer → Step → TcpServer
unfolding start stop accept_in call_back
step s (starts socket bound listening) =
    if not s.running && has_thread s.acceptor then s else (start s socket bound listening).0
step s stops = stop s
step s (steps r) = accept_step s r
step s (calls i) = call_back s i

unfoldable pub run : TcpServer → List Step → TcpServer
unfolding step
run s [] = s
run s (x ∷ xs) = run (step s x) xs
