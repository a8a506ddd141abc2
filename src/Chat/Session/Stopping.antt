-- ===== src/Chat/Session/Stopping.antt =====
-- Threads around connMutex_ of src/chat/chat_session.cpp: ChatSession::stop, which destroys the
-- connections with the mutex held, the destructor of src/network/connection.cpp, which joins the
-- receiver thread, and the receiver threads, which take the mutex in the handlers of onFrame. The
-- connections are numbered in the order of the map. The ping thread, which stop joins before it takes
-- the mutex, is left out.
pub mod Mutex
pub mod Deadlock
use lantalk.Common.{ℕ, suc, ◌<◌, ◌≡◌, Bool, true, false, Option, none, some, ◌==◌, if◌then◌else◌}

-- A receiver thread: in recv or between two frames, in a handler before the mutex, in a handler with
-- the mutex, or after its loop.
pub data Receiver : Type 0 where
  receiving : Receiver
  waiting : Receiver
  handling : Receiver
  finished : Receiver

-- Where `stop` is; `joining k` is in the destructor of connection k, with the mutex held.
pub data Stop : Type 0 where
  not_called : Stop
  locking : Stop
  joining : ℕ → Stop
  returned : Stop

pub data Holder : Type 0 where
  stopper : Holder
  receiver : ℕ → Holder

pub record Threads : Type 0 where
  pub count : ℕ
  pub stop : Stop
  pub receivers : ℕ → Receiver
  pub holder : Option Holder

unfoldable pub started : ℕ → Threads
started n = record { count = n; stop = not_called; receivers = λ _. receiving; holder = none }

abbrev pub put : Threads → ℕ → Receiver → Threads
put s i r = record s { receivers = λ j. if j == i then r else s.receivers j }

-- What the threads can do. A frame of bytes that are already there is handled also when the socket
-- is closed. A receive loop can end whenever it is not in a handler: `recv` fails or finds the end of
-- the stream, or a frame breaks the protocol; the handler of the disconnection counts as one.
pub data Step (s : Threads) : Threads → Type 0 where
  frame : (i : ℕ) → s.receivers i ≡ receiving → Step s (put s i waiting)
  locks :
      (i : ℕ)
      → s.receivers i ≡ waiting
      → s.holder ≡ none
      → Step s (record (put s i handling) { holder = some (receiver i) })
  unlocks :
      (i : ℕ) → s.receivers i ≡ handling → Step s (record (put s i receiving) { holder = none })
  ends : (i : ℕ) → s.receivers i ≡ receiving → Step s (put s i finished)
  stop_called : s.stop ≡ not_called → Step s (record s { stop = locking })
  -- The mutex, and `disconnect` of every connection.
  stop_locks :
      s.stop ≡ locking
      → s.holder ≡ none
      → Step s (record s { stop = joining 0; holder = some stopper })
  stop_joins :
      (k : ℕ)
      → s.stop ≡ joining k
      → k < s.count
      → s.receivers k ≡ finished
      → Step s (record s { stop = joining (suc k) })
  stop_returns :
      (k : ℕ)
      → s.stop ≡ joining k
      → k ≡ s.count
      → Step s (record s { stop = returned; holder = none })

pub data Reach (s : Threads) : Threads → Type 0 where
  here : Reach s s
  next : {t u : Threads} → Reach s t → Step t u → Reach s u
