-- ===== src/Chat/Session/Stopping/Mutex.antt =====
-- connMutex_ of src/chat/chat_session.cpp is held by the thread that is inside it.
use lantalk.Common.{ℕ, ◌≡◌, refl, some, arith}
use lantalk.Chat.Session.Stopping.{
  handling, joining, stopper, receiver, Threads, started, Step, frame, locks, unlocks, ends,
  stop_called, stop_locks, stop_joins, stop_returns, Reach, here, next,
}

-- The mutex is held by the thread that is inside it.
pub record IsHeld (s : Threads) : Type 0 where
  pub by_receiver : (i : ℕ) → s.receivers i ≡ handling → s.holder ≡ some (receiver i)
  pub by_stop : (k : ℕ) → s.stop ≡ joining k → s.holder ≡ some stopper

pub Step-IsHeld : {s t : Threads} → Step s t → IsHeld s → IsHeld t
Step-IsHeld (frame i e) h = grind (arith, h.by_receiver, h.by_stop)
Step-IsHeld (locks i e f) h = record {
  by_receiver = λ j p. ground (arith, h.by_receiver j);
  by_stop = λ k p. ground (arith, h.by_stop k);
}
Step-IsHeld (unlocks i e) h = record {
  by_receiver = λ j p. ground (arith, h.by_receiver j, h.by_receiver i);
  by_stop = λ k p. ground (arith, h.by_stop k, h.by_receiver i);
}
Step-IsHeld (ends i e) h = grind (arith, h.by_receiver, h.by_stop)
Step-IsHeld (stop_called e) h = grind (arith, h.by_receiver, h.by_stop)
Step-IsHeld (stop_locks e f) h = record {
  by_receiver = λ j p. ground (arith, h.by_receiver j);
  by_stop = λ k p. refl;
}
Step-IsHeld (stop_joins k e l f) h = record {
  by_receiver = λ j p. h.by_receiver j p;
  by_stop = λ j p. h.by_stop k e;
}
Step-IsHeld (stop_returns k e f) h = record {
  by_receiver = λ j p. ground (arith, h.by_receiver j p, h.by_stop k e);
  by_stop = λ j p. cc;
}

pub Reach-IsHeld : {s t : Threads} → IsHeld s → Reach s t → IsHeld t
Reach-IsHeld h here = h
Reach-IsHeld h (next r st) = Step-IsHeld st (Reach-IsHeld h r)

pub started-IsHeld : (n : ℕ) → IsHeld (started n)
unfolding started
started-IsHeld n = record { by_receiver = λ i p. cc; by_stop = λ k p. cc }
