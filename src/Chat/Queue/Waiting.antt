-- ===== src/Chat/Queue/Waiting.antt =====
-- src/chat/message_queue.cpp with its two condition variables. wait_for with a predicate is a loop
-- of rounds: a round, under the mutex, tests the predicate and, where it fails, gives up if the
-- timeout has passed and otherwise sleeps. A sleeping thread is woken by a notification, or wakes by
-- itself at its timeout or spuriously. The threads are counted, not named: a round carries the
-- message of its thread.
pub mod Wakeups
pub mod Serial
use lantalk.Common.{ℕ, ◌+◌, ◌-◌, ◌<◌, Bool, true, false, ◌==◌, if◌then◌else◌, Option, none, some}
use lantalk.Chat.Message.{ChatMessage}
use lantalk.Chat.Queue.{MessageQueue, push, pop, clear, drain, new_queue}

-- The queue, and the threads inside wait_for: asleep, or woken by a notification and not yet back.
pub record Waiting : Type 0 where
  pub queue : MessageQueue
  pub readers_asleep : ℕ
  pub readers_woken : ℕ
  pub writers_asleep : ℕ
  pub writers_woken : ℕ

unfoldable pub no_threads : ℕ → Waiting
unfolding new_queue
no_threads max = record {
  queue = new_queue max;
  readers_asleep = 0;
  readers_woken = 0;
  writers_asleep = 0;
  writers_woken = 0;
}

-- notEmpty_.notify_one() and notFull_.notify_one().
unfoldable pub notify_reader : Waiting → Waiting
notify_reader s =
    if s.readers_asleep == 0
    then s
    else record s { readers_asleep = s.readers_asleep - 1; readers_woken = s.readers_woken + 1 }

unfoldable pub notify_writer : Waiting → Waiting
notify_writer s =
    if s.writers_asleep == 0
    then s
    else record s { writers_asleep = s.writers_asleep - 1; writers_woken = s.writers_woken + 1 }

-- notFull_.notify_all().
unfoldable pub notify_writers : Waiting → Waiting
notify_writers s = record s {
  writers_asleep = 0;
  writers_woken = s.writers_woken + s.writers_asleep;
}

-- A round of `push`; `late` tells that its timeout has passed.
unfoldable pub push_round : Waiting → ChatMessage → Bool → Waiting
unfolding push notify_reader
push_round s m late =
    let (q, done) = push s.queue m in
    if done
    then notify_reader (record s { queue = q })
    else if late
    then s
    else record s { writers_asleep = s.writers_asleep + 1 }

-- What follows the taking of a message, in a round of `pop` and in `tryPop`.
abbrev pub took : Waiting → MessageQueue × Option ChatMessage → Waiting → Waiting
took s (q, some m) otherwise = notify_writer (record s { queue = q })
took s (q, none) otherwise = otherwise

unfoldable pub pop_round : Waiting → Bool → Waiting
unfolding pop notify_writer
pop_round s late =
    took s (pop s.queue) (if late then s else record s { readers_asleep = s.readers_asleep + 1 })

unfoldable pub try_pop : Waiting → Waiting
unfolding pop notify_writer
try_pop s = took s (pop s.queue) s

unfoldable pub clear_all : Waiting → Waiting
unfolding clear notify_writers
clear_all s = notify_writers (record s { queue = clear s.queue })

unfoldable pub drain_all : Waiting → Waiting
unfolding drain notify_writers
drain_all s = notify_writers (record s { queue = (drain s.queue).0 })

-- What a thread can do when it gets the mutex: a call, or a round of one that slept and wakes by
-- itself, or was notified.
pub data Step (s : Waiting) : Waiting → Type 0 where
  push_called : (m : ChatMessage) → Step s (push_round s m false)
  push_wakes :
      (m : ChatMessage) (late : Bool)
      → 0 < s.writers_asleep
      → Step s (push_round (record s { writers_asleep = s.writers_asleep - 1 }) m late)
  push_notified :
      (m : ChatMessage) (late : Bool)
      → 0 < s.writers_woken
      → Step s (push_round (record s { writers_woken = s.writers_woken - 1 }) m late)
  pop_called : Step s (pop_round s false)
  pop_wakes :
      (late : Bool)
      → 0 < s.readers_asleep
      → Step s (pop_round (record s { readers_asleep = s.readers_asleep - 1 }) late)
  pop_notified :
      (late : Bool)
      → 0 < s.readers_woken
      → Step s (pop_round (record s { readers_woken = s.readers_woken - 1 }) late)
  try_pop_called : Step s (try_pop s)
  clear_called : Step s (clear_all s)
  drain_called : Step s (drain_all s)

pub data Reach (s : Waiting) : Waiting → Type 0 where
  here : Reach s s
  next : {t u : Waiting} → Reach s t → Step t u → Reach s u
