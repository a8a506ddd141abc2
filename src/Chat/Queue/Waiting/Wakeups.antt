-- ===== src/Chat/Queue/Waiting/Wakeups.antt =====
-- No wakeup is lost in src/chat/message_queue.cpp, and what its threads do together is a history of
-- operations on the queue.
use lantalk.Common.{
  ℕ, ◌+◌, ◌≤◌, ◌<◌, ◌≡◌, refl, Bool, false, List, [], ◌∷◌, arith, length, length-append,
}
use lantalk.Chat.Message.{ChatMessage}
use lantalk.Chat.Queue.{push, pop, clear, drain}
use lantalk.Chat.Queue.History.{drain_loop-all}
use lantalk.Chat.Queue.Waiting.{
  Waiting, no_threads, notify_reader, notify_writer, notify_writers, push_round, pop_round, try_pop,
  clear_all, drain_all, Step, push_called, push_wakes, push_notified, pop_called, pop_wakes,
  pop_notified, try_pop_called, clear_called, drain_called, Reach, here, next,
}

-- Where a thread sleeps, every message, or every free place, has a thread that was notified of it.
pub record NoneLost (s : Waiting) : Type 0 where
  pub readers : 0 < s.readers_asleep → length s.queue.queue ≤ s.readers_woken
  pub writers : 0 < s.writers_asleep → s.queue.max_size ≤ length s.queue.queue + s.writers_woken

-- The same with one thread taken out of a count: it is about to run a round.
push_round-NoneLost :
    (s : Waiting) (m : ChatMessage) (late : Bool)
    → (0 < s.readers_asleep → length s.queue.queue ≤ s.readers_woken)
    → (0 < s.writers_asleep → s.queue.max_size ≤ length s.queue.queue + (s.writers_woken + 1))
    → NoneLost (push_round s m late)
unfolding push_round push notify_reader
push_round-NoneLost s m late r w = ground (arith, length-append s.queue.queue (m ∷ []))

pop_round-taking :
    (l : List ChatMessage) (s : Waiting) (late : Bool)
    → s.queue.queue ≡ l
    → (0 < s.readers_asleep → length s.queue.queue ≤ s.readers_woken + 1)
    → (0 < s.writers_asleep → s.queue.max_size ≤ length s.queue.queue + s.writers_woken)
    → NoneLost (pop_round s late)
unfolding pop_round pop notify_writer
pop_round-taking [] s late e r w = ground arith
pop_round-taking (m ∷ l) s late e r w = ground arith

pop_round-NoneLost :
    (s : Waiting) (late : Bool)
    → (0 < s.readers_asleep → length s.queue.queue ≤ s.readers_woken + 1)
    → (0 < s.writers_asleep → s.queue.max_size ≤ length s.queue.queue + s.writers_woken)
    → NoneLost (pop_round s late)
pop_round-NoneLost s late r w = pop_round-taking s.queue.queue s late refl r w

try_pop-taking :
    (l : List ChatMessage) (s : Waiting) → s.queue.queue ≡ l → NoneLost s → NoneLost (try_pop s)
unfolding try_pop pop notify_writer
try_pop-taking [] s e h = ground arith
try_pop-taking (m ∷ l) s e h = ground arith

Step-NoneLost : {s t : Waiting} → Step s t → NoneLost s → NoneLost t
Step-NoneLost {s} (push_called m) h =
    push_round-NoneLost s m false h.readers (λ p. omega (arith, h.writers p))
Step-NoneLost {s} (push_wakes m late a) h =
    push_round-NoneLost _ m late h.readers (λ p. omega (arith, h.writers a))
Step-NoneLost {s} (push_notified m late a) h =
    push_round-NoneLost _ m late h.readers (λ p. omega (arith, h.writers p))
Step-NoneLost {s} pop_called h =
    pop_round-NoneLost s false (λ p. omega (arith, h.readers p)) h.writers
Step-NoneLost {s} (pop_wakes late a) h =
    pop_round-NoneLost _ late (λ p. omega (arith, h.readers a)) h.writers
Step-NoneLost {s} (pop_notified late a) h =
    pop_round-NoneLost _ late (λ p. omega (arith, h.readers p)) h.writers
Step-NoneLost {s} try_pop_called h = try_pop-taking s.queue.queue s refl h
Step-NoneLost {s} clear_called h = unfold clear_all clear notify_writers in ground arith
Step-NoneLost {s} drain_called h =
    unfold drain_all drain notify_writers in
    rw (drain_loop-all s.queue.queue s.queue) (ground arith)

Reach-keeps : {s t : Waiting} → NoneLost s → Reach s t → NoneLost t
Reach-keeps h here = h
Reach-keeps h (next r st) = Step-NoneLost st (Reach-keeps h r)

-- No wakeup is lost: in whatever order the threads that push, pop, try, clear and drain get the
-- mutex, sleep, time out and are notified, as long as a reader sleeps each message in the queue has
-- a reader of its own that was notified and has yet to run, and as long as a writer sleeps each free
-- place has such a writer.
pub Reach-NoneLost : (max : ℕ) (s : Waiting) → Reach (no_threads max) s → NoneLost s
unfolding no_threads
Reach-NoneLost max s r = Reach-keeps (ground arith) r
