-- ===== src/Chat/Queue/Waiting/Serial.antt =====
-- What the threads of src/chat/message_queue.cpp do together is a history of atomic operations.
use lantalk.Common.{ℕ, ◌≡◌, refl, ap, ◌∙◌, Bool, false, List, [], ◌∷◌, ◌++◌, arith}
use lantalk.Chat.Message.{ChatMessage}
use lantalk.Chat.Queue.{MessageQueue, push, pop}
use lantalk.Chat.Queue.History.{
  Call, pushes, pops, clears, drains, call, run, IsBounded, run-new_queue-IsBounded,
}
use lantalk.Chat.Queue.Waiting.{
  Waiting, no_threads, notify_reader, notify_writer, notify_writers, push_round, pop_round, try_pop,
  clear_all, drain_all, Step, push_called, push_wakes, push_notified, pop_called, pop_wakes,
  pop_notified, try_pop_called, clear_called, drain_called, Reach, here, next,
}

push_round-call :
    (s : Waiting) (m : ChatMessage) (late : Bool)
    → (call s.queue (pushes m)).queue ≡ (push_round s m late).queue
unfolding push_round push notify_reader call
push_round-call s m late = ground arith

pop_round-taken :
    (l : List ChatMessage) (s : Waiting) (late : Bool)
    → s.queue.queue ≡ l
    → (call s.queue pops).queue ≡ (pop_round s late).queue
unfolding pop_round pop notify_writer call
pop_round-taken [] s late e = ground arith
pop_round-taken (m ∷ l) s late e = ground arith

pop_round-call : (s : Waiting) (late : Bool) → (call s.queue pops).queue ≡ (pop_round s late).queue
pop_round-call s late = pop_round-taken s.queue.queue s late refl

try_pop-taken :
    (l : List ChatMessage) (s : Waiting)
    → s.queue.queue ≡ l
    → (call s.queue pops).queue ≡ (try_pop s).queue
unfolding try_pop pop notify_writer call
try_pop-taken [] s e = ground arith
try_pop-taken (m ∷ l) s e = ground arith

-- A step is one operation on the queue.
Step-call : {s t : Waiting} → Step s t → (c : Call) × ((call s.queue c).queue ≡ t.queue)
Step-call {s} (push_called m) = (pushes m, push_round-call s m false)
Step-call (push_wakes m late a) = (pushes m, push_round-call _ m late)
Step-call (push_notified m late a) = (pushes m, push_round-call _ m late)
Step-call {s} pop_called = (pops, pop_round-call s false)
Step-call (pop_wakes late a) = (pops, pop_round-call _ late)
Step-call (pop_notified late a) = (pops, pop_round-call _ late)
Step-call {s} try_pop_called = (pops, try_pop-taken s.queue.queue s refl)
Step-call clear_called = (clears, unfold call clear_all notify_writers in refl)
Step-call drain_called = (drains, unfold call drain_all notify_writers in refl)

run-append :
    (q : MessageQueue) (cs ds : List Call)
    → (run q (cs ++ ds)).queue ≡ (run (run q cs).queue ds).queue
unfolding run
run-append q [] ds = refl
run-append q (c ∷ cs) ds = run-append (call q c).queue cs ds

-- Whatever the threads do, and however they wait, the queue is what some history of atomic
-- operations leaves.
pub Reach-run : {s t : Waiting} → Reach s t → (cs : List Call) × ((run s.queue cs).queue ≡ t.queue)
unfolding run
Reach-run here = ([], refl)
Reach-run {s} (next {t} r st) =
    let (cs, e) = Reach-run r in
    let (c, f) = Step-call st in
    (cs ++ c ∷ [], run-append s.queue cs (c ∷ []) ∙ ap (λ q. (call q c).queue) e ∙ f)

-- A queue made with capacity `max` never holds more than `max` messages, whatever the threads do and
-- however they wait.
pub Reach-IsBounded : (max : ℕ) (s : Waiting) → Reach (no_threads max) s → IsBounded max s.queue
unfolding no_threads
Reach-IsBounded max s r = let (cs, e) = Reach-run r in rw (← e) (run-new_queue-IsBounded max cs)
