-- ===== src/Chat/Queue/History.antt =====
-- Histories of operations on the queue (src/chat/message_queue.cpp), in the order in which the threads get the mutex.
use lantalk.Common.{
  ℕ, ◌≤◌, ◌≡◌, refl, sym, ap, ◌∙◌, Bool, true, false, List, [], ◌∷◌, ◌++◌, Option, none, some,
  arith, length, length-append, append-nil, append_assoc,
}
use lantalk.Chat.Message.{ChatMessage}
use lantalk.Chat.Queue.{MessageQueue, push, pop, clear, drain, drain_loop, new_queue}

pub data Call : Type 0 where
  pushes : ChatMessage → Call
  pops clears drains : Call

abbrev pub to_list : Option ChatMessage → List ChatMessage
to_list none = []
to_list (some m) = m ∷ []

abbrev pub accepted : Bool → ChatMessage → List ChatMessage
accepted true m = m ∷ []
accepted false m = []

-- The queue after a call, what the call put in, and what it took out.
pub record Effect : Type 0 where
  pub queue : MessageQueue
  pub came : List ChatMessage
  pub went : List ChatMessage

unfoldable pub call : MessageQueue → Call → Effect
unfolding push pop clear drain
call q (pushes m) =
    let (q', done) = push q m in record { queue = q'; came = accepted done m; went = [] }
call q pops = let (q', got) = pop q in record { queue = q'; came = []; went = to_list got }
call q clears = record { queue = clear q; came = []; went = q.queue }
call q drains = let (q', given) = drain q in record { queue = q'; came = []; went = given }

unfoldable pub run : MessageQueue → List Call → Effect
unfolding call
run q [] = record { queue = q; came = []; went = [] }
run q (c ∷ cs) =
    let e = call q c in
    let later = run e.queue cs in
    record { queue = later.queue; came = e.came ++ later.came; went = e.went ++ later.went }

pub drain_loop-all :
    (l : List ChatMessage) (q : MessageQueue) → drain_loop l q ≡ (record q { queue = [] }, l)
unfolding drain_loop
drain_loop-all [] q = refl
drain_loop-all (m ∷ l) q = rw (drain_loop-all l q)

pop-cases :
    (l : List ChatMessage) (q : MessageQueue)
    → q.queue ≡ l
    → let e = call q pops in e.went ++ e.queue.queue ≡ q.queue
unfolding call
pop-cases [] q h = ground arith
pop-cases (m ∷ l) q h = ground arith

call-order :
    (q : MessageQueue) (c : Call) → let e = call q c in e.went ++ e.queue.queue ≡ q.queue ++ e.came
unfolding call
call-order q (pushes m) = ground (arith, append-nil q.queue)
call-order q pops = rw (append-nil q.queue) (pop-cases q.queue q refl)
call-order q clears = refl
call-order q drains = rw (drain_loop-all q.queue q)

-- First in, first out: over any history, the messages that left the queue followed by those still in
-- it are the messages that were in it at first followed by the accepted ones, in the same order.
-- No message is lost, duplicated or reordered.
pub run-order :
    (q : MessageQueue) (cs : List Call)
    → (run q cs).went ++ (run q cs).queue.queue ≡ q.queue ++ (run q cs).came
unfolding run
run-order q [] = sym (append-nil q.queue)
run-order q (c ∷ cs) =
    let e = call q c in
    let later = run e.queue cs in
    append_assoc e.went later.went later.queue.queue
    ∙ ap (◌++◌ e.went) (run-order e.queue cs)
    ∙ sym (append_assoc e.went e.queue.queue later.came)
    ∙ ap (λ l. l ++ later.came) (call-order q c)
    ∙ append_assoc q.queue e.came later.came

-- The capacity, and the bound on the length.
abbrev pub IsBounded : ℕ → MessageQueue → Type 0
IsBounded max q = (q.max_size ≡ max) × (length q.queue ≤ max)

pop-IsBounded :
    (max : ℕ) (l : List ChatMessage) (q : MessageQueue)
    → q.queue ≡ l
    → IsBounded max q
    → IsBounded max (call q pops).queue
unfolding call
pop-IsBounded max [] q e h = ground arith
pop-IsBounded max (m ∷ l) q e h = ground arith

pub call-IsBounded :
    (max : ℕ) (q : MessageQueue) (c : Call) → IsBounded max q → IsBounded max (call q c).queue
call-IsBounded max q (pushes m) h = unfold call in ground (arith, length-append q.queue (m ∷ []))
call-IsBounded max q pops h = pop-IsBounded max q.queue q refl h
call-IsBounded max q clears h = unfold call in ground arith
call-IsBounded max q drains h = unfold call in rw (drain_loop-all q.queue q) (h.0, omega arith)

run-IsBounded :
    (max : ℕ) (q : MessageQueue) (cs : List Call) → IsBounded max q → IsBounded max (run q cs).queue
unfolding run
run-IsBounded max q [] h = h
run-IsBounded max q (c ∷ cs) h = run-IsBounded max (call q c).queue cs (call-IsBounded max q c h)

-- A queue made with capacity `max` never holds more than `max` messages, after any history.
pub run-new_queue-IsBounded :
    (max : ℕ) (cs : List Call) → IsBounded max (run (new_queue max) cs).queue
unfolding new_queue
run-new_queue-IsBounded max cs = run-IsBounded max _ cs (refl, omega arith)
