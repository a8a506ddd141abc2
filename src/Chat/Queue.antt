-- ===== src/Chat/Queue.antt =====
-- src/chat/message_queue.cpp: the bounded queue of messages. The mutex makes each operation atomic,
-- so an operation is a function of the queue it finds. A `push` or `pop` that waits acts on the
-- queue that it finds when its wait ends, by the condition or by the timeout: the result of
-- wait_for is then the value of its predicate.
pub mod History
pub mod Waiting
use lantalk.Common.{
  ℕ, Bool, true, false, List, [], ◌∷◌, ◌++◌, Option, none, some, ltb, if◌then◌else◌, is_empty,
  length,
}
use lantalk.Chat.Message.{ChatMessage}

pub record MessageQueue : Type 0 where
  pub queue : List ChatMessage
  pub max_size : ℕ

unfoldable pub new_queue : ℕ → MessageQueue
new_queue max = record { queue = []; max_size = max }

unfoldable pub push : MessageQueue → ChatMessage → MessageQueue × Bool
push q m =
    if ltb (length q.queue) q.max_size
    then (record q { queue = q.queue ++ m ∷ [] }, true)
    else (q, false)

-- queue_.front() and queue_.pop(), on a queue that may be empty.
abbrev pub take_first : MessageQueue → List ChatMessage → MessageQueue × Option ChatMessage
take_first q [] = (q, none)
take_first q (m ∷ rest) = (record q { queue = rest }, some m)

-- `pop` after its wait, and `tryPop`: nothing on an empty queue, otherwise the oldest message.
unfoldable pub pop : MessageQueue → MessageQueue × Option ChatMessage
pop q = take_first q q.queue

unfoldable pub size : MessageQueue → ℕ
size q = length q.queue

unfoldable pub empty : MessageQueue → Bool
empty q = is_empty q.queue

unfoldable pub clear : MessageQueue → MessageQueue
clear q = record q { queue = [] }

-- The loop of drain: the queue that is left, and the messages the callback was given, in order.
unfoldable pub drain_loop : List ChatMessage → MessageQueue → MessageQueue × List ChatMessage
drain_loop [] q = (record q { queue = [] }, [])
drain_loop (m ∷ rest) q = let (q', given) = drain_loop rest q in (q', m ∷ given)

unfoldable pub drain : MessageQueue → MessageQueue × List ChatMessage
unfolding drain_loop
drain q = drain_loop q.queue q
