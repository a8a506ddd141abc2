-- ===== src/Examples/Threads.antt =====
-- Threads and signals (src/chat/message_queue.cpp, src/chat/chat_session.cpp, src/main.cpp) at
-- concrete inputs.
use lantalk.Common.{ℕ, ◌↔◌, refl, inl, true, false, [], ◌∷◌, List, Option, Bytes, codes, arith}
use lantalk.Common.Int.{pos}
use lantalk.Chat.Message.{ChatMessage}
use lantalk.Chat.Queue.Waiting.{
  Waiting, no_threads, push_called, pop_called, Reach, here, next, pop_round, push_round,
}
use lantalk.Chat.Queue.Waiting.Wakeups.{NoneLost, Reach-NoneLost}
use lantalk.Chat.Session.Stopping.{
  Threads, started, put, waiting, stop_called, stop_locks, frame, joining, stopper,
}
use lantalk.Chat.Session.Stopping
use lantalk.Chat.Session.Stopping.Deadlock.{Returns, NoneWaits, Returns-iff}
use lantalk.Cli.{no_args}
use lantalk.Terminal.{Terminal}
use lantalk.App.Lifecycle.{Item, Deal, does, signal, new_process, run_items, deals_of}
use lantalk.App.Listening.{run_listen}
use lantalk.App.Lifecycle.Order.{EndsWell, commands-EndWell}

abbrev note : ChatMessage
note = record {
  msg_id = codes "m1";
  sender_id = codes "d1";
  sender_name = codes "Ada";
  timestamp_utc = pos 0;
  text = codes "hi";
}

-- A reader sleeps on the empty queue, and a writer wakes it.
abbrev woken : Waiting
woken = push_round (pop_round (no_threads 2) false) note false

woken_reached : Reach (no_threads 2) woken
woken_reached = next (next here pop_called) (push_called note)

Reach-NoneLost_example : NoneLost woken
Reach-NoneLost_example = Reach-NoneLost 2 woken woken_reached

-- Two connections; a frame arrives at the first one, and then `stop` gets the mutex.
abbrev called : Threads
called = record (put (started 2) 0 waiting) { stop = Stopping.locking }

abbrev hung : Threads
hung = record called { stop = joining 0; holder = Option.some stopper }

hung_reached : Stopping.Reach (started 2) hung
unfolding started
hung_reached =
    Stopping.next (Stopping.next (Stopping.next Stopping.here (frame 0 refl)) (stop_called refl))
      (stop_locks refl refl)

Returns-iff_example : Returns hung ↔ NoneWaits 0 hung
Returns-iff_example = Returns-iff 2 0 hung hung_reached refl

hung_for_good : ¬ Returns hung
unfolding started
hung_for_good r = (Returns-iff 2 0 hung hung_reached refl).0 r 0 (omega arith) (omega arith) refl

abbrev screen : Terminal
screen = record { ansi = true; device_id = codes "d1"; display_name = codes "Ada" }

-- A signal after every step.
abbrev with_signals : List Deal → List Item
with_signals [] = []
with_signals (d ∷ ds) = does d ∷ signal ∷ with_signals ds

abbrev nobody : Bytes → ℕ → Option Bytes
nobody host port = Option.some (codes "Connection refused")

abbrev interrupted : List Item
interrupted = with_signals (run_listen screen no_args 5050 true true)

commands-EndWell_example : EndsWell (run_items (new_process true) interrupted)
unfolding run_listen deals_of
commands-EndWell_example =
    commands-EndWell screen no_args 5050 true true true nobody [] interrupted (inl refl)
