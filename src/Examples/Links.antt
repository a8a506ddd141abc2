-- ===== src/Examples/Links.antt =====
-- Connections and the message queue (src/network/connection.cpp, src/chat/message_queue.cpp) at
-- concrete inputs.
use lantalk.Common.{◌≡◌, refl, true, false, List, [], ◌∷◌, ◌++◌, codes, length}
use lantalk.Common.Int.{pos}
use lantalk.Network.Protocol.Types.{ping}
use lantalk.Network.Protocol.Header.{Frame, create, serialize}
use lantalk.Network.Connection.{Connection, new_connection, start, disconnect}
use lantalk.Network.Connection.Receive.{Input, closed, arrived, recv_loop}
use lantalk.Network.Connection.Lifecycle.{
  IsConsistent, Settled, disconnect-stops, recv_loop-Settled,
}
use lantalk.Chat.Message.{ChatMessage}
use lantalk.Chat.Queue.{new_queue}
use lantalk.Chat.Queue.History.{Call, pushes, pops, drains, run, run-order}

abbrev link : Connection
link = start (new_connection 65536 true)

link-IsConsistent : IsConsistent link
unfolding start
link-IsConsistent = λ h. cc

-- A frame callback that hangs up.
abbrev hang_up : Frame → Connection → Connection
hang_up f c = disconnect c f.payload

hang_up-IsConsistent : (f : Frame) (c : Connection) → IsConsistent c → IsConsistent (hang_up f c)
hang_up-IsConsistent f c h = λ _. (disconnect-stops c f.payload h).1

abbrev two_inputs : List Input
two_inputs = arrived (serialize (create ping (codes "{}"))) false ∷ closed ∷ []

recv_loop-Settled_example : Settled (recv_loop (λ c. c) (λ f. f) hang_up link 0 two_inputs)
recv_loop-Settled_example =
    recv_loop-Settled hang_up hang_up-IsConsistent link 0 two_inputs link-IsConsistent

abbrev note : ChatMessage
note = record {
  msg_id = codes "m1";
  sender_id = codes "d1";
  sender_name = codes "Ada";
  timestamp_utc = pos 0;
  text = codes "hi";
}

abbrev five_calls : List Call
five_calls = pushes note ∷ pushes note ∷ pops ∷ drains ∷ pushes note ∷ []

run-order_example :
    (run (new_queue 1) five_calls).went ++ (run (new_queue 1) five_calls).queue.queue
    ≡ (new_queue 1).queue ++ (run (new_queue 1) five_calls).came
run-order_example = run-order (new_queue 1) five_calls

-- The second push finds the queue full.
five_calls-came : length (run (new_queue 1) five_calls).came ≡ 2
unfolding run new_queue
five_calls-came = refl
