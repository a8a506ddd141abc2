-- ===== src/Examples/Talks.antt =====
-- The chat between two users (src/cli/terminal_ui.cpp, src/chat/chat_session.cpp) at concrete inputs.
use lantalk.Common.{
  ℕ, Bool, ◌≡◌, refl, true, false, List, [], ◌∷◌, ◌++◌, map, some, arith, Bytes, codes, All,
  append-nil,
}
use lantalk.Common.ByteString.{eq_bytes}
use lantalk.Common.Int.{ℤ, pos}
use lantalk.Network.Protocol.Header.{Frame, default_header}
use lantalk.Network.Protocol.Reader.{new_reader}
use lantalk.Network.Protocol.Reader.Delivery.{IsSendable, stream, create-IsSendable, feed-stream}
use lantalk.Network.Connection.{Connection, authenticated, new_connection, start}
use lantalk.Chat.Message.{ChatMessage, to_json, escape_json, escape_char}
use lantalk.Common.Decimal.{to_string, print_ℕ}
use lantalk.Chat.Session.{new_peer, SessionConfig, ChatSession, message, peer_event}
use lantalk.Chat.Session.Commands.{new_message}
use lantalk.Chat.Session.History.{new_session}
use lantalk.Terminal.{Terminal, Round}
use lantalk.Terminal.Input.{typed, texts}
use lantalk.Terminal.Delivery.{chat_messages, chat_frames}
use lantalk.Chat.Session.Handlers.{hello_payload}
use lantalk.Chat.Session.Json.{json_str, json_escape, escape_char as escape_control}
use lantalk.Chat.Session.Handshake.{hello_frame}
use lantalk.Terminal.Greeting.{greeting, linked, newcomer, opened-sends}
use lantalk.Terminal.Opening.{opened-reaches}
use lantalk.Chat.Session.Receiving.{receive_loop, arrivals, IsWithinRate}
use lantalk.Network.Connection.Receive.{again}
use lantalk.Network.Protocol.Types.{MessageType}
use lantalk.Terminal.Conversation.{IsDeliverable, chat_frames-IsSendable}

abbrev screen : Terminal
screen = record { ansi = true; device_id = codes "dev-a"; display_name = codes "Ada" }

-- A text, a command and the end.
abbrev three_rounds : List Round
three_rounds =
    record { stopped = false; read = some (codes "hi") }
    ∷ record { stopped = false; read = some (codes "/peers") }
    ∷ record { stopped = false; read = some (codes "/quit") }
    ∷ []

abbrev own_settings : SessionConfig
own_settings = record {
  device_id = codes "dev-a";
  display_name = codes "Ada";
  platform = codes "Linux";
  listen_port = 5050;
  psk_hash = [];
  require_auth = false;
}

abbrev open_link : Connection
open_link = start (new_connection 65536 true)

abbrev talking : ChatSession
talking = record (new_session own_settings) {
  connections = (codes "c1", open_link) ∷ [];
  peers = (codes "c1", record new_peer { state = authenticated }) ∷ [];
  running = true;
}

abbrev draws : ℕ → Bytes × ℤ
draws n = (codes "m", pos n)

-- The other side of the connection.
abbrev listening : ChatSession
listening = record (new_session own_settings) {
  peers = (codes "c9", record new_peer { state = authenticated }) ∷ [];
  running = true;
}

abbrev typed_messages : List ChatMessage
typed_messages = chat_messages draws 0 own_settings (texts (typed three_rounds))

abbrev typed_frames : List Frame
typed_frames = chat_frames draws 0 own_settings (texts (typed three_rounds))

abbrev after_typing : Connection
after_typing = record open_link { sent = open_link.sent ++ typed_frames }

-- The one message that is typed.
abbrev hi : ChatMessage
hi = record {
  msg_id = codes "m";
  sender_id = codes "dev-a";
  sender_name = codes "Ada";
  timestamp_utc = pos 0;
  text = codes "hi";
}

hi-IsDeliverable : IsDeliverable hi
unfolding to_json escape_json escape_char to_string print_ℕ
hi-IsDeliverable = (
  record {
    msg_id_ne_nil = λ h. cc;
    sender_id_ne_nil = λ h. cc;
    msg_id_clean = λ h. omega arith;
    sender_id_clean = λ h. omega arith;
    sender_name_clean = λ h. omega arith;
    time_range = omega arith;
  },
  (λ h. omega arith),
  omega arith,
)

typed_messages-IsDeliverable : All IsDeliverable typed_messages
unfolding new_message eq_bytes
typed_messages-IsDeliverable = (hi-IsDeliverable, tt)

-- The same users from their connection on.
abbrev running_session : ChatSession
running_session = record (new_session own_settings) { running = true }

abbrev from_hello : Connection
from_hello = record (greeting running_session) { sent = hello_frame running_session ∷ typed_frames }

-- All that is sent arrives at once, when a second has passed.
abbrev all_bytes : Bytes
all_bytes = stream from_hello.sent

abbrev from_hello_arrivals : List (Bytes × Bool)
from_hello_arrivals = (all_bytes, true) ∷ []

from_hello-IsSendable : All (IsSendable 65536) from_hello.sent
unfolding hello_payload json_str json_escape escape_control print_ℕ to_string
from_hello-IsSendable = (
  create-IsSendable 65536 MessageType.hello (hello_payload own_settings) (omega arith)
      (omega arith),
  chat_frames-IsSendable typed_messages typed_messages-IsDeliverable,
)

from_hello-IsWithinRate : IsWithinRate (new_reader 65536) 0 from_hello_arrivals
unfolding new_message eq_bytes
from_hello-IsWithinRate =
    rw (feed-stream 65536 default_header from_hello.sent from_hello-IsSendable, IsWithinRate)
      (refl, tt)

opened-reaches_example :
    let o =
      receive_loop
        (linked running_session (codes "c9"))
        (codes "c9")
        0
        (arrivals from_hello_arrivals) in
    (o.0.events
      ≡ running_session.events
        ++ peer_event (newcomer running_session) true ∷ map message typed_messages)
    × (o.2 ≡ again)
unfolding hello_payload json_str json_escape escape_control print_ℕ to_string
opened-reaches_example =
    opened-reaches screen three_rounds draws running_session running_session (codes "c1")
      (codes "c9") from_hello from_hello_arrivals refl refl refl refl refl refl (omega arith)
      typed_messages-IsDeliverable
      (opened-sends screen three_rounds draws running_session running_session (codes "c1") refl refl
        refl)
      (append-nil all_bytes) from_hello-IsWithinRate
