-- ===== src/Terminal/Delivery.antt =====
-- From the keyboard to the wire: TerminalUI::run of src/cli/terminal_ui.cpp, ChatSession::broadcast of
-- src/chat/chat_session.cpp and Connection::send of src/network/connection.cpp.
use lantalk.Common.{
  map, ℕ, ◌+◌, ◌≡◌, sym, ap, ◌∙◌, true, List, [], ◌∷◌, ◌++◌, some, Bytes, append_assoc, append-nil,
}
use lantalk.Common.Int.{ℤ}
use lantalk.Common.Dict.{lookup}
use lantalk.Network.Protocol.Types.{MessageType}
use lantalk.Network.Protocol.Header.{Frame, create}
use lantalk.Network.Connection.{Connection, send, send_frame}
use lantalk.Chat.Message.{ChatMessage, to_json}
use lantalk.Chat.Session.{ChatSession, SessionConfig}
use lantalk.Chat.Session.Commands.{new_message, broadcast, is_authenticated_entry}
use lantalk.Chat.Session.Routing.{broadcast-lookup}
use lantalk.Terminal.{Terminal, Round, run}
use lantalk.Terminal.Input.{said, typed, texts, run-Follows}

-- The calls of broadcast for these texts, from the identifiers and times that they draw.
unfoldable pub broadcast_all : (ℕ → Bytes × ℤ) → ℕ → ChatSession → List Bytes → ChatSession
unfolding broadcast new_message
broadcast_all draw n s [] = s
broadcast_all draw n s (l ∷ ls) =
    broadcast_all draw (n + 1) (broadcast s (new_message s.config (draw n).0 (draw n).1 l)) ls

-- The frame of a message, and the messages and frames of these texts.
abbrev pub chat_frame : ChatMessage → Frame
chat_frame m = create MessageType.chat_message (to_json m)

abbrev pub chat_messages : (ℕ → Bytes × ℤ) → ℕ → SessionConfig → List Bytes → List ChatMessage
chat_messages draw n g [] = []
chat_messages draw n g (l ∷ ls) =
    new_message g (draw n).0 (draw n).1 l ∷ chat_messages draw (n + 1) g ls

abbrev pub chat_frames : (ℕ → Bytes × ℤ) → ℕ → SessionConfig → List Bytes → List Frame
chat_frames draw n g ls = map chat_frame (chat_messages draw n g ls)

-- A connection that can send.
abbrev pub IsUp : Connection → Type 0
IsUp c = (c.running ≡ true) × (c.socket_open ≡ true) × (c.link_up ≡ true)

abbrev with_sent : Connection → List Frame → Connection
with_sent c fs = record c { sent = c.sent ++ fs }

send-IsUp :
    (c : Connection) (m : ChatMessage)
    → IsUp c
    → (send c MessageType.chat_message (to_json m)).0 ≡ with_sent c (chat_frame m ∷ [])
unfolding send send_frame
send-IsUp c m (r, o, l) = rw (r, o, l)

broadcast-sends :
    (s : ChatSession) (m : ChatMessage) (cid : Bytes) (c : Connection)
    → lookup cid s.connections ≡ some c
    → is_authenticated_entry (lookup cid s.peers) ≡ true
    → IsUp c
    → lookup cid (broadcast s m).connections ≡ some (with_sent c (chat_frame m ∷ []))
broadcast-sends s m cid c e a up =
    (broadcast-lookup s m cid).0 ∙ rw (e, a) (ap some (send-IsUp c m up))

broadcast_all-sends :
    (draw : ℕ → Bytes × ℤ) (n : ℕ) (s : ChatSession) (ls : List Bytes) (cid : Bytes)
    (c : Connection)
    → lookup cid s.connections ≡ some c
    → is_authenticated_entry (lookup cid s.peers) ≡ true
    → IsUp c
    → lookup cid (broadcast_all draw n s ls).connections
      ≡ some (with_sent c (chat_frames draw n s.config ls))
unfolding broadcast_all broadcast
broadcast_all-sends draw n s [] cid c e a up =
    e ∙ ap (λ fs. some (record c { sent = fs })) (sym (append-nil c.sent))
broadcast_all-sends draw n s (l ∷ ls) cid c e a up =
    let m = new_message s.config (draw n).0 (draw n).1 l in
    let f = chat_frame m in
    broadcast_all-sends draw (n + 1) (broadcast s m) ls cid (with_sent c (f ∷ []))
      (broadcast-sends s m cid c e a up) a up
    ∙ ap (λ fs. some (record c { sent = fs }))
        (append_assoc c.sent (f ∷ []) (chat_frames draw (n + 1) s.config ls))

-- Every line that is typed before the end, and is neither empty nor a command, is sent to each peer
-- that is authenticated, over a running connection whose socket takes it, as one chat message frame,
-- in the order of typing and behind what was sent before; nothing else is sent to it. This is about
-- the input loop alone, with no other call on the session in between.
pub run-sends :
    (t : Terminal) (rs : List Round) (draw : ℕ → Bytes × ℤ) (s : ChatSession) (cid : Bytes)
    (c : Connection)
    → lookup cid s.connections ≡ some c
    → is_authenticated_entry (lookup cid s.peers) ≡ true
    → IsUp c
    → lookup cid (broadcast_all draw 0 s (said (run t rs).0)).connections
      ≡ some (record c { sent = c.sent ++ chat_frames draw 0 s.config (texts (typed rs)) })
run-sends t rs draw s cid c e a up =
    rw ((run-Follows t rs).0) (broadcast_all-sends draw 0 s (texts (typed rs)) cid c e a up)
