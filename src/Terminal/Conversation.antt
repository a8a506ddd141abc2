-- ===== src/Terminal/Conversation.antt =====
-- From the keyboard of one user to the message callback of the other: TerminalUI::run of
-- src/cli/terminal_ui.cpp, ChatSession::broadcast and onFrame of src/chat/chat_session.cpp, the JSON
-- text of src/chat/message.cpp, and the frames of src/network/protocol.cpp between them.
use lantalk.Common.{
  ℕ, ◌≤◌, ◌≡◌, refl, sym, ap, ◌∙◌, true, List, [], ◌∷◌, ◌++◌, map, none, some, arith, Bytes,
  append_assoc, append-nil, flatten, All, length, drop, drop-append_length,
}
use lantalk.Common.Int.{ℤ}
use lantalk.Common.Dict.{lookup}
use lantalk.Network.Protocol.Types.{MessageType}
use lantalk.Network.Protocol.Header.{Frame, FrameHeader, create}
use lantalk.Network.Protocol.Reader.{heard, feed_all}
use lantalk.Network.Protocol.Reader.Delivery.{
  IsSendable, idle, stream, last_header, create-IsSendable, feed_all-stream,
}
use lantalk.Network.Connection.{Connection}
use lantalk.Chat.Message.{ChatMessage, to_json}
use lantalk.Chat.Message.Values.{EndsClean}
use lantalk.Chat.Message.RoundTrip.{IsSound, from_json-to_json}
use lantalk.Chat.Session.{ChatSession, message}
use lantalk.Chat.Session.Handlers.{is_authenticated_peer, handle_chat_message, dispatch, on_frame}
use lantalk.Chat.Session.Commands.{is_authenticated_entry}
use lantalk.Chat.Session.Receiving.{receive_all}
use lantalk.Chat.Session.Receiving.Calm.{IsCalm}
use lantalk.Terminal.{Terminal, Round, run}
use lantalk.Terminal.Input.{said, typed, texts}
use lantalk.Terminal.Delivery.{broadcast_all, chat_frame, chat_messages, IsUp, run-sends}

-- A message that the JSON text carries whole, within the limit of the reader.
abbrev pub IsDeliverable : ChatMessage → Type 0
IsDeliverable m = IsSound m × EndsClean m.text × (length (to_json m) ≤ 65536)

on_frame-chat_frame :
    (s : ChatSession) (cid : Bytes) (m : ChatMessage)
    → is_authenticated_peer s cid ≡ true
    → IsDeliverable m
    → on_frame s cid (chat_frame m) ≡ record s { events = s.events ++ message m ∷ [] }
unfolding dispatch handle_chat_message create
on_frame-chat_frame s cid m a (sound, clean, fits) = rw (a, from_json-to_json m sound clean) refl

pub receive_all-chat_frames :
    (s : ChatSession) (cid : Bytes) (ms : List ChatMessage)
    → is_authenticated_peer s cid ≡ true
    → All IsDeliverable ms
    → receive_all s cid (map chat_frame ms) ≡ record s { events = s.events ++ map message ms }
unfolding receive_all is_authenticated_peer
receive_all-chat_frames s cid [] a d =
    ap (λ es. record s { events = es }) (sym (append-nil s.events))
receive_all-chat_frames s cid (m ∷ ms) a (d, ds) =
    let next = record s { events = s.events ++ message m ∷ [] } in
    ap (λ z. receive_all z cid (map chat_frame ms)) (on_frame-chat_frame s cid m a d)
    ∙ receive_all-chat_frames next cid ms a ds
    ∙ ap (λ es. record s { events = es }) (append_assoc s.events (message m ∷ []) (map message ms))

-- Messages from an authenticated peer change the events only.
pub chat_frames-IsCalm :
    (s : ChatSession) (cid : Bytes) (ms : List ChatMessage)
    → is_authenticated_peer s cid ≡ true
    → All IsDeliverable ms
    → IsCalm s cid (map chat_frame ms)
unfolding is_authenticated_peer
chat_frames-IsCalm s cid [] a d = tt
chat_frames-IsCalm s cid (m ∷ ms) a (d, ds) =
    let here = on_frame-chat_frame s cid m a d in
    (
      λ k.
          on_frame-chat_frame (record s { connections = k }) cid m a d
          ∙ ap (λ (z : ChatSession). record z { connections = k }) (sym here),
      rw here (chat_frames-IsCalm (record s { events = s.events ++ message m ∷ [] }) cid ms a ds),
    )

pub chat_frames-IsSendable :
    (ms : List ChatMessage) → All IsDeliverable ms → All (IsSendable 65536) (map chat_frame ms)
chat_frames-IsSendable [] d = tt
chat_frames-IsSendable (m ∷ ms) (d, ds) = (
  create-IsSendable 65536 MessageType.chat_message (to_json m) d.2 (omega arith),
  chat_frames-IsSendable ms ds,
)

-- Frames behind the same frames are the same.
append-cancel : (xs ys zs : List Frame) → xs ++ ys ≡ xs ++ zs → ys ≡ zs
append-cancel xs ys zs e =
    sym (drop-append_length xs ys) ∙ ap (drop (length xs)) e ∙ drop-append_length xs zs

pub sent_of : {c d : Connection} → some c ≡ some d → c.sent ≡ d.sent
sent_of e = ap (λ o. elim o as (λ _. List Frame) [ none ↦ [] | some c ↦ c.sent ]) e

-- What one user types reaches the other: every line that is neither empty nor a command, typed before
-- the end of the input loop, comes out of the message callback of each peer that is authenticated, as
-- a message with that text, once and in the order of typing, however the bytes are cut on their way.
-- The connection is up and its reader is between frames; each message ends in no backslash, has
-- identifiers and is at most 65536 bytes of JSON; on both sides, nothing else happens meanwhile. The
-- frame callback of the receiver is given the name under which its session files the connection.
pub run-reaches :
    (t : Terminal) (rs : List Round) (draw : ℕ → Bytes × ℤ) (s r : ChatSession) (cid rid : Bytes)
    (c d : Connection) (new : List Frame) (h : FrameHeader) (chunks : List Bytes)
    → lookup cid s.connections ≡ some c
    → is_authenticated_entry (lookup cid s.peers) ≡ true
    → IsUp c
    → lookup cid (broadcast_all draw 0 s (said (run t rs).0)).connections ≡ some d
    → d.sent ≡ c.sent ++ new
    → flatten chunks ≡ stream new
    → is_authenticated_peer r rid ≡ true
    → All IsDeliverable (chat_messages draw 0 s.config (texts (typed rs)))
    → (feed_all (idle 65536 h) chunks ≡ heard (idle 65536 (last_header h new)) new)
      × (receive_all r rid new ≡ record r {
        events = r.events ++ map message (chat_messages draw 0 s.config (texts (typed rs)));
      })
run-reaches t rs draw s r cid rid c d new h chunks e a up f g cut auth good =
    let ms = chat_messages draw 0 s.config (texts (typed rs)) in
    let sent : some d ≡ some (record c { sent = c.sent ++ map chat_frame ms }) =
      sym f ∙ run-sends t rs draw s cid c e a up in
    let same : new ≡ map chat_frame ms =
      append-cancel c.sent new (map chat_frame ms) (sym g ∙ sent_of sent) in
    (
      feed_all-stream 65536 h new chunks (rw same (chat_frames-IsSendable ms good)) cut,
      rw same (receive_all-chat_frames r rid ms auth good),
    )
