-- ===== src/Terminal/Greeting.antt =====
-- The start of a chat: addConnection and the two HELLO frames of src/chat/chat_session.cpp, between
-- sessions that require no authentication, and what is then typed on one side.
use lantalk.Common.{
  ℕ, ◌≡◌, refl, ap, ◌∙◌, true, false, List, [], ◌∷◌, ◌++◌, map, some, Bytes, All, is_empty,
  append_assoc,
}
use lantalk.Common.Int.{ℤ}
use lantalk.Common.Dict.{lookup, insert, lookup-insert_self}
use lantalk.Network.Protocol.Header.{create}
use lantalk.Network.Connection.{Connection, new_connection, authenticated}
use lantalk.Network.Connection
use lantalk.Chat.Message.{ChatMessage}
use lantalk.Chat.Session.{
  ChatSession, PeerInfo, new_peer, peer_event, message, notify, set_peer, peer_at,
}
use lantalk.Chat.Session.Json.{extract_str}
use lantalk.Chat.Session.Json.Strings.{seen}
use lantalk.Chat.Session.Handlers.{
  add_connection, send_hello, handle_hello, dispatch, on_frame, is_authenticated_peer,
}
use lantalk.Chat.Session.Text.{extract_str-hello_payload}
use lantalk.Chat.Session.Handshake.{
  hello_frame, shown_peer, hello_peer-shown, with_connection-there,
}
use lantalk.Chat.Session.Receiving.{receive_all}
use lantalk.Terminal.{Terminal, Round, run}
use lantalk.Terminal.Input.{said, typed, texts}
use lantalk.Terminal.Delivery.{broadcast_all, chat_frame, chat_messages, run-sends}
use lantalk.Terminal.Conversation.{IsDeliverable, receive_all-chat_frames}

-- The connection of a session that has added it and greeted.
abbrev pub greeting : ChatSession → Connection
greeting s = record (Connection.start (new_connection 65536 true)) { sent = hello_frame s ∷ [] }

abbrev pub linked : ChatSession → Bytes → ChatSession
linked s cid = add_connection s cid (new_connection 65536 true)

pub linked-record :
    (s : ChatSession) (cid : Bytes)
    → s.running ≡ true
    → linked s cid ≡ (record s {
      connections =
          insert cid
            (greeting s)
            (insert cid (Connection.start (new_connection 65536 true)) s.connections);
      peers = insert cid new_peer s.peers;
    })
unfolding add_connection send_hello Connection.send Connection.start
linked-record s cid r =
    rw r (with_connection-there _ cid _ _ (lookup-insert_self cid _ s.connections))

-- A HELLO where no authentication is required.
pub on_frame-hello_frame :
    (s a : ChatSession) (cid : Bytes)
    → s.config.require_auth ≡ false
    → is_empty (seen a.config.device_id) ≡ false
    → let q = shown_peer (peer_at s cid) a.config authenticated in
      on_frame s cid (hello_frame a) ≡ notify (set_peer s cid q) (peer_event q true)
unfolding dispatch handle_hello create extract_str
on_frame-hello_frame s a cid open_ known =
    let (i, n, f) = extract_str-hello_payload a.config in
    rw (hello_peer-shown (peer_at s cid) a.config authenticated) (rw i (rw (known, open_) refl))

-- The two sessions once the HELLO of the other side has come.
abbrev pub opened : ChatSession → ChatSession → Bytes → ChatSession
opened s other cid = on_frame (linked s cid) cid (hello_frame other)

-- The peer as a session without other knowledge of it sees it.
abbrev pub newcomer : ChatSession → PeerInfo
newcomer other = shown_peer new_peer other.config authenticated

opened-record :
    (s other : ChatSession) (cid : Bytes)
    → s.running ≡ true
    → s.config.require_auth ≡ false
    → is_empty (seen other.config.device_id) ≡ false
    → opened s other cid ≡ (record s {
      connections =
          insert cid
            (greeting s)
            (insert cid (Connection.start (new_connection 65536 true)) s.connections);
      peers = insert cid (newcomer other) (insert cid new_peer s.peers);
      events = s.events ++ peer_event (newcomer other) true ∷ [];
    })
unfolding peer_at
opened-record s other cid r open_ known =
    ap (λ z. on_frame z cid (hello_frame other)) (linked-record s cid r)
    ∙ on_frame-hello_frame _ other cid open_ known
    ∙ rw (lookup-insert_self cid new_peer s.peers, peer_at) refl

-- The typed messages.
abbrev pub typed_messages : (ℕ → Bytes × ℤ) → ChatSession → List Round → List ChatMessage
typed_messages draw s rs = chat_messages draw 0 s.config (texts (typed rs))

pub opened-sends :
    (t : Terminal) (rs : List Round) (draw : ℕ → Bytes × ℤ) (s other : ChatSession) (cid : Bytes)
    → s.running ≡ true
    → s.config.require_auth ≡ false
    → is_empty (seen other.config.device_id) ≡ false
    → lookup cid (broadcast_all draw 0 (opened s other cid) (said (run t rs).0)).connections
      ≡ some
          (record (greeting s) { sent = hello_frame s ∷ map chat_frame (typed_messages draw s rs) })
unfolding Connection.start
opened-sends t rs draw s other cid r open_ known =
    let there = insert cid (Connection.start (new_connection 65536 true)) s.connections in
    rw (opened-record s other cid r open_ known) (
      run-sends t rs draw _ cid (greeting s) (lookup-insert_self cid (greeting s) there)
        (rw (lookup-insert_self cid (newcomer other) (insert cid new_peer s.peers)) refl)
        (refl, refl, refl))

pub receive_all-opening :
    (s other : ChatSession) (cid : Bytes) (ms : List ChatMessage)
    → s.running ≡ true
    → s.config.require_auth ≡ false
    → is_empty (seen other.config.device_id) ≡ false
    → All IsDeliverable ms
    → (receive_all (linked s cid) cid (hello_frame other ∷ map chat_frame ms)).events
      ≡ s.events ++ peer_event (newcomer other) true ∷ map message ms
unfolding receive_all is_authenticated_peer
receive_all-opening s other cid ms r open_ known good =
    let q = newcomer other in
    let t : ChatSession = record s {
      connections =
          insert cid (greeting s)
            (insert cid (Connection.start (new_connection 65536 true)) s.connections);
      peers = insert cid q (insert cid new_peer s.peers);
      events = s.events ++ peer_event q true ∷ [];
    } in
    let auth : is_authenticated_peer t cid ≡ true =
      rw (lookup-insert_self cid q (insert cid new_peer s.peers), is_authenticated_peer) refl in
    ap (λ (z : ChatSession). (receive_all z cid (map chat_frame ms)).events)
      (opened-record s other cid r open_ known)
    ∙ ap (λ (z : ChatSession). z.events) (receive_all-chat_frames t cid ms auth good)
    ∙ append_assoc s.events (peer_event q true ∷ []) (map message ms)
