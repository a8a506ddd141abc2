-- ===== src/Terminal/Opening.antt =====
-- A chat from its connection on: addConnection, the HELLO frames, and what is then typed on one side
-- (src/chat/chat_session.cpp, src/cli/terminal_ui.cpp), up to the callbacks that recvLoop of
-- src/network/connection.cpp leads to on the other.
use lantalk.Common.{
  ℕ, Bool, ◌≤◌, ◌≡◌, refl, sym, ap, ◌∙◌, true, false, List, ◌∷◌, ◌++◌, map, some, arith, Bytes,
  flatten, All, length, is_empty,
}
use lantalk.Common.Int.{ℤ}
use lantalk.Common.Dict.{lookup, insert, lookup-insert_self}
use lantalk.Network.Protocol.Types.{MessageType}
use lantalk.Network.Protocol.Header.{default_header}
use lantalk.Network.Protocol.Reader.{FrameReader, heard, new_reader, feed_all}
use lantalk.Network.Protocol.Reader.Delivery.{
  IsSendable, stream, create-IsSendable, feed_all-stream,
}
use lantalk.Network.Connection.{Connection, new_connection, authenticated}
use lantalk.Network.Connection
use lantalk.Chat.Message.{ChatMessage}
use lantalk.Chat.Session.{ChatSession, new_peer, peer_event, message, notify, set_peer, peer_at}
use lantalk.Chat.Session.Json.Strings.{seen}
use lantalk.Chat.Session.Handlers.{hello_payload, is_authenticated_peer}
use lantalk.Chat.Session.Handshake.{hello_frame, shown_peer}
use lantalk.Chat.Session.Receiving.{receive_loop, receive_all, arrivals, bytes_of, IsWithinRate}
use lantalk.Chat.Session.Receiving.Calm.{IsCalm, receive_all-connections, receive_loop-receive_all}
use lantalk.Network.Connection.Receive.{again}
use lantalk.Terminal.{Terminal, Round, run}
use lantalk.Terminal.Input.{said}
use lantalk.Terminal.Delivery.{broadcast_all, chat_frame}
use lantalk.Terminal.Conversation.{
  sent_of, IsDeliverable, chat_frames-IsCalm, chat_frames-IsSendable,
}
use lantalk.Terminal.Greeting.{
  greeting, linked, linked-record, on_frame-hello_frame, opened, newcomer, typed_messages,
  opened-sends, receive_all-opening,
}

opening-IsCalm :
    (s other : ChatSession) (cid : Bytes) (ms : List ChatMessage)
    → s.config.require_auth ≡ false
    → is_empty (seen other.config.device_id) ≡ false
    → All IsDeliverable ms
    → IsCalm s cid (hello_frame other ∷ map chat_frame ms)
unfolding is_authenticated_peer peer_at
opening-IsCalm s other cid ms open_ known good =
    let q = shown_peer (peer_at s cid) other.config authenticated in
    let t : ChatSession = notify (set_peer s cid q) (peer_event q true) in
    let here = on_frame-hello_frame s other cid open_ known in
    let auth : is_authenticated_peer t cid ≡ true =
      rw (lookup-insert_self cid q s.peers, is_authenticated_peer) refl in
    (
      λ k.
          on_frame-hello_frame (record s { connections = k }) other cid open_ known
          ∙ ap (λ (z : ChatSession). record z { connections = k }) (sym here),
      rw here (chat_frames-IsCalm t cid ms auth good),
    )

-- The receive loop of a session that has just added the connection.
receive_loop-opening :
    (s other : ChatSession) (cid : Bytes) (ms : List ChatMessage) (ds : List (Bytes × Bool))
    (r : FrameReader)
    → s.running ≡ true
    → s.config.require_auth ≡ false
    → is_empty (seen other.config.device_id) ≡ false
    → All IsDeliverable ms
    → feed_all (new_reader 65536) (bytes_of ds) ≡ heard r (hello_frame other ∷ map chat_frame ms)
    → IsWithinRate (new_reader 65536) 0 ds
    → let o = receive_loop (linked s cid) cid 0 (arrivals ds) in
      (o.0.events ≡ s.events ++ peer_event (newcomer other) true ∷ map message ms) × (o.2 ≡ again)
unfolding Connection.start
receive_loop-opening s other cid ms ds r run open_ known good h within =
    let k =
      insert cid (greeting s)
        (insert cid (Connection.start (new_connection 65536 true)) s.connections) in
    let t : ChatSession = record s { peers = insert cid new_peer s.peers } in
    let fs = hello_frame other ∷ map chat_frame ms in
    let calm : IsCalm t cid fs = opening-IsCalm t other cid ms open_ known good in
    let there = linked-record s cid run in
    let ((j, e), g) =
      receive_loop-receive_all cid ds t k (greeting s) r fs (lookup-insert_self cid (greeting s) _)
        refl h within calm in
    let same : receive_all (linked s cid) cid fs
        ≡ (record (receive_all t cid fs) { connections = k }) =
      ap (λ z. receive_all z cid fs) there ∙ receive_all-connections t cid fs k calm in
    rw there (
      ap (λ (z : ChatSession). z.events) e
          ∙ sym (ap (λ (z : ChatSession). z.events) same)
          ∙ receive_all-opening s other cid ms run open_ known good,
      g,
    )

-- Two running sessions that require no authentication, each of which adds its end of a connection;
-- and `a`, after the HELLO of `b`, sends what its user types. All that `a` writes in the connection's
-- life arrives at `b`, in chunks of whatever length, and the receive loop of `b` goes through them
-- without ending. `b` has then reported the arrival of that peer, with its names as they come out of
-- the HELLO (a control character is seen as the text of its escape), and every line that is neither
-- empty nor a command, typed before the end of the input loop, as a message with that text, once and
-- in order. The device identifiers, as the other side sees them, are not empty; the HELLO of `a` and
-- each message are at most 65536 bytes; each message has identifiers, a time within 64 bits, and no
-- text, name or identifier that ends in a backslash; no check of the rate, at
-- which a second or more has passed since the last one, finds more than 100 frames since then;
-- nothing else happens meanwhile, and frames are handled under the identifier of the connection.
pub opened-reaches :
    (t : Terminal) (rs : List Round) (draw : ℕ → Bytes × ℤ) (a b : ChatSession) (ca cb : Bytes)
    (d : Connection) (ds : List (Bytes × Bool))
    → a.running ≡ true
    → b.running ≡ true
    → a.config.require_auth ≡ false
    → b.config.require_auth ≡ false
    → is_empty (seen a.config.device_id) ≡ false
    → is_empty (seen b.config.device_id) ≡ false
    → length (hello_payload a.config) ≤ 65536
    → All IsDeliverable (typed_messages draw a rs)
    → lookup ca (broadcast_all draw 0 (opened a b ca) (said (run t rs).0)).connections ≡ some d
    → flatten (bytes_of ds) ≡ stream d.sent
    → IsWithinRate (new_reader 65536) 0 ds
    → let o = receive_loop (linked b cb) cb 0 (arrivals ds) in
      (o.0.events
        ≡ b.events ++ peer_event (newcomer a) true ∷ map message (typed_messages draw a rs))
      × (o.2 ≡ again)
opened-reaches t rs draw a b ca cb d ds ra rb oa ob ka kb fits good e cut within =
    let ms = typed_messages draw a rs in
    let sent : d.sent ≡ hello_frame a ∷ map chat_frame ms =
      sent_of (sym e ∙ opened-sends t rs draw a b ca ra oa kb) in
    let sendable : All (IsSendable 65536) (hello_frame a ∷ map chat_frame ms) = (
      create-IsSendable 65536 MessageType.hello (hello_payload a.config) fits (omega arith),
      chat_frames-IsSendable ms good,
    ) in
    receive_loop-opening b a cb ms ds _ rb ob ka good
      (feed_all-stream 65536 default_header _ (bytes_of ds) sendable (rw sent at cut)) within
