-- ===== src/Chat/Session/Wiring/Handlers.antt =====
-- The handlers of src/chat/chat_session.cpp in a session whose connections are filed under other
-- names than its frames are handled under, as src/main.cpp makes it.
use lantalk.Common.{
  ◌≡◌, refl, ap, ◌≢◌, inl, inr, not, List, [], ◌∷◌, Option, none, some, Bytes, codes, eq_bytes,
  eq_bytes_iff, is_empty, if_cases, Bool-cases, Option-cases, All,
}
use lantalk.Common.Dict.{Dict, lookup, insert, erase, lt_bytes}
use lantalk.Network.Protocol.Types.{MessageType}
use lantalk.Network.Connection.{Connection}
use lantalk.Network.Connection
use lantalk.Chat.Message.{ChatMessage, from_json, to_json}
use lantalk.Chat.Session.Json.{extract_str}
use lantalk.Chat.Session.{PeerInfo, ChatSession, is_authenticated, with_connection}
use lantalk.Chat.Session.Handlers.{
  send_hello, add_connection, on_disconnect, dispatch, handle_hello, handle_auth_response,
  handle_chat_message, handle_ping, handle_disconnect, handle_auth_request, is_authenticated_peer,
  deliver_message,
}
use lantalk.Chat.Session.Commands.{broadcast, broadcast_over, ping_round, ping_over, drop_all}
use lantalk.Chat.Session.Authentication.{Vouched, Vouched-insert}
use lantalk.Chat.Session.History.{is_authenticated-eq}

-- Only the empty identifier can be authenticated, and no connection is filed under it.
abbrev OnlyEmpty : Dict PeerInfo → Type 0
OnlyEmpty = Vouched (λ cid. cid ≡ [])

abbrev NoEmpty : Dict Connection → Type 0
NoEmpty = All (λ (e : Bytes × Connection). e.0 ≢ [])

NoEmpty-insert :
    (cid : Bytes) (c : Connection) (m : Dict Connection)
    → cid ≢ []
    → NoEmpty m
    → NoEmpty (insert cid c m)
unfolding insert
NoEmpty-insert cid c [] n h = (n, tt)
NoEmpty-insert cid c ((k, d) ∷ m) n h =
    if_cases NoEmpty (eq_bytes k cid) (λ _. (n, h.1))
      (λ _.
        if_cases NoEmpty (lt_bytes cid k) (λ _. (n, h)) (λ _. (h.0, NoEmpty-insert cid c m n h.1)))

NoEmpty-erase : (cid : Bytes) (m : Dict Connection) → NoEmpty m → NoEmpty (erase cid m)
unfolding erase
NoEmpty-erase cid [] h = tt
NoEmpty-erase cid ((k, d) ∷ m) h =
    if_cases NoEmpty (eq_bytes k cid) (λ _. NoEmpty-erase cid m h.1)
      (λ _. (h.0, NoEmpty-erase cid m h.1))

NoEmpty-lookup : (m : Dict Connection) → NoEmpty m → lookup [] m ≡ none
unfolding lookup
NoEmpty-lookup [] h = refl
NoEmpty-lookup ((k, d) ∷ m) h = elim (Bool-cases (eq_bytes k [])) [
  | inl same ↦ absurd (h.0 ((eq_bytes_iff k []).0 same))
  | inr other ↦ rw other (NoEmpty-lookup m h.1)
]

abbrev pub IsUnwired : ChatSession → Type 0
IsUnwired s = OnlyEmpty s.peers × NoEmpty s.connections

-- No reply is sent: there is no connection to send it on.
with_connection-empty :
    (s : ChatSession) (f : Connection → Connection)
    → NoEmpty s.connections
    → with_connection s [] f ≡ s
unfolding with_connection
with_connection-empty s f h = rw (NoEmpty-lookup s.connections h, with_connection)

with_connection-IsUnwired :
    (s : ChatSession) (f : Connection → Connection)
    → IsUnwired s
    → IsUnwired (with_connection s [] f)
with_connection-IsUnwired s f u = rw (with_connection-empty s f u.1) u

handle_hello-IsUnwired :
    (s : ChatSession) (payload : Bytes) → IsUnwired s → IsUnwired (handle_hello s [] payload)
unfolding handle_hello
handle_hello-IsUnwired s payload (v, n) =
    if_cases IsUnwired (is_empty (extract_str payload (codes "device_id")))
      (λ _.
        with_connection-IsUnwired s (λ c. Connection.disconnect c (codes "invalid HELLO")) (v, n))
      (λ _.
        if_cases IsUnwired s.config.require_auth
          (λ _. with_connection-IsUnwired _ _ (Vouched-insert _ s.peers [] _ (λ _. refl) v, n))
          (λ _. (Vouched-insert _ s.peers [] _ (λ _. refl) v, n)))

handle_auth_response-IsUnwired :
    (s : ChatSession) (payload : Bytes)
    → IsUnwired s
    → IsUnwired (handle_auth_response s [] payload)
unfolding handle_auth_response
handle_auth_response-IsUnwired s payload (v, n) =
    rw (NoEmpty-lookup s.connections n, handle_auth_response) (v, n)

handle_chat_message-IsUnwired :
    (s : ChatSession) (payload : Bytes) → IsUnwired s → IsUnwired (handle_chat_message s [] payload)
unfolding handle_chat_message
handle_chat_message-IsUnwired s payload u =
    if_cases IsUnwired (is_authenticated_peer s []) (λ _. delivered (from_json payload)) (λ _. u)
  where
    delivered : (o : Option ChatMessage) → IsUnwired (deliver_message s o)
    delivered none = u
    delivered (some m) = u

pub dispatch-IsUnwired :
    (t : MessageType) (s : ChatSession) (payload : Bytes)
    → IsUnwired s
    → IsUnwired (dispatch t s [] payload)
unfolding dispatch handle_ping handle_disconnect handle_auth_request
dispatch-IsUnwired MessageType.hello s payload u = handle_hello-IsUnwired s payload u
dispatch-IsUnwired MessageType.auth_request s payload u = with_connection-IsUnwired s _ u
dispatch-IsUnwired MessageType.auth_response s payload u =
    handle_auth_response-IsUnwired s payload u
dispatch-IsUnwired MessageType.chat_message s payload u = handle_chat_message-IsUnwired s payload u
dispatch-IsUnwired MessageType.ping s payload u = with_connection-IsUnwired s _ u
dispatch-IsUnwired MessageType.disconnect s payload u = with_connection-IsUnwired s _ u
dispatch-IsUnwired _ s payload u = u

pub on_disconnect-NoEmpty :
    (s : ChatSession) (cid : Bytes)
    → NoEmpty s.connections
    → NoEmpty (on_disconnect s cid).connections
unfolding on_disconnect
on_disconnect-NoEmpty s cid n =
    let left = NoEmpty-erase cid s.connections n in
    elim (Option-cases (lookup cid s.peers)) [
      | inl e ↦ rw (e, on_disconnect) left
      | inr (p, e) ↦
          rw (e, on_disconnect)
            (if_cases (λ (t : ChatSession). NoEmpty t.connections) (is_authenticated p.state)
              (λ _. left) (λ _. left))
    ]

drop_all-NoEmpty :
    (s : ChatSession) (dead : List Bytes)
    → NoEmpty s.connections
    → NoEmpty (drop_all s dead).connections
unfolding drop_all
drop_all-NoEmpty s [] n = n
drop_all-NoEmpty s (cid ∷ dead) n =
    drop_all-NoEmpty (on_disconnect s cid) dead (on_disconnect-NoEmpty s cid n)

ping_over-NoEmpty : (m : Dict Connection) → NoEmpty m → NoEmpty (ping_over m).0
unfolding ping_over
ping_over-NoEmpty [] n = tt
ping_over-NoEmpty ((k, c) ∷ m) n = (n.0, ping_over-NoEmpty m n.1)

pub ping_round-NoEmpty :
    (s : ChatSession) → NoEmpty s.connections → NoEmpty (ping_round s).connections
unfolding ping_round
ping_round-NoEmpty s n =
    if_cases (λ (t : ChatSession). NoEmpty t.connections) (not s.running) (λ _. n)
      (λ _. drop_all-NoEmpty _ (ping_over s.connections).1 (ping_over-NoEmpty s.connections n))

pub with_connection-NoEmpty :
    (s : ChatSession) (cid : Bytes) (f : Connection → Connection)
    → cid ≢ []
    → NoEmpty s.connections
    → NoEmpty (with_connection s cid f).connections
unfolding with_connection
with_connection-NoEmpty s cid f d n = elim (Option-cases (lookup cid s.connections)) [
  | inl e ↦ rw (e, with_connection) n
  | inr (c, e) ↦ rw (e, with_connection) (NoEmpty-insert cid (f c) s.connections d n)
]

pub add_connection-NoEmpty :
    (s : ChatSession) (cid : Bytes) (c : Connection)
    → cid ≢ []
    → NoEmpty s.connections
    → NoEmpty (add_connection s cid c).connections
unfolding add_connection send_hello
add_connection-NoEmpty s cid c d n =
    if_cases (λ (t : ChatSession). NoEmpty t.connections) (not s.running) (λ _. n)
      (λ _. with_connection-NoEmpty _ cid _ d (NoEmpty-insert cid _ s.connections d n))

broadcast_over-id :
    (ps : Dict PeerInfo) (json : Bytes) (m : Dict Connection)
    → OnlyEmpty ps
    → NoEmpty m
    → broadcast_over ps json m ≡ m
unfolding broadcast_over
broadcast_over-id ps json [] v n = refl
broadcast_over-id ps json ((k, c) ∷ m) v n = elim (Option-cases (lookup k ps)) [
  | inl e ↦ rw (e, broadcast_over-id ps json m v n.1)
  | inr (p, e) ↦ elim (Bool-cases (is_authenticated p.state)) [
    | inl a ↦ absurd (n.0 (v k p e (is_authenticated-eq p.state a)))
    | inr a ↦ rw (e, a, broadcast_over-id ps json m v n.1)
  ]
]

pub broadcast-IsUnwired : (s : ChatSession) (m : ChatMessage) → IsUnwired s → broadcast s m ≡ s
unfolding broadcast
broadcast-IsUnwired s m (v, n) =
    ap (λ (cs : Dict Connection). record s { connections = cs })
      (broadcast_over-id s.peers (to_json m) s.connections v n)
