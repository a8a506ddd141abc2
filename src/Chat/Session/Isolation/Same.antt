-- ===== src/Chat/Session/Isolation/Same.antt =====
-- What the handlers of src/chat/chat_session.cpp read of a session: the connection, its peer and the
-- configuration.
use lantalk.Common.{
  ◌≡◌, refl, sym, ap, ◌∙◌, inl, inr, Bool, true, false, Option, none, some, Bytes, codes, is_empty,
  if_cases, Option-cases, if◌then◌else◌,
}
use lantalk.Common.Dict.{lookup, erase, lookup-insert_self, lookup-erase}
use lantalk.Common.ByteString.{eq_bytes_refl}
use lantalk.Network.Protocol.Types.{MessageType}
use lantalk.Network.Connection.{Connection, authenticating, authenticated}
use lantalk.Chat.Message.{ChatMessage, from_json}
use lantalk.Chat.Session.Json.{extract_str}
use lantalk.Chat.Session.{
  PeerInfo, SessionConfig, ChatSession, is_authenticated, with_connection, set_peer, peer_at,
  sending,
}
use lantalk.Chat.Session.Handlers.{
  hello_peer, challenge_payload, response_payload, handle_hello, is_authenticated_peer,
  deliver_message, handle_chat_message, handle_ping, handle_disconnect, handle_auth_request,
  is_accepted, handle_auth_response, dispatch, on_disconnect,
}

-- Two sessions that look the same from connection `j`.
pub record Same (j : Bytes) (s t : ChatSession) : Type 0 where
  pub connection : lookup j s.connections ≡ lookup j t.connections
  pub peer : lookup j s.peers ≡ lookup j t.peers
  pub config : s.config ≡ t.config

-- The parts of a session's handlers keep two sessions the same.
module _ (j : Bytes) (s t : ChatSession) (same : Same j s t) where
  peer_at-Same : peer_at s j ≡ peer_at t j
  unfolding peer_at
  peer_at-Same = rw (same.peer, peer_at) refl

  with_connection-Same :
      (f g : Connection → Connection)
      → f ≡ g
      → Same j (with_connection s j f) (with_connection t j g)
  unfolding with_connection
  with_connection-Same f g h = elim (Option-cases (lookup j s.connections)) [
    | inl e ↦
        let e' : lookup j t.connections ≡ none = sym same.connection ∙ e in
        rw (e, e', with_connection) same
    | inr (c, e) ↦
        let e' : lookup j t.connections ≡ some c = sym same.connection ∙ e in
        rw (e, e', with_connection)
          (record {
            connection =
                lookup-insert_self j (f c) s.connections
                ∙ ap (λ (k : Connection → Connection). some (k c)) h
                ∙ sym (lookup-insert_self j (g c) t.connections);
            peer = same.peer;
            config = same.config;
          })
  ]

  set_peer-Same : (p q : PeerInfo) → p ≡ q → Same j (set_peer s j p) (set_peer t j q)
  set_peer-Same p q h = record {
    connection = same.connection;
    peer = lookup-insert_self j p s.peers ∙ ap some h ∙ sym (lookup-insert_self j q t.peers);
    config = same.config;
  }

  is_authenticated_peer-Same : is_authenticated_peer s j ≡ is_authenticated_peer t j
  unfolding is_authenticated_peer
  is_authenticated_peer-Same = rw (same.peer, is_authenticated_peer) refl

  deliver_message-Same :
      (m : Option ChatMessage) → Same j (deliver_message s m) (deliver_message t m)
  deliver_message-Same none = same
  deliver_message-Same (some m) = record {
    connection = same.connection;
    peer = same.peer;
    config = same.config;
  }

-- Two tests that agree.
Same-if :
    (j : Bytes) (a b : Bool) (x y x' y' : ChatSession)
    → a ≡ b
    → (a ≡ true → Same j x x')
    → (a ≡ false → Same j y y')
    → Same j (if a then x else y) (if b then x' else y')
Same-if j true b x y x' y' e h k = rw (← e) (h refl)
Same-if j false b x y x' y' e h k = rw (← e) (k refl)

module _ (j : Bytes) (s t : ChatSession) (same : Same j s t) (payload : Bytes) where
  handle_hello-Same : Same j (handle_hello s j payload) (handle_hello t j payload)
  unfolding handle_hello
  handle_hello-Same =
      let at = peer_at-Same j s t same in
      let id = extract_str payload (codes "device_id") in
      Same-if j (is_empty id) (is_empty id) _ _ _ _ refl
        (λ _. with_connection-Same j s t same _ _ refl)
        (λ _.
          Same-if j s.config.require_auth t.config.require_auth _ _ _ _
            (ap (λ (g : SessionConfig). g.require_auth) same.config)
            (λ _.
              with_connection-Same j _ _
                (set_peer-Same j s t same _ _ (ap (λ p. hello_peer p payload authenticating) at)) _
                _
                (ap
                  (λ (g : SessionConfig). sending MessageType.auth_request (challenge_payload g id))
                  same.config))
            (λ _.
              let q =
                set_peer-Same j s t same _ _ (ap (λ p. hello_peer p payload authenticated) at) in
              record { connection = q.connection; peer = q.peer; config = q.config }))

  handle_chat_message-Same :
      Same j (handle_chat_message s j payload) (handle_chat_message t j payload)
  unfolding handle_chat_message
  handle_chat_message-Same =
      Same-if j (is_authenticated_peer s j) (is_authenticated_peer t j) _ _ _ _
        (is_authenticated_peer-Same j s t same)
        (λ _. deliver_message-Same j s t same (from_json payload)) (λ _. same)

  handle_auth_request-Same :
      Same j (handle_auth_request s j payload) (handle_auth_request t j payload)
  unfolding handle_auth_request
  handle_auth_request-Same = with_connection-Same j s t same _ _ (
      ap (λ (g : SessionConfig). sending MessageType.auth_response (response_payload g))
        same.config)

  handle_auth_response-Same :
      Same j (handle_auth_response s j payload) (handle_auth_response t j payload)
  unfolding handle_auth_response
  handle_auth_response-Same = elim (Option-cases (lookup j s.connections)) [
    | inl e ↦
        let e' : lookup j t.connections ≡ none = sym same.connection ∙ e in
        rw (e, e', handle_auth_response) same
    | inr (c, e) ↦
        let e' : lookup j t.connections ≡ some c = sym same.connection ∙ e in
        rw (e, e', handle_auth_response)
          (Same-if j (is_accepted s.config payload) (is_accepted t.config payload) _ _ _ _
            (ap (λ g. is_accepted g payload) same.config)
            (λ _. record {
              connection =
                  lookup-insert_self j _ s.connections ∙ sym (lookup-insert_self j _ t.connections);
              peer =
                  lookup-insert_self j _ s.peers
                  ∙ ap (λ (p : PeerInfo). some (record p { state = authenticated }))
                      (peer_at-Same j s t same)
                  ∙ sym (lookup-insert_self j _ t.peers);
              config = same.config;
            })
            (λ _. record {
              connection =
                  lookup-insert_self j _ s.connections ∙ sym (lookup-insert_self j _ t.connections);
              peer = same.peer;
              config = same.config;
            }))
  ]

  pub dispatch-Same : (k : MessageType) → Same j (dispatch k s j payload) (dispatch k t j payload)
  unfolding dispatch handle_ping handle_disconnect
  dispatch-Same MessageType.hello = handle_hello-Same
  dispatch-Same MessageType.auth_request = handle_auth_request-Same
  dispatch-Same MessageType.auth_response = handle_auth_response-Same
  dispatch-Same MessageType.chat_message = handle_chat_message-Same
  dispatch-Same MessageType.ping = with_connection-Same j s t same _ _ refl
  dispatch-Same MessageType.disconnect = with_connection-Same j s t same _ _ refl
  dispatch-Same _ = same

-- After its end there is nothing of a connection.
pub record IsGone (j : Bytes) (s t : ChatSession) : Type 0 where
  pub connection : lookup j t.connections ≡ none
  pub peer : lookup j t.peers ≡ none
  pub config : t.config ≡ s.config

pub on_disconnect-IsGone : (j : Bytes) (s : ChatSession) → IsGone j s (on_disconnect s j)
unfolding on_disconnect
on_disconnect-IsGone j s =
    let c : lookup j (erase j s.connections) ≡ none =
      rw (lookup-erase j j s.connections, eq_bytes_refl j) refl in
    let p : lookup j (erase j s.peers) ≡ none =
      rw (lookup-erase j j s.peers, eq_bytes_refl j) refl in
    elim (Option-cases (lookup j s.peers)) [
      | inl e ↦ rw (e, on_disconnect) (record { connection = c; peer = p; config = refl })
      | inr (q, e) ↦
          rw (e, on_disconnect)
            (if_cases (IsGone j s) (is_authenticated q.state)
              (λ _. record { connection = c; peer = p; config = refl })
              (λ _. record { connection = c; peer = p; config = refl }))
    ]

pub on_disconnect-Same :
    (j : Bytes) (s t : ChatSession) → Same j s t → Same j (on_disconnect s j) (on_disconnect t j)
on_disconnect-Same j s t same =
    let g = on_disconnect-IsGone j s in
    let h = on_disconnect-IsGone j t in
    record {
      connection = g.connection ∙ sym h.connection;
      peer = g.peer ∙ sym h.peer;
      config = g.config ∙ same.config ∙ sym h.config;
    }
