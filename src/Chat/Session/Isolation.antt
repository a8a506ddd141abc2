-- ===== src/Chat/Session/Isolation.antt =====
-- What a frame on one connection can do to the others, in src/chat/chat_session.cpp.
pub mod Same
pub mod Histories
use lantalk.Common.{
  ◌≡◌, refl, ◌∙◌, inl, inr, false, List, [], ◌∷◌, Option, none, some, Bytes, codes, eq_bytes,
  is_empty, if_cases, Option-cases,
}
use lantalk.Common.Dict.{Dict, lookup, insert, erase, lookup-insert_ne, lookup-erase}
use lantalk.Network.Protocol.Types.{MessageType}
use lantalk.Network.Protocol.Header.{Frame}
use lantalk.Network.Connection.{Connection}
use lantalk.Chat.Message.{ChatMessage, from_json}
use lantalk.Chat.Session.Json.{extract_str}
use lantalk.Chat.Session.{PeerInfo, ChatSession, is_authenticated, with_connection, set_peer}
use lantalk.Chat.Session.Handlers.{
  handle_hello, is_authenticated_peer, deliver_message, handle_chat_message, handle_ping,
  handle_disconnect, handle_auth_request, is_accepted, handle_auth_response, dispatch, on_frame,
  on_disconnect,
}

-- Nothing has changed about connection `j`.
pub record Keeps (j : Bytes) (s t : ChatSession) : Type 0 where
  pub connection : lookup j t.connections ≡ lookup j s.connections
  pub peer : lookup j t.peers ≡ lookup j s.peers
  pub config : t.config ≡ s.config
  pub running : t.running ≡ s.running

Keeps-refl : (j : Bytes) (s : ChatSession) → Keeps j s s
Keeps-refl j s = record { connection = refl; peer = refl; config = refl; running = refl }

Keeps-trans : (j : Bytes) (s t u : ChatSession) → Keeps j s t → Keeps j t u → Keeps j s u
Keeps-trans j s t u h k = record {
  connection = k.connection ∙ h.connection;
  peer = k.peer ∙ h.peer;
  config = k.config ∙ h.config;
  running = k.running ∙ h.running;
}

module _ (cid j : Bytes) (other : eq_bytes cid j ≡ false) where
  with_connection-Keeps :
      (s : ChatSession) (f : Connection → Connection) → Keeps j s (with_connection s cid f)
  unfolding with_connection
  with_connection-Keeps s f = elim (Option-cases (lookup cid s.connections)) [
    | inl e ↦ rw (e, with_connection) (Keeps-refl j s)
    | inr (c, e) ↦
        rw (e, with_connection)
          (record {
            connection = lookup-insert_ne cid j (f c) s.connections other;
            peer = refl;
            config = refl;
            running = refl;
          })
  ]

  set_peer-Keeps : (s : ChatSession) (p : PeerInfo) → Keeps j s (set_peer s cid p)
  set_peer-Keeps s p = record {
    connection = refl;
    peer = lookup-insert_ne cid j p s.peers other;
    config = refl;
    running = refl;
  }

  handle_hello-Keeps : (s : ChatSession) (payload : Bytes) → Keeps j s (handle_hello s cid payload)
  unfolding handle_hello
  handle_hello-Keeps s payload =
      if_cases (Keeps j s) (is_empty (extract_str payload (codes "device_id")))
        (λ _. with_connection-Keeps s _)
        (λ _.
          if_cases (Keeps j s) s.config.require_auth
            (λ _. Keeps-trans j s _ _ (set_peer-Keeps s _) (with_connection-Keeps _ _))
            (λ _. record {
              connection = refl;
              peer = lookup-insert_ne cid j _ s.peers other;
              config = refl;
              running = refl;
            }))

  deliver_message-Keeps :
      (s : ChatSession) (m : Option ChatMessage) → Keeps j s (deliver_message s m)
  deliver_message-Keeps s none = Keeps-refl j s
  deliver_message-Keeps s (some m) = record {
    connection = refl;
    peer = refl;
    config = refl;
    running = refl;
  }

  handle_chat_message-Keeps :
      (s : ChatSession) (payload : Bytes) → Keeps j s (handle_chat_message s cid payload)
  unfolding handle_chat_message
  handle_chat_message-Keeps s payload =
      if_cases (Keeps j s) (is_authenticated_peer s cid)
        (λ _. deliver_message-Keeps s (from_json payload)) (λ _. Keeps-refl j s)

  handle_auth_response-Keeps :
      (s : ChatSession) (payload : Bytes) → Keeps j s (handle_auth_response s cid payload)
  unfolding handle_auth_response
  handle_auth_response-Keeps s payload = elim (Option-cases (lookup cid s.connections)) [
    | inl e ↦ rw (e, handle_auth_response) (Keeps-refl j s)
    | inr (c, e) ↦
        rw (e, handle_auth_response)
          (if_cases (Keeps j s) (is_accepted s.config payload)
            (λ _. record {
              connection = lookup-insert_ne cid j _ s.connections other;
              peer = lookup-insert_ne cid j _ s.peers other;
              config = refl;
              running = refl;
            })
            (λ _. record {
              connection = lookup-insert_ne cid j _ s.connections other;
              peer = refl;
              config = refl;
              running = refl;
            }))
  ]

  pub dispatch-Keeps :
      (t : MessageType) (s : ChatSession) (payload : Bytes) → Keeps j s (dispatch t s cid payload)
  unfolding dispatch handle_ping handle_disconnect handle_auth_request
  dispatch-Keeps MessageType.hello s payload = handle_hello-Keeps s payload
  dispatch-Keeps MessageType.auth_request s payload = with_connection-Keeps s _
  dispatch-Keeps MessageType.auth_response s payload = handle_auth_response-Keeps s payload
  dispatch-Keeps MessageType.chat_message s payload = handle_chat_message-Keeps s payload
  dispatch-Keeps MessageType.ping s payload = with_connection-Keeps s _
  dispatch-Keeps MessageType.disconnect s payload = with_connection-Keeps s _
  dispatch-Keeps _ s payload = Keeps-refl j s

  pub on_disconnect-Keeps : (s : ChatSession) → Keeps j s (on_disconnect s cid)
  unfolding on_disconnect
  on_disconnect-Keeps s =
      let gone : Keeps j s
          (record s { peers = erase cid s.peers; connections = erase cid s.connections }) =
        record {
          connection = rw (lookup-erase cid j s.connections, other) refl;
          peer = rw (lookup-erase cid j s.peers, other) refl;
          config = refl;
          running = refl;
        } in
      elim (Option-cases (lookup cid s.peers)) [
        | inl e ↦ rw (e, on_disconnect) gone
        | inr (p, e) ↦
            rw (e, on_disconnect)
              (if_cases (Keeps j s) (is_authenticated p.state)
                (λ _. record {
                  connection = gone.connection;
                  peer = gone.peer;
                  config = refl;
                  running = refl;
                })
                (λ _. gone))
      ]
