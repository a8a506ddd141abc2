-- ===== src/Chat/Session/Authentication.antt =====
-- Who counts as authenticated in a session (src/chat/chat_session.cpp) that requires authentication.
use lantalk.Common.{
  ◌≡◌, refl, sym, ap, ◌∙◌, inl, inr, true, false, not, List, [], ◌∷◌, Option, none, some, Bytes,
  codes, eq_bytes, eq_bytes_iff, is_empty, if_cases, Bool-cases, Option-cases,
}
use lantalk.Common.Dict.{Dict, lookup, insert, erase, lookup-insert, lookup-erase}
use lantalk.Network.Protocol.Types.{MessageType}
use lantalk.Network.Connection.{Connection, authenticated}
use lantalk.Chat.Message.{ChatMessage, from_json}
use lantalk.Chat.Session.Json.{extract_str}
use lantalk.Chat.Session.{
  PeerInfo, new_peer, SessionConfig, ChatSession, is_authenticated, with_connection,
}
use lantalk.Chat.Session.Handlers.{
  send_hello, add_connection, handle_hello, handle_auth_response, handle_chat_message,
  is_authenticated_peer, deliver_message, handle_ping, handle_disconnect, handle_auth_request,
  is_accepted, dispatch, on_disconnect,
}
use lantalk.Chat.Session.Commands.{ping_over, drop_all, ping_round}

-- Everything but the connections is as it was.
record SameButConnections (s t : ChatSession) : Type 0 where
  config_eq : t.config ≡ s.config
  peers_eq : t.peers ≡ s.peers
  events_eq : t.events ≡ s.events
  running_eq : t.running ≡ s.running

with_connection-same :
    (s : ChatSession) (cid : Bytes) (f : Connection → Connection)
    → SameButConnections s (with_connection s cid f)
unfolding with_connection
with_connection-same s cid f = elim (Option-cases (lookup cid s.connections)) [
  | inl e ↦
      rw (e, with_connection)
        (record { config_eq = refl; peers_eq = refl; events_eq = refl; running_eq = refl })
  | inr (c, e) ↦
      rw (e, with_connection)
        (record { config_eq = refl; peers_eq = refl; events_eq = refl; running_eq = refl })
]

-- Each authenticated entry satisfies `P` of its connection.
abbrev pub Vouched : (Bytes → Type 0) → Dict PeerInfo → Type 0
Vouched P ps =
    (cid : Bytes) (p : PeerInfo) → lookup cid ps ≡ some p → p.state ≡ authenticated → P cid

module _ (P : Bytes → Type 0) where
  pub Vouched-insert :
      (ps : Dict PeerInfo) (cid : Bytes) (p : PeerInfo)
      → (p.state ≡ authenticated → P cid)
      → Vouched P ps
      → Vouched P (insert cid p ps)
  Vouched-insert ps cid p new old k q e a = elim (Bool-cases (eq_bytes cid k)) [
    | inl same ↦
        let here : some p ≡ some q = rw (lookup-insert cid k p ps, same) at e in
        let keys : cid ≡ k = (eq_bytes_iff cid k).0 same in
        let peers : p ≡ q = cc in rw (← keys) (new (ap (λ (x : PeerInfo). x.state) peers ∙ a))
    | inr other ↦ old k q (rw (lookup-insert cid k p ps, other) at e) a
  ]

  pub Vouched-erase : (ps : Dict PeerInfo) (cid : Bytes) → Vouched P ps → Vouched P (erase cid ps)
  Vouched-erase ps cid old k q e a = elim (Bool-cases (eq_bytes cid k)) [
    | inl same ↦ let gone : none ≡ some q = rw (lookup-erase cid k ps, same) at e in cc
    | inr other ↦ old k q (rw (lookup-erase cid k ps, other) at e) a
  ]

-- The invariant: the configuration stays, and the peers are vouched for.
abbrev pub Inv : SessionConfig → (Bytes → Type 0) → ChatSession → Type 0
Inv g P s = (s.config ≡ g) × Vouched P s.peers

module _ (g : SessionConfig) (P : Bytes → Type 0) where
  same-Inv : (s t : ChatSession) → SameButConnections s t → Inv g P s → Inv g P t
  same-Inv s t e v = (e.config_eq ∙ v.0, rw (e.peers_eq) v.1)

  pub with_connection-Inv :
      (s : ChatSession) (cid : Bytes) (f : Connection → Connection)
      → Inv g P s
      → Inv g P (with_connection s cid f)
  with_connection-Inv s cid f v = same-Inv s _ (with_connection-same s cid f) v

  pub on_disconnect-Inv :
      (s : ChatSession) (cid : Bytes) → Inv g P s → Inv g P (on_disconnect s cid)
  unfolding on_disconnect
  on_disconnect-Inv s cid v =
      let left = Vouched-erase P s.peers cid v.1 in
      elim (Option-cases (lookup cid s.peers)) [
        | inl e ↦ rw (e, on_disconnect) (v.0, left)
        | inr (p, e) ↦
            rw (e, on_disconnect)
              (if_cases (Inv g P) (is_authenticated p.state) (λ _. (v.0, left)) (λ _. (v.0, left)))
      ]

  handle_hello-Inv :
      (s : ChatSession) (cid payload : Bytes)
      → g.require_auth ≡ true
      → Inv g P s
      → Inv g P (handle_hello s cid payload)
  unfolding handle_hello
  handle_hello-Inv s cid payload auth v =
      if_cases (Inv g P) (is_empty (extract_str payload (codes "device_id")))
        (λ _. with_connection-Inv s cid _ v)
        (λ _.
          if_cases (Inv g P) s.config.require_auth
            (λ _.
              same-Inv _ _ (with_connection-same _ cid _)
                (v.0, Vouched-insert P s.peers cid _ (λ a. cc) v.1))
            (λ open_session.
              let off : false ≡ true =
                sym open_session ∙ ap (λ (c : SessionConfig). c.require_auth) v.0 ∙ auth in
              cc))

  handle_auth_response-Inv :
      (s : ChatSession) (cid payload : Bytes)
      → (is_accepted g payload ≡ true → P cid)
      → Inv g P s
      → Inv g P (handle_auth_response s cid payload)
  unfolding handle_auth_response
  handle_auth_response-Inv s cid payload proves v = elim (Option-cases (lookup cid s.connections)) [
    | inl e ↦ rw (e, handle_auth_response) v
    | inr (c, e) ↦
        rw (e, handle_auth_response)
          (if_cases (Inv g P) (is_accepted s.config payload)
            (λ accepted.
              (v.0, Vouched-insert P s.peers cid _ (λ _. proves (rw (v.0) at accepted)) v.1))
            (λ _. v))
  ]

  handle_chat_message-Inv :
      (s : ChatSession) (cid payload : Bytes)
      → Inv g P s
      → Inv g P (handle_chat_message s cid payload)
  unfolding handle_chat_message
  handle_chat_message-Inv s cid payload v =
      if_cases (Inv g P) (is_authenticated_peer s cid) (λ _. delivered (from_json payload)) (λ _. v)
    where
      delivered : (o : Option ChatMessage) → Inv g P (deliver_message s o)
      delivered none = v
      delivered (some m) = v

  -- A frame keeps the invariant if an accepted response vouches for its connection.
  pub dispatch-Inv :
      (t : MessageType) (s : ChatSession) (cid payload : Bytes)
      → g.require_auth ≡ true
      → (t ≡ MessageType.auth_response → is_accepted g payload ≡ true → P cid)
      → Inv g P s
      → Inv g P (dispatch t s cid payload)
  unfolding dispatch handle_ping handle_disconnect handle_auth_request
  dispatch-Inv MessageType.hello s cid payload auth proves v = handle_hello-Inv s cid payload auth v
  dispatch-Inv MessageType.auth_request s cid payload auth proves v = with_connection-Inv s cid _ v
  dispatch-Inv MessageType.auth_response s cid payload auth proves v =
      handle_auth_response-Inv s cid payload (proves refl) v
  dispatch-Inv MessageType.chat_message s cid payload auth proves v =
      handle_chat_message-Inv s cid payload v
  dispatch-Inv MessageType.ping s cid payload auth proves v = with_connection-Inv s cid _ v
  dispatch-Inv MessageType.disconnect s cid payload auth proves v = with_connection-Inv s cid _ v
  dispatch-Inv _ s cid payload auth proves v = v

  pub drop_all-Inv : (s : ChatSession) (dead : List Bytes) → Inv g P s → Inv g P (drop_all s dead)
  unfolding drop_all
  drop_all-Inv s [] v = v
  drop_all-Inv s (cid ∷ dead) v =
      drop_all-Inv (on_disconnect s cid) dead (on_disconnect-Inv s cid v)

  pub ping_round-Inv : (s : ChatSession) → Inv g P s → Inv g P (ping_round s)
  unfolding ping_round
  ping_round-Inv s v =
      if_cases (Inv g P) (not s.running) (λ _. v)
        (λ _. drop_all-Inv _ (ping_over s.connections).1 v)

  pub add_connection-Inv :
      (s : ChatSession) (cid : Bytes) (c : Connection)
      → Inv g P s
      → Inv g P (add_connection s cid c)
  unfolding add_connection send_hello
  add_connection-Inv s cid c v =
      if_cases (Inv g P) (not s.running) (λ _. v)
        (λ _.
          same-Inv _ _ (with_connection-same _ cid _)
            (v.0, Vouched-insert P s.peers cid new_peer (λ a. cc) v.1))
