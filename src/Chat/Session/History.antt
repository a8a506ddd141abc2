-- ===== src/Chat/Session/History.antt =====
-- Histories of a session (src/chat/chat_session.cpp): what the threads of the program do to it, in the order in which they get
-- its lock.
use lantalk.Common.{
  ◌≡◌, refl, sym, ◌∙◌, ◌≢◌, ◌⊎◌, inl, inr, true, false, not, List, [], ◌∷◌, Option, none, some,
  Bytes, codes, eq_bytes, eq_bytes_iff, if_cases, Bool-cases, Option-cases,
}
use lantalk.Common.Dict.{lookup}
use lantalk.Network.Protocol.Types.{MessageType}
use lantalk.Network.Protocol.Header.{Frame}
use lantalk.Network.Connection.{Connection, ConnectionState, authenticated}
use lantalk.Chat.Message.{ChatMessage}
use lantalk.Chat.Session.Json.{extract_str}
use lantalk.Chat.Session.{PeerInfo, SessionConfig, ChatSession, is_authenticated, with_connection}
use lantalk.Chat.Session.Handlers.{
  add_connection, handle_chat_message, is_authenticated_peer, is_accepted, on_frame, on_disconnect,
}
use lantalk.Chat.Session.Commands.{
  start, stop, send_to, broadcast, ping_round, find_target, send_target, send_over,
}
use lantalk.Chat.Session.Authentication.{
  Vouched, Inv, dispatch-Inv, ping_round-Inv, add_connection-Inv, on_disconnect-Inv,
  with_connection-Inv,
}

-- The constructor.
abbrev pub new_session : SessionConfig → ChatSession
new_session g = record { config = g; connections = []; peers = []; running = false; events = [] }

pub data Step : Type 0 where
  starts stops pings : Step
  adds : Bytes → Connection → Step
  frames : Bytes → Frame → Step
  drops : Bytes → Step
  sends : Bytes → ChatMessage → Step
  broadcasts : ChatMessage → Step
  -- The connection's own receive loop changes it.
  receives : Bytes → (Connection → Connection) → Step

unfoldable pub step : ChatSession → Step → ChatSession
step s starts = start s
step s stops = (stop s).0
step s pings = ping_round s
step s (adds cid c) = add_connection s cid c
step s (frames cid f) = on_frame s cid f
step s (drops cid) = on_disconnect s cid
step s (sends id m) = (send_to s id m).0
step s (broadcasts m) = broadcast s m
step s (receives cid f) = with_connection s cid f

-- The session after a history, whose last step stands first.
unfoldable pub after : SessionConfig → List Step → ChatSession
unfolding step
after g [] = new_session g
after g (x ∷ history) = step (after g history) x

-- The step is an AUTH_RESPONSE under this connection that carries the configured hash.
abbrev pub Presents : SessionConfig → Bytes → Step → Type 0
Presents g cid (frames k f) =
    (k ≡ cid)
    × (f.header.type ≡ MessageType.auth_response)
    × (extract_str f.payload (codes "response") ≡ g.psk_hash)
Presents g cid _ = ⊥

abbrev pub Presented : SessionConfig → Bytes → List Step → Type 0
Presented g cid [] = ⊥
Presented g cid (x ∷ history) = Presents g cid x ⊎ Presented g cid history

is_accepted-hash :
    (g : SessionConfig) (payload : Bytes)
    → g.psk_hash ≢ []
    → is_accepted g payload ≡ true
    → extract_str payload (codes "response") ≡ g.psk_hash
unfolding is_accepted
is_accepted-hash g payload set h = go g.psk_hash refl
  where
    go : (k : Bytes) → g.psk_hash ≡ k → extract_str payload (codes "response") ≡ g.psk_hash
    go [] e = absurd (set e)
    go (x ∷ k) e =
        let test : eq_bytes (extract_str payload (codes "response")) (x ∷ k) ≡ true =
          rw (e, is_accepted) at h in
        (eq_bytes_iff _ _).0 test ∙ sym e

Vouched-mono :
    (P Q : Bytes → Type 0) (s : ChatSession)
    → ((cid : Bytes) → P cid → Q cid)
    → Vouched P s.peers
    → Vouched Q s.peers
Vouched-mono P Q s f v cid p e a = f cid (v cid p e a)

step-Inv :
    (g : SessionConfig) (P : Bytes → Type 0) (s : ChatSession) (x : Step)
    → g.psk_hash ≢ []
    → g.require_auth ≡ true
    → ((cid : Bytes) → Presents g cid x → P cid)
    → Inv g P s
    → Inv g P (step s x)
unfolding step start stop send_to broadcast lookup
step-Inv g P s starts set auth new v = v
step-Inv g P s stops set auth new v =
    if_cases (λ (r : ChatSession × _). Inv g P r.0) (not s.running) (λ _. v)
      (λ _. (v.0, λ cid p e a. cc))
step-Inv g P s pings set auth new v = ping_round-Inv g P s v
step-Inv g P s (adds cid c) set auth new v = add_connection-Inv g P s cid c v
step-Inv g P s (frames cid f) set auth new v =
    dispatch-Inv g P f.header.type s cid f.payload auth
      (λ t h. new cid (refl, t, is_accepted-hash g f.payload set h)) v
step-Inv g P s (drops cid) set auth new v = on_disconnect-Inv g P s cid v
step-Inv g P s (sends id m) set auth new v = sent (find_target id s.peers)
  where
    over : (cid : Bytes) (o : Option Connection) → Inv g P (send_over s cid m o).0
    over cid none = v
    over cid (some c) = v

    sent : (o : Option Bytes) → Inv g P (send_target s m o).0
    sent none = v
    sent (some cid) = over cid (lookup cid s.connections)
step-Inv g P s (broadcasts m) set auth new v = v
step-Inv g P s (receives cid f) set auth new v = with_connection-Inv g P s cid f v

-- In a session that requires authentication with a hash, a connection whose peer is authenticated has
-- at some point of the history sent an AUTH_RESPONSE with that hash.
pub after-Presented :
    (g : SessionConfig) (history : List Step)
    → g.psk_hash ≢ []
    → g.require_auth ≡ true
    → Inv g (λ cid. Presented g cid history) (after g history)
unfolding after lookup
after-Presented g [] set auth = (refl, λ cid p e a. cc)
after-Presented g (x ∷ history) set auth =
    let v = after-Presented g history set auth in
    step-Inv g (λ cid. Presented g cid (x ∷ history)) (after g history) x set auth (λ cid h. inl h)
      (v.0, Vouched-mono (λ cid. Presented g cid history) _ (after g history) (λ cid h. inr h) v.1)

pub is_authenticated-eq : (s : ConnectionState) → is_authenticated s ≡ true → s ≡ authenticated
is_authenticated-eq authenticated h = refl
is_authenticated-eq _ h = cc

-- The entry behind handleChatMessage's test.
pub is_authenticated_peer-entry :
    (s : ChatSession) (cid : Bytes)
    → is_authenticated_peer s cid ≡ true
    → (p : PeerInfo) × (lookup cid s.peers ≡ some p) × (p.state ≡ authenticated)
unfolding is_authenticated_peer
is_authenticated_peer-entry s cid h = elim (Option-cases (lookup cid s.peers)) [
  | inl e ↦ let bad : false ≡ true = rw (e, is_authenticated_peer) at h in cc
  | inr (p, e) ↦ (p, e, is_authenticated-eq p.state (rw (e, is_authenticated_peer) at h))
]

-- In such a session a CHAT_MESSAGE frame has an effect only if its connection has presented the
-- hash: otherwise the session stays as it was, and no message is shown.
pub handle_chat_message-Presented :
    (g : SessionConfig) (history : List Step) (cid payload : Bytes)
    → g.psk_hash ≢ []
    → g.require_auth ≡ true
    → (handle_chat_message (after g history) cid payload ≡ after g history)
      ⊎ Presented g cid history
unfolding handle_chat_message
handle_chat_message-Presented g history cid payload set auth =
    let s = after g history in
    elim (Bool-cases (is_authenticated_peer s cid)) [
      | inl e ↦
          let (p, found, trusted) = is_authenticated_peer-entry s cid e in
          inr ((after-Presented g history set auth).1 cid p found trusted)
      | inr e ↦ inl (rw (e, handle_chat_message))
    ]
