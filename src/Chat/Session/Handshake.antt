-- ===== src/Chat/Session/Handshake.antt =====
-- HELLO, AUTH_REQUEST and AUTH_RESPONSE between two sessions of src/chat/chat_session.cpp, of which
-- the second one requires authentication: each frame is handled by onFrame of the other side, under
-- the identifier that it has there for the connection.
use lantalk.Common.{
  ◌≡◌, refl, ap, ◌∙◌, Bool, true, false, ◌||◌, ◌∷◌, [], ◌++◌, some, Bytes, eq_bytes, is_empty,
  if_cases, arith,
}
use lantalk.Common.Dict.{lookup, insert, lookup-insert_self}
use lantalk.Network.Protocol.Types.{MessageType}
use lantalk.Network.Protocol.Header.{Frame, create}
use lantalk.Network.Connection.{
  Connection, ConnectionState, authenticating, authenticated, disconnected, connected,
  disconnecting, is_disconnected,
}
use lantalk.Network.Connection
use lantalk.Chat.Session.Json.{extract_str}
use lantalk.Chat.Session.Json.Strings.{seen}
use lantalk.Chat.Session.Text.{extract_str-hello_payload, extract_str-response_payload}
use lantalk.Chat.Session.{
  PeerInfo, SessionConfig, peer_event, ChatSession, with_connection, sending, peer_at,
}
use lantalk.Chat.Session.Handlers.{
  hello_payload, challenge_payload, hello_peer, handle_hello, auth_reply, response_payload,
  handle_auth_request, is_accepted, handle_auth_response, dispatch, on_frame,
}

-- Whether a session with configuration `h` takes a peer with configuration `g`.
abbrev pub admits : SessionConfig → SessionConfig → Bool
admits h g = is_empty h.psk_hash || eq_bytes (seen (auth_reply g)) h.psk_hash

-- The peer as its HELLO shows it.
abbrev pub shown_peer : PeerInfo → SessionConfig → ConnectionState → PeerInfo
shown_peer p g state = record p {
  device_id = seen g.device_id;
  display_name = seen g.display_name;
  platform = seen g.platform;
  state = state;
}

pub hello_peer-shown :
    (p : PeerInfo) (g : SessionConfig) (state : ConnectionState)
    → hello_peer p (hello_payload g) state ≡ shown_peer p g state
hello_peer-shown p g state = let (i, n, f) = extract_str-hello_payload g in rw (i, n, f)

is_accepted-admits : (h g : SessionConfig) → is_accepted h (response_payload g) ≡ admits h g
unfolding is_accepted
is_accepted-admits h g = rw (extract_str-response_payload g) (ground arith)

pub with_connection-there :
    (s : ChatSession) (cid : Bytes) (f : Connection → Connection) (c : Connection)
    → lookup cid s.connections ≡ some c
    → with_connection s cid f ≡ record s { connections = insert cid (f c) s.connections }
unfolding with_connection
with_connection-there s cid f c e = rw (e, with_connection)

handle_hello-asks :
    (s : ChatSession) (g : SessionConfig) (cid : Bytes) (c : Connection)
    → lookup cid s.connections ≡ some c
    → s.config.require_auth ≡ true
    → is_empty (seen g.device_id) ≡ false
    → handle_hello s cid (hello_payload g) ≡ (record s {
      peers = insert cid (shown_peer (peer_at s cid) g authenticating) s.peers;
      connections =
          insert cid
            (sending MessageType.auth_request (challenge_payload s.config (seen g.device_id)) c)
            s.connections;
    })
unfolding handle_hello
handle_hello-asks s g cid c e auth known =
    let (i, n, f) = extract_str-hello_payload g in
    rw (hello_peer-shown (peer_at s cid) g authenticating)
      (rw i (rw (known, auth) (with_connection-there _ cid _ c e)))

disconnected-state : (s : ConnectionState) → is_disconnected s ≡ true → s ≡ disconnected
disconnected-state disconnected e = refl
disconnected-state connected e = cc
disconnected-state authenticating e = cc
disconnected-state authenticated e = cc
disconnected-state disconnecting e = cc

disconnect-state :
    (c : Connection) (reason : Bytes) → (Connection.disconnect c reason).state ≡ disconnected
unfolding Connection.disconnect
disconnect-state c reason =
    if_cases (λ (d : Connection). d.state ≡ disconnected) (is_disconnected c.state)
      (λ e. disconnected-state c.state e) (λ _. refl)

-- What the AUTH_RESPONSE of a peer does.
abbrev pub Admitted : ChatSession → Bytes → PeerInfo → ChatSession → Type 0
Admitted s cid p t =
    let q = record p { state = authenticated } in
    (lookup cid t.peers ≡ some q) × (t.events ≡ s.events ++ peer_event q true ∷ [])

abbrev pub Refused : ChatSession → Bytes → PeerInfo → ChatSession → Type 0
Refused s cid p t =
    (lookup cid t.peers ≡ some p)
    × (t.events ≡ s.events)
    × ((c : Connection) × (lookup cid t.connections ≡ some c) × (c.state ≡ disconnected))

peer_at-there :
    (s : ChatSession) (cid : Bytes) (p : PeerInfo) → lookup cid s.peers ≡ some p → peer_at s cid ≡ p
unfolding peer_at
peer_at-there s cid p e = rw (e, peer_at)

handle_auth_response-ends :
    (s : ChatSession) (cid payload : Bytes) (c : Connection) (p : PeerInfo)
    → lookup cid s.connections ≡ some c
    → lookup cid s.peers ≡ some p
    → let t = handle_auth_response s cid payload in
      (is_accepted s.config payload ≡ true → Admitted s cid p t)
      × (is_accepted s.config payload ≡ false → Refused s cid p t)
unfolding handle_auth_response
handle_auth_response-ends s cid payload c p e f =
    rw (e, handle_auth_response)
      (
        λ yes_. rw yes_ (rw (peer_at-there s cid p f) (lookup-insert_self cid _ s.peers, refl)),
        λ no_. rw no_ (f, refl, (_, lookup-insert_self cid _ s.connections, disconnect-state _ _)),
      )

-- The three frames between a peer `a` and a session `b`.
abbrev pub hello_frame : ChatSession → Frame
hello_frame a = create MessageType.hello (hello_payload a.config)

abbrev pub request_frame : ChatSession → ChatSession → Frame
request_frame a b =
    create MessageType.auth_request (challenge_payload b.config (seen a.config.device_id))

abbrev pub response_frame : ChatSession → Frame
response_frame a = create MessageType.auth_response (response_payload a.config)

-- The second session after the HELLO, and after the AUTH_RESPONSE.
abbrev pub greeted : ChatSession → ChatSession → Bytes → ChatSession
greeted a b cb = on_frame b cb (hello_frame a)

abbrev pub answered : ChatSession → ChatSession → Bytes → ChatSession
answered a b cb = on_frame (greeted a b cb) cb (response_frame a)

-- What the two sessions send, and what the second one makes of the answer.
abbrev pub Decides : ChatSession → ChatSession → Bytes → Bytes → Connection → Connection → Type 0
Decides a b ca cb ka kb =
    let p = shown_peer (peer_at b cb) a.config authenticating in
    (lookup cb (greeted a b cb).connections ≡ some (Connection.send_frame kb (request_frame a b)).0)
    × (lookup ca (on_frame a ca (request_frame a b)).connections
        ≡ some (Connection.send_frame ka (response_frame a)).0)
    × (admits b.config a.config ≡ true → Admitted b cb p (answered a b cb))
    × (admits b.config a.config ≡ false → Refused b cb p (answered a b cb))

-- A session that requires authentication and a peer that greets it, with a connection on either
-- side: the session asks, the peer answers with its hash, or "ok" where it has none, and the session
-- admits the peer exactly if it has no hash itself, or if that answer, as it reads it, is its hash.
-- An admitted peer is authenticated under the device, the name and the platform that it announced,
-- and this is reported once; otherwise nothing is reported, the peer stays unauthenticated, and its
-- connection is disconnected. The peer's identifier, as the session reads it, is not empty.
pub answered-Decides :
    (a b : ChatSession) (ca cb : Bytes) (ka kb : Connection)
    → lookup ca a.connections ≡ some ka
    → lookup cb b.connections ≡ some kb
    → b.config.require_auth ≡ true
    → is_empty (seen a.config.device_id) ≡ false
    → Decides a b ca cb ka kb
unfolding dispatch handle_auth_request Connection.send create extract_str
answered-Decides a b ca cb ka kb ea eb auth known =
    let p = shown_peer (peer_at b cb) a.config authenticating in
    let asked = handle_hello-asks b a.config cb kb eb auth known in
    let k = (Connection.send_frame kb (request_frame a b)).0 in
    let s : ChatSession = record b {
      peers = insert cb p b.peers;
      connections = insert cb k b.connections;
    } in
    let same : greeted a b cb ≡ s = asked in
    let ends =
      handle_auth_response-ends s cb (response_payload a.config) k p
        (lookup-insert_self cb k b.connections) (lookup-insert_self cb p b.peers) in
    let decides = is_accepted-admits b.config a.config in
    (
      ap (λ (t : ChatSession). lookup cb t.connections) same
          ∙ lookup-insert_self cb k b.connections,
      ap (λ (t : ChatSession). lookup ca t.connections) (with_connection-there a ca _ ka ea)
          ∙ lookup-insert_self ca _ a.connections,
      λ yes_. rw same (ends.0 (decides ∙ yes_)),
      λ no_. rw same (ends.1 (decides ∙ no_)),
    )
