-- ===== src/Chat/Session/Routing.antt =====
-- Whom the session's commands reach, and what they report (src/chat/chat_session.cpp).
use lantalk.Common.{
  ℕ, ◌+◌, ◌≡◌, refl, ap, ◌∙◌, ◌⊎◌, inl, inr, true, false, ◌&&◌, [], ◌∷◌, ◌++◌, Option, none, some,
  arith, Bytes, eq_bytes, eq_bytes_iff, if◌then◌else◌, Bool-cases, Option-cases, length, All,
}
use lantalk.Common.Dict.{Dict, lookup, lookup-insert_self, lookup-insert_ne}
use lantalk.Network.Protocol.Types.{MessageType}
use lantalk.Network.Protocol.Header.{create}
use lantalk.Network.Connection.{Connection, send}
use lantalk.Chat.Message.{ChatMessage, to_json}
use lantalk.Chat.Session.{PeerInfo, ChatSession, is_authenticated, sending}
use lantalk.Chat.Session.Commands.{
  broadcast, broadcast_over, is_authenticated_entry, authenticated_peers, peers, count_peers,
  peer_count, find_target, send_to,
}

abbrev pub map_option {ℓ κ} : {A : Type ℓ} {B : Type κ} → (A → B) → Option A → Option B
map_option f none = none
map_option f (some a) = some (f a)

-- What broadcast does to one connection.
abbrev pub reached : Dict PeerInfo → Bytes → ChatMessage → Connection → Connection
reached ps cid m c =
    if is_authenticated_entry (lookup cid ps)
    then sending MessageType.chat_message (to_json m) c
    else c

broadcast_over-lookup :
    (ps : Dict PeerInfo) (m : ChatMessage) (cid : Bytes) (cs : Dict Connection)
    → lookup cid (broadcast_over ps (to_json m) cs) ≡ map_option (reached ps cid m) (lookup cid cs)
unfolding broadcast_over lookup
broadcast_over-lookup ps m cid [] = refl
broadcast_over-lookup ps m cid ((k, c) ∷ cs) = elim (Bool-cases (eq_bytes k cid)) [
  | inl same ↦ let keys : k ≡ cid = (eq_bytes_iff k cid).0 same in rw same (rw keys)
  | inr other ↦ rw other (broadcast_over-lookup ps m cid cs)
]

-- broadcast sends the message once on each connection whose peer is authenticated, and leaves every
-- other connection, the peers and the events as they are.
pub broadcast-lookup :
    (s : ChatSession) (m : ChatMessage) (cid : Bytes)
    → (lookup cid (broadcast s m).connections
        ≡ map_option (reached s.peers cid m) (lookup cid s.connections))
      × ((broadcast s m).peers ≡ s.peers)
      × ((broadcast s m).events ≡ s.events)
unfolding broadcast
broadcast-lookup s m cid = (broadcast_over-lookup s.peers m cid s.connections, refl, refl)

count_peers-length :
    (n : ℕ) (ps : Dict PeerInfo) → count_peers n ps ≡ n + length (authenticated_peers ps)
unfolding count_peers authenticated_peers
count_peers-length n [] = omega arith
count_peers-length n ((cid, p) ∷ ps) =
    ground (arith, count_peers-length n ps, count_peers-length (n + 1) ps)

authenticated_peers-All :
    (ps : Dict PeerInfo)
    → All (λ (p : PeerInfo). is_authenticated p.state ≡ true) (authenticated_peers ps)
unfolding authenticated_peers
authenticated_peers-All [] = tt
authenticated_peers-All ((cid, p) ∷ ps) = ground (arith, authenticated_peers-All ps)

-- peerCount is the number of peers that peers lists, and each of these is authenticated.
pub peer_count-length :
    (s : ChatSession)
    → (peer_count s ≡ length (peers s))
      × All (λ (p : PeerInfo). is_authenticated p.state ≡ true) (peers s)
unfolding peer_count peers
peer_count-length s = (count_peers-length 0 s.peers ∙ omega arith, authenticated_peers-All s.peers)

-- An entry of the map.
abbrev pub Has : Bytes → PeerInfo → Dict PeerInfo → Type 0
Has cid p [] = ⊥
Has cid p ((k, q) ∷ m) = ((k ≡ cid) × (q ≡ p)) ⊎ Has cid p m

find_target-Has :
    (id cid : Bytes) (ps : Dict PeerInfo)
    → find_target id ps ≡ some cid
    → (p : PeerInfo) × Has cid p ps × (p.device_id ≡ id) × (is_authenticated p.state ≡ true)
unfolding find_target
find_target-Has id cid [] h = cc
find_target-Has id cid ((k, q) ∷ ps) h =
    elim (Bool-cases (eq_bytes q.device_id id && is_authenticated q.state)) [
      | inl hit ↦
          let found : some k ≡ some cid = rw (hit, find_target) at h in
          (
            q,
            inl (ground arith, refl),
            (eq_bytes_iff q.device_id id).0 (ground arith),
            ground arith,
          )
      | inr miss ↦
          let (p, has, same, auth) = find_target-Has id cid ps (rw (miss, find_target) at h) in
          (p, inr has, same, auth)
    ]

send-done :
    (c : Connection) (t : MessageType) (p : Bytes)
    → (send c t p).1 ≡ true
    → (send c t p).0 ≡ record c { sent = c.sent ++ create t p ∷ [] }
unfolding send
send-done c t p h = ground arith

-- When sendTo reports success, the message has been appended once to what was sent on one connection,
-- which belongs to an authenticated peer with the device asked for, and every other connection is as
-- it was.
pub send_to-delivers :
    (s : ChatSession) (id : Bytes) (m : ChatMessage)
    → (send_to s id m).1 ≡ true
    → (cid : Bytes) × (p : PeerInfo) × (c : Connection) × Has cid p s.peers
      × (p.device_id ≡ id)
      × (is_authenticated p.state ≡ true)
      × (lookup cid s.connections ≡ some c)
      × (lookup cid (send_to s id m).0.connections
          ≡ some (record c { sent = c.sent ++ create MessageType.chat_message (to_json m) ∷ [] }))
      × ((k : Bytes)
          → eq_bytes cid k ≡ false
          → lookup k (send_to s id m).0.connections ≡ lookup k s.connections)
unfolding send_to
send_to-delivers s id m h = elim (Option-cases (find_target id s.peers)) [
  | inl e ↦ let bad : false ≡ true = rw (e, send_to) at h in cc
  | inr (cid, e) ↦ elim (Option-cases (lookup cid s.connections)) [
    | inl n ↦ let bad : false ≡ true = rw (e, n, send_to) at h in cc
    | inr (c, n) ↦
        let done : (send c MessageType.chat_message (to_json m)).1 ≡ true =
          rw (e, n, send_to) at h in
        let (p, has, same, auth) = find_target-Has id cid s.peers e in
        rw (e, n, send_to)
          (
            cid,
            p,
            c,
            has,
            same,
            auth,
            n,
            lookup-insert_self cid _ s.connections ∙ ap some (send-done c _ _ done),
            λ k other. lookup-insert_ne cid k _ s.connections other,
          )
  ]
]
