-- ===== src/Chat/Session/Keepalive.antt =====
-- pingLoop of src/chat/chat_session.cpp: what a turn of it keeps and drops.
use lantalk.Common.{
  ◌≡◌, refl, ap, ◌∙◌, inl, inr, Bool, true, false, not, ◌||◌, List, [], ◌∷◌, Option, none, some,
  Bytes, codes, eq_bytes, eq_bytes_iff, if_cases, Bool-cases,
}
use lantalk.Common.Dict.{Dict, lookup}
use lantalk.Network.Protocol.Types.{MessageType}
use lantalk.Network.Connection.{Connection, send}
use lantalk.Chat.Session.{ChatSession}
use lantalk.Chat.Session.Handlers.{on_disconnect}
use lantalk.Chat.Session.Commands.{ping_over, drop_all, ping_round}
use lantalk.Chat.Session.Isolation.{Keeps, on_disconnect-Keeps}
use lantalk.Chat.Session.Isolation.Same.{IsGone, on_disconnect-IsGone}

-- No key twice, as in a std::map.
abbrev pub HasKeysOnce : Dict Connection → Type 0
HasKeysOnce [] = Unit
HasKeysOnce ((cid, c) ∷ m) = (lookup cid m ≡ none) × HasKeysOnce m

abbrev pub is_in : Bytes → List Bytes → Bool
is_in j [] = false
is_in j (k ∷ ks) = eq_bytes k j || is_in j ks

abbrev pub pinged : Connection → Connection × Bool
pinged c = send c MessageType.ping (codes "{}")

-- The ping to a connection that is there fails.
abbrev pub is_dead : Option Connection → Bool
is_dead none = false
is_dead (some c) = not (pinged c).1

abbrev pub after_ping : Option Connection → Option Connection
after_ping none = none
after_ping (some c) = some (pinged c).0

ping_over-lookup :
    (j : Bytes) (m : Dict Connection) → lookup j (ping_over m).0 ≡ after_ping (lookup j m)
unfolding ping_over lookup
ping_over-lookup j [] = refl
ping_over-lookup j ((k, c) ∷ m) = elim (Bool-cases (eq_bytes k j)) [
  | inl e ↦ rw e refl
  | inr e ↦ rw e (ping_over-lookup j m)
]

is_in-ping_over :
    (j : Bytes) (m : Dict Connection)
    → HasKeysOnce m
    → is_in j (ping_over m).1 ≡ is_dead (lookup j m)
unfolding ping_over lookup
is_in-ping_over j [] h = refl
is_in-ping_over j ((k, c) ∷ m) (once, h) =
    let ih = is_in-ping_over j m h in
    elim (Bool-cases (eq_bytes k j)) [
      | inl e ↦
          let same : k ≡ j = (eq_bytes_iff k j).0 e in
          let gone : is_in j (ping_over m).1 ≡ false = ih ∙ ap is_dead (rw same at once) in
          elim (Bool-cases (pinged c).1) [ inl d ↦ rw (e, d) gone | inr d ↦ rw (e, d) (rw e refl) ]
      | inr e ↦ elim (Bool-cases (pinged c).1) [
        | inl d ↦ rw (e, d) ih
        | inr d ↦ rw (e, d) (rw e ih)
      ]
    ]

-- A connection that is dropped, and one that is not.
abbrev pub Dropped : Bytes → ChatSession → ChatSession → Bool → Type 0
Dropped j s t true = (lookup j t.connections ≡ none) × (lookup j t.peers ≡ none)
Dropped j s t false =
    (lookup j t.connections ≡ lookup j s.connections) × (lookup j t.peers ≡ lookup j s.peers)

Dropped-gone :
    (j : Bytes) (s t : ChatSession) (b : Bool)
    → lookup j s.connections ≡ none
    → lookup j s.peers ≡ none
    → Dropped j s t b
    → Dropped j s t true
Dropped-gone j s t true e f d = d
Dropped-gone j s t false e f d = (d.0 ∙ e, d.1 ∙ f)

Dropped-Keeps :
    (j : Bytes) (r s t : ChatSession) (b : Bool) → Keeps j r s → Dropped j s t b → Dropped j r t b
Dropped-Keeps j r s t true k d = d
Dropped-Keeps j r s t false k d = (d.0 ∙ k.connection, d.1 ∙ k.peer)

drop_all-Dropped :
    (j : Bytes) (dead : List Bytes) (s : ChatSession) → Dropped j s (drop_all s dead) (is_in j dead)
unfolding drop_all
drop_all-Dropped j [] s = (refl, refl)
drop_all-Dropped j (k ∷ ks) s =
    let t = on_disconnect s k in
    let ih = drop_all-Dropped j ks t in
    elim (Bool-cases (eq_bytes k j)) [
      | inl e ↦
          let same : k ≡ j = (eq_bytes_iff k j).0 e in
          let gone : IsGone j s t = rw (← same) (on_disconnect-IsGone k s) in
          rw e (Dropped-gone j t (drop_all t ks) (is_in j ks) gone.connection gone.peer ih)
      | inr e ↦
          rw e (Dropped-Keeps j s t (drop_all t ks) (is_in j ks) (on_disconnect-Keeps k j e s) ih)
    ]

-- What a turn leaves of a connection and its peer: nothing of one whose ping fails, and otherwise
-- the connection with the ping sent, and the peer as it was.
abbrev pub AfterTurn : Bytes → ChatSession → ChatSession → Bool → Type 0
AfterTurn j s t true = (lookup j t.connections ≡ none) × (lookup j t.peers ≡ none)
AfterTurn j s t false =
    (lookup j t.connections ≡ after_ping (lookup j s.connections))
    × (lookup j t.peers ≡ lookup j s.peers)

turn :
    (j : Bytes) (s r t : ChatSession) (b : Bool)
    → lookup j r.connections ≡ after_ping (lookup j s.connections)
    → lookup j r.peers ≡ lookup j s.peers
    → Dropped j r t b
    → AfterTurn j s t b
turn j s r t true e f d = d
turn j s r t false e f d = (d.0 ∙ e, d.1 ∙ f)

-- A turn of the keepalive of a running session: a connection is dropped, with its peer, exactly if
-- the ping to it fails; to every other one the ping is sent, and its peer is kept.
pub ping_round-AfterTurn :
    (s : ChatSession) (j : Bytes)
    → s.running ≡ true
    → HasKeysOnce s.connections
    → AfterTurn j s (ping_round s) (is_dead (lookup j s.connections))
unfolding ping_round
ping_round-AfterTurn s j running once =
    let r = record s { connections = (ping_over s.connections).0 } in
    let dead = (ping_over s.connections).1 in
    rw (← is_in-ping_over j s.connections once) (
      if_cases (λ (t : ChatSession). AfterTurn j s t (is_in j dead)) (not s.running)
        (λ e. let bad : not true ≡ true = rw running at e in cc)
        (λ _.
          turn j s r (drop_all r dead) (is_in j dead) (ping_over-lookup j s.connections) refl
            (drop_all-Dropped j dead r)))
