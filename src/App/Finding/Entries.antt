-- ===== src/App/Finding/Entries.antt =====
-- One datagram of LanDiscovery::scan, and the loop of runConnect that looks for a device in its results.
use lantalk.Common.{
  ◌≡◌, refl, inl, inr, Bool, true, false, ◌||◌, List, [], ◌∷◌, ◌++◌, Option, none, some, Bytes,
  eq_bytes, if_cases, Bool-cases, take,
}
use lantalk.Discovery.{DiscoveredPeer, parse_announce_packet, Datagram, replace_same, ◌>>=◌}
use lantalk.App.Target.{find_peer}

-- The test of runConnect's loop.
abbrev matches : Bytes → DiscoveredPeer → Bool
matches host p = eq_bytes p.display_name host || eq_bytes p.device_id host

-- A peer with this id is of no interest to a search for `host`, and is not the device `id`.
abbrev pub IsOther : Bytes → Bytes → DiscoveredPeer → Type 0
IsOther host id q =
    (eq_bytes q.display_name host || eq_bytes q.device_id host ≡ false)
    × (eq_bytes q.device_id id ≡ false)
    × (eq_bytes id q.device_id ≡ false)

abbrev pub IsFromOthers : Bytes → Bytes → Datagram → Type 0
IsFromOthers host id g =
    (q : DiscoveredPeer)
    → parse_announce_packet (take 1024 g.content) g.sender g.at ≡ some (some q)
    → IsOther host id q

-- Nothing is replaced, or the result of replacing.
abbrev replaced_or_added : DiscoveredPeer → List DiscoveredPeer → List DiscoveredPeer
replaced_or_added q ps = elim (replace_same q ps) [ none ↦ ps ++ q ∷ [] | some l ↦ l ]

-- What a search finds after replacing, where it found nothing before.
abbrev pub Finds : Bytes → Option DiscoveredPeer → Option (List DiscoveredPeer) → Type 0
Finds host r none = Unit {0}
Finds host r (some l) = find_peer host l ≡ r

Finds-later :
    (host : Bytes) (p : DiscoveredPeer) (r : Option DiscoveredPeer)
    (o : Option (List DiscoveredPeer))
    → matches host p ≡ false
    → Finds host r o
    → Finds host r (o >>= λ l. some (p ∷ l))
unfolding find_peer
Finds-later host p r none m h = tt
Finds-later host p r (some l) m h = rw m h

Finds-here :
    (host : Bytes) (p : DiscoveredPeer) (o : Option (List DiscoveredPeer))
    → matches host p ≡ true
    → Finds host (some p) (o >>= λ l. some (p ∷ l))
unfolding find_peer
Finds-here host p none m = tt
Finds-here host p (some l) m = rw m

find_peer-head :
    (host : Bytes) (q : DiscoveredPeer) (ps : List DiscoveredPeer)
    → find_peer host ps ≡ none
    → find_peer host (q ∷ ps) ≡ find_peer host (q ∷ [])
unfolding find_peer
find_peer-head host q ps e = rw e

find_peer-miss :
    (host : Bytes) (p : DiscoveredPeer) (ps : List DiscoveredPeer)
    → find_peer host (p ∷ ps) ≡ none
    → (matches host p ≡ false) × (find_peer host ps ≡ none)
unfolding find_peer
find_peer-miss host p ps e = elim (Bool-cases (matches host p)) [
  | inl m ↦ let bad : some p ≡ none = rw (m, find_peer) at e in cc
  | inr m ↦ (m, rw (m, find_peer) at e)
]

pub find_peer-append :
    (host : Bytes) (ps qs : List DiscoveredPeer)
    → find_peer host ps ≡ none
    → find_peer host (ps ++ qs) ≡ find_peer host qs
unfolding find_peer
find_peer-append host [] qs e = refl
find_peer-append host (p ∷ ps) qs e =
    let (m, rest) = find_peer-miss host p ps e in rw m (find_peer-append host ps qs rest)

pub find_peer-append_found :
    (host : Bytes) (r : DiscoveredPeer) (ps qs : List DiscoveredPeer)
    → find_peer host ps ≡ some r
    → find_peer host (ps ++ qs) ≡ some r
unfolding find_peer
find_peer-append_found host r [] qs e = cc
find_peer-append_found host r (p ∷ ps) qs e = elim (Bool-cases (matches host p)) [
  | inl m ↦ rw m (rw (m, find_peer) at e)
  | inr m ↦ rw m (find_peer-append_found host r ps qs (rw (m, find_peer) at e))
]

pub replace_same-Finds :
    (host : Bytes) (q : DiscoveredPeer) (ps : List DiscoveredPeer)
    → find_peer host ps ≡ none
    → Finds host (find_peer host (q ∷ [])) (replace_same q ps)
unfolding replace_same
replace_same-Finds host q [] e = tt
replace_same-Finds host q (p ∷ ps) e =
    let (m, rest) = find_peer-miss host p ps e in
    if_cases (Finds host (find_peer host (q ∷ []))) (eq_bytes p.device_id q.device_id)
      (λ _. find_peer-head host q ps rest)
      (λ _. Finds-later host p _ (replace_same q ps) m (replace_same-Finds host q ps rest))

some_injective : {p r : DiscoveredPeer} → some p ≡ some r → p ≡ r
some_injective e = cc

pub replace_same-keeps :
    (host : Bytes) (q r : DiscoveredPeer) (ps : List DiscoveredPeer)
    → IsOther host r.device_id q
    → find_peer host ps ≡ some r
    → Finds host (some r) (replace_same q ps)
unfolding replace_same find_peer
replace_same-keeps host q r [] o e = tt
replace_same-keeps host q r (p ∷ ps) o e = elim (Bool-cases (matches host p)) [
  | inl m ↦
      let same : p ≡ r = some_injective (rw (m, find_peer) at e) in
      let ids : eq_bytes p.device_id q.device_id ≡ false = rw same o.2 in
      rw (ids, ← same) (Finds-here host p (replace_same q ps) m)
  | inr m ↦
      let rest : find_peer host ps ≡ some r = rw (m, find_peer) at e in
      if_cases (Finds host (some r)) (eq_bytes p.device_id q.device_id) (λ _. rw (o.0) rest)
        (λ _.
          Finds-later host p (some r) (replace_same q ps) m (replace_same-keeps host q r ps o rest))
]
