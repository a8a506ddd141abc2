-- ===== src/Discovery/Latest.antt =====
-- LanDiscovery::scan of src/discovery/lan_discovery.cpp as a table: the latest announcement of each
-- device.
use lantalk.Common.{
  ◌≡◌, refl, ap, ◌∙◌, List, [], ◌∷◌, ◌++◌, Option, none, some, false, true, Bytes, eq_bytes,
  eq_bytes_iff, if_cases, take, if◌then◌else◌, arith,
}
use lantalk.Discovery.{
  DiscoveredPeer, ◌>>=◌, replace_same, Scan, note_packet, Datagram, noting, scan, scan_port,
  parse_announce_packet,
}

-- The entry of a device in a list of results.
unfoldable pub find : Bytes → List DiscoveredPeer → Option DiscoveredPeer
find id [] = none
find id (p ∷ ps) = let rest = find id ps in if eq_bytes p.device_id id then some p else rest

-- What is known of a device after a datagram that parsed as `o`.
abbrev pub newer :
    Bytes → Option (Option DiscoveredPeer) → Option DiscoveredPeer → Option DiscoveredPeer
newer id (some (some q)) before = if eq_bytes q.device_id id then some q else before
newer id _ before = before

-- The latest announcement of a device among some datagrams, or what was known before.
unfoldable pub latest : Bytes → List Datagram → Option DiscoveredPeer → Option DiscoveredPeer
unfolding parse_announce_packet
latest id [] before = before
latest id (g ∷ gs) before =
    latest id gs (newer id (parse_announce_packet (take 1024 g.content) g.sender g.at) before)

-- The results after the peer `q`.
abbrev noted :
    DiscoveredPeer → List DiscoveredPeer → Option (List DiscoveredPeer) → List DiscoveredPeer
noted q ps none = ps ++ (q ∷ [])
noted q ps (some l) = l

noted-later :
    (q p : DiscoveredPeer) (ps : List DiscoveredPeer) (o : Option (List DiscoveredPeer))
    → noted q (p ∷ ps) (o >>= λ l. some (p ∷ l)) ≡ p ∷ noted q ps o
noted-later q p ps none = refl
noted-later q p ps (some l) = refl

find-here :
    (id : Bytes) (p q : DiscoveredPeer) (ps : List DiscoveredPeer)
    → eq_bytes p.device_id q.device_id ≡ true
    → find id (q ∷ ps) ≡ newer id (some (some q)) (find id (p ∷ ps))
unfolding find
find-here id p q ps e =
    let same = (eq_bytes_iff p.device_id q.device_id).0 e in rw same (ground arith)

find-there :
    (id : Bytes) (p q : DiscoveredPeer) (ps : List DiscoveredPeer) (l : List DiscoveredPeer)
    → eq_bytes p.device_id q.device_id ≡ false
    → find id l ≡ newer id (some (some q)) (find id ps)
    → find id (p ∷ l) ≡ newer id (some (some q)) (find id (p ∷ ps))
unfolding find
find-there id p q ps l e h = ground (
  arith,
  eq_bytes_iff p.device_id q.device_id,
  eq_bytes_iff p.device_id id,
  eq_bytes_iff q.device_id id,
)

find-noted :
    (id : Bytes) (q : DiscoveredPeer) (ps : List DiscoveredPeer)
    → find id (noted q ps (replace_same q ps)) ≡ newer id (some (some q)) (find id ps)
unfolding replace_same
find-noted id q [] = unfold find in refl
find-noted id q (p ∷ ps) =
    if_cases (λ o. find id (noted q (p ∷ ps) o) ≡ newer id (some (some q)) (find id (p ∷ ps)))
      (eq_bytes p.device_id q.device_id) (λ e. find-here id p q ps e)
      (λ e.
        rw (noted-later q p ps (replace_same q ps))
          (find-there id p q ps (noted q ps (replace_same q ps)) e (find-noted id q ps)))

noting-results :
    (q : DiscoveredPeer) (s : Scan) (o : Option (List DiscoveredPeer))
    → (noting q s o).results ≡ noted q s.results o
noting-results q s none = refl
noting-results q s (some l) = refl

module _ (own id : Bytes) (other : eq_bytes id own ≡ false) where
  newer-own :
      (q : DiscoveredPeer) (before : Option DiscoveredPeer)
      → eq_bytes q.device_id own ≡ true
      → before ≡ newer id (some (some q)) before
  newer-own q before e =
      ground (arith, eq_bytes_iff q.device_id own, eq_bytes_iff q.device_id id, other)

  find-note_packet :
      (o : Option (Option DiscoveredPeer)) (s : Scan)
      → find id (note_packet own o s).results ≡ newer id o (find id s.results)
  unfolding note_packet
  find-note_packet none s = refl
  find-note_packet (some none) s = refl
  find-note_packet (some (some q)) s =
      if_cases (λ (t : Scan). find id t.results ≡ newer id (some (some q)) (find id s.results))
        (eq_bytes q.device_id own) (λ e. newer-own q (find id s.results) e)
        (λ e. rw (noting-results q s (replace_same q s.results)) (find-noted id q s.results))

  find-scan :
      (gs : List Datagram) (s : Scan)
      → find id (scan own gs s).results ≡ latest id gs (find id s.results)
  unfolding scan latest
  find-scan [] s = refl
  find-scan (g ∷ gs) s =
      let o = parse_announce_packet (take 1024 g.content) g.sender g.at in
      find-scan gs (note_packet own o s) ∙ ap (latest id gs) (find-note_packet o s)

  -- What a scan lists for a device other than the own one is the latest of the datagrams that parse
  -- as an announcement of that device, and nothing if there is none, whatever else arrives and in
  -- whatever order.
  pub find-scan_port :
      (gs : List Datagram) → find id (scan_port own true true gs).results ≡ latest id gs none
  unfolding scan_port find
  find-scan_port gs = find-scan gs (record { results = []; calls = [] })
