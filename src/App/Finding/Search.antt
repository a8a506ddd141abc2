-- ===== src/App/Finding/Search.antt =====
-- The search by name of src/main.cpp in what LanDiscovery::scan of src/discovery/lan_discovery.cpp
-- collects.
use lantalk.Common.{
  ◌≡◌, refl, ◌∙◌, inl, inr, false, List, [], ◌∷◌, ◌++◌, Option, none, some, Bytes, eq_bytes,
  Bool-cases, take, All,
}
use lantalk.Discovery.{
  DiscoveredPeer, parse_announce_packet, Scan, Datagram, scan, note_packet, noting, replace_same,
}
use lantalk.App.Target.{find_peer}
use lantalk.App.Finding.Entries.{
  IsOther, IsFromOthers, Finds, find_peer-append, find_peer-append_found, replace_same-Finds,
  replace_same-keeps,
}

module _ (own host : Bytes) where
  noting-Finds :
      (q : DiscoveredPeer) (s : Scan) (o : Option (List DiscoveredPeer))
      → find_peer host s.results ≡ none
      → Finds host (find_peer host (q ∷ [])) o
      → find_peer host (noting q s o).results ≡ find_peer host (q ∷ [])
  noting-Finds q s none e f = find_peer-append host s.results (q ∷ []) e
  noting-Finds q s (some l) e f = f

  noting-keeps :
      (q r : DiscoveredPeer) (s : Scan) (o : Option (List DiscoveredPeer))
      → find_peer host s.results ≡ some r
      → Finds host (some r) o
      → find_peer host (noting q s o).results ≡ some r
  noting-keeps q r s none e f = find_peer-append_found host r s.results (q ∷ []) e
  noting-keeps q r s (some l) e f = f

  note_packet-hit :
      (q : DiscoveredPeer) (s : Scan)
      → eq_bytes q.device_id own ≡ false
      → find_peer host s.results ≡ none
      → find_peer host (note_packet own (some (some q)) s).results ≡ find_peer host (q ∷ [])
  unfolding note_packet
  note_packet-hit q s d e =
      rw d (noting-Finds q s (replace_same q s.results) e (replace_same-Finds host q s.results e))

  -- A datagram that others sent, before the device is found and after.
  note_packet-before :
      (id : Bytes) (o : Option (Option DiscoveredPeer)) (s : Scan)
      → ((q : DiscoveredPeer) → o ≡ some (some q) → IsOther host id q)
      → find_peer host s.results ≡ none
      → find_peer host (note_packet own o s).results ≡ none
  unfolding note_packet find_peer
  note_packet-before id none s others e = e
  note_packet-before id (some none) s others e = e
  note_packet-before id (some (some q)) s others e = elim (Bool-cases (eq_bytes q.device_id own)) [
    | inl d ↦ rw d e
    | inr d ↦ note_packet-hit q s d e ∙ rw ((others q refl).0)
  ]

  note_packet-after :
      (r : DiscoveredPeer) (o : Option (Option DiscoveredPeer)) (s : Scan)
      → ((q : DiscoveredPeer) → o ≡ some (some q) → IsOther host r.device_id q)
      → find_peer host s.results ≡ some r
      → find_peer host (note_packet own o s).results ≡ some r
  unfolding note_packet
  note_packet-after r none s others e = e
  note_packet-after r (some none) s others e = e
  note_packet-after r (some (some q)) s others e = elim (Bool-cases (eq_bytes q.device_id own)) [
    | inl d ↦ rw d e
    | inr d ↦ rw d (
        noting-keeps q r s (replace_same q s.results) e
          (replace_same-keeps host q r s.results (others q refl) e))
  ]

  scan-after :
      (r : DiscoveredPeer) (gs : List Datagram) (s : Scan)
      → All (IsFromOthers host r.device_id) gs
      → find_peer host s.results ≡ some r
      → find_peer host (scan own gs s).results ≡ some r
  unfolding scan
  scan-after r [] s os e = e
  scan-after r (g ∷ gs) s (o, os) e =
      scan-after r gs
        (note_packet own (parse_announce_packet (take 1024 g.content) g.sender g.at) s) os
        (note_packet-after r _ s o e)

  pub scan-finds :
      (r : DiscoveredPeer) (before after : List Datagram) (g : Datagram) (s : Scan)
      → All (IsFromOthers host r.device_id) before
      → All (IsFromOthers host r.device_id) after
      → parse_announce_packet (take 1024 g.content) g.sender g.at ≡ some (some r)
      → eq_bytes r.device_id own ≡ false
      → find_peer host (r ∷ []) ≡ some r
      → find_peer host s.results ≡ none
      → find_peer host (scan own (before ++ g ∷ after) s).results ≡ some r
  unfolding scan
  scan-finds r [] after g s bs cs p d f e =
      scan-after r after
        (note_packet own (parse_announce_packet (take 1024 g.content) g.sender g.at) s) cs
        (rw p (note_packet-hit r s d e ∙ f))
  scan-finds r (b ∷ before) after g s (o, bs) cs p d f e =
      scan-finds r before after g
        (note_packet own (parse_announce_packet (take 1024 b.content) b.sender b.at) s) bs cs p d f
        (note_packet-before r.device_id _ s o e)
