-- ===== src/Discovery/Peers.antt =====
-- The results of LanDiscovery::scan, src/discovery/lan_discovery.cpp.
use lantalk.Common.{
  ◌≡◌, refl, sym, ap, ◌∙◌, List, [], ◌∷◌, ◌++◌, Option, none, some, false, Bytes, eq_bytes,
  eq_bytes_iff, if_cases, take, All, All-append,
}
use lantalk.Discovery.{
  DiscoveredPeer, ◌>>=◌, replace_same, Scan, note_packet, Datagram, noting, scan,
  parse_announce_packet,
}

abbrev ids : List DiscoveredPeer → List Bytes
ids [] = []
ids (p ∷ ps) = p.device_id ∷ ids ps

abbrev Distinct : List Bytes → Type 0
Distinct [] = Unit
Distinct (i ∷ is) = All (λ k. eq_bytes i k ≡ false) is × Distinct is

ids-append : (ps qs : List DiscoveredPeer) → ids (ps ++ qs) ≡ ids ps ++ ids qs
ids-append [] qs = refl
ids-append (p ∷ ps) qs = ap (λ l. p.device_id ∷ l) (ids-append ps qs)

Distinct-append :
    (is : List Bytes) (k : Bytes)
    → Distinct is
    → All (λ i. eq_bytes i k ≡ false) is
    → Distinct (is ++ (k ∷ []))
Distinct-append [] k d a = (tt, tt)
Distinct-append (i ∷ is) k d a =
    (All-append (λ m. eq_bytes i m ≡ false) is (k ∷ []) d.0 (a.0, tt), Distinct-append is k d.1 a.1)

-- No two peers with one id, none with the own id, and one call of onFound for each.
pub record IsScan (own : Bytes) (s : Scan) : Type 0 where
  pub distinct : Distinct (ids s.results)
  pub foreign : All (λ i. eq_bytes i own ≡ false) (ids s.results)
  pub called : ids s.calls ≡ ids s.results

-- What replacing leaves of the ids, and when it finds nothing.
abbrev Replaced : DiscoveredPeer → List DiscoveredPeer → Option (List DiscoveredPeer) → Type 0
Replaced q ps none = All (λ i. eq_bytes i q.device_id ≡ false) (ids ps)
Replaced q ps (some l) = ids l ≡ ids ps

Replaced-later :
    (q p : DiscoveredPeer) (ps : List DiscoveredPeer) (o : Option (List DiscoveredPeer))
    → eq_bytes p.device_id q.device_id ≡ false
    → Replaced q ps o
    → Replaced q (p ∷ ps) (o >>= λ l. some (p ∷ l))
Replaced-later q p ps none e h = (e, h)
Replaced-later q p ps (some l) e h = ap (λ is. p.device_id ∷ is) h

replace_same-Replaced :
    (q : DiscoveredPeer) (ps : List DiscoveredPeer) → Replaced q ps (replace_same q ps)
unfolding replace_same
replace_same-Replaced q [] = tt
replace_same-Replaced q (p ∷ ps) =
    if_cases (Replaced q (p ∷ ps)) (eq_bytes p.device_id q.device_id)
      (λ e. ap (λ i. i ∷ ids ps) (sym ((eq_bytes_iff p.device_id q.device_id).0 e)))
      λ e. Replaced-later q p ps (replace_same q ps) e (replace_same-Replaced q ps)

module _ (own : Bytes) where
  noted :
      (q : DiscoveredPeer) (s : Scan) (o : Option (List DiscoveredPeer))
      → eq_bytes q.device_id own ≡ false
      → Replaced q s.results o
      → IsScan own s
      → IsScan own (noting q s o)
  noted q s none e r h =
      let fresh : ids (s.results ++ (q ∷ [])) ≡ ids s.results ++ (q.device_id ∷ []) =
        ids-append s.results (q ∷ []) in
      record {
        distinct = rw fresh (Distinct-append (ids s.results) q.device_id h.distinct r);
        foreign = rw fresh (All-append (λ i. eq_bytes i own ≡ false) _ _ h.foreign (e, tt));
        called =
            ids-append s.calls (q ∷ []) ∙ ap (λ is. is ++ (q.device_id ∷ [])) h.called ∙ sym fresh;
      }
  noted q s (some l) e r h = record {
    distinct = rw r h.distinct;
    foreign = rw r h.foreign;
    called = h.called ∙ sym r;
  }

  note_packet-IsScan :
      (o : Option (Option DiscoveredPeer)) (s : Scan)
      → IsScan own s
      → IsScan own (note_packet own o s)
  unfolding note_packet
  note_packet-IsScan none s h = h
  note_packet-IsScan (some none) s h = h
  note_packet-IsScan (some (some q)) s h =
      if_cases (IsScan own) (eq_bytes q.device_id own) (λ _. h)
        λ e. noted q s (replace_same q s.results) e (replace_same-Replaced q s.results) h

  -- Whatever datagrams arrive, a scan that starts with no results lists no device id twice and
  -- never the own one, and onFound is called for exactly the ids listed, once each and in order.
  pub scan-IsScan : (gs : List Datagram) (s : Scan) → IsScan own s → IsScan own (scan own gs s)
  unfolding scan
  scan-IsScan [] s h = h
  scan-IsScan (g ∷ gs) s h =
      scan-IsScan gs _
        (note_packet-IsScan (parse_announce_packet (take 1024 g.content) g.sender g.at) s h)
