-- ===== src/Discovery/Safety.antt =====
-- parseAnnouncePacket of src/discovery/lan_discovery.cpp: the reads from the datagram.
use lantalk.Common.{
  ℕ, zero, suc, ◌+◌, ◌≤◌, ◌<◌, ◌≡◌, refl, ◌≢◌, [], ◌∷◌, Option, none, some, arith, true, false,
  Bytes, ltb, leb, ◌==◌, ltb→lt, if_cases, length, get_elem?,
}
use lantalk.Discovery.{
  discovery_magic, DiscoveredPeer, ◌>>=◌, slice, read32, read16, read_platform, parse_texts,
  parse_fields, parse_announce_packet,
}

leb→le : (a b : ℕ) → leb a b ≡ true → a ≤ b
leb→le a b h = ground arith

leb→lt : (a b : ℕ) → leb a b ≡ false → b < a
leb→lt a b h = ground arith

ltb→le : (a b : ℕ) → ltb a b ≡ false → b ≤ a
ltb→le a b h = ground arith

some≢none {ℓ} : {A : Type ℓ} (a : A) → some a ≢ none
some≢none a h = cc

bind-safe {ℓ κ} :
    {A : Type ℓ} {B : Type κ} (o : Option A) {f : A → Option B}
    → o ≢ none
    → ((a : A) → f a ≢ none)
    → (o >>= f) ≢ none
bind-safe none h k = absurd (h refl)
bind-safe (some a) h k = k a

get_elem?-safe : (d : Bytes) (i : ℕ) → i < length d → get_elem? d i ≢ none
get_elem?-safe [] i h = absurd (omega arith)
get_elem?-safe (x ∷ d) zero h = some≢none x
get_elem?-safe (x ∷ d) (suc i) h = get_elem?-safe d i (omega arith)

slice-safe : (d : Bytes) (i n : ℕ) → i + n ≤ length d → slice d i n ≢ none
slice-safe d i n h =
    if_cases (λ o. o ≢ none) (leb (i + n) (length d)) (λ _. some≢none _)
      λ e. let k : length d < i + n = leb→lt _ _ e in absurd (omega arith)

read_platform-safe : (d : Bytes) (i : ℕ) → read_platform d i ≢ none
unfolding read_platform
read_platform-safe d i =
    if_cases (λ o. o ≢ none) (ltb i (length d))
      (λ h. bind-safe (get_elem? d i) (get_elem?-safe d i (ltb→lt _ _ h)) λ n.
        if_cases (λ o. o ≢ none) (leb (i + 1 + n) (length d))
          (λ k. slice-safe d (i + 1) n (leb→le _ _ k)) λ _. some≢none _)
      λ _. some≢none _

parse_texts-safe :
    (d : Bytes) (peer : Bytes → Bytes → DiscoveredPeer) (n : ℕ) → parse_texts d peer n ≢ none
unfolding parse_texts
parse_texts-safe d peer n =
    if_cases (λ o. o ≢ none) (ltb (length d) (44 + n)) (λ _. some≢none _)
      λ h. bind-safe (slice d 44 n) (slice-safe d 44 n (ltb→le _ _ h)) λ name.
        bind-safe (read_platform d (44 + n)) (read_platform-safe d (44 + n)) λ p. some≢none _

parse_fields-safe : (d ip : Bytes) (now : ℕ) → 44 ≤ length d → parse_fields d ip now ≢ none
unfolding parse_fields
parse_fields-safe d ip now h = bind-safe (get_elem? d 4) (get_elem?-safe d 4 (omega arith)) λ v.
    bind-safe (read16 d 5)
      (bind-safe (get_elem? d 5) (get_elem?-safe d 5 (omega arith))
        λ a. bind-safe (get_elem? d 6) (get_elem?-safe d 6 (omega arith)) λ b. some≢none _)
      λ p. bind-safe (slice d 7 36) (slice-safe d 7 36 (omega arith)) λ i.
        if_cases (λ o. o ≢ none) (leb (length d) 43) (λ _. some≢none _)
          λ _.
            bind-safe (get_elem? d 43) (get_elem?-safe d 43 (omega arith))
              λ n. parse_texts-safe d _ n

-- No datagram, of any length and content, makes the parser read outside of it.
pub parse_announce_packet-safe : (d ip : Bytes) (now : ℕ) → parse_announce_packet d ip now ≢ none
unfolding parse_announce_packet
parse_announce_packet-safe d ip now =
    if_cases (λ o. o ≢ none) (ltb (length d) 44) (λ _. some≢none _)
      λ h.
        let e : 44 ≤ length d = ltb→le _ _ h in
        bind-safe (read32 d 0)
          (bind-safe (get_elem? d 0) (get_elem?-safe d 0 (omega arith)) λ a.
            bind-safe (get_elem? d 1) (get_elem?-safe d 1 (omega arith)) λ b.
              bind-safe (get_elem? d 2) (get_elem?-safe d 2 (omega arith))
                λ c. bind-safe (get_elem? d 3) (get_elem?-safe d 3 (omega arith)) λ f. some≢none _)
          λ m.
            if_cases (λ o. o ≢ none) (m == discovery_magic) (λ _. parse_fields-safe d ip now e)
              λ _. some≢none _
