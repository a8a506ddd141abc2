-- ===== src/Discovery/RoundTrip.antt =====
-- parseAnnouncePacket on what buildAnnouncePacket makes (src/discovery/lan_discovery.cpp).
use lantalk.Common.{
  ℕ, zero, suc, ◌+◌, ◌-◌, ◌/◌, ◌%◌, ◌^◌, from_be16, ◌≤◌, ◌<◌, ◌≡◌, refl, sym, ap, ◌∙◌, [], ◌∷◌,
  ◌++◌, some, arith, true, false, Bytes, codes, ◌==◌, ltb, leb, le→ltb, length, length-append,
  length-replicate, get_elem?, get_elem?_past, take, take_all, drop, drop_past, take_exact,
  replicate, All, append_assoc, lt→ltb,
}
use lantalk.Discovery.{
  DiscoveredPeer, Announced, resize, at_most, slice, read_platform, until_nul, short_text,
  parse_texts, parse_fields, build_announce_packet, parse_announce_packet,
}

le→leb : (a b : ℕ) → a ≤ b → leb a b ≡ true
le→leb a b h = ground arith

lt→leb : (a b : ℕ) → b < a → leb a b ≡ false
lt→leb a b h = ground arith

abbrev pub HasNoNul : Bytes → Type 0
HasNoNul = All (λ c. (c == 0) ≡ false)

until_nul-resize : (id : Bytes) (n : ℕ) → HasNoNul id → until_nul (id ++ replicate n 0) ≡ id
unfolding until_nul
until_nul-resize [] zero h = refl
until_nul-resize [] (suc n) h = refl
until_nul-resize (c ∷ id) n h = rw (h.0, until_nul-resize id n h.1) refl

resize_short : (n : ℕ) (s : Bytes) → length s ≤ n → resize n 0 s ≡ s ++ replicate (n - length s) 0
resize_short n s h = rw (take_all n s h) refl

get_elem?_start : (xs : Bytes) (ys : Bytes) → get_elem? (xs ++ ys) (length xs) ≡ get_elem? ys 0
get_elem?_start [] ys = refl
get_elem?_start (x ∷ xs) ys = get_elem?_start xs ys

pub length-resize : (n : ℕ) (s : Bytes) → length s ≤ n → length (resize n 0 s) ≡ n
length-resize n s h =
    rw
      (
        resize_short n s h,
        length-append s (replicate (n - length s) 0),
        length-replicate {A = ℕ} (n - length s) 0,
      )
      (omega arith)

slice_at :
    (d s post : Bytes) (i : ℕ)
    → drop i d ≡ s ++ post
    → i + length s ≤ length d
    → slice d i (length s) ≡ some s
slice_at d s post i e h = rw (le→leb _ _ h, e, take_exact (length s) s post refl) refl

-- The part of a packet behind its magic, version and port.
module _ (a b c d e f g : ℕ) (id name : Bytes) where
  abbrev tail : Bytes
  tail = name ++ short_text (codes "linux")

  abbrev body : Bytes
  body = id ++ (length name ∷ tail)

  abbrev packet : Bytes
  packet = a ∷ b ∷ c ∷ d ∷ e ∷ f ∷ g ∷ body

  module _ (h : length id ≡ 36) where
    length-packet : length packet ≡ 50 + length name
    length-packet =
        rw (length-append id (length name ∷ tail), length-append name (short_text (codes "linux")))
          (omega arith)

    front : Bytes
    front = a ∷ b ∷ c ∷ d ∷ e ∷ f ∷ g ∷ (id ++ (length name ∷ []))

    packet_split : packet ≡ front ++ tail
    unfolding front
    packet_split =
        ap (λ l. a ∷ b ∷ c ∷ d ∷ e ∷ f ∷ g ∷ l) (sym (append_assoc id (length name ∷ []) tail))

    length-front : length front ≡ 44
    unfolding front
    length-front = rw (length-append id (length name ∷ [])) (omega arith)

    length_at : get_elem? packet 43 ≡ some (length name)
    length_at = get_elem?_past 36 0 id (length name ∷ tail) h

    platform_length_at : get_elem? packet (44 + length name) ≡ some 5
    platform_length_at =
        ap (λ l. get_elem? l (44 + length name)) packet_split
        ∙ get_elem?_past 44 (length name) front tail length-front
        ∙ get_elem?_start name (short_text (codes "linux"))

    platform_at : drop (44 + length name + 1) packet ≡ codes "linux"
    platform_at =
        let i : 44 + length name + 1 ≡ 44 + (length name + 1) = omega arith in
        ap (drop (44 + length name + 1)) packet_split
        ∙ ap (λ k. drop k (front ++ tail)) i
        ∙ drop_past 44 (length name + 1) front tail length-front
        ∙ drop_past (length name) 1 name (short_text (codes "linux")) refl

    read_platform-packet : read_platform packet (44 + length name) ≡ some (codes "linux")
    unfolding read_platform
    read_platform-packet =
        let short : ltb (44 + length name) (length packet) ≡ true =
          lt→ltb _ _ (rw length-packet (omega arith)) in
        let fits : 44 + length name + 1 + 5 ≤ length packet = rw length-packet (omega arith) in
        rw (short, platform_length_at, le→leb _ _ fits) (ap (λ l. some (take 5 l)) platform_at)

    parse_texts-packet :
        (peer : Bytes → Bytes → DiscoveredPeer)
        → parse_texts packet peer (length name) ≡ some (some (peer name (codes "linux")))
    unfolding parse_texts
    parse_texts-packet peer =
        let fits : 44 + length name ≤ length packet = rw length-packet (omega arith) in
        rw
          (
            le→ltb (length packet) (44 + length name) fits,
            slice_at packet name (short_text (codes "linux")) 44
                (drop_past 36 1 id (length name ∷ tail) h) fits,
            read_platform-packet,
          )
          refl

parse_announce_packet-packet :
    (p q : ℕ) (id name ip : Bytes) (now : ℕ)
    → length id ≡ 36
    → parse_announce_packet (packet 76 84 76 68 1 p q id name) ip now
      ≡ some (
          some record {
            ip_address = ip;
            tcp_port = from_be16 p q;
            device_id = until_nul id;
            display_name = name;
            platform = codes "linux";
            protocol_version = 1;
            last_seen = now;
          })
unfolding parse_announce_packet parse_fields
parse_announce_packet-packet p q id name ip now h =
    let d : Bytes = packet 76 84 76 68 1 p q id name in
    let len : length d ≡ 50 + length name = length-packet 76 84 76 68 1 p q id name h in
    let own : slice d 7 36 ≡ some id =
      rw
        (
          le→leb (7 + 36) (length d) (rw len (omega arith)),
          take_exact 36 id (length name ∷ tail 76 84 76 68 1 p q id name) h,
        )
        refl in
    rw
      (
        le→ltb (length d) 44 (rw len (omega arith)),
        own,
        lt→leb (length d) 43 (rw len (omega arith)),
        length_at 76 84 76 68 1 p q id name h,
      )
      (parse_texts-packet 76 84 76 68 1 p q id name h _)

-- A device's announcement, read by another device, gives that device's id, name, port and platform
-- back, with the sender's address and the time of receipt: for an id of at most 36 bytes without a
-- zero byte, a name of at most 255 bytes and a 16-bit port.
pub parse-build :
    (g : Announced) (ip : Bytes) (now : ℕ)
    → g.listen_port < 65536
    → length g.device_id ≤ 36
    → HasNoNul g.device_id
    → length g.display_name ≤ 255
    → parse_announce_packet (build_announce_packet g) ip now
      ≡ some (
          some record {
            ip_address = ip;
            tcp_port = g.listen_port;
            device_id = g.device_id;
            display_name = g.display_name;
            platform = codes "linux";
            protocol_version = 1;
            last_seen = now;
          })
unfolding parse_announce_packet parse_fields build_announce_packet
parse-build g ip now port short nul named =
    let at : at_most 255 g.display_name ≡ g.display_name = rw (le→ltb 255 _ named) refl in
    let be : from_be16 (g.listen_port / 2 ^ 8 % 256) (g.listen_port % 256) ≡ g.listen_port =
      omega arith in
    let id : until_nul (resize 36 0 g.device_id) ≡ g.device_id =
      rw (resize_short 36 g.device_id short) (until_nul-resize g.device_id _ nul) in
    rw (at) (
      parse_announce_packet-packet (g.listen_port / 2 ^ 8 % 256) (g.listen_port % 256)
        (resize 36 0 g.device_id) g.display_name ip now (length-resize 36 g.device_id short)
      ∙ rw (be, id) refl)
