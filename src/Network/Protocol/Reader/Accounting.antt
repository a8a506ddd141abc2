-- ===== src/Network/Protocol/Reader/Accounting.antt =====
-- FrameReader::feed of src/network/protocol.cpp: where the bytes go.
use lantalk.Common.{
  ℕ, zero, suc, ◌+◌, ◌≡◌, refl, inl, inr, List, [], ◌∷◌, ◌++◌, arith, Bytes, length, length-append,
  length-take, length-drop,
}
use lantalk.Network.Protocol.Types.{frame_header_size}
use lantalk.Network.Protocol.Header.{Frame}
use lantalk.Network.Protocol.Reader.{
  ReadState, reading_header, reading_payload, FrameReader, Round, moves, round_in, round, fed,
  thrown, feed_loop, fuel_for, feed, append_bytes,
}
use lantalk.Network.Protocol.Reader.Fuel.{Round-cases}

-- The bytes of frames on the wire.
abbrev pub frame_bytes : List Frame → ℕ
frame_bytes [] = 0
frame_bytes (f ∷ fs) = frame_header_size + length f.payload + frame_bytes fs

frame_bytes-append : (fs gs : List Frame) → frame_bytes (fs ++ gs) ≡ frame_bytes fs + frame_bytes gs
frame_bytes-append [] gs = omega arith
frame_bytes-append (f ∷ fs) gs = omega (arith, frame_bytes-append fs gs)

-- The header that a reader has taken from the buffer and not yet returned.
abbrev header_held : ReadState → ℕ
header_held reading_header = 0
header_held reading_payload = frame_header_size

-- The bytes that a reader has been fed and are in no frame yet.
abbrev pub held : FrameReader → ℕ
held r = header_held r.state + length r.buffer

abbrev Keeps : ℕ → Round → Type 0
Keeps n (moves r fs) = held r + frame_bytes fs ≡ n
Keeps n _ = Unit {0}

round_in-Keeps :
    (s : ReadState) (r : FrameReader) → Keeps (header_held s + length r.buffer) (round_in s r)
unfolding round_in
round_in-Keeps reading_header r = ground (arith, length-drop frame_header_size r.buffer)
round_in-Keeps reading_payload r =
    let n = r.pending_header.payload_length in
    ground (arith, length-drop n r.buffer, length-take n r.buffer)

feed_loop-held :
    (n : ℕ) (r : FrameReader) (out : List Frame) {r' : FrameReader} {fs : List Frame}
    → feed_loop n r out ≡ fed r' fs
    → held r' + frame_bytes fs ≡ held r + frame_bytes out
unfolding feed_loop
feed_loop-held zero r out h = cc
feed_loop-held (suc n) r out {r'} {fs} h = elim (Round-cases (round r)) [
  | inl e ↦
      let same : fed r out ≡ fed r' fs = rw (e, feed_loop) at h in
      let readers : r ≡ r' = cc in let frames : out ≡ fs = cc in rw (← readers, ← frames) refl
  | inr (inl (v, r1, e)) ↦ let bad : thrown v r1 ≡ fed r' fs = rw (e, feed_loop) at h in cc
  | inr (inr (r1, gs, e)) ↦
      let kept : held r1 + frame_bytes gs ≡ held r = rw e at (round_in-Keeps r.state r) in
      let rest = feed_loop-held n r1 (out ++ gs) (rw (e, feed_loop) at h) in
      omega (arith, kept, rest, frame_bytes-append out gs)
]

-- No byte is lost or counted twice: those of the frames that `feed` returns, with those that the
-- reader holds afterwards, are those that it held and those that it was fed.
pub feed-held :
    (r : FrameReader) (d : Bytes) {r' : FrameReader} {fs : List Frame}
    → feed r d ≡ fed r' fs
    → held r' + frame_bytes fs ≡ held r + length d
unfolding feed
feed-held r d e =
    let kept = feed_loop-held (fuel_for (append_bytes r d)) (append_bytes r d) [] e in
    omega (arith, kept, length-append r.buffer d)
