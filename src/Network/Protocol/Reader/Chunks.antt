-- ===== src/Network/Protocol/Reader/Chunks.antt =====
-- FrameReader::feed of src/network/protocol.cpp: the joined bytes against their parts.
use lantalk.Common.{
  ℕ, zero, suc, ◌<◌, ◌≡◌, refl, ap, ◌∙◌, ◌⊎◌, inl, inr, List, [], ◌∷◌, ◌++◌, arith, Bytes,
  append_assoc, append-nil, flatten, length-append, take-append, drop-append,
}
use lantalk.Network.Protocol.Types.{frame_header_size}
use lantalk.Network.Protocol.Header.{Frame}
use lantalk.Network.Protocol.Reader.{
  Violation, ReadState, reading_header, reading_payload, FrameReader, Round, waits, throws, moves,
  round_in, round, Fed, fed, thrown, out_of_fuel, feed_loop, append_bytes, fuel_for, feed, prepend,
  Heard, heard, cut_off, behind, feed_all,
}
use lantalk.Network.Protocol.Reader.Fuel.{
  measure, Round-cases, round_in-Falls, feed-total, feed_loop-fuel,
}

-- A round that did not wait is the same round with more bytes behind the buffer.
abbrev Extends : Bytes → Round → Round → Type 0
Extends d waits o = Unit {0}
Extends d (throws v r) o = o ≡ throws v (append_bytes r d)
Extends d (moves r fs) o = o ≡ moves (append_bytes r d) fs

round_in-append :
    (s : ReadState) (r : FrameReader) (d : Bytes)
    → Extends d (round_in s r) (round_in s (append_bytes r d))
unfolding round_in
round_in-append reading_header r d = ground (
  arith,
  length-append r.buffer d,
  take-append frame_header_size r.buffer d,
  drop-append frame_header_size r.buffer d,
)
round_in-append reading_payload r d =
    let n = r.pending_header.payload_length in
    ground (arith, length-append r.buffer d, take-append n r.buffer d, drop-append n r.buffer d)

-- What is left to do with the bytes behind a first part.
abbrev resume : Bytes → Fed → Fed
resume d (fed r fs) = feed_loop (fuel_for (append_bytes r d)) (append_bytes r d) fs
resume d (thrown v r) = thrown v (append_bytes r d)
resume d out_of_fuel = out_of_fuel

feed_loop-append :
    (f : ℕ) (r : FrameReader) (out : List Frame) (d : Bytes) (g : ℕ)
    → measure r < f
    → measure (append_bytes r d) < g
    → feed_loop g (append_bytes r d) out ≡ resume d (feed_loop f r out)
unfolding feed_loop
feed_loop-append zero r out d g hf hg = absurd (omega arith)
feed_loop-append (suc f) r out d zero hf hg = absurd (omega arith)
feed_loop-append (suc f) r out d (suc g) hf hg = elim (Round-cases (round r)) [
  | inl e ↦
      rw (e, feed_loop)
        (feed_loop-fuel (suc g) (fuel_for (append_bytes r d)) _ out hg (ground arith)).0
  | inr (inl (v, r', e)) ↦
      let more : round (append_bytes r d) ≡ throws v (append_bytes r' d) =
        rw e at (round_in-append r.state r d) in
      rw (e, more, feed_loop)
  | inr (inr (r', fs, e)) ↦
      let more : round (append_bytes r d) ≡ moves (append_bytes r' d) fs =
        rw e at (round_in-append r.state r d) in
      let fall : measure r' < measure r = rw e at (round_in-Falls r.state r refl) in
      let fall_more : measure (append_bytes r' d) < measure (append_bytes r d) =
        rw more at (round_in-Falls r.state (append_bytes r d) refl) in
      rw (e, more, feed_loop) (feed_loop-append f r' (out ++ fs) d g (omega arith) (omega arith))
]

feed_loop-prepend :
    (f : ℕ) (r : FrameReader) (out fs : List Frame)
    → feed_loop f r (out ++ fs) ≡ prepend out (feed_loop f r fs)
unfolding feed_loop
feed_loop-prepend zero r out fs = refl
feed_loop-prepend (suc f) r out fs = elim (Round-cases (round r)) [
  | inl e ↦ rw (e, feed_loop)
  | inr (inl (v, r', e)) ↦ rw (e, feed_loop)
  | inr (inr (r', gs, e)) ↦
      rw (e, feed_loop) (rw (append_assoc out fs gs) (feed_loop-prepend f r' out (fs ++ gs)))
]

-- Feeding again after a first call: its frames come first, and an exception keeps the later bytes
-- in the buffer only.
abbrev pub feed_then : Fed → Bytes → Fed
feed_then (fed r fs) d = prepend fs (feed r d)
feed_then (thrown v r) d = thrown v (append_bytes r d)
feed_then out_of_fuel d = out_of_fuel

resume-feed_then : (o : Fed) (d : Bytes) → resume d o ≡ feed_then o d
unfolding feed
resume-feed_then (fed r fs) d =
    rw (append-nil fs) at (feed_loop-prepend (fuel_for (append_bytes r d)) (append_bytes r d) fs [])
resume-feed_then (thrown v r) d = refl
resume-feed_then out_of_fuel d = refl

pub feed-append : (r : FrameReader) (a b : Bytes) → feed r (a ++ b) ≡ feed_then (feed r a) b
unfolding feed
feed-append r a b =
    let r1 = append_bytes r a in
    rw (← append_assoc r.buffer a b) (
      feed_loop-append (fuel_for r1) r1 [] b (fuel_for (append_bytes r1 b)) (ground arith)
        (ground arith)
      ∙ resume-feed_then (feed_loop (fuel_for r1) r1 []) b)

-- The reader that `feed` returns waits for more bytes.
feed_loop-waits :
    (f : ℕ) (r : FrameReader) (out : List Frame) {r' : FrameReader} {fs : List Frame}
    → feed_loop f r out ≡ fed r' fs
    → round r' ≡ waits
unfolding feed_loop
feed_loop-waits zero r out h = cc
feed_loop-waits (suc f) r out {r'} {fs} h = elim (Round-cases (round r)) [
  | inl e ↦
      let same : fed r out ≡ fed r' fs = rw (e, feed_loop) at h in
      let readers : r ≡ r' = cc in rw (← readers) e
  | inr (inl (v, r1, e)) ↦ let bad : thrown v r1 ≡ fed r' fs = rw (e, feed_loop) at h in cc
  | inr (inr (r1, gs, e)) ↦ feed_loop-waits f r1 (out ++ gs) (rw (e, feed_loop) at h)
]

pub Fed-cases :
    (o : Fed)
    → ((r : FrameReader) × (fs : List Frame) × (o ≡ fed r fs))
      ⊎ ((v : Violation) × (r : FrameReader) × (o ≡ thrown v r))
      ⊎ (o ≡ out_of_fuel)
Fed-cases (fed r fs) = inl (r, fs, refl)
Fed-cases (thrown v r) = inr (inl (v, r, refl))
Fed-cases out_of_fuel = inr (inr refl)

pub feed_nothing : (r : FrameReader) → round r ≡ waits → feed r [] ≡ fed r []
unfolding feed
feed_nothing r w = rw (append-nil r.buffer) (
    (feed_loop-fuel (fuel_for r) (suc (measure r)) r [] (ground arith) (omega arith)).0
    ∙ rw (w, feed_loop))

pub feed-waits :
    (r : FrameReader) (d : Bytes) {r' : FrameReader} {fs : List Frame}
    → feed r d ≡ fed r' fs
    → round r' ≡ waits
unfolding feed
feed-waits r d h = feed_loop-waits _ _ [] h

-- The chunks fed one by one end with an exception at one of them, with the frames that one `feed` of
-- all the chunks before it returns.
abbrev pub IsCutOff : FrameReader → List Bytes → Violation → Heard → Type 0
IsCutOff r0 cs v o =
    (before : List Bytes) × (c : Bytes) × (after : List Bytes) × (r1 : FrameReader) × (gs : List
      Frame)
    × (r2 : FrameReader) × (cs ≡ before ++ c ∷ after)
    × (feed r0 (flatten before) ≡ fed r1 gs)
    × (feed r1 c ≡ thrown v r2)
    × (o ≡ cut_off v r2 gs)

-- What chunks that are fed one by one come to, against one `feed` of them all.
abbrev pub SameOutcome : FrameReader → List Bytes → Fed → Heard → Type 0
SameOutcome r0 cs (fed r fs) o = o ≡ heard r fs
SameOutcome r0 cs (thrown v r) o = IsCutOff r0 cs v o
SameOutcome r0 cs out_of_fuel o = ⊥

behind-SameOutcome :
    (r0 r1 : FrameReader) (c : Bytes) (fs : List Frame) (cs : List Bytes) (o : Fed) (p : Heard)
    → feed r0 c ≡ fed r1 fs
    → SameOutcome r1 cs o p
    → SameOutcome r0 (c ∷ cs) (prepend fs o) (behind fs p)
behind-SameOutcome r0 r1 c fs cs (fed r gs) p e h = rw h
behind-SameOutcome r0 r1 c fs cs (thrown v r) p e (before, d, after, r2, gs, r3, split, f, g, h) = (
  c ∷ before,
  d,
  after,
  r2,
  fs ++ gs,
  r3,
  ap (◌∷◌ c) split,
  feed-append r0 c (flatten before) ∙ rw (e, f),
  g,
  rw h,
)
behind-SameOutcome r0 r1 c fs cs out_of_fuel p e h = h

-- On a reader that waits for more bytes: however the stream
-- is cut into chunks, feeding it chunk by chunk ends as one `feed` of the whole stream does. If that
-- returns, with the same frames and reader; if it throws, with the same exception, at one of the
-- chunks, and then the frames handed out are those that one `feed` of the chunks before it returns.
pub feed_all-flatten :
    (cs : List Bytes) (r : FrameReader)
    → round r ≡ waits
    → SameOutcome r cs (feed r (flatten cs)) (feed_all r cs)
unfolding feed_all
feed_all-flatten [] r w = rw (feed_nothing r w)
feed_all-flatten (c ∷ cs) r w = rw (feed-append r c (flatten cs)) (elim (Fed-cases (feed r c)) [
  | inl (r1, fs, e) ↦
      rw (e, feed_all)
        (behind-SameOutcome r r1 c fs cs _ _ e (feed_all-flatten cs r1 (feed-waits r c e)))
  | inr (inl (v, r1, e)) ↦ rw (e, feed_all) ([], c, cs, r, [], r1, refl, feed_nothing r w, e, refl)
  | inr (inr e) ↦ absurd (feed-total r c e)
])

pub feed_all-fed :
    (cs : List Bytes) (r : FrameReader) {r' : FrameReader} {fs : List Frame}
    → round r ≡ waits
    → feed r (flatten cs) ≡ fed r' fs
    → feed_all r cs ≡ heard r' fs
feed_all-fed cs r w e = rw e at (feed_all-flatten cs r w)
