-- ===== src/Network/Protocol/Reader/Fuel.antt =====
-- The loop of FrameReader::feed, src/network/protocol.cpp, and its fuel.
use lantalk.Common.{
  ℕ, zero, suc, ◌+◌, ◌*◌, ◌<◌, ◌≡◌, refl, ◌≢◌, ◌⊎◌, inl, inr, List, [], ◌++◌, arith, Bytes, length,
  length-drop,
}
use lantalk.Network.Protocol.Types.{frame_header_size}
use lantalk.Network.Protocol.Header.{Frame}
use lantalk.Network.Protocol.Reader.{
  ReadState, reading_header, reading_payload, FrameReader, Round, waits, throws, moves, round_in,
  round, out_of_fuel, feed_loop, append_bytes, fuel_for, feed,
}

-- Falls in every round that moves.
abbrev pub state_rank : ReadState → ℕ
state_rank reading_header = 0
state_rank reading_payload = 1

abbrev pub measure : FrameReader → ℕ
measure r = 2 * length r.buffer + state_rank r.state

abbrev pub Falls : FrameReader → Round → Type 0
Falls r waits = Unit {0}
Falls r (throws v r') = Unit {0}
Falls r (moves r' frames) = measure r' < measure r

pub round_in-Falls : (s : ReadState) (r : FrameReader) → r.state ≡ s → Falls r (round_in s r)
unfolding round_in
round_in-Falls reading_header r e = ground (arith, length-drop frame_header_size r.buffer)
round_in-Falls reading_payload r e =
    ground (arith, length-drop r.pending_header.payload_length r.buffer)

pub Round-cases :
    (o : Round)
    → (o ≡ waits)
      ⊎ ((v : _) × (r : FrameReader) × (o ≡ throws v r))
      ⊎ ((r : FrameReader) × (frames : List Frame) × (o ≡ moves r frames))
Round-cases waits = inl refl
Round-cases (throws v r) = inr (inl (v, r, refl))
Round-cases (moves r fs) = inr (inr (r, fs, refl))

-- With fuel above the measure the loop is the same for every fuel, and does not run out.
pub feed_loop-fuel :
    (f g : ℕ) (r : FrameReader) (out : List Frame)
    → measure r < f
    → measure r < g
    → (feed_loop f r out ≡ feed_loop g r out) × (feed_loop f r out ≢ out_of_fuel)
unfolding feed_loop
feed_loop-fuel zero g r out hf hg = absurd (omega arith)
feed_loop-fuel (suc f) zero r out hf hg = absurd (omega arith)
feed_loop-fuel (suc f) (suc g) r out hf hg = elim (Round-cases (round r)) [
  | inl e ↦ rw (e, feed_loop) (refl, λ p. cc)
  | inr (inl (v, r', e)) ↦ rw (e, feed_loop) (refl, λ p. cc)
  | inr (inr (r', fs, e)) ↦
      let fall : measure r' < measure r = rw e at (round_in-Falls r.state r refl) in
      rw (e, feed_loop) (feed_loop-fuel f g r' (out ++ fs) (omega arith) (omega arith))
]

-- `feed` always ends with frames or with an exception, whatever the bytes and the reader.
pub feed-total : (r : FrameReader) (d : Bytes) → feed r d ≢ out_of_fuel
unfolding feed
feed-total r d =
    let r' = append_bytes r d in
    (feed_loop-fuel (fuel_for r') (fuel_for r') r' [] (ground arith) (ground arith)).1
