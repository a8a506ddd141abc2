-- ===== src/Network/Protocol/Reader/Bounds.antt =====
-- FrameReader of src/network/protocol.cpp on any input, hostile or not: its payloads and its buffer.
use lantalk.Common.{
  ℕ, zero, suc, ◌≤◌, ◌<◌, ◌+◌, ◌≢◌, length-append, length-drop, ◌≡◌, refl, ◌⊎◌, inl, inr, List, [],
  ◌++◌, some, arith, Bytes, length, take, length-take, All, All-append, Option-cases,
}
use lantalk.Network.Protocol.Types.{protocol_magic, protocol_version, frame_header_size}
use lantalk.Network.Protocol.Header.{Frame, FrameHeader, deserialize}
use lantalk.Network.Protocol.Reader.{
  ReadState, reading_header, reading_payload, FrameReader, Round, waits, throws, moves, round_in,
  round, Fed, fed, thrown, out_of_fuel, feed_loop, fuel_for, feed, append_bytes,
}
use lantalk.Network.Protocol.Reader.Fuel.{Round-cases, feed-total}

-- A header that the reader has accepted.
pub record IsAccepted (max : ℕ) (h : FrameHeader) : Type 0 where
  pub magic_eq : h.magic ≡ protocol_magic
  pub version_eq : h.version ≡ protocol_version
  pub payload_fits : h.payload_length ≤ max

abbrev StateInv : ReadState → ℕ → FrameHeader → Type 0
StateInv reading_header max h = Unit {0}
StateInv reading_payload max h = IsAccepted max h

abbrev pub IsReader : ℕ → FrameReader → Type 0
IsReader max r = (r.max_payload_size ≡ max) × StateInv r.state max r.pending_header

pub record IsComplete (max : ℕ) (f : Frame) : Type 0 where
  pub accepted : IsAccepted max f.header
  pub payload_complete : length f.payload ≡ f.header.payload_length

deserialize_fields :
    (d : Bytes) {h : FrameHeader}
    → deserialize d ≡ some h
    → (h.magic ≡ protocol_magic) × (h.version ≡ protocol_version)
unfolding deserialize
deserialize_fields d e = ground arith

-- Within the limit, with a buffer of at most so many bytes.
abbrev Holds : ℕ → ℕ → FrameReader → Type 0
Holds max n r = IsReader max r × (length r.buffer ≤ n)

abbrev RoundInv : ℕ → ℕ → Round → Type 0
RoundInv max n waits = Unit {0}
RoundInv max n (throws v r) = Holds max n r
RoundInv max n (moves r fs) = Holds max n r × All (IsComplete max) fs

round_in-RoundInv :
    (s : ReadState) (max n : ℕ) (r : FrameReader)
    → r.state ≡ s
    → Holds max n r
    → RoundInv max n (round_in s r)
unfolding round_in
round_in-RoundInv reading_header max n r e inv =
    elim (Option-cases (deserialize (take frame_header_size r.buffer))) [
      | inl m ↦ rw m (ground arith)
      | inr (h, m) ↦ rw m (
          ground (
            arith,
            deserialize_fields (take frame_header_size r.buffer) m,
            length-drop frame_header_size r.buffer,
          ))
    ]
round_in-RoundInv reading_payload max n r e inv =
    let k = r.pending_header.payload_length in
    ground (arith, length-take k r.buffer, length-drop k r.buffer)

-- What is left in the buffer is less than a header, or less than the payload that is awaited.
abbrev Remains : ReadState → FrameReader → Type 0
Remains reading_header r = length r.buffer < frame_header_size
Remains reading_payload r = length r.buffer < r.pending_header.payload_length

abbrev FedInv : ℕ → ℕ → Fed → Type 0
FedInv max n (fed r fs) = IsReader max r × Remains r.state r × All (IsComplete max) fs
FedInv max n (thrown v r) = Holds max n r
FedInv max n out_of_fuel = Unit {0}

waits-Remains : (s : ReadState) (r : FrameReader) → round_in s r ≡ waits → Remains s r
unfolding round_in
waits-Remains reading_header r w = ground arith
waits-Remains reading_payload r w = ground arith

feed_loop-FedInv :
    (fuel max n : ℕ) (r : FrameReader) (out : List Frame)
    → Holds max n r
    → All (IsComplete max) out
    → FedInv max n (feed_loop fuel r out)
unfolding feed_loop
feed_loop-FedInv zero max n r out inv done = tt
feed_loop-FedInv (suc fuel) max n r out inv done = elim (Round-cases (round r)) [
  | inl e ↦ rw (e, feed_loop) (inv.0, waits-Remains r.state r e, done)
  | inr (inl (v, r', e)) ↦ rw (e, feed_loop) (rw e at (round_in-RoundInv r.state max n r refl inv))
  | inr (inr (r', fs, e)) ↦
      let kept : RoundInv max n (moves r' fs) =
        rw e at (round_in-RoundInv r.state max n r refl inv) in
      rw (e, feed_loop)
        (feed_loop-FedInv fuel max n r' (out ++ fs) kept.0
          (All-append (IsComplete max) out fs done kept.1))
]

Remains-bound :
    (max : ℕ) (r : FrameReader) (s : ReadState)
    → StateInv s max r.pending_header
    → Remains s r
    → (length r.buffer < frame_header_size) ⊎ (length r.buffer < max)
Remains-bound max r reading_header i m = inl m
Remains-bound max r reading_payload i m = inr (omega arith)

-- What `feed` may end with, on so many bytes in all.
abbrev pub IsBounded : ℕ → ℕ → Fed → Type 0
IsBounded max n (fed r fs) =
    IsReader max r
    × All (IsComplete max) fs
    × ((length r.buffer < frame_header_size) ⊎ (length r.buffer < max))
IsBounded max n (thrown v r) = IsReader max r × (length r.buffer ≤ n)
IsBounded max n out_of_fuel = ⊥

FedInv-IsBounded : (max n : ℕ) (o : Fed) → o ≢ out_of_fuel → FedInv max n o → IsBounded max n o
FedInv-IsBounded max n (fed r fs) t h = (h.0, h.2, Remains-bound max r r.state h.0.1 h.1)
FedInv-IsBounded max n (thrown v r) t h = h
FedInv-IsBounded max n out_of_fuel t h = absurd (t refl)

-- Whatever bytes arrive at a reader with a limit, whose awaited header, if any, was accepted: `feed`
-- ends, and leaves such a reader with the same limit. If it returns, each frame that it returns
-- has the protocol's magic number and version, a payload of exactly the announced length and no more
-- than the limit; and what it keeps buffered is shorter than a header or than the limit. If it
-- throws, it keeps no more than the bytes that it had buffered and was fed.
pub feed-bounds :
    (max : ℕ) (r : FrameReader) (d : Bytes)
    → IsReader max r
    → IsBounded max (length r.buffer + length d) (feed r d)
unfolding feed
feed-bounds max r d inv =
    let r' = append_bytes r d in
    FedInv-IsBounded max _ _ (feed-total r d)
      (feed_loop-FedInv (fuel_for r') max _ r' [] (inv, omega (arith, length-append r.buffer d)) tt)
