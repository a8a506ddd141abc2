-- ===== src/Network/Protocol/Reader/Delivery.antt =====
-- FrameReader of src/network/protocol.cpp on the frames that Frame::serialize writes.
use lantalk.Common.{
  ℕ, suc, ◌+◌, ◌-◌, ◌*◌, ◌≤◌, ◌<◌, ◌^◌, ◌≡◌, refl, ◌∙◌, List, [], ◌∷◌, ◌++◌, some, arith, Bytes,
  length, append-nil, take, drop, flatten, All, length-append, take-length, drop-length,
}
use lantalk.Network.Protocol.Types.{MessageType, frame_header_size}
use lantalk.Network.Protocol.Header.{
  Frame, FrameHeader, deserialize, serialize_header, serialize, create,
}
use lantalk.Network.Protocol.Header.RoundTrip.{
  IsWire, length-serialize_header, deserialize-serialize_header,
}
use lantalk.Network.Protocol.Reader.{
  reading_header, reading_payload, FrameReader, waits, moves, throws, round_in, round, fed, heard,
  feed_loop, feed, feed_all, payload_too_large, thrown, append_bytes,
}
use lantalk.Network.Protocol.Reader.Chunks.{feed_nothing, feed-append, feed_all-fed}

-- A frame that a reader with this limit takes.
pub record IsSendable (max : ℕ) (f : Frame) : Type 0 where
  pub wire : IsWire f.header
  pub payload_length_eq : f.header.payload_length ≡ length f.payload
  pub payload_fits : length f.payload ≤ max

-- A reader between frames: nothing buffered, and the last header still in place.
abbrev pub idle : ℕ → FrameHeader → FrameReader
idle max h = record {
  state = reading_header;
  buffer = [];
  pending_header = h;
  max_payload_size = max;
}

take_header :
    (h : FrameHeader) (p : Bytes)
    → take frame_header_size (serialize_header h ++ p) ≡ serialize_header h
unfolding serialize_header
take_header h p = refl

drop_header : (h : FrameHeader) (p : Bytes) → drop frame_header_size (serialize_header h ++ p) ≡ p
unfolding serialize_header
drop_header h p = refl

read_header : (h : FrameHeader) → IsWire h → deserialize (serialize_header h) ≡ some h
read_header h w = rw (append-nil (serialize_header h)) at (deserialize-serialize_header h [] w)

abbrev with_payload : ℕ → FrameHeader → Bytes → FrameReader
with_payload max h p = record {
  state = reading_payload;
  buffer = p;
  pending_header = h;
  max_payload_size = max;
}

round_header :
    (max : ℕ) (h0 h : FrameHeader) (p : Bytes)
    → IsWire h
    → h.payload_length ≤ max
    → round (record (idle max h0) { buffer = serialize_header h ++ p })
      ≡ moves (with_payload max h p) []
unfolding round_in
round_header max h0 h p w fits =
    rw (take_header h p, read_header h w, drop_header h p)
      (ground
        (arith, length-append (serialize_header h) p, length-serialize_header h, drop_header h p))

round_payload :
    (max : ℕ) (h : FrameHeader) (p : Bytes)
    → h.payload_length ≡ length p
    → round (with_payload max h p) ≡ moves (idle max h) (record { header = h; payload = p } ∷ [])
unfolding round_in
round_payload max h p e = rw e (ground (arith, take-length p, drop-length p))

pub idle_waits : (max : ℕ) (h : FrameHeader) → round (idle max h) ≡ waits
unfolding round_in
idle_waits max h = refl

-- A header's round, the payload's, and one that waits.
feed_loop-frame :
    (n max : ℕ) (h0 h : FrameHeader) (p : Bytes)
    → IsWire h
    → h.payload_length ≡ length p
    → length p ≤ max
    → feed_loop (suc (suc (suc n))) (record (idle max h0) { buffer = serialize_header h ++ p }) []
      ≡ fed (idle max h) (record { header = h; payload = p } ∷ [])
unfolding feed_loop
feed_loop-frame n max h0 h p w e fits =
    rw (round_header max h0 h p w (omega arith), feed_loop)
      (rw (round_payload max h p e, feed_loop) (rw (idle_waits max h, feed_loop)))

pub feed-serialize :
    (max : ℕ) (h0 : FrameHeader) (f : Frame)
    → IsSendable max f
    → feed (idle max h0) (serialize f) ≡ fed (idle max f.header) (f ∷ [])
unfolding feed serialize
feed-serialize max h0 f s =
    let n = length (serialize_header f.header ++ f.payload) in
    let enough : 2 * n + 2 ≡ suc (suc (suc (2 * n - 1))) = omega (
      arith,
      length-append (serialize_header f.header) f.payload,
      length-serialize_header f.header,
    ) in
    rw enough (
      feed_loop-frame (2 * n - 1) max h0 f.header f.payload s.wire s.payload_length_eq
        s.payload_fits)

-- What a sender writes for these frames.
abbrev pub stream : List Frame → Bytes
stream [] = []
stream (f ∷ fs) = serialize f ++ stream fs

abbrev pub last_header : FrameHeader → List Frame → FrameHeader
last_header h [] = h
last_header h (f ∷ fs) = last_header f.header fs

pub feed-stream :
    (max : ℕ) (h : FrameHeader) (fs : List Frame)
    → All (IsSendable max) fs
    → feed (idle max h) (stream fs) ≡ fed (idle max (last_header h fs)) fs
feed-stream max h [] s = feed_nothing (idle max h) (idle_waits max h)
feed-stream max h (f ∷ fs) (s, rest) =
    feed-append (idle max h) (serialize f) (stream fs)
    ∙ rw (feed-serialize max h f s) (rw (feed-stream max f.header fs rest))

-- The frames that a sender serialises one after the other are exactly the frames that the reader
-- of the other side returns, in order, for every way in which the bytes are cut into chunks, as
-- long as each frame is well formed and its payload is within the reader's limit; the reader is
-- then between frames again.
pub feed_all-stream :
    (max : ℕ) (h : FrameHeader) (fs : List Frame) (chunks : List Bytes)
    → All (IsSendable max) fs
    → flatten chunks ≡ stream fs
    → feed_all (idle max h) chunks ≡ heard (idle max (last_header h fs)) fs
feed_all-stream max h fs chunks s e =
    feed_all-fed chunks (idle max h) (idle_waits max h) (rw e (feed-stream max h fs s))

-- `create` builds a frame that a reader takes if the payload is within the reader's limit and the
-- limit is a 32-bit number.
pub create-IsSendable :
    (max : ℕ) (t : MessageType) (p : Bytes)
    → length p ≤ max
    → max < 2 ^ 32
    → IsSendable max (create t p)
unfolding create
create-IsSendable max t p h m = record {
  wire = record {
    magic_eq = refl;
    version_eq = refl;
    payload_length_lt = omega arith;
    flags_lt = omega arith;
    reserved_eq = refl;
  };
  payload_length_eq = omega arith;
  payload_fits = h;
}

round_oversized :
    (max : ℕ) (h0 h : FrameHeader) (p : Bytes)
    → IsWire h
    → max < h.payload_length
    → round (append_bytes (idle max h0) (serialize_header h ++ p))
      ≡ throws payload_too_large (append_bytes (idle max h) (serialize_header h ++ p))
unfolding round_in
round_oversized max h0 h p w big =
    rw (take_header h p, read_header h w)
      (ground (arith, length-append (serialize_header h) p, length-serialize_header h))

-- A well-formed frame whose payload is longer than the reader's limit is never delivered: the
-- reader throws, and keeps the frame's bytes in its buffer.
pub feed-serialize_oversized :
    (max : ℕ) (h0 : FrameHeader) (f : Frame)
    → IsWire f.header
    → max < f.header.payload_length
    → feed (idle max h0) (serialize f)
      ≡ thrown payload_too_large (append_bytes (idle max f.header) (serialize f))
unfolding feed serialize
feed-serialize_oversized max h0 f w big =
    let n = 2 * length (serialize_header f.header ++ f.payload) in
    let enough : n + 2 ≡ suc (n + 1) = omega arith in
    rw enough (rw (round_oversized max h0 f.header f.payload w big, feed_loop))
