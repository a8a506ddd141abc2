-- ===== src/Network/Protocol/Reader.antt =====
-- FrameReader of src/network/protocol.cpp: `feed` turns raw bytes into complete frames.
-- The while loop runs on fuel; `fuel_for` gives it, and `out_of_fuel` is no outcome of the
-- program (see Reader/Fuel).
pub mod Fuel
pub mod Chunks
pub mod Delivery
pub mod Bounds
pub mod Accounting
use lantalk.Common.{
  ℕ, zero, suc, ◌+◌, ◌*◌, List, [], ◌∷◌, ◌++◌, Option, none, some, Bytes, ltb, if◌then◌else◌,
  length, take, drop,
}
use lantalk.Network.Protocol.Types.{frame_header_size}
use lantalk.Network.Protocol.Header.{FrameHeader, Frame, default_header, deserialize}

pub data ReadState : Type 0 where
  reading_header reading_payload : ReadState

pub record FrameReader : Type 0 where
  pub state : ReadState
  pub buffer : Bytes
  pub pending_header : FrameHeader
  pub max_payload_size : ℕ

-- The two std::runtime_errors.
pub data Violation : Type 0 where
  invalid_header payload_too_large : Violation

-- The constructor.
abbrev pub new_reader : ℕ → FrameReader
new_reader max = record {
  state = reading_header;
  buffer = [];
  pending_header = default_header;
  max_payload_size = max;
}

-- One round of the loop: `break`, a throw, or a change of the reader with the frames it completes.
pub data Round : Type 0 where
  waits : Round
  throws : Violation → FrameReader → Round
  moves : FrameReader → List Frame → Round

-- READING_HEADER, on the header found in the first twelve bytes.
unfoldable pub accept_header : FrameReader → Option FrameHeader → Round
accept_header r none = throws invalid_header r
accept_header r (some h) =
    let pending = record r { pending_header = h } in
    if ltb r.max_payload_size h.payload_length
    then throws payload_too_large pending
    else moves
        (record pending { buffer = drop frame_header_size r.buffer; state = reading_payload }) []

-- READING_PAYLOAD, with the whole payload in the buffer. At length 0 nothing is copied or erased.
unfoldable pub take_frame : FrameReader → ℕ → Round
take_frame r n =
    moves (record r { buffer = drop n r.buffer; state = reading_header })
      (record { header = r.pending_header; payload = take n r.buffer } ∷ [])

unfoldable pub round_in : ReadState → FrameReader → Round
unfolding accept_header take_frame
round_in reading_header r =
    if ltb (length r.buffer) frame_header_size
    then waits
    else accept_header r (deserialize (take frame_header_size r.buffer))
round_in reading_payload r =
    let n = r.pending_header.payload_length in
    if ltb (length r.buffer) n then waits else take_frame r n

abbrev pub round : FrameReader → Round
round r = round_in r.state r

-- What `feed` ends with: the reader and the complete frames, or the exception and the reader that
-- it leaves. The frames completed before a throw are lost, as in the source.
pub data Fed : Type 0 where
  fed : FrameReader → List Frame → Fed
  thrown : Violation → FrameReader → Fed
  out_of_fuel : Fed

unfoldable pub feed_loop : ℕ → FrameReader → List Frame → Fed
feed_loop zero r out = out_of_fuel
feed_loop (suc fuel) r out = elim (round r) [
  | waits ↦ fed r out
  | throws v r' ↦ thrown v r'
  | moves r' frames ↦ feed_loop fuel r' (out ++ frames)
]

abbrev pub append_bytes : FrameReader → Bytes → FrameReader
append_bytes r d = record r { buffer = r.buffer ++ d }

-- Each round takes twelve bytes or goes back to READING_HEADER.
abbrev pub fuel_for : FrameReader → ℕ
fuel_for r = 2 * length r.buffer + 2

unfoldable pub feed : FrameReader → Bytes → Fed
unfolding feed_loop
feed r d = let r' = append_bytes r d in feed_loop (fuel_for r') r' []

-- FrameReader::reset: the pending header stays.
unfoldable pub reset : FrameReader → FrameReader
reset r = record r { buffer = []; state = reading_header }

-- Frames found earlier stand in front.
abbrev pub prepend : List Frame → Fed → Fed
prepend out (fed r fs) = fed r (out ++ fs)
prepend out (thrown v r) = thrown v r
prepend out out_of_fuel = out_of_fuel

-- What a reader comes to over several chunks: the reader with all the frames, or the exception with
-- the reader that it leaves and the frames of the chunks before.
pub data Heard : Type 0 where
  heard : FrameReader → List Frame → Heard
  cut_off : Violation → FrameReader → List Frame → Heard
  stuck : Heard

abbrev pub behind : List Frame → Heard → Heard
behind out (heard r fs) = heard r (out ++ fs)
behind out (cut_off v r fs) = cut_off v r (out ++ fs)
behind out stuck = stuck

-- One `feed` for each chunk that arrives, until one throws. This is for statements about the reader
-- alone; the loop that makes these calls is Connection.Receive.recv_loop.
unfoldable pub feed_all : FrameReader → List Bytes → Heard
feed_all r [] = heard r []
feed_all r (c ∷ cs) = elim (feed r c) [
  | fed r' fs ↦ behind fs (feed_all r' cs)
  | thrown v r' ↦ cut_off v r' []
  | out_of_fuel ↦ stuck
]
