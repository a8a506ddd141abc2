-- ===== src/Examples/Wire.antt =====
-- The protocol (src/network/protocol.cpp) at concrete inputs.
use lantalk.Common.{
  ◌≡◌, refl, ◌≢◌, List, [], ◌∷◌, ◌++◌, some, arith, Bytes, codes, IsByte, All, take, drop, flatten,
  ◌<◌,
}
use lantalk.Network.Protocol.Types.{ping, chat_message, type_byte, message_type_from_byte}
use lantalk.Network.Protocol.Header.{
  Frame, default_header, create, serialize, serialize_header, deserialize,
}
use lantalk.Network.Protocol.Reader.{
  FrameReader, new_reader, round_in, accept_header, take_frame, fed, heard, thrown, out_of_fuel,
  payload_too_large, feed, feed_all, append_bytes,
}
use lantalk.Network.Protocol.Reader.Fuel.{feed-total}
use lantalk.Network.Protocol.Reader.Chunks.{SameOutcome, feed_then, feed-append, feed_all-flatten}
use lantalk.Network.Protocol.Reader.Bounds.{IsBounded, feed-bounds}
use lantalk.Network.Protocol.Reader.Delivery.{
  IsSendable, idle, stream, last_header, idle_waits, feed_all-stream, create-IsSendable,
  feed-serialize_oversized,
}

abbrev two_frames : List Frame
two_frames = create ping (codes "{}") ∷ create chat_message (codes "hi") ∷ []

two_frames-IsSendable : All (IsSendable 65536) two_frames
two_frames-IsSendable = (
  create-IsSendable 65536 ping (codes "{}") (omega arith) (omega arith),
  (create-IsSendable 65536 chat_message (codes "hi") (omega arith) (omega arith), tt),
)

-- Cut inside the second header.
abbrev two_chunks : List Bytes
two_chunks = take 20 (stream two_frames) ∷ drop 20 (stream two_frames) ∷ []

two_chunks-flatten : flatten two_chunks ≡ stream two_frames
unfolding serialize serialize_header type_byte create
two_chunks-flatten = refl

feed_all-stream_example :
    feed_all (idle 65536 default_header) two_chunks
    ≡ heard (idle 65536 (last_header default_header two_frames)) two_frames
feed_all-stream_example =
    feed_all-stream 65536 default_header two_frames two_chunks two_frames-IsSendable
      two_chunks-flatten

feed_all-flatten_example :
    SameOutcome
      (new_reader 65536)
      two_chunks
      (feed (new_reader 65536) (flatten two_chunks))
      (feed_all (new_reader 65536) two_chunks)
feed_all-flatten_example =
    feed_all-flatten two_chunks (new_reader 65536) (idle_waits 65536 default_header)

feed-append_example :
    feed (new_reader 65536) (codes "LTLA" ++ codes "XYZ")
    ≡ feed_then (feed (new_reader 65536) (codes "LTLA")) (codes "XYZ")
feed-append_example = feed-append (new_reader 65536) (codes "LTLA") (codes "XYZ")

-- A reader that gets one frame and the start of another.
abbrev started_stream : Bytes
started_stream = serialize (create ping (codes "{}")) ++ codes "LTL"

feed-total_example : feed (new_reader 65536) started_stream ≢ out_of_fuel
feed-total_example = feed-total (new_reader 65536) started_stream

abbrev started_reader : FrameReader
started_reader = record (idle 65536 (create ping (codes "{}")).header) { buffer = codes "LTL" }

started :
    feed (new_reader 65536) started_stream ≡ fed started_reader (create ping (codes "{}") ∷ [])
unfolding feed round_in accept_header take_frame serialize serialize_header deserialize create
    type_byte message_type_from_byte
started = refl

feed-bounds_example : IsBounded 65536 17 (feed (new_reader 65536) started_stream)
unfolding serialize create
feed-bounds_example = feed-bounds 65536 (new_reader 65536) started_stream (refl, tt)

abbrev ping_frame : Frame
ping_frame = create ping (codes "{}")

-- The twelve bytes of a PING's header.
abbrev ping_bytes : Bytes
ping_bytes = 76 ∷ 84 ∷ 76 ∷ 65 ∷ 1 ∷ 0x20 ∷ 0 ∷ 0 ∷ 0 ∷ 2 ∷ 0 ∷ 0 ∷ []

ping_bytes-IsByte : All IsByte ping_bytes
ping_bytes-IsByte = omega arith

ping_bytes-header : deserialize ping_bytes ≡ some ping_frame.header
unfolding deserialize message_type_from_byte create
ping_bytes-header = refl

ping_too_large : 1 < ping_frame.header.payload_length
unfolding create
ping_too_large = omega arith

feed-serialize_oversized_example :
    feed (idle 1 default_header) (serialize ping_frame)
    ≡ thrown payload_too_large (append_bytes (idle 1 ping_frame.header) (serialize ping_frame))
feed-serialize_oversized_example =
    feed-serialize_oversized 1 default_header ping_frame
      (create-IsSendable 65536 ping (codes "{}") (omega arith) (omega arith)).wire ping_too_large
