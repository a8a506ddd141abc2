-- ===== src/Network/Protocol/Header/RoundTrip.antt =====
-- FrameHeader of src/network/protocol.cpp: deserialize against serialize.
use lantalk.Common.{
  ℕ, ◌≤◌, ◌<◌, ◌^◌, ◌≡◌, refl, ◌≢◌, ◌∷◌, ◌++◌, some, arith, Bytes, length, IsByte, All, take,
}
use lantalk.Network.Protocol.Types.{
  message_type_from_byte-type_byte, type_byte-message_type_from_byte, unknown, protocol_magic,
  protocol_version, frame_header_size,
}
use lantalk.Network.Protocol.Header.{FrameHeader, serialize_header, deserialize}

-- What every header that the program builds satisfies.
pub record IsWire (h : FrameHeader) : Type 0 where
  pub magic_eq : h.magic ≡ protocol_magic
  pub version_eq : h.version ≡ protocol_version
  pub payload_length_lt : h.payload_length < 2 ^ 32
  pub flags_lt : h.flags < 2 ^ 16
  pub reserved_eq : h.reserved ≡ 0

pub length-serialize_header : (h : FrameHeader) → length (serialize_header h) ≡ frame_header_size
unfolding serialize_header
length-serialize_header h = refl

-- A wire header is read back from its twelve bytes, whatever follows them.
pub deserialize-serialize_header :
    (h : FrameHeader) (rest : Bytes) → IsWire h → deserialize (serialize_header h ++ rest) ≡ some h
unfolding deserialize serialize_header
deserialize-serialize_header h rest w = ground (arith, message_type_from_byte-type_byte h.type)

-- Twelve bytes or more, taken apart.
data Twelve : Bytes → Type 0 where
  twelve :
      (b0 b1 b2 b3 b4 b5 b6 b7 b8 b9 b10 b11 : ℕ) (rest : Bytes)
      → Twelve (b0 ∷ b1 ∷ b2 ∷ b3 ∷ b4 ∷ b5 ∷ b6 ∷ b7 ∷ b8 ∷ b9 ∷ b10 ∷ b11 ∷ rest)

split-Twelve : (d : Bytes) → frame_header_size ≤ length d → Twelve d
split-Twelve (b0 ∷ b1 ∷ b2 ∷ b3 ∷ b4 ∷ b5 ∷ b6 ∷ b7 ∷ b8 ∷ b9 ∷ b10 ∷ b11 ∷ rest) h =
    twelve b0 b1 b2 b3 b4 b5 b6 b7 b8 b9 b10 b11 rest
split-Twelve _ h = absurd (omega arith)

deserialize-length :
    (d : Bytes) {h : FrameHeader} → deserialize d ≡ some h → frame_header_size ≤ length d
unfolding deserialize
deserialize-length d e = ground arith

Twelve-sound :
    {d : Bytes} (h : FrameHeader)
    → Twelve d
    → All IsByte d
    → deserialize d ≡ some h
    → IsWire h × (h.type ≢ unknown → serialize_header h ≡ take frame_header_size d)
unfolding deserialize serialize_header
Twelve-sound h (twelve b0 b1 b2 b3 b4 b5 b6 b7 b8 b9 b10 b11 rest) bytes e = (
  record {
    magic_eq = ground arith;
    version_eq = ground arith;
    payload_length_lt = ground arith;
    flags_lt = ground arith;
    reserved_eq = ground arith;
  },
  λ known. ground (arith, type_byte-message_type_from_byte b5),
)

-- What `deserialize` accepts is a wire header; and unless the type byte is unknown, serialising the
-- header gives back the twelve bytes that were read.
pub deserialize_sound :
    (d : Bytes) (h : FrameHeader)
    → All IsByte d
    → deserialize d ≡ some h
    → IsWire h × (h.type ≢ unknown → serialize_header h ≡ take frame_header_size d)
deserialize_sound d h bytes e = Twelve-sound h (split-Twelve d (deserialize-length d e)) bytes e
