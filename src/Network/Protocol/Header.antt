-- ===== src/Network/Protocol/Header.antt =====
-- FrameHeader and Frame of src/network/protocol.cpp.
pub mod RoundTrip
use lantalk.Common.{
  ℕ, ◌+◌, ◌%◌, ◌^◌, ◌∷◌, ◌++◌, Option, none, some, Bytes, not, ltb, ◌==◌, if◌then◌else◌, length,
  get_or, to_be32, to_be16, from_be32, from_be16,
}
use lantalk.Network.Protocol.Types.{
  MessageType, unknown, type_byte, message_type_from_byte, protocol_magic, protocol_version,
  frame_header_size,
}

pub record FrameHeader : Type 0 where
  pub magic : ℕ
  pub version : ℕ
  pub type : MessageType
  pub payload_length : ℕ
  pub flags : ℕ
  pub reserved : ℕ

-- The default member initialisers.
abbrev pub default_header : FrameHeader
default_header = record {
  magic = protocol_magic;
  version = protocol_version;
  type = unknown;
  payload_length = 0;
  flags = 0;
  reserved = 0;
}

-- FrameHeader::serialize. `reserved` is not written: the twelve bytes are used up.
unfoldable pub serialize_header : FrameHeader → Bytes
serialize_header h =
    to_be32 h.magic ++ h.version ∷ type_byte h.type ∷ (to_be32 h.payload_length ++ to_be16 h.flags)

-- memcpy of four or two bytes from `data + i`, then ntohl or ntohs.
abbrev pub read32 : Bytes → ℕ → ℕ
read32 d i = from_be32 (get_or d i 0) (get_or d (i + 1) 0) (get_or d (i + 2) 0) (get_or d (i + 3) 0)

abbrev pub read16 : Bytes → ℕ → ℕ
read16 d i = from_be16 (get_or d i 0) (get_or d (i + 1) 0)

-- FrameHeader::deserialize; the reads below the length test all lie within the bytes given.
unfoldable pub deserialize : Bytes → Option FrameHeader
deserialize d =
    if ltb (length d) frame_header_size
    then none
    else if not (read32 d 0 == protocol_magic)
    then none
    else if not (get_or d 4 0 == protocol_version)
    then none
    else some (record {
      magic = read32 d 0;
      version = get_or d 4 0;
      type = message_type_from_byte (get_or d 5 0);
      payload_length = read32 d 6;
      flags = read16 d 10;
      reserved = 0;
    })

pub record Frame : Type 0 where
  pub header : FrameHeader
  pub payload : Bytes

-- Frame::create; the string overload copies the bytes of the text and calls this one.
unfoldable pub create : MessageType → Bytes → Frame
create t payload = record {
  header = record default_header { type = t; payload_length = length payload % 2 ^ 32 };
  payload = payload;
}

-- Frame::serialize.
unfoldable pub serialize : Frame → Bytes
unfolding serialize_header
serialize f = serialize_header f.header ++ f.payload

-- Frame::payloadAsString: the same bytes.
abbrev pub payload_as_string : Frame → Bytes
payload_as_string f = f.payload
