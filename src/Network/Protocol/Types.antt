-- ===== src/Network/Protocol/Types.antt =====
-- src/network/protocol.hpp: the wire constants and MessageType, with messageTypeFromByte.
use lantalk.Common.{ℕ, ◌≡◌, refl, ◌<◌, ◌⊎◌, arith, Bytes, codes, ◌==◌, if◌then◌else◌}

abbrev pub protocol_magic : ℕ
protocol_magic = 0x4c54_4c41

abbrev pub protocol_version : ℕ
protocol_version = 1

abbrev pub frame_header_size : ℕ
frame_header_size = 12

abbrev pub max_payload_size : ℕ
max_payload_size = 65536

pub data MessageType : Type 0 where
  hello auth_request auth_response auth_ok auth_fail : MessageType
  chat_message chat_receipt ping pong peer_list disconnect error_msg : MessageType
  file_offer file_accept file_chunk file_complete unknown : MessageType

-- The enumerator's value, as `static_cast<uint8_t>(type)` gives it.
unfoldable pub type_byte : MessageType → ℕ
type_byte hello = 0x01
type_byte auth_request = 0x02
type_byte auth_response = 0x03
type_byte auth_ok = 0x04
type_byte auth_fail = 0x05
type_byte chat_message = 0x10
type_byte chat_receipt = 0x11
type_byte ping = 0x20
type_byte pong = 0x21
type_byte peer_list = 0x30
type_byte disconnect = 0x40
type_byte error_msg = 0x50
type_byte file_offer = 0x60
type_byte file_accept = 0x61
type_byte file_chunk = 0x62
type_byte file_complete = 0x63
type_byte unknown = 0xff

unfoldable pub message_type_from_byte : ℕ → MessageType
message_type_from_byte b =
    if b == 0x01
    then hello
    else if b == 0x02
    then auth_request
    else if b == 0x03
    then auth_response
    else if b == 0x04
    then auth_ok
    else if b == 0x05
    then auth_fail
    else if b == 0x10
    then chat_message
    else if b == 0x11
    then chat_receipt
    else if b == 0x20
    then ping
    else if b == 0x21
    then pong
    else if b == 0x30
    then peer_list
    else if b == 0x40
    then disconnect
    else if b == 0x50
    then error_msg
    else if b == 0x60
    then file_offer
    else if b == 0x61
    then file_accept
    else if b == 0x62
    then file_chunk
    else if b == 0x63
    then file_complete
    else unknown

unfoldable pub message_type_name : MessageType → Bytes
message_type_name hello = codes "HELLO"
message_type_name auth_request = codes "AUTH_REQUEST"
message_type_name auth_response = codes "AUTH_RESPONSE"
message_type_name auth_ok = codes "AUTH_OK"
message_type_name auth_fail = codes "AUTH_FAIL"
message_type_name chat_message = codes "CHAT_MESSAGE"
message_type_name chat_receipt = codes "CHAT_RECEIPT"
message_type_name ping = codes "PING"
message_type_name pong = codes "PONG"
message_type_name peer_list = codes "PEER_LIST"
message_type_name disconnect = codes "DISCONNECT"
message_type_name error_msg = codes "ERROR_MSG"
message_type_name file_offer = codes "FILE_OFFER"
message_type_name file_accept = codes "FILE_ACCEPT"
message_type_name file_chunk = codes "FILE_CHUNK"
message_type_name file_complete = codes "FILE_COMPLETE"
message_type_name unknown = codes "UNKNOWN"

-- Reading back the byte of a type gives the type, for all seventeen.
pub message_type_from_byte-type_byte : (t : MessageType) → message_type_from_byte (type_byte t) ≡ t
unfolding message_type_from_byte type_byte
message_type_from_byte-type_byte hello = refl
message_type_from_byte-type_byte _ = refl

pub type_byte-lt : (t : MessageType) → type_byte t < 256
unfolding type_byte
type_byte-lt hello = omega arith
type_byte-lt _ = omega arith

-- A byte is the byte of the type that it is read as, unless it is read as UNKNOWN.
pub type_byte-message_type_from_byte :
    (b : ℕ) → (type_byte (message_type_from_byte b) ≡ b) ⊎ (message_type_from_byte b ≡ unknown)
unfolding message_type_from_byte type_byte
type_byte-message_type_from_byte b = ground arith
