-- ===== src/Chat/Message/RoundTrip.antt =====
-- ChatMessage::fromJson of what toJson writes (src/chat/message.cpp).
use lantalk.Common.{
  ◌≡◌, refl, ◌∙◌, ◌≢◌, false, is_empty, ◌^◌, [], ◌∷◌, ◌++◌, some, Option, arith, Bytes, codes, inl,
}
use lantalk.Common.Int.{InRange}
use lantalk.Common.Decimal.{to_string}
use lantalk.Common.Search.{find_after, key_pattern, quote, backslash, IsKey}
use lantalk.Common.Search.Entries.{
  find_after-skip, find_after-string_entry, find_after-plain_entry, find_after-own,
}
use lantalk.Chat.Message.{
  ChatMessage, escape_json, to_json, extract_json_string, extract_json_int, from_json,
}
use lantalk.Chat.Message.Escape.{escape_json-IsQuoted}
use lantalk.Chat.Message.Scan.{last_byte}
use lantalk.Chat.Message.Values.{
  EndsClean, value_of-escape_json, value_of-backslash, to_string-IsNumberByte, IsNumberByte-Lacks,
  int_of-to_string,
}

-- The pieces of toJson's text from each value on.
module _ (m : ChatMessage) where
  abbrev text_entry : Bytes
  text_entry = codes "\"text\":\"" ++ (escape_json m.text ++ (codes "\"" ++ codes "}"))

  abbrev time_entry : Bytes
  time_entry = codes "\"timestampUtc\":" ++ (to_string m.timestamp_utc ++ (codes "," ++ text_entry))

  abbrev name_entry : Bytes
  name_entry =
      codes "\"senderName\":\"" ++ (escape_json m.sender_name ++ (codes "\"," ++ time_entry))

  abbrev sender_entry : Bytes
  sender_entry = codes "\"senderId\":\"" ++ (escape_json m.sender_id ++ (codes "\"," ++ name_entry))

  abbrev id_entry : Bytes
  id_entry = codes "\"msgId\":\"" ++ (escape_json m.msg_id ++ (codes "\"," ++ sender_entry))

  module _ (key more : Bytes) (k : IsKey key) where
    abbrev find : Bytes → Option Bytes
    find = find_after (key_pattern key more)

    find-sender_id : key ≢ codes "msgId" → find (to_json m) ≡ find sender_entry
    unfolding to_json
    find-sender_id d =
        find_after-skip key more k b'{' id_entry (omega arith)
        ∙ find_after-string_entry key more k (codes "msgId") b',' sender_entry (omega arith) d
            (escape_json-IsQuoted m.msg_id) (inl refl)

    find-sender_name : key ≢ codes "senderId" → find sender_entry ≡ find name_entry
    find-sender_name d =
        find_after-string_entry key more k (codes "senderId") b',' name_entry (omega arith) d
          (escape_json-IsQuoted m.sender_id) (inl refl)

    find-time : key ≢ codes "senderName" → find name_entry ≡ find time_entry
    find-time d =
        find_after-string_entry key more k (codes "senderName") b',' time_entry (omega arith) d
          (escape_json-IsQuoted m.sender_name) (inl refl)

    find-text : key ≢ codes "timestampUtc" → find time_entry ≡ find text_entry
    find-text d =
        find_after-plain_entry key more k (codes "timestampUtc") (to_string m.timestamp_utc)
          (codes "," ++ text_entry) (omega arith) d
          (IsNumberByte-Lacks _ (to_string-IsNumberByte m.timestamp_utc))
        ∙ find_after-skip key more k b',' text_entry (omega arith)

  -- The five values that fromJson extracts.
  extract-msg_id : EndsClean m.msg_id → extract_json_string (to_json m) (codes "msgId") ≡ m.msg_id
  unfolding extract_json_string to_json
  extract-msg_id h =
      rw (find_after-skip (codes "msgId") (quote ∷ []) (omega arith) b'{' id_entry (omega arith)) (
        rw
          (find_after-own (codes "msgId") (quote ∷ []) (omega arith)
            (escape_json m.msg_id ++ (codes "\"," ++ sender_entry)))
          (value_of-escape_json m.msg_id _ h))

  extract-sender_id :
      EndsClean m.sender_id → extract_json_string (to_json m) (codes "senderId") ≡ m.sender_id
  unfolding extract_json_string
  extract-sender_id h = rw (find-sender_id (codes "senderId") (quote ∷ []) (omega arith) (cc)) (
      rw
        (find_after-own (codes "senderId") (quote ∷ []) (omega arith)
          (escape_json m.sender_id ++ (codes "\"," ++ name_entry)))
        (value_of-escape_json m.sender_id _ h))

  extract-sender_name :
      EndsClean m.sender_name → extract_json_string (to_json m) (codes "senderName") ≡ m.sender_name
  unfolding extract_json_string
  extract-sender_name h =
      let key = codes "senderName" in
      rw (find-sender_id key (quote ∷ []) (omega arith) (cc)) (
        rw (find-sender_name key (quote ∷ []) (omega arith) (cc)) (
          rw
            (find_after-own key (quote ∷ []) (omega arith)
              (escape_json m.sender_name ++ (codes "\"," ++ time_entry)))
            (value_of-escape_json m.sender_name _ h)))

  extract-time :
      InRange (2 ^ 63) m.timestamp_utc
      → extract_json_int (to_json m) (codes "timestampUtc") ≡ m.timestamp_utc
  unfolding extract_json_int
  extract-time h =
      let key = codes "timestampUtc" in
      rw (find-sender_id key [] (omega arith) (cc)) (
        rw (find-sender_name key [] (omega arith) (cc)) (
          rw (find-time key [] (omega arith) (cc)) (
            rw
              (find_after-own key [] (omega arith)
                (to_string m.timestamp_utc ++ (codes "," ++ text_entry)))
              (int_of-to_string m.timestamp_utc _ h))))

  find-text_value :
      find_after (key_pattern (codes "text") (quote ∷ [])) (to_json m)
      ≡ some (escape_json m.text ++ codes "\"}")
  find-text_value =
      let key = codes "text" in
      find-sender_id key (quote ∷ []) (omega arith) (cc)
      ∙ find-sender_name key (quote ∷ []) (omega arith) (cc)
      ∙ find-time key (quote ∷ []) (omega arith) (cc)
      ∙ find-text key (quote ∷ []) (omega arith) (cc)
      ∙ find_after-own key (quote ∷ []) (omega arith) (escape_json m.text ++ codes "\"}")

  extract-text : EndsClean m.text → extract_json_string (to_json m) (codes "text") ≡ m.text
  unfolding extract_json_string
  extract-text h = rw find-text_value (value_of-escape_json m.text (codes "}") h)

  extract-text_backslash :
      last_byte quote m.text ≡ backslash
      → extract_json_string (to_json m) (codes "text") ≡ m.text ++ codes "\"}"
  unfolding extract_json_string
  extract-text_backslash h = rw find-text_value (value_of-backslash m.text h)

-- A message that has its identifiers and a 64-bit time, and whose identifiers and name do not end in
-- a backslash.
pub record IsSound (m : ChatMessage) : Type 0 where
  pub msg_id_ne_nil : m.msg_id ≢ []
  pub sender_id_ne_nil : m.sender_id ≢ []
  pub msg_id_clean : EndsClean m.msg_id
  pub sender_id_clean : EndsClean m.sender_id
  pub sender_name_clean : EndsClean m.sender_name
  pub time_range : InRange (2 ^ 63) m.timestamp_utc

is_empty-false : (s : Bytes) → s ≢ [] → is_empty s ≡ false
is_empty-false [] h = absurd (h refl)
is_empty-false (c ∷ s) h = refl

from_json-fields :
    (m : ChatMessage) (t : Bytes)
    → IsSound m
    → extract_json_string (to_json m) (codes "text") ≡ t
    → from_json (to_json m) ≡ some (record m { text = t })
unfolding from_json
from_json-fields m t s e = rw (
  extract-msg_id m s.msg_id_clean,
  extract-sender_id m s.sender_id_clean,
  extract-sender_name m s.sender_name_clean,
  extract-time m s.time_range,
  e,
  is_empty-false m.msg_id s.msg_id_ne_nil,
  is_empty-false m.sender_id s.sender_id_ne_nil,
)

-- A message is read back whole from its JSON text: every byte of the text, the names and the
-- identifiers survives, provided that none of them ends in a backslash, the identifiers are not
-- empty and the time is a 64-bit number.
pub from_json-to_json :
    (m : ChatMessage) → IsSound m → EndsClean m.text → from_json (to_json m) ≡ some m
from_json-to_json m s h = from_json-fields m m.text s (extract-text m h)

-- A text that ends in a backslash is not read back: the receiver sees it with the closing quote and
-- brace of the JSON object behind it, and the other fields unchanged.
pub from_json-to_json-backslash :
    (m : ChatMessage)
    → IsSound m
    → last_byte quote m.text ≡ backslash
    → from_json (to_json m) ≡ some (record m { text = m.text ++ codes "\"}" })
from_json-to_json-backslash m s h = from_json-fields m _ s (extract-text_backslash m h)
