-- ===== src/Chat/Message.antt =====
-- src/chat/message.cpp: ChatMessage, its JSON text and the scanner that reads it back.
-- formatForDisplay and currentTimestamp only call the C library's clock and are left out.
pub mod Escape
pub mod Scan
pub mod Values
pub mod RoundTrip
use lantalk.Common.{
  ℕ, not, ◌&&◌, ◌||◌, [], ◌∷◌, ◌++◌, Option, none, some, Bytes, codes, ◌==◌, if◌then◌else◌,
  is_empty,
}
use lantalk.Common.Int.{ℤ, pos}
use lantalk.Common.Decimal.{is_digit, to_string, stoll}
use lantalk.Common.Search.{find_after, key_pattern, quote, backslash}

pub record ChatMessage : Type 0 where
  pub msg_id : Bytes
  pub sender_id : Bytes
  pub sender_name : Bytes
  pub timestamp_utc : ℤ
  pub text : Bytes

-- One round of escapeJson.
unfoldable pub escape_char : ℕ → Bytes
escape_char c =
    if c == quote
    then backslash ∷ quote ∷ []
    else if c == backslash
    then backslash ∷ backslash ∷ []
    else if c == b'\n'
    then backslash ∷ b'n' ∷ []
    else if c == b'\r'
    then backslash ∷ b'r' ∷ []
    else if c == b'\t'
    then backslash ∷ b't' ∷ []
    else c ∷ []

unfoldable pub escape_json : Bytes → Bytes
escape_json [] = []
escape_json (c ∷ s) = escape_char c ++ escape_json s

-- The character behind a backslash.
unfoldable pub unescape_char : ℕ → ℕ
unescape_char c =
    if c == b'n' then b'\n' else if c == b'r' then b'\r' else if c == b't' then b'\t' else c

-- A backslash that ends the text stands for itself.
unfoldable pub unescape_json : Bytes → Bytes
unescape_json [] = []
unescape_json (c ∷ []) = c ∷ []
unescape_json (c ∷ d ∷ s) =
    let escaped = unescape_char d ∷ unescape_json s in
    let copied = c ∷ unescape_json (d ∷ s) in if c == backslash then escaped else copied

-- ChatMessage::toJson.
unfoldable pub to_json : ChatMessage → Bytes
to_json m =
    codes "{"
    ++ (codes "\"msgId\":\""
        ++ (escape_json m.msg_id
            ++ (codes "\","
                ++ (codes "\"senderId\":\""
                    ++ (escape_json m.sender_id
                        ++ (codes "\","
                            ++ (codes "\"senderName\":\""
                                ++ (escape_json m.sender_name
                                    ++ (codes "\","
                                        ++ (codes "\"timestampUtc\":"
                                            ++ (to_string m.timestamp_utc
                                                ++ (codes ","
                                                    ++ (codes "\"text\":\""
                                                        ++ (escape_json m.text
                                                            ++ (codes "\""
                                                            ++ codes "}")))))))))))))))

-- The loop of extractJsonString: up to a quote with no backslash before it. `before` is
-- json[end - 1], at first the quote that ends the search text.
unfoldable pub until_quote : ℕ → Bytes → Bytes
until_quote before [] = []
until_quote before (c ∷ s) =
    let rest = c ∷ until_quote c s in if c == quote && not (before == backslash) then [] else rest

abbrev pub value_of : Option Bytes → Bytes
value_of none = []
value_of (some rest) = unescape_json (until_quote quote rest)

unfoldable pub extract_json_string : Bytes → Bytes → Bytes
unfolding until_quote unescape_json
extract_json_string json key = value_of (find_after (key_pattern key (quote ∷ [])) json)

-- The digits and dashes that stand first.
unfoldable pub number_text : Bytes → Bytes
number_text [] = []
number_text (c ∷ s) = let rest = c ∷ number_text s in if is_digit c || c == b'-' then rest else []

abbrev pub or_zero : Option ℤ → ℤ
or_zero none = pos 0
or_zero (some z) = z

abbrev pub int_of : Option Bytes → ℤ
int_of none = pos 0
int_of (some rest) = or_zero (stoll (number_text rest))

unfoldable pub extract_json_int : Bytes → Bytes → ℤ
unfolding number_text
extract_json_int json key = int_of (find_after (key_pattern key []) json)

-- ChatMessage::fromJson.
unfoldable pub from_json : Bytes → Option ChatMessage
from_json json =
    let m : ChatMessage = record {
      msg_id = extract_json_string json (codes "msgId");
      sender_id = extract_json_string json (codes "senderId");
      sender_name = extract_json_string json (codes "senderName");
      timestamp_utc = extract_json_int json (codes "timestampUtc");
      text = extract_json_string json (codes "text");
    } in
    if is_empty m.msg_id || is_empty m.sender_id then none else some m

-- formatForDisplay: `clock` is std::localtime and strftime's "[%H:%M:%S]".
unfoldable pub format_for_display : (ℤ → Bytes) → ChatMessage → Bytes
format_for_display clock m = clock m.timestamp_utc
