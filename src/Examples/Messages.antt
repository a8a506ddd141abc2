-- ===== src/Examples/Messages.antt =====
-- Messages (src/chat/message.cpp) at concrete inputs.
use lantalk.Common.{◌≡◌, refl, ◌++◌, some, arith, codes}
use lantalk.Common.Int.{negsuc}
use lantalk.Chat.Message.{ChatMessage, to_json, from_json}
use lantalk.Chat.Message.RoundTrip.{IsSound, from_json-to_json, from_json-to_json-backslash}

abbrev greeting : ChatMessage
greeting = record {
  msg_id = codes "m1";
  sender_id = codes "d1";
  sender_name = codes "A \"B\"";
  timestamp_utc = negsuc 4;
  text = codes "say \"hi\"\n\\o/";
}

greeting-IsSound : IsSound greeting
greeting-IsSound = record {
  msg_id_ne_nil = λ h. cc;
  sender_id_ne_nil = λ h. cc;
  msg_id_clean = λ h. omega arith;
  sender_id_clean = λ h. omega arith;
  sender_name_clean = λ h. omega arith;
  time_range = omega arith;
}

from_json-to_json_example : from_json (to_json greeting) ≡ some greeting
from_json-to_json_example = from_json-to_json greeting greeting-IsSound λ h. omega arith

abbrev windows_path : ChatMessage
windows_path = record greeting { text = codes "C:\\" }

windows_path-IsSound : IsSound windows_path
windows_path-IsSound = record {
  msg_id_ne_nil = λ h. cc;
  sender_id_ne_nil = λ h. cc;
  msg_id_clean = λ h. omega arith;
  sender_id_clean = λ h. omega arith;
  sender_name_clean = λ h. omega arith;
  time_range = omega arith;
}

from_json-to_json-backslash_example :
    from_json (to_json windows_path)
    ≡ some (record windows_path { text = windows_path.text ++ codes "\"}" })
from_json-to_json-backslash_example =
    from_json-to_json-backslash windows_path windows_path-IsSound refl
