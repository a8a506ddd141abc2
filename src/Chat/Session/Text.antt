-- ===== src/Chat/Session/Text.antt =====
-- The payloads of src/chat/chat_session.cpp as the other side's extractStr reads them.
use lantalk.Common.{
  ◌≡◌, refl, ap, ◌∙◌, ◌≢◌, [], ◌∷◌, ◌++◌, arith, Bytes, codes, append_assoc, inl, All,
}
use lantalk.Common.Decimal.{print_ℕ}
use lantalk.Common.Search.{find_after, key_pattern, quote, IsKey}
use lantalk.Common.Search.Entries.{find_after-skip, find_after-string_entry, find_after-own}
use lantalk.Chat.Session.Json.{json_escape, json_str, extract_str}
use lantalk.Chat.Session.Json.Strings.{
  seen, scan-json_escape, json_escape-IsQuoted, json_escape-clear, IsClear,
}
use lantalk.Chat.Session.{SessionConfig}
use lantalk.Chat.Session.Handlers.{hello_payload, auth_reply, response_payload}

-- An entry with its text behind it.
abbrev entry : Bytes → Bytes → Bytes → Bytes
entry key value rest = quote ∷ (key ++ quote ∷ b':' ∷ quote ∷ (json_escape value ++ quote ∷ rest))

json_str-append :
    (key value rest : Bytes) → All IsClear key → json_str key value ++ rest ≡ entry key value rest
unfolding json_str
json_str-append key value rest h = rw (json_escape-clear key h) (
    ap (◌∷◌ quote) (
      append_assoc key _ rest
      ∙ ap (◌++◌ key) (
          ap (λ t. quote ∷ b':' ∷ quote ∷ t) (append_assoc (json_escape value) (quote ∷ []) rest))))

-- An entry in the place where it is looked for, and one that is passed over.
extract-here :
    (key value rest json : Bytes)
    → find_after (key_pattern key (quote ∷ [])) json
      ≡ find_after (key_pattern key (quote ∷ [])) (entry key value rest)
    → IsKey key
    → extract_str json key ≡ seen value
unfolding extract_str
extract-here key value rest json h k = rw h (
    rw (find_after-own key (quote ∷ []) k (json_escape value ++ quote ∷ rest))
      (scan-json_escape value rest))

pass_entry :
    (key name value rest : Bytes)
    → IsKey key
    → IsKey name
    → key ≢ name
    → find_after (key_pattern key (quote ∷ [])) (entry name value (b',' ∷ rest))
      ≡ find_after (key_pattern key (quote ∷ [])) rest
pass_entry key name value rest k n d =
    find_after-string_entry key (quote ∷ []) k name b',' rest n d (json_escape-IsQuoted value)
      (inl refl)

pass_brace :
    (key rest : Bytes)
    → IsKey key
    → find_after (key_pattern key (quote ∷ [])) (b'{' ∷ rest)
      ≡ find_after (key_pattern key (quote ∷ [])) rest
pass_brace key rest k = find_after-skip key (quote ∷ []) k b'{' rest (omega arith)

module _ (g : SessionConfig) where
  port_entry : Bytes
  port_entry = codes "\"tcp_port\":" ++ (print_ℕ g.listen_port ++ codes "}")

  hello_entries :
      hello_payload g
      ≡ b'{'
        ∷ entry (codes "device_id") g.device_id (
            b','
            ∷ entry
                (codes "display_name")
                g.display_name
                (b',' ∷ entry (codes "platform") g.platform (b',' ∷ port_entry)))
  unfolding hello_payload port_entry
  hello_entries = ap (◌∷◌ b'{') (
      json_str-append (codes "device_id") g.device_id _ (omega arith)
      ∙ ap (λ t. entry (codes "device_id") g.device_id (b',' ∷ t))
          (json_str-append (codes "display_name") g.display_name _ (omega arith)
            ∙ ap (λ t. entry (codes "display_name") g.display_name (b',' ∷ t))
                (json_str-append (codes "platform") g.platform _ (omega arith))))

  -- The peer reads from a HELLO the device, the name and the platform that the session was
  -- configured with, with a control character other than newline, return and tab read as `u00` and
  -- two digits.
  pub extract_str-hello_payload :
      (extract_str (hello_payload g) (codes "device_id") ≡ seen g.device_id)
      × (extract_str (hello_payload g) (codes "display_name") ≡ seen g.display_name)
      × (extract_str (hello_payload g) (codes "platform") ≡ seen g.platform)
  extract_str-hello_payload = rw hello_entries (
    extract-here (codes "device_id") g.device_id _ _
        (pass_brace (codes "device_id") _ (omega arith)) (omega arith),
    extract-here (codes "display_name") g.display_name _ _
        (pass_brace (codes "display_name") _ (omega arith)
          ∙ pass_entry (codes "display_name") (codes "device_id") g.device_id _ (omega arith)
              (omega arith) (cc))
        (omega arith),
    extract-here (codes "platform") g.platform _ _
        (pass_brace (codes "platform") _ (omega arith)
          ∙ pass_entry (codes "platform") (codes "device_id") g.device_id _ (omega arith)
              (omega arith) (cc)
          ∙ pass_entry (codes "platform") (codes "display_name") g.display_name _ (omega arith)
              (omega arith) (cc))
        (omega arith),
  )

  response_entries :
      response_payload g
      ≡ b'{'
        ∷ entry
            (codes "response")
            (auth_reply g)
            (b',' ∷ entry (codes "device_id") g.device_id (codes "}"))
  unfolding response_payload
  response_entries = ap (◌∷◌ b'{') (
      json_str-append (codes "response") (auth_reply g) _ (omega arith)
      ∙ ap (λ t. entry (codes "response") (auth_reply g) (b',' ∷ t))
          (json_str-append (codes "device_id") g.device_id _ (omega arith)))

  -- The peer reads from an AUTH_RESPONSE the hash that the session was configured with, or "ok" where
  -- there is none, with a control character other than newline, return and tab
  -- read as `u00` and two digits.
  pub extract_str-response_payload :
      extract_str (response_payload g) (codes "response") ≡ seen (auth_reply g)
  extract_str-response_payload = rw response_entries (
      extract-here (codes "response") (auth_reply g) _ _
        (pass_brace (codes "response") _ (omega arith)) (omega arith))
