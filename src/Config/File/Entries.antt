-- ===== src/Config/File/Entries.antt =====
-- What load makes of each line that save writes, src/config/config.cpp.
use lantalk.Common.{
  ℕ, ◌^◌, ◌<◌, ◌≡◌, refl, ap, ◌∙◌, Bool, true, false, [], ◌∷◌, ◌++◌, some, arith, Bytes, codes,
}
use lantalk.Common.ByteString.{eq_bytes}
use lantalk.Common.Int.{ℤ, pos, InRange}
use lantalk.Common.Decimal.{to_string, print_ℕ, print_ℕ-IsDigit, stoi, parse_int-to_string}
use lantalk.Config.{AppConfig, with_number, wrap, stoul, set}
use lantalk.Config.File.{
  print_bool, last_of, trim_left, trim_right, trim, split_eq, kept, load_line,
}
use lantalk.Config.File.Text.{
  digits-IsSolid, to_string-IsSolid, trim-IsSolid, stoi-print_ℕ, stoul-print_ℕ,
}

-- A line of load, with the value's text in place of its trimmed text.
module _ (c : AppConfig) where
  entry_stoi :
      (s : Bytes) (z : ℤ) (f : ℤ → AppConfig)
      → trim s ≡ s
      → stoi s ≡ some z
      → kept c (with_number (stoi (trim s)) f) ≡ some (f z)
  entry_stoi s z f t h =
      ap (λ r. kept c (with_number (stoi r) f)) t ∙ ap (λ o. kept c (with_number o f)) h

  entry_stoul :
      (s : Bytes) (z : ℤ) (f : ℤ → AppConfig)
      → trim s ≡ s
      → stoul s ≡ some z
      → kept c (with_number (stoul (trim s)) f) ≡ some (f z)
  entry_stoul s z f t h =
      ap (λ r. kept c (with_number (stoul r) f)) t ∙ ap (λ o. kept c (with_number o f)) h

  is_true-print_bool : (b : Bool) → eq_bytes (trim (print_bool b)) (codes "true") ≡ b
  unfolding trim_left trim_right eq_bytes
  is_true-print_bool true = refl
  is_true-print_bool false = refl

  pub load_empty : load_line c [] ≡ some c
  unfolding load_line
  load_empty = refl

  pub load_section : (s : Bytes) → last_of b'[' s ≡ b']' → load_line c (b'[' ∷ s) ≡ some c
  unfolding load_line
  load_section s h = ground (arith, h)

  pub load_device_id :
      (v : Bytes)
      → trim v ≡ v
      → load_line c (codes "device_id = " ++ v) ≡ some (record c { device_id = v })
  unfolding load_line split_eq trim_left trim_right set eq_bytes
  load_device_id v h = ap (λ t. some (record c { device_id = t })) h

  pub load_display_name :
      (v : Bytes)
      → trim v ≡ v
      → load_line c (codes "display_name = " ++ v) ≡ some (record c { display_name = v })
  unfolding load_line split_eq trim_left trim_right set eq_bytes
  load_display_name v h = ap (λ t. some (record c { display_name = t })) h

  pub load_platform :
      (v : Bytes)
      → trim v ≡ v
      → load_line c (codes "platform = " ++ v) ≡ some (record c { platform = v })
  unfolding load_line split_eq trim_left trim_right set eq_bytes
  load_platform v h = ap (λ t. some (record c { platform = t })) h

  pub load_listen_port :
      (n : ℕ)
      → n < 2 ^ 16
      → load_line c (codes "listen_port = " ++ print_ℕ n) ≡ some (record c { listen_port = n })
  unfolding load_line split_eq trim_left trim_right set eq_bytes
  load_listen_port n h =
      entry_stoi (print_ℕ n) (pos n) (λ z. record c { listen_port = wrap 16 z })
        (trim-IsSolid (print_ℕ n) (digits-IsSolid _ (print_ℕ-IsDigit n)))
        (stoi-print_ℕ n (omega arith))
      ∙ ap (λ m. some (record c { listen_port = m })) (omega arith)

  pub load_discovery_port :
      (n : ℕ)
      → n < 2 ^ 16
      → load_line c (codes "discovery_port = " ++ print_ℕ n)
        ≡ some (record c { discovery_port = n })
  unfolding load_line split_eq trim_left trim_right set eq_bytes
  load_discovery_port n h =
      entry_stoi (print_ℕ n) (pos n) (λ z. record c { discovery_port = wrap 16 z })
        (trim-IsSolid (print_ℕ n) (digits-IsSolid _ (print_ℕ-IsDigit n)))
        (stoi-print_ℕ n (omega arith))
      ∙ ap (λ m. some (record c { discovery_port = m })) (omega arith)

  pub load_enable_ipv6 :
      (b : Bool)
      → load_line c (codes "enable_ipv6 = " ++ print_bool b) ≡ some (record c { enable_ipv6 = b })
  unfolding load_line split_eq trim_left trim_right set eq_bytes
  load_enable_ipv6 b = ap (λ t. some (record c { enable_ipv6 = t })) (is_true-print_bool b)

  pub load_max_message_size :
      (n : ℕ)
      → n < 2 ^ 32
      → load_line c (codes "max_message_size = " ++ print_ℕ n)
        ≡ some (record c { max_message_size = n })
  unfolding load_line split_eq trim_left trim_right set eq_bytes
  load_max_message_size n h =
      entry_stoul (print_ℕ n) (pos n) (λ z. record c { max_message_size = wrap 32 z })
        (trim-IsSolid (print_ℕ n) (digits-IsSolid _ (print_ℕ-IsDigit n)))
        (stoul-print_ℕ n (omega arith))
      ∙ ap (λ m. some (record c { max_message_size = m })) (omega arith)

  pub load_connect_timeout_secs :
      (n : ℤ)
      → InRange (2 ^ 31) n
      → load_line c (codes "connect_timeout_secs = " ++ to_string n)
        ≡ some (record c { connect_timeout_secs = n })
  unfolding load_line split_eq trim_left trim_right set eq_bytes
  load_connect_timeout_secs n h =
      entry_stoi (to_string n) n (λ z. record c { connect_timeout_secs = z })
        (trim-IsSolid (to_string n) (to_string-IsSolid n)) (parse_int-to_string (2 ^ 31) n h)

  pub load_read_timeout_secs :
      (n : ℤ)
      → InRange (2 ^ 31) n
      → load_line c (codes "read_timeout_secs = " ++ to_string n)
        ≡ some (record c { read_timeout_secs = n })
  unfolding load_line split_eq trim_left trim_right set eq_bytes
  load_read_timeout_secs n h =
      entry_stoi (to_string n) n (λ z. record c { read_timeout_secs = z })
        (trim-IsSolid (to_string n) (to_string-IsSolid n)) (parse_int-to_string (2 ^ 31) n h)

  pub load_keepalive_interval_secs :
      (n : ℤ)
      → InRange (2 ^ 31) n
      → load_line c (codes "keepalive_interval_secs = " ++ to_string n)
        ≡ some (record c { keepalive_interval_secs = n })
  unfolding load_line split_eq trim_left trim_right set eq_bytes
  load_keepalive_interval_secs n h =
      entry_stoi (to_string n) n (λ z. record c { keepalive_interval_secs = z })
        (trim-IsSolid (to_string n) (to_string-IsSolid n)) (parse_int-to_string (2 ^ 31) n h)

  pub load_discovery_enabled :
      (b : Bool)
      → load_line c (codes "discovery_enabled = " ++ print_bool b)
        ≡ some (record c { discovery_enabled = b })
  unfolding load_line split_eq trim_left trim_right set eq_bytes
  load_discovery_enabled b =
      ap (λ t. some (record c { discovery_enabled = t })) (is_true-print_bool b)

  pub load_psk_hash :
      (v : Bytes)
      → trim v ≡ v
      → load_line c (codes "psk_hash = " ++ v) ≡ some (record c { psk_hash = v })
  unfolding load_line split_eq trim_left trim_right set eq_bytes
  load_psk_hash v h = ap (λ t. some (record c { psk_hash = t })) h

  pub load_require_auth :
      (b : Bool)
      → load_line c (codes "require_auth = " ++ print_bool b) ≡ some (record c { require_auth = b })
  unfolding load_line split_eq trim_left trim_right set eq_bytes
  load_require_auth b = ap (λ t. some (record c { require_auth = t })) (is_true-print_bool b)

  pub load_log_level :
      (v : Bytes)
      → trim v ≡ v
      → load_line c (codes "log_level = " ++ v) ≡ some (record c { log_level = v })
  unfolding load_line split_eq trim_left trim_right set eq_bytes
  load_log_level v h = ap (λ t. some (record c { log_level = t })) h

  pub load_log_file :
      (v : Bytes)
      → trim v ≡ v
      → load_line c (codes "log_file = " ++ v) ≡ some (record c { log_file = v })
  unfolding load_line split_eq trim_left trim_right set eq_bytes
  load_log_file v h = ap (λ t. some (record c { log_file = t })) h
