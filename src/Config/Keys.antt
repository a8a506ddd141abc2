-- ===== src/Config/Keys.antt =====
-- The keys of the configuration: set and getAsString of src/config/config.cpp.
use lantalk.Common.{◌≡◌, refl, inl, inr, none, some, Bytes, codes, eq_bytes_iff, Bool-cases}
use lantalk.Common.ByteString.{eq_bytes}
use lantalk.Config.{AppConfig, stored, set, get_as_string}

-- A key that can be read can be set to any text, and then reads back that text.
pub get_as_string-set :
    (c : AppConfig) (key v : Bytes) {w : Bytes}
    → get_as_string c key ≡ some w
    → (d : AppConfig) × (set c key v ≡ stored d) × (get_as_string d key ≡ some v)
unfolding set get_as_string eq_bytes
get_as_string-set c key v {w} h = elim (Bool-cases (eq_bytes key (codes "device_id"))) [
  | inl e ↦ rw ((eq_bytes_iff key (codes "device_id")).0 e) (record c { device_id = v }, refl, refl)
  | inr n1 ↦ elim (Bool-cases (eq_bytes key (codes "display_name"))) [
    | inl e ↦
        rw ((eq_bytes_iff key (codes "display_name")).0 e)
          (record c { display_name = v }, refl, refl)
    | inr n2 ↦ elim (Bool-cases (eq_bytes key (codes "platform"))) [
      | inl e ↦
          rw ((eq_bytes_iff key (codes "platform")).0 e) (record c { platform = v }, refl, refl)
      | inr n3 ↦ elim (Bool-cases (eq_bytes key (codes "log_level"))) [
        | inl e ↦
            rw ((eq_bytes_iff key (codes "log_level")).0 e) (record c { log_level = v }, refl, refl)
        | inr n4 ↦ elim (Bool-cases (eq_bytes key (codes "log_file"))) [
          | inl e ↦
              rw ((eq_bytes_iff key (codes "log_file")).0 e) (record c { log_file = v }, refl, refl)
          | inr n5 ↦ let bad : none ≡ some w = rw (n1, n2, n3, n4, n5, get_as_string) at h in cc
        ]
      ]
    ]
  ]
]
