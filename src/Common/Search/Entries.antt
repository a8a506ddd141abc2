-- ===== src/Common/Search/Entries.antt =====
-- The search for a key among the entries of a JSON object.
use lantalk.Common.Tests.{◌==◌, Bool-cases}
use lantalk.Common.ByteString.{Bytes}
use Prim.Native.Nat.{ℕ}
use mathlib.Core.Path.{◌≡◌, refl, ◌∙◌}
use mathlib.Core.Logic.{◌≢◌, inl, inr}
use mathlib.Core.Option.{none, some}
use mathlib.Core.List.{[], ◌∷◌, ◌++◌, append_assoc}
use native.Mathlib.Omega.{arith}
use lantalk.Common.Search.{
  nil, plain, pair, strip_prefix, find_after, quote, IsKey, key_pattern, IsQuoted, Lacks, IsCloser,
  find_after-miss, strip_prefix-eq, find_after-here, find_after-Lacks, strip_prefix-value,
  strip_prefix-key, strip_prefix-other, IsKey-All, Lacks-key,
}

module _ (key more : Bytes) (k : IsKey key) where
  pub find_after-skip :
      (c : ℕ) (s : Bytes)
      → c ≢ quote
      → find_after (key_pattern key more) (c ∷ s) ≡ find_after (key_pattern key more) s
  find_after-skip c s h = find_after-Lacks _ (c ∷ []) s (h, tt)

  strip_prefix-opening :
      {v : Bytes} (c : ℕ) (s : Bytes)
      → IsQuoted v
      → IsCloser c
      → strip_prefix (key_pattern key more) (quote ∷ (v ++ quote ∷ c ∷ s)) ≡ none
  strip_prefix-opening c s q e =
      strip_prefix-eq quote _ _ ∙ strip_prefix-value key more c s (IsKey-All key k) q e

  find_after-value :
      {v : Bytes} (c : ℕ) (s : Bytes)
      → IsQuoted v
      → IsCloser c
      → find_after (key_pattern key more) (v ++ quote ∷ c ∷ s) ≡ find_after (key_pattern key more) s
  find_after-value c s nil e =
      find_after-miss _ quote (c ∷ s) (strip_prefix-other key more c s k (inr e))
      ∙ find_after-skip c s (ground arith)
  find_after-value c s (plain h g q) e = find_after-skip _ _ h ∙ find_after-value c s q e
  find_after-value c s (pair {b} {y} {s = v} h q) e =
      find_after-skip b _ (ground arith) ∙ elim (Bool-cases (y == quote)) [
        | inl same ↦
            let here : y ≡ quote = ground arith in
            rw here (
              find_after-miss _ quote (v ++ quote ∷ c ∷ s) (strip_prefix-opening c s q e)
              ∙ find_after-value c s q e)
        | inr other ↦ find_after-skip y _ (ground arith) ∙ find_after-value c s q e
      ]

  -- The name of another entry, up to its colon.
  find_after-name :
      (name t : Bytes)
      → IsKey name
      → key ≢ name
      → find_after (key_pattern key more) (quote ∷ (name ++ quote ∷ b':' ∷ t))
        ≡ find_after (key_pattern key more) t
  find_after-name name t n d =
      find_after-miss _ quote _ (
        strip_prefix-eq quote _ _
        ∙ strip_prefix-key key name more _ (IsKey-All key k) (IsKey-All name n) d)
      ∙ find_after-Lacks _ name _ (Lacks-key name (IsKey-All name n))
      ∙ find_after-miss _ quote _ (strip_prefix-other key more b':' t k (inl refl))
      ∙ find_after-skip b':' t (ground arith)

  -- An entry of another key, with a quoted value or with one that holds no quote, is passed over.
  pub find_after-string_entry :
      (name : Bytes) {v : Bytes} (c : ℕ) (s : Bytes)
      → IsKey name
      → key ≢ name
      → IsQuoted v
      → IsCloser c
      → find_after
          (key_pattern key more)
          (quote ∷ (name ++ quote ∷ b':' ∷ quote ∷ (v ++ quote ∷ c ∷ s)))
        ≡ find_after (key_pattern key more) s
  find_after-string_entry name c s n d q e =
      find_after-name name _ n d
      ∙ find_after-miss _ quote _ (strip_prefix-opening c s q e)
      ∙ find_after-value c s q e

  pub find_after-plain_entry :
      (name v s : Bytes)
      → IsKey name
      → key ≢ name
      → Lacks quote v
      → find_after (key_pattern key more) (quote ∷ (name ++ quote ∷ b':' ∷ (v ++ s)))
        ≡ find_after (key_pattern key more) s
  find_after-plain_entry name v s n d l = find_after-name name _ n d ∙ find_after-Lacks _ v s l

  -- The entry of the key itself: what follows the search text.
  pub find_after-own :
      (s : Bytes)
      → find_after (key_pattern key more) (quote ∷ (key ++ quote ∷ b':' ∷ (more ++ s))) ≡ some s
  find_after-own s =
      rw (← append_assoc key (quote ∷ b':' ∷ more) s)
        (find_after-here quote (key ++ quote ∷ b':' ∷ more) s)
