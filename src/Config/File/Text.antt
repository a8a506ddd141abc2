-- ===== src/Config/File/Text.antt =====
-- Lines, blanks and numbers of the configuration file (src/config/config.cpp).
use lantalk.Common.{
  ℕ, suc, ◌^◌, ◌-◌, ◌<◌, ◌≡◌, refl, ap, ◌∙◌, ◌≢◌, Bool, true, false, List, [], ◌∷◌, ◌++◌, some,
  arith, Bytes, ◌==◌, All,
}
use lantalk.Common.Int.{ℤ, pos, negsuc}
use lantalk.Common.Decimal.{
  is_digit, IsDigit, to_string, print_ℕ, print_ℕ-IsDigit, print_ℕ-starts_with_digit,
  starts_with_digit, read_digits-print_ℕ, parse_magnitude, skip_spaces, stoi, parse_int-to_string,
}
use lantalk.Common.Search.{Lacks}
use lantalk.Config.{stoul, stoul_sign}
use lantalk.Config.File.{print_bool, write_lines, lines, is_blank, trim_left, trim_right, trim}

-- The lines of a text.
pub lines-first :
    (l : Bytes) (rest : Bytes) → Lacks b'\n' l → lines (l ++ b'\n' ∷ rest) ≡ l ∷ lines rest
unfolding lines
lines-first [] rest h = refl
lines-first (c ∷ l) rest h =
    let other : (c == b'\n') ≡ false = ground arith in
    rw (other, lines-first l rest h.1, lines) refl

pub lines-write_lines : (ls : List Bytes) → All (Lacks b'\n') ls → lines (write_lines ls) ≡ ls
unfolding write_lines
lines-write_lines [] h = unfold lines in refl
lines-write_lines (l ∷ ls) h =
    lines-first l (write_lines ls) h.0 ∙ ap (λ t. l ∷ t) (lines-write_lines ls h.1)

-- Text without blanks.
abbrev pub IsSolid : Bytes → Type 0
IsSolid = All (λ c. (is_blank c ≡ false) × (c ≢ b'\n'))

digit-solid : (c : ℕ) → is_digit c ≡ true → (is_blank c ≡ false) × (c ≢ b'\n')
digit-solid c h = ground arith

pub digits-IsSolid : (s : Bytes) → All IsDigit s → IsSolid s
digits-IsSolid [] h = tt
digits-IsSolid (c ∷ s) h = (digit-solid c h.0, digits-IsSolid s h.1)

pub to_string-IsSolid : (z : ℤ) → IsSolid (to_string z)
unfolding to_string
to_string-IsSolid (pos n) = digits-IsSolid (print_ℕ n) (print_ℕ-IsDigit n)
to_string-IsSolid (negsuc n) =
    ((refl, omega arith), digits-IsSolid (print_ℕ (suc n)) (print_ℕ-IsDigit (suc n)))

trim_right-IsSolid : (s : Bytes) → IsSolid s → trim_right s ≡ s
unfolding trim_right
trim_right-IsSolid [] h = refl
trim_right-IsSolid (c ∷ s) h = rw (h.0.0, trim_right-IsSolid s h.1) refl

pub trim-IsSolid : (s : Bytes) → IsSolid s → trim s ≡ s
unfolding trim_left
trim-IsSolid [] h = unfold trim_right in refl
trim-IsSolid (c ∷ s) h = rw (h.0.0, trim_left) (trim_right-IsSolid (c ∷ s) h)

pub Lacks-IsSolid : (s : Bytes) → IsSolid s → Lacks b'\n' s
Lacks-IsSolid [] h = tt
Lacks-IsSolid (c ∷ s) h = (h.0.1, Lacks-IsSolid s h.1)

pub print_bool-IsSolid : (b : Bool) → IsSolid (print_bool b)
print_bool-IsSolid true =
    ((refl, omega arith), ((refl, omega arith), ((refl, omega arith), ((refl, omega arith), tt))))
print_bool-IsSolid false = (
  (refl, omega arith),
  ((refl, omega arith), ((refl, omega arith), ((refl, omega arith), ((refl, omega arith), tt)))),
)

-- Numbers.
pub stoi-print_ℕ : (n : ℕ) → n < 2 ^ 31 → stoi (print_ℕ n) ≡ some (pos n)
stoi-print_ℕ n h = unfold to_string in parse_int-to_string (2 ^ 31) (pos n) h

stoul-digits :
    (s : Bytes) → starts_with_digit s ≡ true → stoul s ≡ parse_magnitude pos (2 ^ 64 - 1) s
unfolding stoul_sign skip_spaces
stoul-digits [] h = cc
stoul-digits (c ∷ s) h = ground arith

pub stoul-print_ℕ : (n : ℕ) → n < 2 ^ 32 → stoul (print_ℕ n) ≡ some (pos n)
stoul-print_ℕ n h =
    stoul-digits (print_ℕ n) (print_ℕ-starts_with_digit n)
    ∙ unfold parse_magnitude in ground (arith, print_ℕ-starts_with_digit n, read_digits-print_ℕ n)
