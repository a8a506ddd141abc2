-- ===== src/Common/Decimal.antt =====
-- std::to_string and the std::stoi family: decimal text of numbers.
use Prim.Native.Nat.{ℕ, zero, suc, ◌+◌, ◌-◌, ◌*◌, ◌/◌, ◌%◌, ◌^◌, ◌<◌}
use mathlib.Core.Path.{◌≡◌, ◌∙◌}
use mathlib.Core.Bool.{Bool, true, false, ◌&&◌, ◌||◌}
use mathlib.Core.Option.{Option, none, some}
use mathlib.Core.List.{[], ◌∷◌}
use native.Mathlib.Omega.{arith}
use lantalk.Common.Tests.{ltb, leb, ◌==◌, if◌then◌else◌}
use lantalk.Common.Lists.{All}
use lantalk.Common.ByteString.{Bytes}
use lantalk.Common.Int.{ℤ, pos, negsuc, neg_ℕ, InRange}

abbrev pub is_digit : ℕ → Bool
is_digit c = leb b'0' c && leb c b'9'

-- std::isspace in the "C" locale.
abbrev pub is_space : ℕ → Bool
is_space c = c == 32 || (leb 9 c && leb c 13)

-- The digits of `n` in front of `out`. Each round divides by ten, so `suc n` rounds are enough.
unfoldable pub print_onto : ℕ → ℕ → Bytes → Bytes
print_onto zero n out = out
print_onto (suc f) n out =
    let digit = b'0' + n % 10 in
    let more = print_onto f (n / 10) (digit ∷ out) in if ltb n 10 then digit ∷ out else more

unfoldable pub print_ℕ : ℕ → Bytes
unfolding print_onto
print_ℕ n = print_onto (suc n) n []

unfoldable pub to_string : ℤ → Bytes
unfolding print_ℕ
to_string (pos n) = print_ℕ n
to_string (negsuc n) = b'-' ∷ print_ℕ (suc n)

-- The value of the digits that stand first.
unfoldable pub read_digits : ℕ → Bytes → ℕ
read_digits acc [] = acc
read_digits acc (c ∷ s) =
    let rest = read_digits (acc * 10 + (c - b'0')) s in if is_digit c then rest else acc

abbrev pub starts_with_digit : Bytes → Bool
starts_with_digit [] = false
starts_with_digit (c ∷ s) = is_digit c

unfoldable pub skip_spaces : Bytes → Bytes
skip_spaces [] = []
skip_spaces (c ∷ s) = let rest = skip_spaces s in if is_space c then rest else c ∷ s

-- Behind the sign: `none` where std::invalid_argument or std::out_of_range is thrown.
unfoldable pub parse_magnitude : (ℕ → ℤ) → ℕ → Bytes → Option ℤ
unfolding read_digits
parse_magnitude sign max s =
    if starts_with_digit s
    then if leb (read_digits 0 s) max then some (sign (read_digits 0 s)) else none
    else none

unfoldable pub parse_sign : ℕ → Bytes → Option ℤ
unfolding parse_magnitude
parse_sign bound [] = none
parse_sign bound (c ∷ s) =
    if c == b'-'
    then parse_magnitude neg_ℕ bound s
    else if c == b'+'
    then parse_magnitude pos (bound - 1) s
    else parse_magnitude pos (bound - 1) (c ∷ s)

-- std::stoll and std::stoi.
unfoldable pub parse_int : ℕ → Bytes → Option ℤ
unfolding parse_sign skip_spaces
parse_int bound s = parse_sign bound (skip_spaces s)

abbrev pub stoll : Bytes → Option ℤ
stoll = parse_int (2 ^ 63)

abbrev pub stoi : Bytes → Option ℤ
stoi = parse_int (2 ^ 31)

abbrev pub IsDigit : ℕ → Type 0
IsDigit c = is_digit c ≡ true

pub read_digits-print_onto :
    (f n : ℕ) (out : Bytes) → n < f → read_digits 0 (print_onto f n out) ≡ read_digits n out
unfolding read_digits print_onto
read_digits-print_onto zero n out h = absurd (omega arith)
read_digits-print_onto (suc f) n out h =
    ground (arith, read_digits-print_onto f (n / 10) ((b'0' + n % 10) ∷ out))

pub print_onto-IsDigit :
    (f n : ℕ) (out : Bytes) → All IsDigit out → All IsDigit (print_onto f n out)
unfolding print_onto
print_onto-IsDigit zero n out h = h
print_onto-IsDigit (suc f) n out h =
    ground (arith, print_onto-IsDigit f (n / 10) ((b'0' + n % 10) ∷ out))

print_onto-starts_with_digit :
    (f n : ℕ) (out : Bytes)
    → starts_with_digit out ≡ true
    → starts_with_digit (print_onto f n out) ≡ true
unfolding print_onto
print_onto-starts_with_digit zero n out h = h
print_onto-starts_with_digit (suc f) n out h =
    ground (arith, print_onto-starts_with_digit f (n / 10) ((b'0' + n % 10) ∷ out))

pub print_ℕ-starts_with_digit : (n : ℕ) → starts_with_digit (print_ℕ n) ≡ true
unfolding print_ℕ
print_ℕ-starts_with_digit n =
    ground (arith, print_onto-starts_with_digit n (n / 10) ((b'0' + n % 10) ∷ []))

pub print_ℕ-IsDigit : (n : ℕ) → All IsDigit (print_ℕ n)
unfolding print_ℕ
print_ℕ-IsDigit n = print_onto-IsDigit (suc n) n [] tt

pub read_digits-print_ℕ : (n : ℕ) → read_digits 0 (print_ℕ n) ≡ n
unfolding print_ℕ read_digits
read_digits-print_ℕ n = read_digits-print_onto (suc n) n [] (omega arith)

parse_sign-digits :
    (bound : ℕ) (s : Bytes)
    → starts_with_digit s ≡ true
    → parse_int bound s ≡ parse_magnitude pos (bound - 1) s
unfolding parse_int
parse_sign-digits bound [] h = cc
parse_sign-digits bound (c ∷ s) h = ground arith

-- Every number of the type is read back from its decimal text.
pub parse_int-to_string :
    (bound : ℕ) (z : ℤ) → InRange bound z → parse_int bound (to_string z) ≡ some z
unfolding to_string parse_magnitude
parse_int-to_string bound (pos n) h =
    parse_sign-digits bound (print_ℕ n) (print_ℕ-starts_with_digit n)
    ∙ ground (arith, print_ℕ-starts_with_digit n, read_digits-print_ℕ n)
parse_int-to_string bound (negsuc n) h =
    unfold parse_int in
    ground (arith, print_ℕ-starts_with_digit (suc n), read_digits-print_ℕ (suc n))
