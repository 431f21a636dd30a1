-- ===== src/Text/Integers.antt =====
-- `strconv.Atoi` and `fmt.Sprintf("%d", n)` for an `int`, which has 64 bits and a sign.
use Prim.Native.Char.{code}
use cloud_cost_dashboard.Base.{
  ℕ, zero, suc, ◌+◌, ◌^◌, ◌≡◌, refl, String, Option, none, some, ◌==◌, leb, ltb, if◌then◌else◌,
}
use cloud_cost_dashboard.Text.Numbers.{parse_uint, print_uint}

-- `negsuc n` is -(n + 1).
pub data ℤ : Type 0 where
  pos : ℕ → ℤ
  negsuc : ℕ → ℤ

abbrev pub negated : ℕ → ℤ
negated zero = pos 0
negated (suc n) = negsuc n

-- The magnitude in range: below 2^63, and 2^63 itself where it is negative.
positive_int : Option ℕ → Option ℤ
positive_int none = none
positive_int (some n) = if ltb n (2 ^ 63) then some (pos n) else none

negative_int : Option ℕ → Option ℤ
negative_int none = none
negative_int (some n) = if leb n (2 ^ 63) then some (negated n) else none

unfoldable pub parse_int : String → Option ℤ
unfolding positive_int negative_int
parse_int String.[] = none
parse_int (String.◌∷◌ c rest) =
    if code c == b'-'
    then negative_int (parse_uint rest)
    else if code c == b'+'
    then positive_int (parse_uint rest)
    else positive_int (parse_uint (String.◌∷◌ c rest))

unfoldable pub print_int : ℤ → String
print_int (pos n) = print_uint n
print_int (negsuc n) = String.◌∷◌ "-" (print_uint (n + 1))

parse_negative : parse_int "-15" ≡ some (negsuc 14)
unfolding parse_int parse_uint
parse_negative = refl

parse_bounds : parse_int "9223372036854775808" ≡ none
unfolding parse_int parse_uint
parse_bounds = refl

print_negative : print_int (negsuc 4) ≡ "-5"
unfolding print_int print_uint
print_negative = refl
