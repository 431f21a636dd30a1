-- ===== src/Text/Numbers.antt =====
-- `strconv.ParseUint(s, 10, 64)` as `urlParamUint` calls it (backend/internal/api/helpers.go),
-- `fmt.Sscanf(s, "%d", &v)` of `parseUintParam` and `fmt.Sprintf("%d", n)`
-- (backend/internal/api/handlers_costs.go).  A `uint` has 64 bits.
pub mod Uint
use Prim.Native.Char.{Char, code}
use cloud_cost_dashboard.Base.{
  ℕ, zero, suc, ◌+◌, ◌-◌, ◌*◌, ◌/◌, ◌%◌, ◌^◌, ◌<◌, ◌≡◌, refl, ◌∙◌, ap, String, Bool, true, false,
  ◌&&◌, ◌||◌, Option, none, some, arith, ltb, leb, ◌==◌, if◌then◌else◌, Bool-cases, inl, inr,
}

abbrev pub two_to_64 : ℕ
two_to_64 = 2 ^ 64

abbrev pub is_digit : ℕ → Bool
is_digit c = leb b'0' c && leb c b'9'

abbrev pub in_uint : ℕ → Option ℕ
in_uint n = if ltb n two_to_64 then some n else none

-- All of the text is digits.
parse_digits : ℕ → String → Option ℕ
parse_digits n String.[] = in_uint n
parse_digits n (String.◌∷◌ c rest) =
    if is_digit (code c) then parse_digits (n * 10 + (code c - b'0')) rest else none

unfoldable pub parse_uint : String → Option ℕ
unfolding parse_digits
parse_uint String.[] = none
parse_uint (String.◌∷◌ c rest) = parse_digits 0 (String.◌∷◌ c rest)

-- The runes that `Sscanf` skips, but for the newline, which it refuses.
abbrev pub is_space : ℕ → Bool
is_space c =
    leb 0x09 c && leb c 0x0d
    || c == 0x20
    || c == 0x85
    || c == 0xa0
    || c == 0x1680
    || leb 0x2000 c && leb c 0x200a
    || c == 0x2028
    || c == 0x2029
    || c == 0x202f
    || c == 0x205f
    || c == 0x3000

-- The digits up to the first other rune; what follows is not read.
scan_digits : ℕ → String → ℕ
scan_digits n String.[] = n
scan_digits n (String.◌∷◌ c rest) =
    let more = scan_digits (n * 10 + (code c - b'0')) rest in if is_digit (code c) then more else n

unfoldable pub scan_uint : String → Option ℕ
unfolding scan_digits
scan_uint String.[] = none
scan_uint (String.◌∷◌ c rest) =
    let skipped = scan_uint rest in
    if is_digit (code c)
    then in_uint (scan_digits 0 (String.◌∷◌ c rest))
    else if code c == b'\n'
    then none
    else if is_space (code c)
    then skipped
    else none

unfoldable pub digit : ℕ → Char
digit zero = "0"
digit (suc zero) = "1"
digit (suc (suc zero)) = "2"
digit (suc (suc (suc zero))) = "3"
digit (suc (suc (suc (suc zero)))) = "4"
digit (suc (suc (suc (suc (suc zero))))) = "5"
digit (suc (suc (suc (suc (suc (suc zero)))))) = "6"
digit (suc (suc (suc (suc (suc (suc (suc zero))))))) = "7"
digit (suc (suc (suc (suc (suc (suc (suc (suc zero)))))))) = "8"
digit (suc (suc (suc (suc (suc (suc (suc (suc (suc n))))))))) = "9"

-- The digits of `n` in front of `rest`, the last one first, on fuel.
print_onto : ℕ → ℕ → String → String
print_onto zero n rest = rest
print_onto (suc f) n rest =
    let longer = String.◌∷◌ (digit (n % 10)) rest in
    let all_of = print_onto f (n / 10) longer in if ltb n 10 then longer else all_of

-- One round more than `n` is enough fuel: each round takes a digit off.
unfoldable pub print_uint : ℕ → String
unfolding print_onto digit
print_uint n = print_onto (n + 1) n ""

code-digit : (n : ℕ) → n < 10 → code (digit n) ≡ n + b'0'
unfolding digit
code-digit zero h = refl
code-digit (suc zero) h = refl
code-digit (suc (suc zero)) h = refl
code-digit (suc (suc (suc zero))) h = refl
code-digit (suc (suc (suc (suc zero)))) h = refl
code-digit (suc (suc (suc (suc (suc zero))))) h = refl
code-digit (suc (suc (suc (suc (suc (suc zero)))))) h = refl
code-digit (suc (suc (suc (suc (suc (suc (suc zero))))))) h = refl
code-digit (suc (suc (suc (suc (suc (suc (suc (suc zero)))))))) h = refl
code-digit (suc (suc (suc (suc (suc (suc (suc (suc (suc n))))))))) h = omega arith

scan_digits-digit :
    (m n : ℕ) (rest : String)
    → n < 10
    → scan_digits m (String.◌∷◌ (digit n) rest) ≡ scan_digits (m * 10 + n) rest
unfolding scan_digits
scan_digits-digit m n rest h = ground (arith, code-digit n h)

scan_digits-print_onto :
    (f n : ℕ) (rest : String) → n < f → scan_digits 0 (print_onto f n rest) ≡ scan_digits n rest
unfolding print_onto
scan_digits-print_onto zero n rest h = absurd (omega arith)
scan_digits-print_onto (suc f) n rest h = elim (Bool-cases (ltb n 10)) [
  | inl last ↦ rw last (
      scan_digits-digit 0 (n % 10) rest (omega arith) ∙ ap (λ k. scan_digits k rest) (ground arith))
  | inr more ↦ rw more (
      scan_digits-print_onto f (n / 10) (String.◌∷◌ (digit (n % 10)) rest) (ground arith)
      ∙ scan_digits-digit (n / 10) (n % 10) rest (omega arith)
      ∙ ap (λ k. scan_digits k rest) (omega arith))
]

abbrev starts_with_digit : String → Bool
starts_with_digit String.[] = false
starts_with_digit (String.◌∷◌ c rest) = is_digit (code c)

starts_with_digit-digit :
    (n : ℕ) (rest : String) → starts_with_digit (String.◌∷◌ (digit (n % 10)) rest) ≡ true
starts_with_digit-digit n rest = ground (arith, code-digit (n % 10) (omega arith))

starts_with_digit-print_onto :
    (f n : ℕ) (rest : String)
    → starts_with_digit rest ≡ true
    → starts_with_digit (print_onto f n rest) ≡ true
unfolding print_onto
starts_with_digit-print_onto zero n rest h = h
starts_with_digit-print_onto (suc f) n rest h = elim (Bool-cases (ltb n 10)) [
  | inl last ↦ rw last (starts_with_digit-digit n rest)
  | inr more ↦ rw more (starts_with_digit-print_onto f (n / 10) _ (starts_with_digit-digit n rest))
]

starts_with_digit-print_uint : (n : ℕ) → starts_with_digit (print_onto (suc n) n "") ≡ true
unfolding print_onto
starts_with_digit-print_uint n = elim (Bool-cases (ltb n 10)) [
  | inl last ↦ rw last (starts_with_digit-digit n "")
  | inr more ↦ rw more (starts_with_digit-print_onto n (n / 10) _ (starts_with_digit-digit n ""))
]

scan_uint_of_digits :
    (s : String) → starts_with_digit s ≡ true → scan_uint s ≡ in_uint (scan_digits 0 s)
unfolding scan_uint
scan_uint_of_digits String.[] h = cc
scan_uint_of_digits (String.◌∷◌ c rest) h = rw h

scan_digits-nil : (n : ℕ) → scan_digits n "" ≡ n
unfolding scan_digits
scan_digits-nil n = refl

-- What `Sprintf("%d", n)` writes, `Sscanf` reads back.
pub scan_uint-print_uint : (n : ℕ) → n < two_to_64 → scan_uint (print_uint n) ≡ some n
unfolding print_uint
scan_uint-print_uint n h =
    let e : n + 1 ≡ suc n = omega arith in
    rw e (
      scan_uint_of_digits (print_onto (suc n) n "") (starts_with_digit-print_uint n)
      ∙ ap in_uint (scan_digits-print_onto (suc n) n "" (omega arith) ∙ scan_digits-nil n)
      ∙ ground arith)

scan_prefix : scan_uint " 12abc" ≡ some 12
unfolding scan_uint
scan_prefix = refl

print_number : print_uint 9071 ≡ "9071"
unfolding print_uint
print_number = refl

parse_too_large : parse_uint "18446744073709551616" ≡ none
unfolding parse_uint
parse_too_large = refl
