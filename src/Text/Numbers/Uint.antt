-- ===== src/Text/Numbers/Uint.antt =====
-- Which texts are numbers of 64 bits: `urlParamUint` of backend/internal/api/helpers.go.
use Prim.Native.Char.{code}
use native.Mathlib.Nat.{add-mul, pow-suc, mul_assoc, mul_comm}
use cloud_cost_dashboard.Base.{
  ℕ, suc, ◌+◌, ◌-◌, ◌*◌, ◌^◌, ◌<◌, ◌≡◌, refl, sym, ◌∙◌, ap, ◌≢◌, ◌↔◌, inl, inr, String, Bool, true,
  ◌&&◌, none, some, arith, if◌then◌else◌, Bool-cases, if-true, if-false,
}
use cloud_cost_dashboard.Text.Numbers.{two_to_64, is_digit, in_uint, parse_digits, parse_uint}

abbrev pub text_length : String → ℕ
text_length String.[] = 0
text_length (String.◌∷◌ c rest) = suc (text_length rest)

-- The number that digits write in base ten: each counts by its place.
abbrev pub value : String → ℕ
value String.[] = 0
value (String.◌∷◌ c rest) = (code c - b'0') * 10 ^ text_length rest + value rest

abbrev pub all_digits : String → Bool
all_digits String.[] = true
all_digits (String.◌∷◌ c rest) = is_digit (code c) && all_digits rest

horner : (m k x v : ℕ) → (m * 10 + k) * x + v ≡ m * (x * 10) + (k * x + v)
horner m k x v =
    ap (λ y. y + v)
      (add-mul (m * 10) k x
        ∙ ap (λ y. y + k * x) (mul_assoc m 10 x ∙ ap (λ y. m * y) (mul_comm 10 x)))
    ∙ omega arith

parse_digits-value :
    (m : ℕ) (s : String)
    → parse_digits m s ≡ (if all_digits s then in_uint (m * 10 ^ text_length s + value s) else none)
unfolding parse_digits
parse_digits-value m String.[] = ap in_uint (omega arith)
parse_digits-value m (String.◌∷◌ c rest) =
    let k = code c - b'0' in
    let pow : 10 ^ (suc (text_length rest)) ≡ 10 ^ text_length rest * 10 =
      pow-suc 10 (text_length rest) in
    let more = parse_digits-value (m * 10 + k) rest in
    let e = horner m k (10 ^ text_length rest) (value rest) in
    elim (Bool-cases (is_digit (code c))) [
      | inl good ↦ rw good (
          more
          ∙ ap (λ n. if all_digits rest then in_uint n else none)
              (e ∙ ap (λ x. m * x + (k * 10 ^ text_length rest + value rest)) (sym pow)))
      | inr bad ↦ rw bad refl
    ]

in_uint_iff : (k n : ℕ) → (in_uint k ≡ some n) ↔ ((k ≡ n) × (n < two_to_64))
in_uint_iff k n = (λ h. (ground arith, ground arith), λ h. ground (arith, h.0, h.1))

pub parse_uint_iff :
    (s : String) (n : ℕ)
    → (parse_uint s ≡ some n) ↔ ((s ≢ "") × (all_digits s ≡ true) × (value s ≡ n) × (n < two_to_64))
unfolding parse_uint
parse_uint_iff String.[] n = (λ h. cc, λ h. absurd (h.0 refl))
parse_uint_iff (String.◌∷◌ c rest) n =
    let s = String.◌∷◌ c rest in
    let from_zero : 0 * 10 ^ text_length s + value s ≡ value s = omega arith in
    let parsed =
      parse_digits-value 0 s ∙ ap (λ k. if all_digits s then in_uint k else none) from_zero in
    elim (Bool-cases (all_digits s)) [
      | inl digits ↦
          let e = parsed ∙ if-true (in_uint (value s)) none digits in
          (
            λ h.
                let (same, small) = (in_uint_iff (value s) n).0 (sym e ∙ h) in
                ((λ empty. cc), digits, same, small),
            λ h. e ∙ (in_uint_iff (value s) n).1 (h.2, h.3),
          )
      | inr other ↦
          (λ h. cc (parsed ∙ if-false (in_uint (value s)) none other, h), λ h. cc (other, h.1))
    ]
