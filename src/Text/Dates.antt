-- ===== src/Text/Dates.antt =====
-- Times: what the backend uses of Go's `time`, in UTC.
use Prim.Native.Char.{Char, code}
use cloud_cost_dashboard.Base.{
  ℕ, zero, suc, ◌+◌, ◌-◌, ◌*◌, ◌/◌, ◌%◌, ◌≡◌, refl, String, Bool, ◌&&◌, ◌||◌, not, Option, none,
  some, leb, ◌==◌, if◌then◌else◌,
}
use cloud_cost_dashboard.Model.{Time}
use cloud_cost_dashboard.Text.Numbers.{is_digit}

-- Nanoseconds in `24 * time.Hour`; a time counts them from 0000-01-01 on.
abbrev pub day : Time
day = 86_400_000_000_000

-- `t.Truncate(24 * time.Hour)`; the zero time is a whole number of days from the origin.
abbrev pub truncate_to_day : Time → Time
truncate_to_day t = t - t % day

-- `t.AddDate(0, 0, -n)`; stops at the origin, in the year 0.
abbrev pub days_before : ℕ → Time → Time
days_before n t = t - n * day

abbrev pub is_leap : ℕ → Bool
is_leap y = y % 4 == 0 && (not (y % 100 == 0) || y % 400 == 0)

abbrev pub days_in : ℕ → ℕ → ℕ
days_in y m =
    if m == 2
    then (if is_leap y then 29 else 28)
    else (if m == 4 || (m == 6 || (m == 9 || m == 11)) then 30 else 31)

-- The days of the year before month `m`.
abbrev pub days_before_month : ℕ → ℕ → ℕ
days_before_month y zero = 0
days_before_month y (suc zero) = 0
days_before_month y (suc (suc m)) = days_before_month y (suc m) + days_in y (suc m)

abbrev pub days_before_year : ℕ → ℕ
days_before_year y = 365 * y + (y + 3) / 4 + (y + 399) / 400 - (y + 99) / 100

-- `time.Date(y, m, d, 0, 0, 0, 0, time.UTC)`, for a month from 1 to 12 and a day from 1 on.
unfoldable pub date : ℕ → ℕ → ℕ → Time
date y m d = (days_before_year y + days_before_month y m + (d - 1)) * day

abbrev pub digits_2 : Char → Char → Option ℕ
digits_2 a b =
    if is_digit (code a) && is_digit (code b)
    then some ((code a - b'0') * 10 + (code b - b'0'))
    else none

-- The checks that `time.Parse` makes of a date.
abbrev pub checked_date : ℕ → ℕ → ℕ → Option Time
checked_date y m d =
    if leb 1 m && leb m 12 && (leb 1 d && leb d (days_in y m)) then some (date y m d) else none

abbrev dashed : Char → Char → Option ℕ → Option ℕ → Option ℕ → Option ℕ → Option Time
dashed p q (some c) (some y) (some m) (some d) =
    if code p == b'-' && code q == b'-' then checked_date (c * 100 + y) m d else none
dashed p q _ _ _ _ = none

-- `time.Parse("2006-01-02", s)`.
unfoldable pub parse_date : String → Option Time
parse_date
      (String.◌∷◌ a (
        String.◌∷◌ b (
          String.◌∷◌ c (
            String.◌∷◌ d (
              String.◌∷◌ p (
                String.◌∷◌ e
                  (String.◌∷◌ f (String.◌∷◌ q (String.◌∷◌ g (String.◌∷◌ h String.[])))))))))) =
    dashed p q (digits_2 a b) (digits_2 c d) (digits_2 e f) (digits_2 g h)
parse_date _ = none

epoch : parse_date "1970-01-01" ≡ some (719528 * day)
unfolding parse_date date
epoch = refl
