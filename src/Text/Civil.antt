-- ===== src/Text/Civil.antt =====
-- The calendar date of a time, and the layouts `2006-01-02` for printing and `20060102` for parsing.
use cloud_cost_dashboard.Base.{
  ℕ, zero, suc, ◌+◌, ◌-◌, ◌*◌, ◌/◌, ◌%◌, ◌≡◌, refl, String, Option, none, some, leb, if◌then◌else◌,
}
use cloud_cost_dashboard.Model.{Time}
use cloud_cost_dashboard.Text.Numbers.{digit}
use cloud_cost_dashboard.Text.Dates.{
  day, days_before_month, days_before_year, date, digits_2, checked_date,
}

-- `time.Time.Date()` and `civil.DateOf`.
pub record Civil : Type 0 where
  pub year : ℕ
  pub month : ℕ
  pub day : ℕ

-- The mean year has 365.2425 days, which is a year off at most.
year_of : ℕ → ℕ
year_of days =
    let guess = days * 400 / 146097 in
    if leb (days_before_year (guess + 1)) days
    then guess + 1
    else if leb (days_before_year guess) days
    then guess
    else guess - 1

-- The last month up to `m` that begins by the day.
month_of : ℕ → ℕ → ℕ → ℕ
month_of y d zero = 1
month_of y d (suc m) =
    let before = month_of y d m in if leb (days_before_month y (suc m)) d then suc m else before

unfoldable pub civil_of : Time → Civil
unfolding year_of month_of
civil_of t =
    let days = t / day in
    let y = year_of days in
    let d = days - days_before_year y in
    let m = month_of y d 12 in record { year = y; month = m; day = d - days_before_month y m + 1 }

abbrev pad_2 : ℕ → String → String
pad_2 n rest = String.◌∷◌ (digit (n / 10 % 10)) (String.◌∷◌ (digit (n % 10)) rest)

-- `t.Format("2006-01-02")`, for a year below 10000.
unfoldable pub format_date : Time → String
unfolding civil_of digit
format_date t =
    let c = civil_of t in
    pad_2 (c.year / 100)
      (pad_2 (c.year % 100) (String.◌∷◌ "-" (pad_2 c.month (String.◌∷◌ "-" (pad_2 c.day "")))))

abbrev joined : Option ℕ → Option ℕ → Option ℕ → Option ℕ → Option Time
joined (some c) (some y) (some m) (some d) = checked_date (c * 100 + y) m d
joined _ _ _ _ = none

-- `time.Parse("20060102", s)`.
unfoldable pub parse_compact_date : String → Option Time
parse_compact_date
      (String.◌∷◌ a (
        String.◌∷◌ b (
          String.◌∷◌ c (
            String.◌∷◌ d (String.◌∷◌ e (String.◌∷◌ f (String.◌∷◌ g (String.◌∷◌ h String.[])))))))) =
    joined (digits_2 a b) (digits_2 c d) (digits_2 e f) (digits_2 g h)
parse_compact_date _ = none

leap_day : format_date (date 2024 2 29) ≡ "2024-02-29"
unfolding format_date date
leap_day = refl

year_end : format_date (date 2023 12 31 + 5) ≡ "2023-12-31"
unfolding format_date date
year_end = refl

year_start : format_date (date 2001 1 1) ≡ "2001-01-01"
unfolding format_date date
year_start = refl

compact : parse_compact_date "20240229" ≡ some (date 2024 2 29)
unfolding parse_compact_date date
compact = refl
