-- ===== src/Providers/Csv/Rows.antt =====
-- Which files `ParseCostCSV` accepts, and with what records.
use cloud_cost_dashboard.Base.{
  ℕ, ◌+◌, ◌<◌, String, ◌≡◌, refl, sym, ◌∙◌, ap, ap₂, ◌↔◌, inl, inr, Bool, ◌||◌, not, Option, none,
  some, List, [], ◌∷◌, arith, ltb, length, Bool-cases, if-true, if-false,
}
use cloud_cost_dashboard.Base.Exec.{Result, ok, err}
use cloud_cost_dashboard.Model.{Time, Float64}
use cloud_cost_dashboard.Text.Dates.{parse_date}
use cloud_cost_dashboard.Text.Spaces.{trim_space}
use cloud_cost_dashboard.Providers.Records.{CostRecord}
use cloud_cost_dashboard.Providers.Csv.{
  Conversions, Columns, at_line, columns_of, cell, currency_of, dated_row, parse_row, then_row,
  parse_rows, rows_under, parse_cost_csv,
}

-- The record that a row stands for.
pub record IsParsed (conv : Conversions) (cols : Columns) (row : List String) (r : CostRecord)
    : Type 0 where
  pub wide : (cols.date < length row) × (cols.service < length row) × (cols.amount < length row)
  pub date : parse_date (trim_space (cell row cols.date)) ≡ some r.date
  pub amount : conv.parse_float (trim_space (cell row cols.amount)) ≡ some r.amount
  pub service : r.service_name ≡ trim_space (cell row cols.service)
  pub currency : r.currency ≡ currency_of cols.currency row

-- One record for each row, in the order of the rows.
abbrev pub EachRow : Conversions → Columns → List (List String) → List CostRecord → Type 0
EachRow conv cols [] [] = Unit
EachRow conv cols [] (r ∷ rs) = ⊥
EachRow conv cols (row ∷ rows) [] = ⊥
EachRow conv cols (row ∷ rows) (r ∷ rs) = IsParsed conv cols row r × EachRow conv cols rows rs

module _ (conv : Conversions) (cols : Columns) where
  dated_row_sound :
      (at : String) (row : List String) (date : Option Time) (amount : Option Float64)
      (r : CostRecord)
      → dated_row conv cols at row date amount ≡ ok r
      → (date ≡ some r.date)
        × (amount ≡ some r.amount)
        × (r.service_name ≡ trim_space (cell row cols.service))
        × (r.currency ≡ currency_of cols.currency row)
  dated_row_sound at row none amount r h = cc
  dated_row_sound at row (some t) none r h = cc
  dated_row_sound at row (some t) (some v) r h = ground arith

  dated_row_complete :
      (at : String) (row : List String) (r : CostRecord)
      → r.service_name ≡ trim_space (cell row cols.service)
      → r.currency ≡ currency_of cols.currency row
      → dated_row conv cols at row (some r.date) (some r.amount) ≡ ok r
  dated_row_complete at row r service currency = ground arith

  -- The three required columns are there.
  abbrev too_narrow : List String → Bool
  too_narrow row =
      not (ltb cols.date (length row))
      || (not (ltb cols.service (length row)) || not (ltb cols.amount (length row)))

  parse_row_sound :
      (line : ℕ) (row : List String) (r : CostRecord)
      → parse_row conv cols line row ≡ ok r
      → IsParsed conv cols row r
  unfolding parse_row
  parse_row_sound line row r h = elim (Bool-cases (too_narrow row)) [
    | inl narrow ↦ cc (if-true {A = Result CostRecord} _ _ narrow, h)
    | inr enough ↦
        let (date, amount, service, currency) =
          dated_row_sound _ row (parse_date (trim_space (cell row cols.date)))
            (conv.parse_float (trim_space (cell row cols.amount))) r
            (sym (if-false {A = Result CostRecord} _ _ enough) ∙ h) in
        record {
          wide = ground arith;
          date = date;
          amount = amount;
          service = service;
          currency = currency;
        }
  ]

  parse_row_complete :
      (line : ℕ) (row : List String) (r : CostRecord)
      → IsParsed conv cols row r
      → parse_row conv cols line row ≡ ok r
  unfolding parse_row
  parse_row_complete line row r p =
      if-false {A = Result CostRecord} {b = too_narrow row} _ _ (ground (arith, p.wide))
      ∙ ap₂ (dated_row conv cols (at_line line) row) p.date p.amount
      ∙ dated_row_complete (at_line line) row r p.service p.currency

  then_row-cases :
      (a : Result CostRecord) (b : Result (List CostRecord)) (rs : List CostRecord)
      → then_row a b ≡ ok rs
      → (r : CostRecord) × (l : List CostRecord) × (a ≡ ok r) × (b ≡ ok l) × (rs ≡ r ∷ l)
  then_row-cases (err e) b rs h = cc
  then_row-cases (ok r) (err e) rs h = cc
  then_row-cases (ok r) (ok l) rs h = (r, l, refl, refl, cc h)

  parse_rows_sound :
      (line : ℕ) (rows : List (List String)) (rs : List CostRecord)
      → parse_rows conv cols line rows ≡ ok rs
      → EachRow conv cols rows rs
  unfolding parse_rows
  parse_rows_sound line [] [] h = tt
  parse_rows_sound line [] (r ∷ rs) h = cc
  parse_rows_sound line (row ∷ rows) rs h =
      let (r, l, here, later, e) =
        then_row-cases (parse_row conv cols line row) (parse_rows conv cols (line + 1) rows) rs h in
      rw e (parse_row_sound line row r here, parse_rows_sound (line + 1) rows l later)

  parse_rows_complete :
      (line : ℕ) (rows : List (List String)) (rs : List CostRecord)
      → EachRow conv cols rows rs
      → parse_rows conv cols line rows ≡ ok rs
  unfolding parse_rows
  parse_rows_complete line [] [] h = refl
  parse_rows_complete line [] (r ∷ rs) h = absurd h
  parse_rows_complete line (row ∷ rows) [] h = absurd h
  parse_rows_complete line (row ∷ rows) (r ∷ rs) (p, h) =
      ap₂ then_row (parse_row_complete line row r p) (parse_rows_complete (line + 1) rows rs h)

-- A file whose header has the columns is accepted exactly with one record for each row below the
-- header, in their order, each the record that its row stands for.
pub parse_cost_csv_iff :
    (conv : Conversions) (header : List String) (rows : List (List String)) (cols : Columns)
    (rs : List CostRecord)
    → columns_of header ≡ ok cols
    → (parse_cost_csv conv (ok (header ∷ rows)) ≡ ok rs) ↔ EachRow conv cols rows rs
unfolding parse_cost_csv
parse_cost_csv_iff conv header rows cols rs found =
    let opened = ap (λ c. rows_under conv c rows) found in
    (
      λ h. parse_rows_sound conv cols 2 rows rs (sym opened ∙ h),
      λ each. opened ∙ parse_rows_complete conv cols 2 rows rs each,
    )
