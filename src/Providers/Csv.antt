-- ===== src/Providers/Csv.antt =====
-- backend/internal/providers/csv.go, from the rows that `csv.Reader.ReadAll` returns on.
pub mod Rows
use Prim.Native.String
use cloud_cost_dashboard.Base.{
  ℕ, ◌+◌, String, Bool, true, false, ◌&&◌, ◌||◌, not, Option, none, some, List, [], ◌∷◌, get_elem?,
  str_eq, if◌then◌else◌, ltb, length,
}
use cloud_cost_dashboard.Base.Exec.{Result, ok, err}
use cloud_cost_dashboard.Model.{Time, Float64}
use cloud_cost_dashboard.Text.Numbers.{print_uint}
use cloud_cost_dashboard.Text.Dates.{parse_date}
use cloud_cost_dashboard.Text.Spaces.{trim_space, lower_eq}
use cloud_cost_dashboard.Providers.Records.{CostRecord}

-- `strconv.ParseFloat(s, 64)` and the verb %q, which have no definition here.
pub record Conversions : Type 0 where
  pub parse_float : String → Option Float64
  pub quote : String → String

-- `colIndex[name]`: the last column whose trimmed header is the name in some case.
unfoldable pub col_index : String → ℕ → List String → Option ℕ
col_index name i [] = none
col_index name i (col ∷ cols) = elim (col_index name (i + 1) cols) [
  | some j ↦ some j
  | none ↦ if lower_eq (trim_space col) name then some i else none
]

-- The columns of a header that has the three required ones.
pub record Columns : Type 0 where
  pub date : ℕ
  pub service : ℕ
  pub amount : ℕ
  pub currency : Option ℕ

abbrev all_of : Option ℕ → Option ℕ → Option ℕ → Option ℕ → Result Columns
all_of (some d) (some s) (some a) c =
    ok (record { date = d; service = s; amount = a; currency = c })
all_of _ _ _ c = err "csv: header must include date, service_name, amount columns"

unfoldable pub columns_of : List String → Result Columns
unfolding col_index
columns_of header =
    all_of (col_index "date" 0 header) (col_index "service_name" 0 header)
      (col_index "amount" 0 header) (col_index "currency" 0 header)

-- A cell; out of range there is none.
abbrev pub cell : List String → ℕ → String
cell row i = elim (get_elem? row i) [ some c ↦ c | none ↦ "" ]

-- The currency of a row: USD where the column is missing or blank.
unfoldable pub currency_of : Option ℕ → List String → String
currency_of none row = "USD"
currency_of (some i) row =
    if str_eq (trim_space (cell row i)) "" then "USD" else trim_space (cell row i)

infixl 65 ◌++◌
abbrev ◌++◌ : String → String → String
s ++ t = String.◌++◌ s t

abbrev pub at_line : ℕ → String
at_line line = "csv: row " ++ print_uint line

abbrev pub then_row : Result CostRecord → Result (List CostRecord) → Result (List CostRecord)
then_row (err e) rest = err e
then_row (ok r) (err e) = err e
then_row (ok r) (ok rs) = ok (r ∷ rs)

module _ (conv : Conversions) where
  open conv use {parse_float, quote}

  abbrev dated_row :
      Columns → String → List String → Option Time → Option Float64 → Result CostRecord
  dated_row cols at row none amount =
      err (at ++ ": invalid date " ++ quote (cell row cols.date) ++ " (want YYYY-MM-DD)")
  dated_row cols at row (some date) none =
      err (at ++ ": invalid amount " ++ quote (cell row cols.amount))
  dated_row cols at row (some date) (some amount) = ok (record {
    date = date;
    service_name = trim_space (cell row cols.service);
    amount = amount;
    currency = currency_of cols.currency row;
  })

  -- One row of the loop; `line` is the number that an error names.
  unfoldable pub parse_row : Columns → ℕ → List String → Result CostRecord
  parse_row cols line row =
      if not (ltb cols.date (length row))
        || (not (ltb cols.service (length row)) || not (ltb cols.amount (length row)))
      then err (at_line line ++ ": not enough columns")
      else dated_row cols (at_line line) row (parse_date (trim_space (cell row cols.date)))
          (parse_float (trim_space (cell row cols.amount)))

  unfoldable pub parse_rows : Columns → ℕ → List (List String) → Result (List CostRecord)
  unfolding parse_row
  parse_rows cols line [] = ok []
  parse_rows cols line (row ∷ rows) =
      then_row (parse_row cols line row) (parse_rows cols (line + 1) rows)

  rows_under : Result Columns → List (List String) → Result (List CostRecord)
  unfolding parse_rows
  rows_under (err e) rows = err e
  rows_under (ok cols) rows = parse_rows cols 2 rows

  -- `ParseCostCSV`, given what the reader returned.
  unfoldable pub parse_cost_csv : Result (List (List String)) → Result (List CostRecord)
  unfolding rows_under columns_of
  parse_cost_csv (err e) = err ("csv: " ++ e)
  parse_cost_csv (ok []) = err "csv: empty file"
  parse_cost_csv (ok (header ∷ rows)) = rows_under (columns_of header) rows
