-- ===== src/Providers/Gcp/Rows.antt =====
-- What the adapter makes of the iterator over the rows.
use mathlib.Core.List.{append-nil, append_assoc}
use cloud_cost_dashboard.Base.{
  String, ◌<>◌, ◌≡◌, ◌≢◌, arith, eq_iff, refl, sym, ◌∙◌, ap, false, List, [], ◌∷◌, ◌++◌, map,
  str_eq, if-false,
}
use cloud_cost_dashboard.Base.Picks.{Each, map-Each}
use cloud_cost_dashboard.Text.Dates.{date}
use cloud_cost_dashboard.Text.Civil.{civil_of}
use cloud_cost_dashboard.Base.Exec.{Result, ok, err}
use cloud_cost_dashboard.Providers.Records.{CostRecord, AccountConfig, DateRange}
use cloud_cost_dashboard.Providers.Sdk.{BigQueryRow, BigQuery}
use cloud_cost_dashboard.Providers.Gcp.{
  row_record, read_rows, query_text, is_incomplete, iterated, queried, fetch_costs,
}

-- The rows before the first that fails to read, and its error if there is one.
pub data Reads : List (Result BigQueryRow) → List BigQueryRow → Result (Unit {0}) → Type 0 where
  done : Reads [] [] (ok tt)
  failed : (e : String) (rest : List (Result BigQueryRow)) → Reads (err e ∷ rest) [] (err e)
  row :
      {rest : List (Result BigQueryRow)} {rows : List BigQueryRow} {end : Result (Unit {0})}
      (r : BigQueryRow)
      → Reads rest rows end
      → Reads (ok r ∷ rest) (r ∷ rows) end

-- All the records, or the error.
abbrev pub all_or_error : Result (Unit {0}) → List CostRecord → Result (List CostRecord)
all_or_error (ok _) records = ok records
all_or_error (err e) records = err ("gcp: read row: " <> e)

read_rows-Reads :
    {it : List (Result BigQueryRow)} {rows : List BigQueryRow} {end : Result (Unit {0})}
    → Reads it rows end
    → (records : List CostRecord)
    → read_rows it records ≡ all_or_error end (records ++ map row_record rows)
unfolding read_rows
read_rows-Reads done records = ap ok (sym (append-nil records))
read_rows-Reads (failed e rest) records = refl
read_rows-Reads (row {rows} {end} r rest) records =
    read_rows-Reads rest (records ++ row_record r ∷ [])
    ∙ ap (all_or_error end) (append_assoc records (row_record r ∷ []) (map row_record rows))

-- A record says what a row does, at midnight of the row's date.
pub record IsOfRow (row : BigQueryRow) (c : CostRecord) : Type 0 where
  pub midnight : c.date ≡ date row.usage_date.year row.usage_date.month row.usage_date.day
  pub service : c.service_name ≡ row.service_name
  pub amount : c.amount ≡ row.amount
  pub currency : c.currency ≡ row.currency

-- The fields that are needed are there.
pub record IsGiven (account : AccountConfig) : Type 0 where
  pub key : account.credential "service_account_json" ≢ ""
  pub project : account.credential "bq_project" ≢ ""
  pub dataset : account.credential "bq_dataset" ≢ ""
  pub table : account.credential "bq_table" ≢ ""
  pub billed : account.external_id ≢ ""

given_fields : (account : AccountConfig) → IsGiven account → is_incomplete account ≡ false
given_fields account h = ground (
  arith,
  h.key,
  h.project,
  h.dataset,
  h.table,
  eq_iff (account.credential "service_account_json") "",
  eq_iff (account.credential "bq_project") "",
  eq_iff (account.credential "bq_dataset") "",
  eq_iff (account.credential "bq_table") "",
)

module _ (sdk : BigQuery) where
  -- Where the fields are given, and the query for the project's costs by service and day in the range
  -- runs, the adapter returns a record for each row, in order: the row's service, amount and
  -- currency at midnight of its date; where a row fails to read, the error and no record.
  pub fetch_costs-Reads :
      (account : AccountConfig) (r : DateRange) (client : sdk.Client)
      (it : List (Result BigQueryRow)) (rows : List BigQueryRow) (end : Result (Unit {0}))
      → IsGiven account
      → sdk.new_client (account.credential "bq_project") (account.credential "service_account_json")
        ≡ ok client
      → sdk.read client
          ("\n\t\tSELECT\n\t\t  service.description AS service_name,\n\t\t  DATE(usage_start_time) AS usage_date,\n"
            <> "\t\t  SUM(cost) AS amount,\n\t\t  ANY_VALUE(currency) AS currency\n\t\tFROM `"
            <> account.credential "bq_project"
            <> "."
            <> account.credential "bq_dataset"
            <> "."
            <> account.credential "bq_table"
            <> "`\n\t\tWHERE project.id = @project_id\n"
            <> "\t\t  AND DATE(usage_start_time) BETWEEN @start_date AND @end_date\n"
            <> "\t\tGROUP BY service_name, usage_date\n\t")
          (record {
            project_id = account.external_id;
            start_date = civil_of r.start;
            end_date = civil_of r.end;
          })
        ≡ ok it
      → Reads it rows end
      → (records : List CostRecord) × Each IsOfRow rows records
        × (fetch_costs sdk account r ≡ all_or_error end records)
  unfolding fetch_costs queried iterated query_text
  fetch_costs-Reads account r client it rows end given connects runs reads = (
    map row_record rows,
    map-Each IsOfRow row_record
        (λ row. record { midnight = refl; service = refl; amount = refl; currency = refl }) rows,
    if-false _ _ (given_fields account given)
        ∙ if-false {b = str_eq account.external_id ""} _ _
            (ground (arith, given.billed, eq_iff account.external_id ""))
        ∙ ap (queried sdk account r) connects
        ∙ ap (iterated sdk) runs
        ∙ read_rows-Reads reads [],
  )
