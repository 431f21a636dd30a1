-- ===== src/Providers/Gcp.antt =====
-- backend/internal/providers/gcp.go.
pub mod Rows
use cloud_cost_dashboard.Base.{String, ◌<>◌, Bool, ◌||◌, List, [], ◌∷◌, ◌++◌, str_eq, if◌then◌else◌}
use cloud_cost_dashboard.Base.Exec.{Result, ok, err}
use cloud_cost_dashboard.Text.Dates.{date}
use cloud_cost_dashboard.Text.Civil.{civil_of}
use cloud_cost_dashboard.Providers.Records.{CostRecord, AccountConfig, DateRange, CostProvider}
use cloud_cost_dashboard.Providers.Sdk.{BigQueryRow, BigQueryParameters, BigQuery}

abbrev pub row_record : BigQueryRow → CostRecord
row_record row = record {
  date = date row.usage_date.year row.usage_date.month row.usage_date.day;
  service_name = row.service_name;
  amount = row.amount;
  currency = row.currency;
}

-- The loop over the iterator, up to `iterator.Done`, with the records so far.
unfoldable pub read_rows : List (Result BigQueryRow) → List CostRecord → Result (List CostRecord)
read_rows [] records = ok records
read_rows (err e ∷ rows) records = err ("gcp: read row: " <> e)
read_rows (ok row ∷ rows) records = read_rows rows (records ++ row_record row ∷ [])

unfoldable pub query_text : String → String → String → String
query_text project dataset table =
    "\n\t\tSELECT\n\t\t  service.description AS service_name,\n\t\t  DATE(usage_start_time) AS usage_date,\n"
    <> "\t\t  SUM(cost) AS amount,\n\t\t  ANY_VALUE(currency) AS currency\n\t\tFROM `" <> project
    <> "." <> dataset <> "." <> table <> "`\n\t\tWHERE project.id = @project_id\n"
    <> "\t\t  AND DATE(usage_start_time) BETWEEN @start_date AND @end_date\n"
    <> "\t\tGROUP BY service_name, usage_date\n\t"

-- A field that is needed is missing.
abbrev pub is_incomplete : AccountConfig → Bool
is_incomplete account =
    str_eq (account.credential "service_account_json") ""
    || (str_eq (account.credential "bq_project") ""
        || (str_eq (account.credential "bq_dataset") ""
            || str_eq (account.credential "bq_table") ""))

abbrev pub query_parameters : AccountConfig → DateRange → BigQueryParameters
query_parameters account r = record {
  project_id = account.external_id;
  start_date = civil_of r.start;
  end_date = civil_of r.end;
}

module _ (sdk : BigQuery) where
  iterated : Result (List (Result BigQueryRow)) → Result (List CostRecord)
  unfolding read_rows
  iterated (err e) = err ("gcp: query billing export: " <> e)
  iterated (ok rows) = read_rows rows []

  queried : AccountConfig → DateRange → Result sdk.Client → Result (List CostRecord)
  unfolding iterated query_text
  queried account r (err e) = err ("gcp: bigquery client: " <> e)
  queried account r (ok client) = iterated (
      sdk.read client
        (query_text (account.credential "bq_project") (account.credential "bq_dataset")
          (account.credential "bq_table"))
        (query_parameters account r))

  -- `GCPProvider.FetchCosts`.
  unfoldable pub fetch_costs : AccountConfig → DateRange → Result (List CostRecord)
  unfolding queried
  fetch_costs account r =
      if is_incomplete account
      then err "gcp: missing service_account_json/bq_project/bq_dataset/bq_table credential fields"
      else if str_eq account.external_id ""
      then err "gcp: missing billed project id (CloudAccount.ExternalID)"
      else queried account r (
          sdk.new_client (account.credential "bq_project")
            (account.credential "service_account_json"))

  abbrev pub provider : CostProvider
  provider = record { name = "gcp"; fetch_costs = fetch_costs }
