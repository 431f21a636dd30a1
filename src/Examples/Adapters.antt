-- ===== src/Examples/Adapters.antt =====
-- The theorems about the cloud adapters, at small answers of the services.
use cloud_cost_dashboard.Base.{
  ℕ, String, ◌≡◌, refl, Option, some, none, List, [], ◌∷◌, str_eq, if◌then◌else◌, arith,
}
use cloud_cost_dashboard.Base.Exec.{Result, ok, err}
use cloud_cost_dashboard.Base.Picks.{Picks, Each, concat_map}
use cloud_cost_dashboard.Model.{Float64}
use cloud_cost_dashboard.Text.Dates.{date}
use cloud_cost_dashboard.Providers.Records.{CostRecord, AccountConfig, DateRange}
use cloud_cost_dashboard.Providers.Sdk.{
  AwsGroup, AwsOutput, CostExplorer, BigQueryRow, BigQuery, OciItem, UsageApi, AzureCell,
  AzureColumn, AzureProperties, CostManagement,
}
use cloud_cost_dashboard.Providers.Aws.{page_records, page_input, fetch_costs as aws_costs}
use cloud_cost_dashboard.Providers.Aws.Paging.{last, more, fetch_costs-Pages}
use cloud_cost_dashboard.Providers.Azure.{fetch_costs as azure_costs, Columns}
use cloud_cost_dashboard.Providers.Gcp.{fetch_costs as gcp_costs}
use cloud_cost_dashboard.Providers.Gcp.Rows.{
  IsGiven, IsOfRow, all_or_error, failed, row, fetch_costs-Reads,
}
use cloud_cost_dashboard.Providers.Oci.{fetch_costs as oci_costs}
use cloud_cost_dashboard.Providers.Oci.Items.{IsReported, fetch_costs-IsReported}

-- Every field of the credential is given.
abbrev account : AccountConfig
account = record { external_id = "id"; credential = λ field. "secret" }

abbrev week : DateRange
week = record { start = 0; end = 604_800_000_000_000 }

abbrev three : String → Option Float64
three s = if str_eq s "3" then some 3 else none

abbrev compute : String → AwsGroup
compute amount = record {
  keys = "compute" ∷ [];
  metrics = λ m. some (record { amount = some amount; unit = some "USD" });
}

-- Two pages; on the second, an amount that does not parse.
abbrev page_1 : AwsOutput
page_1 = record {
  results_by_time = (record { start = some "1970-01-02"; groups = compute "3" ∷ [] }) ∷ [];
  next_page_token = some "2";
}

abbrev page_2 : AwsOutput
page_2 = record {
  results_by_time =
      (record { start = some "1970-01-03"; groups = compute "x" ∷ compute "3" ∷ [] }) ∷ [];
  next_page_token = none;
}

abbrev page_for : Option String → AwsOutput
page_for none = page_1
page_for (some t) = page_2

abbrev explorer : CostExplorer
explorer = record {
  Client = Unit;
  load_config = λ region key secret. ok tt;
  get_cost_and_usage = λ client input. ok (page_for input.next_page_token);
}

abbrev aws_record : ℕ → CostRecord
aws_record day = record {
  date = date 1970 1 day;
  service_name = "compute";
  amount = 3;
  currency = "USD";
}

fetch_costs-Pages_example :
    aws_costs three explorer 3 account week
    ≡ some (ok (concat_map (page_records three) (page_1 ∷ page_2 ∷ [])))
unfolding page_input
fetch_costs-Pages_example =
    fetch_costs-Pages three explorer account week tt (page_1 ∷ page_2 ∷ []) (ok tt) 3 refl refl
      (more "2" refl refl (last refl refl)) (omega arith)

abbrev bigquery_row : BigQueryRow
bigquery_row = record {
  service_name = "storage";
  usage_date = record { year = 1970; month = 1; day = 2 };
  amount = 4;
  currency = "EUR";
}

-- One row, and one that does not read.
abbrev rows : List (Result BigQueryRow)
rows = ok bigquery_row ∷ err "bad row" ∷ ok bigquery_row ∷ []

abbrev warehouse : BigQuery
warehouse = record {
  Client = Unit;
  new_client = λ project key. ok tt;
  read = λ client query parameters. ok rows;
}

account-IsGiven : IsGiven account
account-IsGiven = record {
  key = λ h. cc;
  project = λ h. cc;
  dataset = λ h. cc;
  table = λ h. cc;
  billed = λ h. cc;
}

fetch_costs-Reads_example :
    (records : List CostRecord) × Each IsOfRow (bigquery_row ∷ []) records
    × (gcp_costs warehouse account week ≡ all_or_error (err "bad row") records)
fetch_costs-Reads_example =
    fetch_costs-Reads warehouse account week tt rows (bigquery_row ∷ []) (err "bad row")
      account-IsGiven refl refl (row bigquery_row (failed "bad row" (ok bigquery_row ∷ [])))

-- An item without an amount, and one without a service.
abbrev items : List (OciItem ℕ)
items =
    (record {
      time_usage_started = some 5;
      computed_amount = none;
      service = some "a";
      currency = none;
    })
    ∷ (record {
      time_usage_started = some 5;
      computed_amount = some 2;
      service = none;
      currency = none;
    })
    ∷ []

abbrev usage_api : UsageApi
usage_api = record {
  Client = Unit;
  Float32 = ℕ;
  widen = λ x. x;
  new_client = λ c. ok tt;
  request_summarized_usages = λ client request. ok items;
}

fetch_costs-IsReported_example :
    (rs : List CostRecord) × (oci_costs usage_api account week ≡ ok rs)
    × Picks (IsReported usage_api) items rs
fetch_costs-IsReported_example =
    fetch_costs-IsReported usage_api account week tt items refl refl refl

abbrev named : String → Option AzureColumn
named s = some (record { name = some s })

abbrev azure_columns : List (Option AzureColumn)
azure_columns = named "Cost" ∷ named "UsageDate" ∷ named "ServiceName" ∷ []

-- A row that reads, and one that is too short.
abbrev properties : AzureProperties ℕ ℕ
properties = record {
  columns = azure_columns;
  rows =
      (AzureCell.float64 7 ∷ AzureCell.float64 20_240_229 ∷ AzureCell.text "sql" ∷ [])
      ∷ (AzureCell.float64 7 ∷ [])
      ∷ [];
}

abbrev management : CostManagement
management = record {
  Credential = Unit;
  Client = Unit;
  Float32 = ℕ;
  Int = ℕ;
  widen = λ x. x;
  float_of_int = λ n. n;
  print_float = λ x. "20240229";
  print_columns = λ cols. "map[]";
  new_credential = λ tenant client secret. ok tt;
  new_client = λ cred. ok tt;
  usage = λ client scope query. ok (some properties);
}

abbrev found : Columns
found = record { cost = 0; date = 1; service = 2; currency = none }
