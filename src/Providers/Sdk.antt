-- ===== src/Providers/Sdk.antt =====
-- The vendors' SDKs, no code of the repository: the calls that the adapters make of them, as
-- parameters.  A pointer is an `Option`; a call that fails comes with its message.
use cloud_cost_dashboard.Base.{String, List, Option}
use cloud_cost_dashboard.Base.Exec.{Result}
use cloud_cost_dashboard.Model.{Time, Float64}
use cloud_cost_dashboard.Text.Civil.{Civil}

-- Cost Explorer of aws-sdk-go-v2.
pub record AwsMetric : Type 0 where
  pub amount : Option String
  pub unit : Option String

pub record AwsGroup : Type 0 where
  pub keys : List String
  pub metrics : String → Option AwsMetric

-- The start of a result's time period, which the service always sets; the code dereferences it.
pub record AwsByTime : Type 0 where
  pub start : Option String
  pub groups : List AwsGroup

pub record AwsOutput : Type 0 where
  pub results_by_time : List AwsByTime
  pub next_page_token : Option String

pub record AwsInput : Type 0 where
  pub start : String
  pub end : String
  pub granularity : String
  pub metrics : List String
  pub group_by : String
  pub next_page_token : Option String

pub record CostExplorer : Type 1 where
  pub Client : Type 0
  -- `LoadDefaultConfig` with a region and static credentials, and `NewFromConfig`
  pub load_config : String → String → String → Result Client
  pub get_cost_and_usage : Client → AwsInput → Result AwsOutput

-- A client of BigQuery; an iterator is what `Next` returns in turn before `iterator.Done`.
pub record BigQueryRow : Type 0 where
  pub service_name : String
  pub usage_date : Civil
  pub amount : Float64
  pub currency : String

pub record BigQueryParameters : Type 0 where
  pub project_id : String
  pub start_date : Civil
  pub end_date : Civil

pub record BigQuery : Type 1 where
  pub Client : Type 0
  pub new_client : String → String → Result Client
  pub read : Client → String → BigQueryParameters → Result (List (Result BigQueryRow))

-- The usage API of oci-go-sdk; amounts are of type float32.
pub record OciItem (Float32 : Type 0) : Type 0 where
  pub time_usage_started : Option Time
  pub computed_amount : Option Float32
  pub service : Option String
  pub currency : Option String

pub record OciConfiguration : Type 0 where
  pub tenancy : String
  pub user : String
  pub region : String
  pub fingerprint : String
  pub private_key : String
  pub passphrase : Option String

pub record OciRequest : Type 0 where
  pub tenant_id : String
  pub time_usage_started : Time
  pub time_usage_ended : Time
  pub granularity : String
  pub group_by : List String

pub record UsageApi : Type 1 where
  pub Client : Type 0
  pub Float32 : Type 0
  -- the conversion `float64(x)`
  pub widen : Float32 → Float64
  pub new_client : OciConfiguration → Result Client
  pub request_summarized_usages : Client → OciRequest → Result (List (OciItem Float32))

-- Azure Cost Management; a cell of a row is an `interface{}`.
pub data AzureCell (Float32 Int : Type 0) : Type 0 where
  float64 : Float64 → AzureCell Float32 Int
  float32 : Float32 → AzureCell Float32 Int
  int int64 : Int → AzureCell Float32 Int
  text : String → AzureCell Float32 Int
  other : AzureCell Float32 Int

pub record AzureColumn : Type 0 where
  pub name : Option String

pub record AzureProperties (Float32 Int : Type 0) : Type 0 where
  pub columns : List (Option AzureColumn)
  pub rows : List (List (AzureCell Float32 Int))

pub record AzureQuery : Type 0 where
  pub from : Time
  pub to : Time
  pub granularity : String
  pub aggregated : String
  pub grouping : String

pub record CostManagement : Type 1 where
  pub Credential : Type 0
  pub Client : Type 0
  pub Float32 : Type 0
  pub Int : Type 0
  pub widen : Float32 → Float64
  pub float_of_int : Int → Float64
  -- `fmt.Sprintf("%.0f", x)`, and "%v" of the map from column names to indices
  pub print_float : Float64 → String
  pub print_columns : List (Option AzureColumn) → String
  pub new_credential : String → String → String → Result Credential
  pub new_client : Credential → Result Client
  pub usage : Client → String → AzureQuery → Result (Option (AzureProperties Float32 Int))
