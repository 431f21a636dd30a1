-- ===== src/Providers/Azure.antt =====
-- backend/internal/providers/azure.go.
pub mod Rows
use cloud_cost_dashboard.Base.{
  ℕ, ◌+◌, String, ◌<>◌, Bool, not, ◌||◌, Option, none, some, List, [], ◌∷◌, str_eq, if◌then◌else◌,
  get_elem?, length, ltb,
}
use cloud_cost_dashboard.Base.Exec.{Result, ok, err}
use cloud_cost_dashboard.Base.Picks.{filter_map}
use cloud_cost_dashboard.Model.{Time, Float64}
use cloud_cost_dashboard.Text.Civil.{parse_compact_date}
use cloud_cost_dashboard.Providers.Records.{CostRecord, AccountConfig, DateRange, CostProvider}
use cloud_cost_dashboard.Providers.Sdk.{
  AzureCell, AzureColumn, AzureProperties, AzureQuery, CostManagement,
}

abbrev is_named : String → Option AzureColumn → Bool
is_named name none = Bool.false
is_named name (some c) = elim c.name [ none ↦ Bool.false | some n ↦ str_eq n name ]

-- `colIndex[name]`: the last column with the name.
unfoldable pub column_index : String → ℕ → List (Option AzureColumn) → Option ℕ
column_index name i [] = none
column_index name i (c ∷ cols) = elim (column_index name (i + 1) cols) [
  | some j ↦ some j
  | none ↦ if is_named name c then some i else none
]

pub record Columns : Type 0 where
  pub cost : ℕ
  pub date : ℕ
  pub service : ℕ
  pub currency : Option ℕ

abbrev all_of : Option ℕ → Option ℕ → Option ℕ → Option ℕ → Option Columns
all_of (some c) (some d) (some s) u =
    some (record { cost = c; date = d; service = s; currency = u })
all_of _ _ _ u = none

unfoldable pub columns_of : List (Option AzureColumn) → Option Columns
unfolding column_index
columns_of cols =
    all_of (column_index "Cost" 0 cols) (column_index "UsageDate" 0 cols)
      (column_index "ServiceName" 0 cols) (column_index "Currency" 0 cols)

abbrev pub usage_query : DateRange → AzureQuery
usage_query r = record {
  from = r.start;
  to = r.end;
  granularity = "Daily";
  aggregated = "Cost";
  grouping = "ServiceName";
}

module _ (sdk : CostManagement) where
  abbrev pub Cell : Type 0
  Cell = AzureCell sdk.Float32 sdk.Int

  -- `toFloat`.
  unfoldable pub to_float : Cell → Option Float64
  to_float (AzureCell.float64 x) = some x
  to_float (AzureCell.float32 x) = some (sdk.widen x)
  to_float (AzureCell.int n) = some (sdk.float_of_int n)
  to_float (AzureCell.int64 n) = some (sdk.float_of_int n)
  to_float _ = none

  -- `v, _ := cell.(string)`.
  abbrev pub text_of : Cell → String
  text_of (AzureCell.text s) = s
  text_of _ = ""

  -- `row[i]`, where the row is long enough.
  abbrev pub cell : List Cell → ℕ → Cell
  cell row i = elim (get_elem? row i) [ some c ↦ c | none ↦ AzureCell.other ]

  unfoldable pub currency_of : Option ℕ → List Cell → String
  currency_of none row = "USD"
  currency_of (some i) row =
      if str_eq (text_of (cell row i)) "" then "USD" else text_of (cell row i)

  dated : Columns → List Cell → Float64 → Option Time → Option CostRecord
  dated cols row amount none = none
  dated cols row amount (some t) = some (record {
    date = t;
    service_name = text_of (cell row cols.service);
    amount = amount;
    currency = currency_of cols.currency row;
  })

  numbered : Columns → List Cell → Option Float64 → Option Float64 → Option CostRecord
  unfolding dated
  numbered cols row none number = none
  numbered cols row (some amount) none = none
  numbered cols row (some amount) (some number) =
      dated cols row amount (parse_compact_date (sdk.print_float number))

  -- A row that is too short, or whose cost or date does not read, is passed over.
  unfoldable pub row_record : Columns → List Cell → Option CostRecord
  unfolding numbered
  row_record cols row =
      if not (ltb cols.cost (length row))
        || (not (ltb cols.date (length row)) || not (ltb cols.service (length row)))
      then none
      else numbered cols row (to_float (cell row cols.cost)) (to_float (cell row cols.date))

  tabulated : AzureProperties sdk.Float32 sdk.Int → Option Columns → Result (List CostRecord)
  unfolding row_record
  tabulated props none =
      err ("azure: unexpected result columns: " <> sdk.print_columns props.columns)
  tabulated props (some cols) = ok (filter_map (row_record cols) props.rows)

  answered : Result (Option (AzureProperties sdk.Float32 sdk.Int)) → Result (List CostRecord)
  unfolding tabulated
  answered (err e) = err ("azure: Usage query: " <> e)
  answered (ok none) = ok []
  answered (ok (some props)) = tabulated props (columns_of props.columns)

  queried : AccountConfig → DateRange → Result sdk.Client → Result (List CostRecord)
  unfolding answered
  queried account r (err e) = err ("azure: client: " <> e)
  queried account r (ok client) =
      answered (sdk.usage client ("/subscriptions/" <> account.external_id) (usage_query r))

  connected : AccountConfig → DateRange → Result sdk.Credential → Result (List CostRecord)
  unfolding queried
  connected account r (err e) = err ("azure: credential: " <> e)
  connected account r (ok cred) = queried account r (sdk.new_client cred)

  -- `AzureProvider.FetchCosts`.
  unfoldable pub fetch_costs : AccountConfig → DateRange → Result (List CostRecord)
  unfolding connected
  fetch_costs account r =
      let tenant = account.credential "tenant_id" in
      let client = account.credential "client_id" in
      let secret = account.credential "client_secret" in
      if str_eq tenant "" || (str_eq client "" || str_eq secret "")
      then err "azure: missing tenant_id/client_id/client_secret credential fields"
      else if str_eq account.external_id ""
      then err "azure: missing subscription id (CloudAccount.ExternalID)"
      else connected account r (sdk.new_credential tenant client secret)

  abbrev pub provider : CostProvider
  provider = record { name = "azure"; fetch_costs = fetch_costs }
