-- ===== src/Providers/Aws.antt =====
-- backend/internal/providers/aws.go.  The loop over the pages is on fuel; `none` is a loop that
-- has not ended by then.
pub mod Paging
use cloud_cost_dashboard.Base.{
  ℕ, zero, suc, String, ◌<>◌, ◌||◌, Option, none, some, List, [], ◌∷◌, ◌++◌, str_eq, if◌then◌else◌,
}
use cloud_cost_dashboard.Base.Exec.{Result, ok, err}
use cloud_cost_dashboard.Base.Picks.{filter_map, concat_map}
use cloud_cost_dashboard.Model.{Time, Float64}
use cloud_cost_dashboard.Text.Dates.{parse_date}
use cloud_cost_dashboard.Text.Civil.{format_date}
use cloud_cost_dashboard.Providers.Records.{CostRecord, AccountConfig, DateRange}
use cloud_cost_dashboard.Providers.Sdk.{
  AwsMetric, AwsGroup, AwsByTime, AwsOutput, AwsInput, CostExplorer,
}

-- `aws.ToString`.
abbrev pub to_string : Option String → String
to_string none = ""
to_string (some s) = s

module _ (parse_float : String → Option Float64) where
  priced : Time → String → AwsMetric → Option Float64 → Option CostRecord
  priced date service metric none = none
  priced date service metric (some amount) = some (record {
    date = date;
    service_name = service;
    amount = amount;
    currency = to_string metric.unit;
  })

  measured : Time → String → Option AwsMetric → Option CostRecord
  unfolding priced
  measured date service none = none
  measured date service (some metric) =
      priced date service metric (parse_float (to_string metric.amount))

  -- A group without a key, the metric or an amount that parses is passed over.
  keyed : Time → AwsGroup → List String → Option CostRecord
  unfolding measured
  keyed date group [] = none
  keyed date group (key ∷ keys) = measured date key (group.metrics "UnblendedCost")

  unfoldable pub group_record : Time → AwsGroup → Option CostRecord
  unfolding keyed
  group_record date group = keyed date group group.keys

  dated : List AwsGroup → Option Time → List CostRecord
  unfolding group_record
  dated groups none = []
  dated groups (some date) = filter_map (group_record date) groups

  unfoldable pub page_records : AwsOutput → List CostRecord
  unfolding dated
  page_records out =
      concat_map (λ t. dated t.groups (parse_date (to_string t.start))) out.results_by_time

  module _ (sdk : CostExplorer) where
    unfoldable pub page_input : DateRange → Option String → AwsInput
    page_input r token = record {
      start = format_date r.start;
      end = format_date r.end;
      granularity = "DAILY";
      metrics = "UnblendedCost" ∷ [];
      group_by = "SERVICE";
      next_page_token = token;
    }

    -- The loop, with the page token and the records so far.
    unfoldable pub fetch_pages :
        ℕ
        → sdk.Client
        → DateRange
        → Option String
        → List CostRecord
        → Option (Result (List CostRecord))
    fetch_pages zero client r token records = none
    fetch_pages (suc fuel) client r token records =
        elim (sdk.get_cost_and_usage client (page_input r token)) [
          | err e ↦ some (err ("aws: GetCostAndUsage: " <> e))
          | ok out ↦ elim out.next_page_token [
            | none ↦ some (ok (records ++ page_records out))
            | some t ↦ fetch_pages fuel client r (some t) (records ++ page_records out)
          ]
        ]

    with_client : ℕ → DateRange → Result sdk.Client → Option (Result (List CostRecord))
    with_client fuel r (err e) = some (err ("aws: load config: " <> e))
    with_client fuel r (ok client) = fetch_pages fuel client r none []

    -- `AWSProvider.FetchCosts`.
    unfoldable pub fetch_costs : ℕ → AccountConfig → DateRange → Option (Result (List CostRecord))
    unfolding with_client
    fetch_costs fuel account r =
        let access_key = account.credential "access_key_id" in
        let secret_key = account.credential "secret_access_key" in
        if str_eq access_key "" || str_eq secret_key ""
        then some (err "aws: missing access_key_id/secret_access_key credential fields")
        else with_client fuel r (sdk.load_config "us-east-1" access_key secret_key)
