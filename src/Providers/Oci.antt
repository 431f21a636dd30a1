-- ===== src/Providers/Oci.antt =====
-- backend/internal/providers/oci.go.
pub mod Items
use cloud_cost_dashboard.Base.{
  String, ◌<>◌, Bool, ◌||◌, Option, none, some, List, [], ◌∷◌, str_eq, if◌then◌else◌,
}
use cloud_cost_dashboard.Base.Exec.{Result, ok, err}
use cloud_cost_dashboard.Base.Picks.{filter_map}
use cloud_cost_dashboard.Model.{Time}
use cloud_cost_dashboard.Providers.Records.{CostRecord, AccountConfig, DateRange, CostProvider}
use cloud_cost_dashboard.Providers.Sdk.{OciItem, OciConfiguration, OciRequest, UsageApi}

abbrev pub or_else : Option String → String → String
or_else none default = default
or_else (some s) default = s

abbrev pub passphrase_of : String → Option String
passphrase_of pp = if str_eq pp "" then none else some pp

abbrev pub usages_request : String → DateRange → OciRequest
usages_request tenancy r = record {
  tenant_id = tenancy;
  time_usage_started = r.start;
  time_usage_ended = r.end;
  granularity = "DAILY";
  group_by = "service" ∷ [];
}

-- `NewRawConfigurationProvider`, from the fields.
abbrev pub configuration : AccountConfig → OciConfiguration
configuration account = record {
  tenancy = account.external_id;
  user = account.credential "user_ocid";
  region = account.credential "region";
  fingerprint = account.credential "fingerprint";
  private_key = account.credential "private_key_pem";
  passphrase = passphrase_of (account.credential "private_key_passphrase");
}

-- A field that is needed is missing.
abbrev pub is_incomplete : AccountConfig → Bool
is_incomplete account =
    str_eq account.external_id ""
    || (str_eq (account.credential "user_ocid") ""
        || (str_eq (account.credential "fingerprint") ""
            || (str_eq (account.credential "private_key_pem") ""
                || str_eq (account.credential "region") "")))

module _ (sdk : UsageApi) where
  timed : OciItem sdk.Float32 → Option Time → Option sdk.Float32 → Option CostRecord
  timed item none amount = none
  timed item (some t) none = none
  timed item (some t) (some amount) = some (record {
    date = t;
    service_name = or_else item.service "unknown";
    amount = sdk.widen amount;
    currency = or_else item.currency "USD";
  })

  -- An item without a time or an amount is passed over.
  unfoldable pub item_record : OciItem sdk.Float32 → Option CostRecord
  unfolding timed
  item_record item = timed item item.time_usage_started item.computed_amount

  summarized : Result (List (OciItem sdk.Float32)) → Result (List CostRecord)
  unfolding item_record
  summarized (err e) = err ("oci: RequestSummarizedUsages: " <> e)
  summarized (ok items) = ok (filter_map item_record items)

  requested : String → DateRange → Result sdk.Client → Result (List CostRecord)
  unfolding summarized
  requested tenancy r (err e) = err ("oci: client: " <> e)
  requested tenancy r (ok client) =
      summarized (sdk.request_summarized_usages client (usages_request tenancy r))

  -- `OCIProvider.FetchCosts`.
  unfoldable pub fetch_costs : AccountConfig → DateRange → Result (List CostRecord)
  unfolding requested
  fetch_costs account r =
      if is_incomplete account
      then err
          "oci: missing tenancy ocid / user_ocid / fingerprint / private_key_pem / region credential fields"
      else requested account.external_id r (sdk.new_client (configuration account))

  abbrev pub provider : CostProvider
  provider = record { name = "oci"; fetch_costs = fetch_costs }
