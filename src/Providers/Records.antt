-- ===== src/Providers/Records.antt =====
-- The types of backend/internal/providers/provider.go.
use cloud_cost_dashboard.Base.{String, List}
use cloud_cost_dashboard.Base.Exec.{Result}
use cloud_cost_dashboard.Model.{Time, Float64}

-- One day's spend for one service, as a provider returns it.
pub record CostRecord : Type 0 where
  pub date : Time
  pub service_name : String
  pub amount : Float64
  pub currency : String

-- The credential is a map from field names.
pub record AccountConfig : Type 0 where
  pub external_id : String
  pub credential : String → String

pub record DateRange : Type 0 where
  pub start : Time
  pub end : Time

-- An adapter.  The four of the registry call the clouds' SDKs.
pub record CostProvider : Type 0 where
  pub name : String
  pub fetch_costs : AccountConfig → DateRange → Result (List CostRecord)
