-- ===== src/Providers/Oci/Items.antt =====
-- Which items of the usage API become records.
use cloud_cost_dashboard.Base.{
  ◌≡◌, refl, ◌∙◌, ap, ◌↔◌, false, Option, none, some, List, arith, if-false,
}
use cloud_cost_dashboard.Base.Exec.{ok}
use cloud_cost_dashboard.Base.Picks.{Picks, filter_map, filter_map-Picks}
use cloud_cost_dashboard.Model.{Time}
use cloud_cost_dashboard.Providers.Records.{CostRecord, AccountConfig, DateRange}
use cloud_cost_dashboard.Providers.Sdk.{OciItem, UsageApi}
use cloud_cost_dashboard.Providers.Oci.{
  or_else, usages_request, configuration, is_incomplete, timed, item_record, summarized, requested,
  fetch_costs,
}

module _ (sdk : UsageApi) where
  -- The record that an item stands for.
  pub record IsReported (item : OciItem sdk.Float32) (r : CostRecord) : Type 0 where
    pub time : item.time_usage_started ≡ some r.date
    pub reported : sdk.Float32
    pub computed : item.computed_amount ≡ some reported
    pub amount : r.amount ≡ sdk.widen reported
    pub service : r.service_name ≡ or_else item.service "unknown"
    pub currency : r.currency ≡ or_else item.currency "USD"

  timed_sound :
      (item : OciItem sdk.Float32) (t : Option Time) (a : Option sdk.Float32) (r : CostRecord)
      → item.time_usage_started ≡ t
      → item.computed_amount ≡ a
      → timed sdk item t a ≡ some r
      → IsReported item r
  unfolding timed
  timed_sound item none a r et ea h = cc
  timed_sound item (some t) none r et ea h = cc
  timed_sound item (some t) (some a) r et ea h = record {
    time = et ∙ (ground arith);
    reported = a;
    computed = ea;
    amount = ground arith;
    service = ground arith;
    currency = ground arith;
  }

  item_record_iff :
      (item : OciItem sdk.Float32) (r : CostRecord)
      → (item_record sdk item ≡ some r) ↔ IsReported item r
  unfolding item_record timed
  item_record_iff item r = (
    λ h. timed_sound item _ _ r refl refl h,
    λ p.
        ap (λ t. timed sdk item t item.computed_amount) p.time
        ∙ ap (timed sdk item (some r.date)) p.computed
        ∙ ground (arith, p.amount, p.service, p.currency),
  )

  -- Where the fields are given and the service answers, the adapter returns one record for each item
  -- that has a time and an amount, in order, the record that the item stands for, and none for any
  -- other item.
  pub fetch_costs-IsReported :
      (account : AccountConfig) (r : DateRange) (client : sdk.Client)
      (items : List (OciItem sdk.Float32))
      → is_incomplete account ≡ false
      → sdk.new_client (configuration account) ≡ ok client
      → sdk.request_summarized_usages client (usages_request account.external_id r) ≡ ok items
      → (rs : List CostRecord) × (fetch_costs sdk account r ≡ ok rs) × Picks IsReported items rs
  unfolding fetch_costs requested summarized
  fetch_costs-IsReported account r client items given connects answers = (
    filter_map (item_record sdk) items,
    if-false _ _ given
        ∙ ap (requested sdk account.external_id r) connects
        ∙ ap (summarized sdk) answers,
    filter_map-Picks IsReported (item_record sdk) item_record_iff items,
  )
