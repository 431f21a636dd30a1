-- ===== src/Providers/Registered.antt =====
-- Which adapter a cloud account is synced by: backend/internal/providers/registry.go.
use cloud_cost_dashboard.Base.{
  String, ◌≡◌, ◌≢◌, Option, none, some, inl, inr, arith, str_eq, eq_iff, Bool-cases,
}
use cloud_cost_dashboard.Providers.{Adapters, registry}
use cloud_cost_dashboard.Providers.Records.{CostProvider}

-- The adapter of a provider's key, if it has one.
pub data AdapterOf (adapters : Adapters) (key : String) : Option CostProvider → Type 0 where
  on_aws : key ≡ "aws" → AdapterOf adapters key (some adapters.aws)
  on_azure : key ≡ "azure" → AdapterOf adapters key (some adapters.azure)
  on_gcp : key ≡ "gcp" → AdapterOf adapters key (some adapters.gcp)
  on_oci : key ≡ "oci" → AdapterOf adapters key (some adapters.oci)
  on_other : key ≢ "aws" → key ≢ "azure" → key ≢ "gcp" → key ≢ "oci" → AdapterOf adapters key none

pub registry-AdapterOf :
    (adapters : Adapters) (key : String) → AdapterOf adapters key (registry adapters key)
unfolding registry
registry-AdapterOf adapters key = elim (Bool-cases (str_eq key "aws")) [
  | inl aws ↦ rw aws (on_aws ((eq_iff key "aws").0 aws))
  | inr not_aws ↦ elim (Bool-cases (str_eq key "azure")) [
    | inl azure ↦ rw (not_aws, azure) (on_azure ((eq_iff key "azure").0 azure))
    | inr not_azure ↦ elim (Bool-cases (str_eq key "gcp")) [
      | inl gcp ↦ rw (not_aws, not_azure, gcp) (on_gcp ((eq_iff key "gcp").0 gcp))
      | inr not_gcp ↦ elim (Bool-cases (str_eq key "oci")) [
        | inl oci ↦ rw (not_aws, not_azure, not_gcp, oci) (on_oci ((eq_iff key "oci").0 oci))
        | inr not_oci ↦
            rw (not_aws, not_azure, not_gcp, not_oci)
              (on_other (λ e. ground (arith, e, not_aws, eq_iff key "aws"))
                (λ e. ground (arith, e, not_azure, eq_iff key "azure"))
                (λ e. ground (arith, e, not_gcp, eq_iff key "gcp"))
                (λ e. ground (arith, e, not_oci, eq_iff key "oci")))
      ]
    ]
  ]
]
