-- ===== src/Providers.antt =====
-- backend/internal/providers/provider.go and registry.go.
pub mod Records
pub mod Registered
pub mod Csv
pub mod Sdk
pub mod Aws
pub mod Azure
pub mod Gcp
pub mod Oci
use cloud_cost_dashboard.Base.{
  String, ◌≡◌, List, [], ◌∷◌, Option, none, some, str_eq, if◌then◌else◌,
}
use cloud_cost_dashboard.Model.{
  ProviderKey, provider_aws, provider_azure, provider_gcp, provider_oci,
}
use Records.{CostProvider}

-- The four adapters of the registry.
pub record Adapters : Type 0 where
  pub aws : CostProvider
  pub azure : CostProvider
  pub gcp : CostProvider
  pub oci : CostProvider

-- `Registry()[key]`.
unfoldable pub registry : Adapters → ProviderKey → Option CostProvider
registry adapters key =
    if str_eq key provider_aws
    then some adapters.aws
    else if str_eq key provider_azure
    then some adapters.azure
    else if str_eq key provider_gcp
    then some adapters.gcp
    else if str_eq key provider_oci
    then some adapters.oci
    else none
