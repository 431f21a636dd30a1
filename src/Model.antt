-- ===== src/Model.antt =====
-- backend/internal/models/models.go and the schema of backend/internal/db/db.go.
-- A `uint` is a natural number, a `time.Time` a count of nanoseconds, a `float64` its 64 bits
-- (so that 0 is +0.0); the named string types are strings.  The association slices of the
-- hierarchy structs are no columns: `Tree` has them.
use cloud_cost_dashboard.Base.{
  ℕ, String, Bool, true, false, Option, List, [], ◌==◌, ◌&&◌, str_eq, if◌then◌else◌,
}

abbrev pub Time : Type 0
Time = ℕ

abbrev pub Float64 : Type 0
Float64 = ℕ

abbrev pub zero_float : Float64
zero_float = 0

abbrev pub Role : Type 0
Role = String

abbrev pub role_admin : Role
role_admin = "admin"

abbrev pub role_manager : Role
role_manager = "manager"

abbrev pub role_viewer : Role
role_viewer = "viewer"

abbrev pub ScopeType : Type 0
ScopeType = String

abbrev pub scope_none : ScopeType
scope_none = "none"

abbrev pub scope_product : ScopeType
scope_product = "product"

abbrev pub scope_project : ScopeType
scope_project = "project"

pub record User : Type 0 where
  pub id : ℕ
  pub email : String
  pub password_hash : String
  pub role : Role
  pub scope_type : ScopeType
  pub scope_id : Option ℕ
  pub created_at : Time

pub record Organization : Type 0 where
  pub id : ℕ
  pub name : String
  pub created_at : Time

pub record Product : Type 0 where
  pub id : ℕ
  pub organization_id : ℕ
  pub name : String
  pub created_at : Time

pub record Project : Type 0 where
  pub id : ℕ
  pub product_id : ℕ
  pub name : String
  pub created_at : Time

pub record Environment : Type 0 where
  pub id : ℕ
  pub project_id : ℕ
  pub name : String
  pub created_at : Time

pub record Region : Type 0 where
  pub id : ℕ
  pub environment_id : ℕ
  pub name : String
  pub created_at : Time

abbrev pub ProviderKey : Type 0
ProviderKey = String

abbrev pub provider_aws : ProviderKey
provider_aws = "aws"

abbrev pub provider_azure : ProviderKey
provider_azure = "azure"

abbrev pub provider_gcp : ProviderKey
provider_gcp = "gcp"

abbrev pub provider_oci : ProviderKey
provider_oci = "oci"

abbrev pub provider_contabo : ProviderKey
provider_contabo = "contabo"

abbrev pub provider_generic : ProviderKey
provider_generic = "generic"

pub record ProviderCredential : Type 0 where
  pub id : ℕ
  pub provider : ProviderKey
  pub name : String
  pub encrypted_payload : String
  pub created_at : Time

pub record CloudAccount : Type 0 where
  pub id : ℕ
  pub region_id : ℕ
  pub provider : ProviderKey
  pub name : String
  pub external_id : String
  pub credential_id : Option ℕ
  pub active : Bool
  pub last_sync_at : Option Time
  pub last_sync_err : String
  pub created_at : Time

pub record CostRecord : Type 0 where
  pub id : ℕ
  pub cloud_account_id : ℕ
  pub date : Time
  pub service_name : String
  pub amount : Float64
  pub currency : String
  pub created_at : Time

-- The tables that `AutoMigrate` makes.
pub record Tables : Type 0 where
  pub users : List User
  pub organizations : List Organization
  pub products : List Product
  pub projects : List Project
  pub environments : List Environment
  pub regions : List Region
  pub provider_credentials : List ProviderCredential
  pub cloud_accounts : List CloudAccount
  pub cost_records : List CostRecord

abbrev pub no_rows : Tables
no_rows = record {
  users = [];
  organizations = [];
  products = [];
  projects = [];
  environments = [];
  regions = [];
  provider_credentials = [];
  cloud_accounts = [];
  cost_records = [];
}

-- The model that a query names, `&models.X{}` or the type of its destination.
pub data Table : Type 0 where
  users organizations products projects environments regions : Table
  provider_credentials cloud_accounts cost_records : Table

abbrev pub Row : Table → Type 0
Row Table.users = User
Row Table.organizations = Organization
Row Table.products = Product
Row Table.projects = Project
Row Table.environments = Environment
Row Table.regions = Region
Row Table.provider_credentials = ProviderCredential
Row Table.cloud_accounts = CloudAccount
Row Table.cost_records = CostRecord

abbrev pub rows : (t : Table) → Tables → List (Row t)
rows Table.users s = s.users
rows Table.organizations s = s.organizations
rows Table.products s = s.products
rows Table.projects s = s.projects
rows Table.environments s = s.environments
rows Table.regions s = s.regions
rows Table.provider_credentials s = s.provider_credentials
rows Table.cloud_accounts s = s.cloud_accounts
rows Table.cost_records s = s.cost_records

abbrev pub set_rows : (t : Table) → List (Row t) → Tables → Tables
set_rows Table.users l s = record s { users = l }
set_rows Table.organizations l s = record s { organizations = l }
set_rows Table.products l s = record s { products = l }
set_rows Table.projects l s = record s { projects = l }
set_rows Table.environments l s = record s { environments = l }
set_rows Table.regions l s = record s { regions = l }
set_rows Table.provider_credentials l s = record s { provider_credentials = l }
set_rows Table.cloud_accounts l s = record s { cloud_accounts = l }
set_rows Table.cost_records l s = record s { cost_records = l }

-- The primary key, for `First(&x, id)` and `Delete(&X{}, id)`.
abbrev pub key : (t : Table) → Row t → ℕ
key Table.users r = r.id
key Table.organizations r = r.id
key Table.products r = r.id
key Table.projects r = r.id
key Table.environments r = r.id
key Table.regions r = r.id
key Table.provider_credentials r = r.id
key Table.cloud_accounts r = r.id
key Table.cost_records r = r.id

-- The default that a struct tag gives to a column, used by an insert where the field is zero.
abbrev pub or_default : String → String → String
or_default value default = if str_eq value "" then default else value

-- The row that an insert stores: `row` with its key and its time of creation, and its defaults.
abbrev pub stored : (t : Table) → ℕ → Time → Row t → Row t
stored Table.users n now r = record r {
  id = n;
  scope_type = or_default r.scope_type "none";
  created_at = now;
}
stored Table.organizations n now r = record r { id = n; created_at = now }
stored Table.products n now r = record r { id = n; created_at = now }
stored Table.projects n now r = record r { id = n; created_at = now }
stored Table.environments n now r = record r { id = n; created_at = now }
stored Table.regions n now r = record r { id = n; created_at = now }
stored Table.provider_credentials n now r = record r { id = n; created_at = now }
stored Table.cloud_accounts n now r = record r { id = n; active = true; created_at = now }
stored Table.cost_records n now r = record r {
  id = n;
  currency = or_default r.currency "USD";
  created_at = now;
}

-- Whether two rows cannot stand in one table: they agree on a `uniqueIndex` of the struct.
abbrev pub clash : (t : Table) → Row t → Row t → Bool
clash Table.users r x = str_eq r.email x.email
clash Table.organizations r x = str_eq r.name x.name
clash Table.cost_records r x =
    r.cloud_account_id == x.cloud_account_id
    && (r.date == x.date && str_eq r.service_name x.service_name)
clash _ r x = false

-- The rows that `Preload("Products.Projects.Environments.Regions.CloudAccounts")` puts together:
-- each struct with its association slice.
pub record LoadedRegion : Type 0 where
  pub row : Region
  pub cloud_accounts : List CloudAccount

pub record LoadedEnvironment : Type 0 where
  pub row : Environment
  pub regions : List LoadedRegion

pub record LoadedProject : Type 0 where
  pub row : Project
  pub environments : List LoadedEnvironment

pub record LoadedProduct : Type 0 where
  pub row : Product
  pub projects : List LoadedProject

pub record LoadedOrganization : Type 0 where
  pub row : Organization
  pub products : List LoadedProduct
