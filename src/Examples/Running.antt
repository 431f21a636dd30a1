-- ===== src/Examples/Running.antt =====
-- The theorems about the whole server at concrete requests.
use mathlib.Core.Logic.{∥∥₁_elim}
use mathlib.Core.HLevel.{hedberg}
use mathlib.Core.Bool.{Bool-discrete}
use cloud_cost_dashboard.Base.{
  ℕ, ◌+◌, ◌==◌, ◌∙◌, ap, Bool, all, any, ◌≡◌, refl, inr, true, false, some, none, List, [], ◌∷◌,
  arith, eq_iff, Memᴰ,
}
use cloud_cost_dashboard.Base.Exec.{ok}
use cloud_cost_dashboard.Gorm.Memory.{memory, memory-IsLawful}
use cloud_cost_dashboard.Hierarchy.Prune.Refers.{Refers}
use cloud_cost_dashboard.Hierarchy.Prune.References.{IsLinked}
use cloud_cost_dashboard.Api.Response.{url_param_uint, url_param_uint_iff}
use cloud_cost_dashboard.Api.Hierarchy.{
  CreateOrganization, CreateProduct, CreateProject, CreateEnvironment, CreateRegion,
  handle_delete_organization, handle_delete_product, handle_delete_project,
  handle_delete_environment, handle_delete_region,
}
use cloud_cost_dashboard.Api.Accounts.{CreateCloudAccountRequest}
use cloud_cost_dashboard.Api.Accounts.{UpdateCloudAccountRequest, handle_update_cloud_account}
use cloud_cost_dashboard.Api.Accounts.Updates.{Updates, handle_update_cloud_account-Updates}
use cloud_cost_dashboard.Api.Hierarchy.Links.{handle_delete-IsLinked}
use cloud_cost_dashboard.Api.Costs.{CostQuery}
use cloud_cost_dashboard.Api.Server.{Server, Surroundings, Request, respond, sync_tick}
use cloud_cost_dashboard.Api.Server.Safety.{respond_needs_admin}
use cloud_cost_dashboard.Api.Server.Users.{IsSound}
use cloud_cost_dashboard.Scheduler.Others.{others}
use cloud_cost_dashboard.Api.Server.Runs.{
  asked as asks, refreshed, ended, also, others-QuietRun, stop, next, requested, synced, Run-Sound,
}
use cloud_cost_dashboard.Examples.World.{tables, db}
use cloud_cost_dashboard.Examples.Libraries.{jwt, bcrypt, bcrypt-IsLawful, box}
use cloud_cost_dashboard.Examples.Storage.{queries, queries-IsLawful, upserts, upserts-IsLawful}
use cloud_cost_dashboard.Examples.Parts.{adapters, no_fields, conversions, viewer_only}

abbrev server : Server
server = record {
  gorm = memory;
  queries = queries;
  upserts = upserts;
  box = box;
  jwt = jwt;
  bcrypt = bcrypt;
  jwt_secret = "s";
  adapters = adapters;
  conversions = conversions;
  add = λ x y. x + y;
  marshal = λ fields. ok [];
  unmarshal = no_fields;
}

abbrev here : Surroundings
here = record { now = 60; later = 61; random = ok (1 ∷ 2 ∷ []) }

respond_needs_admin_example :
    (respond server here "Bearer signed" (Request.delete_organization "1") db).1.0 ≡ tables
respond_needs_admin_example =
    respond_needs_admin server memory-IsLawful queries-IsLawful here "Bearer signed"
      (Request.delete_organization "1") db viewer_only

tables-IsSound : IsSound tables.users
tables-IsSound = record {
  emails = (refl, tt);
  ids = (refl, tt);
  roles = (inr (inr refl), tt);
  scopes = ((λ e. ground (arith, e, eq_iff "product" "")), tt);
}

-- A request and a sync.
Run-Sound_example :
    IsSound
      (sync_tick server here
        (respond server here "Bearer signed" (Request.delete_product "2") db).1).0.users
Run-Sound_example =
    Run-Sound server memory-IsLawful queries-IsLawful upserts-IsLawful bcrypt-IsLawful
      (next {d = db} (requested here "Bearer signed" (Request.delete_product "2"))
        (next (synced here) stop))
      tables-IsSound

all-memᴰ {ℓ} :
    {A : Type ℓ} (p : A → Bool) (l : List A) {a : A} → all p l ≡ true → Memᴰ a l → p a ≡ true
all-memᴰ p [] h m = elim m [ ]
all-memᴰ p (x ∷ l) h (Memᴰ.head e) = ap p e ∙ ground arith
all-memᴰ p (x ∷ l) h (Memᴰ.tail m) = all-memᴰ p l (ground arith) m

-- References that a run of the test finds good.
all-Refers {ℓ κ} :
    {C : Type ℓ} {P : Type κ} (parent : C → ℕ) (key : P → ℕ) (l : List C) (ps : List P)
    → all (λ c. any (λ p. key p == parent c) ps) l ≡ true
    → Refers parent key l ps
all-Refers parent key l ps h c m =
    ∥∥₁_elim m (hedberg Bool-discrete _ _)
      (λ k. all-memᴰ (λ c. any (λ p. key p == parent c) ps) l h k)

tables-IsLinked : IsLinked tables
tables-IsLinked = record {
  products =
      all-Refers (λ c. c.organization_id) (λ p. p.id) tables.products tables.organizations refl;
  projects = all-Refers (λ c. c.product_id) (λ p. p.id) tables.projects tables.products refl;
  environments =
      all-Refers (λ c. c.project_id) (λ p. p.id) tables.environments tables.projects refl;
  regions = all-Refers (λ c. c.environment_id) (λ p. p.id) tables.regions tables.environments refl;
  cloud_accounts =
      all-Refers (λ c. c.region_id) (λ p. p.id) tables.cloud_accounts tables.regions refl;
  cost_records =
      all-Refers (λ c. c.cloud_account_id) (λ p. p.id) tables.cost_records tables.cloud_accounts
        refl;
}

handle_delete-IsLinked_example :
    IsLinked (handle_delete_organization memory "1" db).1.0
    × IsLinked (handle_delete_product memory "1" db).1.0
    × IsLinked (handle_delete_project memory "1" db).1.0
    × IsLinked (handle_delete_environment memory "1" db).1.0
    × IsLinked (handle_delete_region memory "1" db).1.0
handle_delete-IsLinked_example =
    handle_delete-IsLinked memory memory-IsLawful "1" db tables-IsLinked

url_param_uint_iff_example : url_param_uint "42" ≡ some 42
url_param_uint_iff_example = (url_param_uint_iff "42" 42).1 ((λ e. cc), refl, refl, omega arith)

abbrev asked : CostQuery
asked = record { start = ""; end = ""; scope_type = "region"; scope_id = "2"; group_by = "service" }

abbrev organization : CreateOrganization
organization = record { name = "second" }

abbrev product : CreateProduct
product = record { organization_id = 1; name = "phone" }

abbrev project : CreateProject
project = record { product_id = 1; name = "" }

abbrev environment : CreateEnvironment
environment = record { project_id = 0; name = "test" }

abbrev region : CreateRegion
region = record { environment_id = 1; name = "us" }

abbrev account : CreateCloudAccountRequest
account = record {
  region_id = 1;
  provider = "gcp";
  name = "new";
  external_id = "p";
  credential_id = none;
}

abbrev renaming : UpdateCloudAccountRequest
renaming = record {
  name = some "renamed";
  external_id = none;
  credential_id = none;
  active = some false;
}

handle_update_cloud_account-Updates_example :
    let out = handle_update_cloud_account memory "1" (some renaming) db in
    Updates memory memory-IsLawful "1" (some renaming) db out.1.0 out.0
handle_update_cloud_account-Updates_example =
    handle_update_cloud_account-Updates memory memory-IsLawful "1" (some renaming) db

others-QuietRun_example :
    others
      (sync_tick server here
        (respond server here "Bearer signed" (Request.delete_product "2") db).1).0
    ≡ others tables
others-QuietRun_example = others-QuietRun server memory-IsLawful queries-IsLawful upserts-IsLawful (
    also {d = db} (asks here "Bearer signed" (Request.delete_product "2") viewer_only)
      (also (refreshed here) ended))
