-- ===== src/Api/Server.antt =====
-- The server of backend/internal/api/router.go: each request to its handler, behind the middleware
-- of its route.  A request comes as the router and the decoders leave it, the URL parameters as
-- text and a body that does not decode as `none`.
pub mod Safety
pub mod Users
pub mod Runs
use cloud_cost_dashboard.Base.{ℕ, String, Option, List}
use cloud_cost_dashboard.Base.Exec.{Result}
use cloud_cost_dashboard.Model.{
  Time, Float64, User, Organization, Product, Project, Environment, Region, ProviderCredential,
  CloudAccount,
}
use cloud_cost_dashboard.Gorm.{Gorm}
use cloud_cost_dashboard.Gorm.Queries.{Queries}
use cloud_cost_dashboard.Crypto.{Bytes, Box}
use cloud_cost_dashboard.Auth.{Handler}
use cloud_cost_dashboard.Auth.Libraries.{Claims, Jwt, Bcrypt}
use cloud_cost_dashboard.Providers.{Adapters}
use cloud_cost_dashboard.Providers.Csv.{Conversions}
use cloud_cost_dashboard.Scheduler.{sync_all}
use cloud_cost_dashboard.Scheduler.Upsert.{Upserts}
use cloud_cost_dashboard.Api.Response.{Response, json, error, no_content}
use cloud_cost_dashboard.Api.Router.{Route, serve}
use cloud_cost_dashboard.Api.Users.{
  LoginRequest, LoginResponse, CreateUserRequest, handle_login, handle_me, handle_create_user,
  handle_list_users,
}
use cloud_cost_dashboard.Api.Hierarchy.{
  CreateOrganization, CreateProduct, CreateProject, CreateEnvironment, CreateRegion,
  handle_create_organization, handle_create_product, handle_create_project,
  handle_create_environment, handle_create_region, handle_delete_organization,
  handle_delete_product, handle_delete_project, handle_delete_environment, handle_delete_region,
}
use cloud_cost_dashboard.Api.Tree.{OrganizationTree, handle_tree}
use cloud_cost_dashboard.Api.Costs.{CostQuery, CostPoint, handle_cost_timeseries}
use cloud_cost_dashboard.Api.Accounts.{
  Fields, CreateCredentialRequest, CreateCloudAccountRequest, UpdateCloudAccountRequest,
  handle_create_credential, handle_list_credentials, handle_delete_credential,
  handle_create_cloud_account, handle_update_cloud_account, handle_delete_cloud_account,
  handle_sync_now, handle_import_csv,
}

-- What the server is built from: the fields of `Server`, and the libraries.
pub record Server : Type 1 where
  pub gorm : Gorm
  pub queries : Queries gorm
  pub upserts : Upserts gorm
  pub box : Box
  pub jwt : Jwt
  pub bcrypt : Bcrypt
  pub jwt_secret : String
  pub adapters : Adapters
  pub conversions : Conversions
  pub add : Float64 → Float64 → Float64
  pub marshal : Fields → Result Bytes
  pub unmarshal : Bytes → Result (String → String)

-- What is not the request's: the clock at the start and at the end, and the nonce that is read.
pub record Surroundings : Type 0 where
  pub now : Time
  pub later : Time
  pub random : Result Bytes

-- A request of a route with its parts.
pub data Request : Type 0 where
  login : Option LoginRequest → Request
  me list_users list_credentials : Request
  tree : String → String → Request
  cost_timeseries : CostQuery → Request
  create_user : Option CreateUserRequest → Request
  create_organization : Option CreateOrganization → Request
  create_product : Option CreateProduct → Request
  create_project : Option CreateProject → Request
  create_environment : Option CreateEnvironment → Request
  create_region : Option CreateRegion → Request
  delete_organization delete_product delete_project : String → Request
  delete_environment delete_region : String → Request
  create_credential : Option CreateCredentialRequest → Request
  delete_credential : String → Request
  create_cloud_account : Option CreateCloudAccountRequest → Request
  update_cloud_account : String → Option UpdateCloudAccountRequest → Request
  delete_cloud_account : String → Request
  sync_now : String → Request
  import_csv : String → Option (Result (List (List String))) → Request

-- The body of an answer.
pub data Body : Type 0 where
  session : LoginResponse → Body
  user : User → Body
  users : List User → Body
  trees : List OrganizationTree → Body
  points : List CostPoint → Body
  organization : Organization → Body
  product : Product → Body
  project : Project → Body
  environment : Environment → Body
  region : Region → Body
  credential : ProviderCredential → Body
  credentials : List ProviderCredential → Body
  cloud_account : CloudAccount → Body
  sync_status : String → Body
  imported : ℕ → Body
  nothing : Unit {0} → Body

unfoldable pub route_of : Request → Route
route_of (Request.login _) = Route.login
route_of Request.me = Route.me
route_of Request.list_users = Route.list_users
route_of Request.list_credentials = Route.list_credentials
route_of (Request.tree _ _) = Route.tree
route_of (Request.cost_timeseries _) = Route.cost_timeseries
route_of (Request.create_user _) = Route.create_user
route_of (Request.create_organization _) = Route.create_organization
route_of (Request.create_product _) = Route.create_product
route_of (Request.create_project _) = Route.create_project
route_of (Request.create_environment _) = Route.create_environment
route_of (Request.create_region _) = Route.create_region
route_of (Request.delete_organization _) = Route.delete_organization
route_of (Request.delete_product _) = Route.delete_product
route_of (Request.delete_project _) = Route.delete_project
route_of (Request.delete_environment _) = Route.delete_environment
route_of (Request.delete_region _) = Route.delete_region
route_of (Request.create_credential _) = Route.create_credential
route_of (Request.delete_credential _) = Route.delete_credential
route_of (Request.create_cloud_account _) = Route.create_cloud_account
route_of (Request.update_cloud_account _ _) = Route.update_cloud_account
route_of (Request.delete_cloud_account _) = Route.delete_cloud_account
route_of (Request.sync_now _) = Route.sync_now
route_of (Request.import_csv _ _) = Route.import_csv

abbrev pub with_body {ℓ} : {A B : Type 0} {D : Type ℓ} → (A → B) → Response A × D → Response B × D
with_body f (json status a, d) = (json status (f a), d)
with_body f (error status message, d) = (error status message, d)
with_body f (no_content, d) = (no_content, d)

module _ (s : Server) (here : Surroundings) where
  open s use {gorm, queries, upserts, box, jwt, bcrypt, adapters, conversions}

  unfoldable pub handler : Request → Handler Body gorm.Db
  handler (Request.login body) claims d =
      with_body session (handle_login gorm jwt bcrypt s.jwt_secret here.now body d)
  handler Request.me claims d = with_body user (handle_me gorm jwt bcrypt claims d)
  handler Request.list_users claims d = with_body users (handle_list_users gorm jwt bcrypt d)
  handler Request.list_credentials claims d = with_body credentials (handle_list_credentials gorm d)
  handler (Request.tree start end) claims d =
      with_body trees (handle_tree s.add gorm queries here.now claims start end d)
  handler (Request.cost_timeseries r) claims d =
      with_body points (handle_cost_timeseries gorm queries here.now claims r d)
  handler (Request.create_user body) claims d =
      with_body user (handle_create_user gorm jwt bcrypt body d)
  handler (Request.create_organization body) claims d =
      with_body organization (handle_create_organization gorm body d)
  handler (Request.create_product body) claims d =
      with_body product (handle_create_product gorm body d)
  handler (Request.create_project body) claims d =
      with_body project (handle_create_project gorm body d)
  handler (Request.create_environment body) claims d =
      with_body environment (handle_create_environment gorm body d)
  handler (Request.create_region body) claims d =
      with_body region (handle_create_region gorm body d)
  handler (Request.delete_organization id) claims d =
      with_body nothing (handle_delete_organization gorm id d)
  handler (Request.delete_product id) claims d = with_body nothing (handle_delete_product gorm id d)
  handler (Request.delete_project id) claims d = with_body nothing (handle_delete_project gorm id d)
  handler (Request.delete_environment id) claims d =
      with_body nothing (handle_delete_environment gorm id d)
  handler (Request.delete_region id) claims d = with_body nothing (handle_delete_region gorm id d)
  handler (Request.create_credential body) claims d =
      with_body credential (handle_create_credential gorm box s.marshal here.random body d)
  handler (Request.delete_credential id) claims d =
      with_body nothing (handle_delete_credential gorm id d)
  handler (Request.create_cloud_account body) claims d =
      with_body cloud_account (handle_create_cloud_account gorm body d)
  handler (Request.update_cloud_account id body) claims d =
      with_body cloud_account (handle_update_cloud_account gorm id body d)
  handler (Request.delete_cloud_account id) claims d =
      with_body nothing (handle_delete_cloud_account gorm id d)
  handler (Request.sync_now id) claims d =
      with_body sync_status
        (handle_sync_now gorm upserts box s.unmarshal adapters here.now here.later id d)
  handler (Request.import_csv id file) claims d =
      with_body imported (handle_import_csv gorm upserts conversions id file d)

  -- `Router`, given the header "Authorization".
  unfoldable pub respond : String → Request → gorm.Db → Response Body × gorm.Db
  unfolding route_of handler
  respond header r d = serve jwt s.jwt_secret here.now (route_of r) (handler r) header d

  -- A run of `SyncAll` by the scheduler of the server.
  unfoldable pub sync_tick : gorm.Db → gorm.Db
  sync_tick d = sync_all gorm upserts box s.unmarshal adapters here.now here.later d
