-- ===== src/Api/Router.antt =====
-- backend/internal/api/router.go: the routes and the middleware in front of each.
pub mod Guards
use cloud_cost_dashboard.Base.{String, List, [], ◌∷◌, none}
use cloud_cost_dashboard.Model.{Time, role_admin}
use cloud_cost_dashboard.Auth.{Handler, require_auth, require_role}
use cloud_cost_dashboard.Auth.Libraries.{Jwt}
use cloud_cost_dashboard.Api.Response.{Response}

-- One constructor for each route, named after its handler.
pub data Route : Type 0 where
  login : Route
  me tree cost_timeseries : Route
  create_user list_users : Route
  create_organization delete_organization : Route
  create_product delete_product : Route
  create_project delete_project : Route
  create_environment delete_environment : Route
  create_region delete_region : Route
  create_credential list_credentials delete_credential : Route
  create_cloud_account update_cloud_account delete_cloud_account : Route
  sync_now import_csv : Route

-- The group of the router in which a route stands.
pub data Access : Type 0 where
  open_to_all authenticated admin_only : Access

unfoldable pub access : Route → Access
access Route.login = open_to_all
access Route.me = authenticated
access Route.tree = authenticated
access Route.cost_timeseries = authenticated
access _ = admin_only

-- The method and the pattern of a route.
unfoldable pub pattern_of : Route → String × String
pattern_of Route.login = ("POST", "/api/auth/login")
pattern_of Route.me = ("GET", "/api/me")
pattern_of Route.tree = ("GET", "/api/tree")
pattern_of Route.cost_timeseries = ("GET", "/api/costs/timeseries")
pattern_of Route.create_user = ("POST", "/api/users")
pattern_of Route.list_users = ("GET", "/api/users")
pattern_of Route.create_organization = ("POST", "/api/organizations")
pattern_of Route.delete_organization = ("DELETE", "/api/organizations/{id}")
pattern_of Route.create_product = ("POST", "/api/products")
pattern_of Route.delete_product = ("DELETE", "/api/products/{id}")
pattern_of Route.create_project = ("POST", "/api/projects")
pattern_of Route.delete_project = ("DELETE", "/api/projects/{id}")
pattern_of Route.create_environment = ("POST", "/api/environments")
pattern_of Route.delete_environment = ("DELETE", "/api/environments/{id}")
pattern_of Route.create_region = ("POST", "/api/regions")
pattern_of Route.delete_region = ("DELETE", "/api/regions/{id}")
pattern_of Route.create_credential = ("POST", "/api/credentials")
pattern_of Route.list_credentials = ("GET", "/api/credentials")
pattern_of Route.delete_credential = ("DELETE", "/api/credentials/{id}")
pattern_of Route.create_cloud_account = ("POST", "/api/cloud-accounts")
pattern_of Route.update_cloud_account = ("PATCH", "/api/cloud-accounts/{id}")
pattern_of Route.delete_cloud_account = ("DELETE", "/api/cloud-accounts/{id}")
pattern_of Route.sync_now = ("POST", "/api/cloud-accounts/{id}/sync-now")
pattern_of Route.import_csv = ("POST", "/api/cloud-accounts/{id}/import-csv")

module _ {A D : Type 0} (jwt : Jwt) (secret : String) (now : Time) where
  -- The handler of a route behind its middleware, given the header "Authorization".
  unfoldable pub behind : Access → Handler A D → String → D → Response A × D
  behind open_to_all handler header d = handler none d
  behind authenticated handler header d = require_auth jwt secret now handler header d
  behind admin_only handler header d =
      require_auth jwt secret now (require_role (role_admin ∷ []) handler) header d

  unfoldable pub serve : Route → Handler A D → String → D → Response A × D
  unfolding access behind
  serve route handler header d = behind (access route) handler header d
