-- ===== src/Api/Users.antt =====
-- backend/internal/api/handlers_auth.go.
-- `now` is the clock that `IssueToken` reads.
pub mod Laws
use cloud_cost_dashboard.Base.{
  ℕ, String, Bool, true, ◌&&◌, ◌||◌, not, Option, none, some, List, str_eq, ◌==◌, if◌then◌else◌,
}
use cloud_cost_dashboard.Base.Exec.{Result, ok, err}
use cloud_cost_dashboard.Model.{
  Time, Role, ScopeType, User, Table, role_admin, role_manager, role_viewer, scope_none,
}
use cloud_cost_dashboard.Gorm.{Gorm}
use cloud_cost_dashboard.Auth.{hash_password, check_password, issue_token}
use cloud_cost_dashboard.Auth.Libraries.{Claims, Jwt, Bcrypt}
use cloud_cost_dashboard.Api.Response.{Response, json, error, answer}

pub record LoginRequest : Type 0 where
  pub email : String
  pub password : String

-- The object {"token": token, "user": user}.
pub record LoginResponse : Type 0 where
  pub token : String
  pub user : User

pub record CreateUserRequest : Type 0 where
  pub email : String
  pub password : String
  pub role : Role
  pub scope_type : ScopeType
  pub scope_id : Option ℕ

abbrev pub known_role : Role → Bool
known_role role = str_eq role role_admin || (str_eq role role_manager || str_eq role role_viewer)

-- The row that `handleCreateUser` hands to the database.
abbrev pub new_user : CreateUserRequest → String → User
new_user req hash = record {
  id = 0;
  email = req.email;
  password_hash = hash;
  role = req.role;
  scope_type = if str_eq req.scope_type "" then scope_none else req.scope_type;
  scope_id = req.scope_id;
  created_at = 0;
}

module _ (g : Gorm) (jwt : Jwt) (bcrypt : Bcrypt) where
  open g use {Db, find, first, count, create}

  -- `handleLogin` once the user is read.
  logged_in : String → Time → String → Result User → Response LoginResponse
  logged_in secret now password (err e) = error 401 "invalid email or password"
  logged_in secret now password (ok user) =
      if check_password bcrypt user.password_hash password
      then (elim (issue_token jwt secret user now) [
        | err e ↦ error 500 "failed to issue token"
        | ok token ↦ json 200 (record { token = token; user = user })
      ])
      else error 401 "invalid email or password"

  unfoldable pub handle_login :
      String → Time → Option LoginRequest → Db → Response LoginResponse × Db
  unfolding logged_in
  handle_login secret now none d = (error 400 "invalid request body", d)
  handle_login secret now (some req) d =
      let found = first Table.users (λ u. str_eq u.email req.email) d in
      (logged_in secret now req.password found.0, found.1)

  unfoldable pub handle_me : Option Claims → Db → Response User × Db
  handle_me none d = (error 401 "not authenticated", d)
  handle_me (some claims) d =
      answer (json 200) (error 404 "user not found")
        (first Table.users (λ u. u.id == claims.user_id) d)

  -- `handleCreateUser` once the password is hashed.
  store_user : CreateUserRequest → Result String → Db → Response User × Db
  store_user req (err e) d = (error 500 "failed to hash password", d)
  store_user req (ok hash) d =
      answer (json 201) (error 409 "could not create user (email may already exist)")
        (create Table.users (new_user req hash) d)

  unfoldable pub handle_create_user : Option CreateUserRequest → Db → Response User × Db
  unfolding store_user
  handle_create_user none d = (error 400 "invalid request body", d)
  handle_create_user (some req) d =
      if str_eq req.email "" || str_eq req.password ""
      then (error 400 "email and password are required", d)
      else if not (known_role req.role)
      then (error 400 "role must be admin, manager, or viewer", d)
      else store_user req (hash_password bcrypt req.password) d

  unfoldable pub handle_list_users : Db → Response (List User) × Db
  handle_list_users d =
      answer (json 200) (error 500 "failed to list users") (find Table.users (λ u. true) d)
