-- ===== src/Api/Creates/Users.antt =====
-- The handlers that create and delete parts of the hierarchy leave the users alone.
use cloud_cost_dashboard.Base.{ℕ, String, ◌≡◌, refl, ◌∙◌, ap, ◌≢◌, Bool, Option, none, some, List}
use cloud_cost_dashboard.Model.{Tables, Table, Row}
use cloud_cost_dashboard.Gorm.Statements.{users-set_rows}
use cloud_cost_dashboard.Api.Response.{Response}
use cloud_cost_dashboard.Api.Creates.{
  Creates, rejected, refused, added, handle_create_organization-Creates,
  handle_create_product-Creates, handle_create_project-Creates, handle_create_environment-Creates,
  handle_create_region-Creates, handle_create_cloud_account-Creates,
}
use cloud_cost_dashboard.Gorm.{Gorm, IsLawful}
use cloud_cost_dashboard.Api.Hierarchy.{
  CreateOrganization, CreateProduct, CreateProject, CreateEnvironment, CreateRegion,
  handle_create_organization, handle_create_product, handle_create_project,
  handle_create_environment, handle_create_region, handle_delete_organization,
  handle_delete_product, handle_delete_project, handle_delete_environment, handle_delete_region,
}
use cloud_cost_dashboard.Api.Hierarchy.Deletes.{
  Deletes, invalid, rolled_back, pruned, handle_delete_organization-Deletes,
  handle_delete_product-Deletes, handle_delete_project-Deletes, handle_delete_environment-Deletes,
  handle_delete_region-Deletes,
}
use cloud_cost_dashboard.Api.Accounts.{CreateCloudAccountRequest, handle_create_cloud_account}

users-Creates :
    {t : Table} {row : Row t} {bad : Bool} {code : ℕ} {before after : Tables} {r : Response (Row t)}
    → t ≢ Table.users
    → Creates t row bad code before after r
    → after.users ≡ before.users
users-Creates other (rejected message h e same) = ap (λ s. s.users) same
users-Creates other (refused message h e same) = ap (λ s. s.users) same
users-Creates {t} {before} other (added n now h e new_key free same) =
    ap (λ s. s.users) same ∙ users-set_rows t _ before other

users-Deletes :
    {prune : List ℕ → Tables → Tables} {id message : String} {before after : Tables}
    {r : Response (Unit {0})}
    → ((ns : List ℕ) (s : Tables) → (prune ns s).users ≡ s.users)
    → Deletes prune id message before after r
    → after.users ≡ before.users
users-Deletes keeps (invalid h e same) = ap (λ s. s.users) same
users-Deletes keeps (rolled_back e same) = ap (λ s. s.users) same
users-Deletes {before} keeps (pruned n h e same) = ap (λ s. s.users) same ∙ keeps _ before

module _ (g : Gorm) (promises : IsLawful g) where
  open g use {Db, view}

  pub users-handle_create_organization :
      (body : Option CreateOrganization) (d : Db)
      → (view (handle_create_organization g body d).1).users ≡ (view d).users
  unfolding handle_create_organization
  users-handle_create_organization none d = refl
  users-handle_create_organization (some b) d =
      users-Creates (λ e. cc) (handle_create_organization-Creates g promises b d)

  pub users-handle_create_product :
      (body : Option CreateProduct) (d : Db)
      → (view (handle_create_product g body d).1).users ≡ (view d).users
  unfolding handle_create_product
  users-handle_create_product none d = refl
  users-handle_create_product (some b) d =
      users-Creates (λ e. cc) (handle_create_product-Creates g promises b d)

  pub users-handle_create_project :
      (body : Option CreateProject) (d : Db)
      → (view (handle_create_project g body d).1).users ≡ (view d).users
  unfolding handle_create_project
  users-handle_create_project none d = refl
  users-handle_create_project (some b) d =
      users-Creates (λ e. cc) (handle_create_project-Creates g promises b d)

  pub users-handle_create_environment :
      (body : Option CreateEnvironment) (d : Db)
      → (view (handle_create_environment g body d).1).users ≡ (view d).users
  unfolding handle_create_environment
  users-handle_create_environment none d = refl
  users-handle_create_environment (some b) d =
      users-Creates (λ e. cc) (handle_create_environment-Creates g promises b d)

  pub users-handle_create_region :
      (body : Option CreateRegion) (d : Db)
      → (view (handle_create_region g body d).1).users ≡ (view d).users
  unfolding handle_create_region
  users-handle_create_region none d = refl
  users-handle_create_region (some b) d =
      users-Creates (λ e. cc) (handle_create_region-Creates g promises b d)

  pub users-handle_create_cloud_account :
      (body : Option CreateCloudAccountRequest) (d : Db)
      → (view (handle_create_cloud_account g body d).1).users ≡ (view d).users
  unfolding handle_create_cloud_account
  users-handle_create_cloud_account none d = refl
  users-handle_create_cloud_account (some b) d =
      users-Creates (λ e. cc) (handle_create_cloud_account-Creates g promises b d)

  pub users-handle_delete_organization :
      (id : String) (d : Db) → (view (handle_delete_organization g id d).1).users ≡ (view d).users
  users-handle_delete_organization id d =
      users-Deletes (λ ns t. refl) (handle_delete_organization-Deletes g promises id d)

  pub users-handle_delete_product :
      (id : String) (d : Db) → (view (handle_delete_product g id d).1).users ≡ (view d).users
  users-handle_delete_product id d =
      users-Deletes (λ ns t. refl) (handle_delete_product-Deletes g promises id d)

  pub users-handle_delete_project :
      (id : String) (d : Db) → (view (handle_delete_project g id d).1).users ≡ (view d).users
  users-handle_delete_project id d =
      users-Deletes (λ ns t. refl) (handle_delete_project-Deletes g promises id d)

  pub users-handle_delete_environment :
      (id : String) (d : Db) → (view (handle_delete_environment g id d).1).users ≡ (view d).users
  users-handle_delete_environment id d =
      users-Deletes (λ ns t. refl) (handle_delete_environment-Deletes g promises id d)

  pub users-handle_delete_region :
      (id : String) (d : Db) → (view (handle_delete_region g id d).1).users ≡ (view d).users
  users-handle_delete_region id d =
      users-Deletes (λ ns t. refl) (handle_delete_region-Deletes g promises id d)
