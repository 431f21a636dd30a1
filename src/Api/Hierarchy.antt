-- ===== src/Api/Hierarchy.antt =====
-- The create and delete handlers of backend/internal/api/handlers_hierarchy.go.  A request body
-- is what the JSON decoder returns, nothing where it fails; `id` is the URL parameter.
pub mod Deletes
pub mod Links
pub mod Completes
use cloud_cost_dashboard.Base.{
  ℕ, String, Bool, ◌||◌, Option, none, some, str_eq, ◌==◌, if◌then◌else◌,
}
use cloud_cost_dashboard.Base.Exec.{Exec}
use cloud_cost_dashboard.Model.{Table, Organization, Product, Project, Environment, Region}
use cloud_cost_dashboard.Gorm.{Gorm}
use cloud_cost_dashboard.Hierarchy.Cascade.{
  cascade_delete_region, cascade_delete_environment, cascade_delete_project, cascade_delete_product,
  cascade_delete_organization,
}
use cloud_cost_dashboard.Api.Response.{Response, json, error, no_content, url_param_uint, answer}

-- The request bodies.
pub record CreateOrganization : Type 0 where
  pub name : String

pub record CreateProduct : Type 0 where
  pub organization_id : ℕ
  pub name : String

pub record CreateProject : Type 0 where
  pub product_id : ℕ
  pub name : String

pub record CreateEnvironment : Type 0 where
  pub project_id : ℕ
  pub name : String

pub record CreateRegion : Type 0 where
  pub environment_id : ℕ
  pub name : String

module _ (g : Gorm) where
  open g use {Db, create, transaction}

  unfoldable pub handle_create_organization :
      Option CreateOrganization → Db → Response Organization × Db
  handle_create_organization none d = (error 400 "name is required", d)
  handle_create_organization (some body) d =
      if str_eq body.name ""
      then (error 400 "name is required", d)
      else answer (json 201) (error 409 "could not create organization (name may already exist)")
          (create Table.organizations (record { id = 0; name = body.name; created_at = 0 }) d)

  unfoldable pub handle_create_product : Option CreateProduct → Db → Response Product × Db
  handle_create_product none d = (error 400 "organizationId and name are required", d)
  handle_create_product (some body) d =
      if str_eq body.name "" || body.organization_id == 0
      then (error 400 "organizationId and name are required", d)
      else answer (json 201) (error 400 "could not create product") (
          create Table.products
            (record {
              id = 0;
              organization_id = body.organization_id;
              name = body.name;
              created_at = 0;
            })
            d)

  unfoldable pub handle_create_project : Option CreateProject → Db → Response Project × Db
  handle_create_project none d = (error 400 "productId and name are required", d)
  handle_create_project (some body) d =
      if str_eq body.name "" || body.product_id == 0
      then (error 400 "productId and name are required", d)
      else answer (json 201) (error 400 "could not create project") (
          create Table.projects
            (record { id = 0; product_id = body.product_id; name = body.name; created_at = 0 }) d)

  unfoldable pub handle_create_environment :
      Option CreateEnvironment → Db → Response Environment × Db
  handle_create_environment none d = (error 400 "projectId and name are required", d)
  handle_create_environment (some body) d =
      if str_eq body.name "" || body.project_id == 0
      then (error 400 "projectId and name are required", d)
      else answer (json 201) (error 400 "could not create environment") (
          create Table.environments
            (record { id = 0; project_id = body.project_id; name = body.name; created_at = 0 }) d)

  unfoldable pub handle_create_region : Option CreateRegion → Db → Response Region × Db
  handle_create_region none d = (error 400 "environmentId and name are required", d)
  handle_create_region (some body) d =
      if str_eq body.name "" || body.environment_id == 0
      then (error 400 "environmentId and name are required", d)
      else answer (json 201) (error 400 "could not create region") (
          create Table.regions
            (record {
              id = 0;
              environment_id = body.environment_id;
              name = body.name;
              created_at = 0;
            })
            d)

  -- The five delete handlers differ in the node that they delete and in a message.
  delete_node : (ℕ → Exec Db (Unit {0})) → String → Option ℕ → Db → Response (Unit {0}) × Db
  delete_node cascade message none d = (error 400 "invalid id", d)
  delete_node cascade message (some n) d =
      answer (λ _. no_content) (error 500 message) (transaction (cascade n) d)

  unfoldable pub handle_delete_organization : String → Db → Response (Unit {0}) × Db
  unfolding delete_node
  handle_delete_organization id =
      delete_node (cascade_delete_organization g) "failed to delete organization"
        (url_param_uint id)

  unfoldable pub handle_delete_product : String → Db → Response (Unit {0}) × Db
  unfolding delete_node
  handle_delete_product id =
      delete_node (cascade_delete_product g) "failed to delete product" (url_param_uint id)

  unfoldable pub handle_delete_project : String → Db → Response (Unit {0}) × Db
  unfolding delete_node
  handle_delete_project id =
      delete_node (cascade_delete_project g) "failed to delete project" (url_param_uint id)

  unfoldable pub handle_delete_environment : String → Db → Response (Unit {0}) × Db
  unfolding delete_node
  handle_delete_environment id =
      delete_node (cascade_delete_environment g) "failed to delete environment" (url_param_uint id)

  unfoldable pub handle_delete_region : String → Db → Response (Unit {0}) × Db
  unfolding delete_node
  handle_delete_region id =
      delete_node (cascade_delete_region g) "failed to delete region" (url_param_uint id)
