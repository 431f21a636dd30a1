-- ===== src/Hierarchy/Cascade.antt =====
-- The cascade delete helpers of handlers_hierarchy.go, over any database.
pub mod Refines
use cloud_cost_dashboard.Base.{ℕ, ◌==◌}
use cloud_cost_dashboard.Base.Exec.{Exec, for_each, ◌>>=◌, ◌>>◌}
use cloud_cost_dashboard.Model.{Table}
use cloud_cost_dashboard.Gorm.{Gorm}

module _ (g : Gorm) where
  open g use {Db, find, delete}

  unfoldable pub cascade_delete_region : ℕ → Exec Db (Unit {0})
  cascade_delete_region region_id = do
    accounts ← find Table.cloud_accounts (λ a. a.region_id == region_id)
    for_each (λ a. delete Table.cost_records (λ c. c.cloud_account_id == a.id)) accounts
    delete Table.cloud_accounts (λ a. a.region_id == region_id)
    delete Table.regions (λ r. r.id == region_id)

  unfoldable pub cascade_delete_environment : ℕ → Exec Db (Unit {0})
  cascade_delete_environment env_id = do
    regions ← find Table.regions (λ r. r.environment_id == env_id)
    for_each (λ reg. cascade_delete_region reg.id) regions
    delete Table.environments (λ e. e.id == env_id)

  unfoldable pub cascade_delete_project : ℕ → Exec Db (Unit {0})
  cascade_delete_project project_id = do
    envs ← find Table.environments (λ e. e.project_id == project_id)
    for_each (λ e. cascade_delete_environment e.id) envs
    delete Table.projects (λ p. p.id == project_id)

  unfoldable pub cascade_delete_product : ℕ → Exec Db (Unit {0})
  cascade_delete_product product_id = do
    projects ← find Table.projects (λ p. p.product_id == product_id)
    for_each (λ p. cascade_delete_project p.id) projects
    delete Table.products (λ p. p.id == product_id)

  -- The body of the transaction of `handleDeleteOrganization`.
  unfoldable pub cascade_delete_organization : ℕ → Exec Db (Unit {0})
  cascade_delete_organization id = do
    products ← find Table.products (λ p. p.organization_id == id)
    for_each (λ p. cascade_delete_product p.id) products
    delete Table.organizations (λ o. o.id == id)
