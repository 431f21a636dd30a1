-- ===== src/Hierarchy/Prune.antt =====
-- What deleting a part of the hierarchy is to do to the tables: the abstract side of the cascade.
-- A part is given by the ids of its nodes on one level; the nodes below are found by their parents.
pub mod Laws
pub mod Levels
pub mod Refers
pub mod References
use cloud_cost_dashboard.Base.{ℕ, not, List, map, filter, elem}
use cloud_cost_dashboard.Model.{Tables}

-- The ids of the rows whose parent is among `parents`, the subquery
-- `SELECT id FROM rows WHERE parent IN (parents)`.
abbrev pub children {ℓ} : {A : Type ℓ} → (A → ℕ) → (A → ℕ) → List ℕ → List A → List ℕ
children key parent parents l = map key (filter (λ a. elem (parent a) parents) l)

abbrev pub accounts_in : List ℕ → Tables → List ℕ
accounts_in rs s = children (λ a. a.id) (λ a. a.region_id) rs s.cloud_accounts

abbrev pub regions_in : List ℕ → Tables → List ℕ
regions_in es s = children (λ r. r.id) (λ r. r.environment_id) es s.regions

abbrev pub environments_in : List ℕ → Tables → List ℕ
environments_in ps s = children (λ e. e.id) (λ e. e.project_id) ps s.environments

abbrev pub projects_in : List ℕ → Tables → List ℕ
projects_in ps s = children (λ p. p.id) (λ p. p.product_id) ps s.projects

abbrev pub products_in : List ℕ → Tables → List ℕ
products_in os s = children (λ p. p.id) (λ p. p.organization_id) os s.products

abbrev pub prune_costs : List ℕ → Tables → Tables
prune_costs accounts s = record s {
  cost_records = filter (λ c. not (elem c.cloud_account_id accounts)) s.cost_records;
}

abbrev pub prune_regions : List ℕ → Tables → Tables
prune_regions rs s = record s {
  cost_records = filter (λ c. not (elem c.cloud_account_id (accounts_in rs s))) s.cost_records;
  cloud_accounts = filter (λ a. not (elem a.region_id rs)) s.cloud_accounts;
  regions = filter (λ r. not (elem r.id rs)) s.regions;
}

abbrev pub prune_environments : List ℕ → Tables → Tables
prune_environments es s = record (prune_regions (regions_in es s) s) {
  environments = filter (λ e. not (elem e.id es)) s.environments;
}

abbrev pub prune_projects : List ℕ → Tables → Tables
prune_projects ps s = record (prune_environments (environments_in ps s) s) {
  projects = filter (λ p. not (elem p.id ps)) s.projects;
}

abbrev pub prune_products : List ℕ → Tables → Tables
prune_products ps s = record (prune_projects (projects_in ps s) s) {
  products = filter (λ p. not (elem p.id ps)) s.products;
}

abbrev pub prune_organizations : List ℕ → Tables → Tables
prune_organizations os s = record (prune_products (products_in os s) s) {
  organizations = filter (λ o. not (elem o.id os)) s.organizations;
}
