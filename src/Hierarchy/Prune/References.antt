-- ===== src/Hierarchy/Prune/References.antt =====
-- Pruning leaves no reference without its row.
use cloud_cost_dashboard.Base.{ℕ, List}
use cloud_cost_dashboard.Model.{Tables}
use cloud_cost_dashboard.Hierarchy.Prune.{
  regions_in, environments_in, projects_in, products_in, prune_regions, prune_environments,
  prune_projects, prune_products, prune_organizations,
}
use cloud_cost_dashboard.Hierarchy.Prune.Refers.{
  Refers, Refers-filter, Refers-by_parent, Refers-by_key, Refers-below,
}

-- Every product belongs to an organization, and so on down to the cost records.
pub record IsLinked (s : Tables) : Type 0 where
  pub products : Refers (λ p. p.organization_id) (λ o. o.id) s.products s.organizations
  pub projects : Refers (λ j. j.product_id) (λ p. p.id) s.projects s.products
  pub environments : Refers (λ e. e.project_id) (λ j. j.id) s.environments s.projects
  pub regions : Refers (λ r. r.environment_id) (λ e. e.id) s.regions s.environments
  pub cloud_accounts : Refers (λ a. a.region_id) (λ r. r.id) s.cloud_accounts s.regions
  pub cost_records : Refers (λ c. c.cloud_account_id) (λ a. a.id) s.cost_records s.cloud_accounts

-- Dropping regions with their accounts and costs.
pub prune_regions-IsLinked : (rs : List ℕ) (s : Tables) → IsLinked s → IsLinked (prune_regions rs s)
prune_regions-IsLinked rs s h = record {
  products = h.products;
  projects = h.projects;
  environments = h.environments;
  regions = Refers-filter (λ r. r.environment_id) (λ e. e.id) s.regions s.environments _ h.regions;
  cloud_accounts =
      Refers-by_parent (λ a. a.region_id) (λ r. r.id) s.cloud_accounts s.regions rs
        h.cloud_accounts;
  cost_records =
      Refers-below (λ c. c.cloud_account_id) (λ a. a.id) s.cost_records s.cloud_accounts
        (λ a. a.region_id) rs h.cost_records;
}

pub prune_environments-IsLinked :
    (es : List ℕ) (s : Tables) → IsLinked s → IsLinked (prune_environments es s)
prune_environments-IsLinked es s h =
    let below = prune_regions-IsLinked (regions_in es s) s h in
    record {
      products = h.products;
      projects = h.projects;
      environments =
          Refers-filter (λ e. e.project_id) (λ j. j.id) s.environments s.projects _ h.environments;
      regions =
          Refers-by_key (λ r. r.environment_id) (λ e. e.id) s.regions s.environments (λ r. r.id) es
            h.regions;
      cloud_accounts = below.cloud_accounts;
      cost_records = below.cost_records;
    }

pub prune_projects-IsLinked :
    (ps : List ℕ) (s : Tables) → IsLinked s → IsLinked (prune_projects ps s)
prune_projects-IsLinked ps s h =
    let below = prune_environments-IsLinked (environments_in ps s) s h in
    record {
      products = h.products;
      projects = Refers-filter (λ j. j.product_id) (λ p. p.id) s.projects s.products _ h.projects;
      environments =
          Refers-by_key (λ e. e.project_id) (λ j. j.id) s.environments s.projects (λ e. e.id) ps
            h.environments;
      regions = below.regions;
      cloud_accounts = below.cloud_accounts;
      cost_records = below.cost_records;
    }

pub prune_products-IsLinked :
    (ps : List ℕ) (s : Tables) → IsLinked s → IsLinked (prune_products ps s)
prune_products-IsLinked ps s h =
    let below = prune_projects-IsLinked (projects_in ps s) s h in
    record {
      products =
          Refers-filter (λ p. p.organization_id) (λ o. o.id) s.products s.organizations _
            h.products;
      projects =
          Refers-by_key (λ j. j.product_id) (λ p. p.id) s.projects s.products (λ j. j.id) ps
            h.projects;
      environments = below.environments;
      regions = below.regions;
      cloud_accounts = below.cloud_accounts;
      cost_records = below.cost_records;
    }

pub prune_organizations-IsLinked :
    (os : List ℕ) (s : Tables) → IsLinked s → IsLinked (prune_organizations os s)
prune_organizations-IsLinked os s h =
    let below = prune_products-IsLinked (products_in os s) s h in
    record {
      products =
          Refers-by_key (λ p. p.organization_id) (λ o. o.id) s.products s.organizations (λ p. p.id)
            os h.products;
      projects = below.projects;
      environments = below.environments;
      regions = below.regions;
      cloud_accounts = below.cloud_accounts;
      cost_records = below.cost_records;
    }
