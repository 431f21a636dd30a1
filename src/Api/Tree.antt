-- ===== src/Api/Tree.antt =====
-- `handleTree` of backend/internal/api/handlers_hierarchy.go: the hierarchy with the costs of each
-- node rolled up.  The loops that append to a slice and add to a total are recursions on the list;
-- a total is the left fold of the additions, in the order of the loop.
pub mod Answers
pub mod Visible
pub mod Totals
use cloud_cost_dashboard.Base.{
  ℕ, String, Bool, true, false, ◌&&◌, ◌||◌, not, Option, none, some, List, [], ◌∷◌, map, filter,
  str_eq, ◌==◌, is_some_of, if◌then◌else◌,
}
use cloud_cost_dashboard.Base.Exec.{Result, ok, err, Exec}
use cloud_cost_dashboard.Model.{
  Time, Float64, zero_float, Product, Project, CloudAccount, ProviderKey, LoadedRegion,
  LoadedEnvironment, LoadedProject, LoadedProduct, LoadedOrganization, role_viewer, scope_none,
  scope_product, scope_project,
}
use cloud_cost_dashboard.Gorm.{Gorm}
use cloud_cost_dashboard.Gorm.Queries.{Queries}
use cloud_cost_dashboard.Auth.Libraries.{Claims}
use cloud_cost_dashboard.Api.Response.{Response, json, error, answer}
use cloud_cost_dashboard.Api.Costs.{parse_date_range, in_range}

pub record CloudAccountTree : Type 0 where
  pub id : ℕ
  pub name : String
  pub provider : ProviderKey
  pub external_id : String
  pub active : Bool
  pub last_sync_at : Option Time
  pub last_sync_err : String
  pub total_cost : Float64

pub record RegionTree : Type 0 where
  pub id : ℕ
  pub name : String
  pub total_cost : Float64
  pub cloud_accounts : List CloudAccountTree

pub record EnvironmentTree : Type 0 where
  pub id : ℕ
  pub name : String
  pub total_cost : Float64
  pub regions : List RegionTree

pub record ProjectTree : Type 0 where
  pub id : ℕ
  pub name : String
  pub total_cost : Float64
  pub environments : List EnvironmentTree

pub record ProductTree : Type 0 where
  pub id : ℕ
  pub name : String
  pub total_cost : Float64
  pub projects : List ProjectTree

pub record OrganizationTree : Type 0 where
  pub id : ℕ
  pub name : String
  pub total_cost : Float64
  pub products : List ProductTree

-- Whether the caller sees everything.
abbrev pub is_unrestricted : Claims → Bool
is_unrestricted c = str_eq c.scope_type scope_none || not (str_eq c.role role_viewer)

unfoldable pub product_in_scope : Option Claims → Product → Bool
product_in_scope none product = true
product_in_scope (some c) product =
    if is_unrestricted c
    then true
    else if str_eq c.scope_type scope_product
    then is_some_of c.scope_id product.id
    else str_eq c.scope_type scope_project

unfoldable pub project_in_scope : Option Claims → Project → Bool
project_in_scope none project = true
project_in_scope (some c) project =
    if is_unrestricted c
    then true
    else if str_eq c.scope_type scope_project
    then is_some_of c.scope_id project.id
    else true

-- The map that `costByAccountID` fills from the rows: the last row of a key counts.
abbrev pub cost_entry : ℕ → List (ℕ × Float64) → Option Float64
cost_entry n [] = none
cost_entry n ((k, v) ∷ sums) = elim (cost_entry n sums) [
  | some w ↦ some w
  | none ↦ if k == n then some v else none
]

-- `costByAccount[id]`: zero where the map has no such key.
unfoldable pub cost_of : List (ℕ × Float64) → ℕ → Float64
cost_of sums n = elim (cost_entry n sums) [ some v ↦ v | none ↦ zero_float ]

-- `add` is the addition of float64.
module _ (add : Float64 → Float64 → Float64) where
  -- `total += cost` over the children, from zero on.
  abbrev pub add_all : Float64 → List Float64 → Float64
  add_all total [] = total
  add_all total (cost ∷ costs) = add_all (add total cost) costs

  module _ (sums : List (ℕ × Float64)) (claims : Option Claims) where
    unfoldable pub account_node : CloudAccount → CloudAccountTree
    account_node a = record {
      id = a.id;
      name = a.name;
      provider = a.provider;
      external_id = a.external_id;
      active = a.active;
      last_sync_at = a.last_sync_at;
      last_sync_err = a.last_sync_err;
      total_cost = cost_of sums a.id;
    }

    unfoldable pub region_node : LoadedRegion → RegionTree
    unfolding account_node
    region_node r =
        let accounts = map account_node r.cloud_accounts in
        record {
          id = r.row.id;
          name = r.row.name;
          total_cost = add_all zero_float (map (λ a. a.total_cost) accounts);
          cloud_accounts = accounts;
        }

    unfoldable pub environment_node : LoadedEnvironment → EnvironmentTree
    unfolding region_node
    environment_node e =
        let regions = map region_node e.regions in
        record {
          id = e.row.id;
          name = e.row.name;
          total_cost = add_all zero_float (map (λ r. r.total_cost) regions);
          regions = regions;
        }

    unfoldable pub project_node : LoadedProject → ProjectTree
    unfolding environment_node
    project_node p =
        let environments = map environment_node p.environments in
        record {
          id = p.row.id;
          name = p.row.name;
          total_cost = add_all zero_float (map (λ e. e.total_cost) environments);
          environments = environments;
        }

    unfoldable pub product_node : LoadedProduct → ProductTree
    unfolding project_node
    product_node p =
        let projects = map project_node (filter (λ j. project_in_scope claims j.row) p.projects) in
        record {
          id = p.row.id;
          name = p.row.name;
          total_cost = add_all zero_float (map (λ j. j.total_cost) projects);
          projects = projects;
        }

    unfoldable pub organization_node : LoadedOrganization → OrganizationTree
    unfolding product_node
    organization_node o =
        let products = map product_node (filter (λ p. product_in_scope claims p.row) o.products) in
        record {
          id = o.row.id;
          name = o.row.name;
          total_cost = add_all zero_float (map (λ p. p.total_cost) products);
          products = products;
        }

  module _ (g : Gorm) (q : Queries g) where
    open g use {Db}
    open q use {preload, sums_by_account}

    tree_of_costs :
        Option Claims
        → List LoadedOrganization
        → Result (List (ℕ × Float64)) × Db
        → Response (List OrganizationTree) × Db
    tree_of_costs claims orgs (err e, d) = (error 500 "failed to load costs", d)
    tree_of_costs claims orgs (ok sums, d) =
        (json 200 (map (organization_node sums claims) orgs), d)

    tree_of_rows :
        Option Claims
        → Time × Time
        → Result (List LoadedOrganization) × Db
        → Response (List OrganizationTree) × Db
    unfolding tree_of_costs
    tree_of_rows claims range (err e, d) = (error 500 "failed to load hierarchy", d)
    tree_of_rows claims (start, end) (ok orgs, d) =
        tree_of_costs claims orgs (sums_by_account (in_range start end) d)

    tree_in : Option Claims → Result (Time × Time) → Db → Response (List OrganizationTree) × Db
    unfolding tree_of_rows
    tree_in claims (err e) d = (error 400 e, d)
    tree_in claims (ok range) d = tree_of_rows claims range (preload d)

    unfoldable pub handle_tree :
        Time → Option Claims → String → String → Db → Response (List OrganizationTree) × Db
    unfolding tree_in
    handle_tree now claims start end d = tree_in claims (parse_date_range now start end) d
