-- ===== src/Api/Tree/Visible.antt =====
-- What a viewer sees of the hierarchy.
use cloud_cost_dashboard.Base.{
  ℕ, String, ◌≡◌, ◌⊎◌, true, some, List, arith, All, All-map, All-map-filter, eq_iff,
}
use cloud_cost_dashboard.Model.{
  Time, Float64, Product, Project, LoadedOrganization, scope_none, scope_product, scope_project,
  role_viewer,
}
use cloud_cost_dashboard.Gorm.{Gorm}
use cloud_cost_dashboard.Gorm.Queries.{Queries}
use cloud_cost_dashboard.Auth.Libraries.{Claims}
use cloud_cost_dashboard.Api.Response.{json}
use cloud_cost_dashboard.Api.Costs.Scope.{IsScopedViewer}
use cloud_cost_dashboard.Api.Tree.Answers.{handle_tree-cases}
use cloud_cost_dashboard.Api.Tree.{
  OrganizationTree, ProductTree, ProjectTree, product_in_scope, project_in_scope, project_node,
  product_node, organization_node, handle_tree,
}

-- A viewer may see a product if his scope is that product, or some project; a project if his scope
-- is that project, or some product (whose products have been chosen before).
abbrev MaySeeProduct : Claims → ℕ → Type 0
MaySeeProduct c n =
    ((c.scope_type ≡ scope_product) × (c.scope_id ≡ some n)) ⊎ (c.scope_type ≡ scope_project)

abbrev MaySeeProject : Claims → ℕ → Type 0
MaySeeProject c n =
    ((c.scope_type ≡ scope_project) × (c.scope_id ≡ some n)) ⊎ (c.scope_type ≡ scope_product)

-- The tree holds only products and projects that the viewer may see.
abbrev pub IsVisible : Claims → OrganizationTree → Type 0
IsVisible c o =
    All
      (λ (p : ProductTree).
        MaySeeProduct c p.id × All (λ (j : ProjectTree). MaySeeProject c j.id) p.projects)
      o.products

product_in_scope-MaySee :
    (c : Claims) (p : Product)
    → IsScopedViewer c
    → product_in_scope (some c) p ≡ true
    → MaySeeProduct c p.id
unfolding product_in_scope
product_in_scope-MaySee c p v h = ground (
  arith,
  v.role,
  v.scoped,
  eq_iff c.role role_viewer,
  eq_iff c.scope_type scope_none,
  eq_iff c.scope_type scope_product,
  eq_iff c.scope_type scope_project,
)

project_in_scope-MaySee :
    (c : Claims) (p : Product) (j : Project)
    → IsScopedViewer c
    → MaySeeProduct c p.id
    → project_in_scope (some c) j ≡ true
    → MaySeeProject c j.id
unfolding project_in_scope
project_in_scope-MaySee c p j v above h = ground (
  arith,
  v.role,
  v.scoped,
  eq_iff c.role role_viewer,
  eq_iff c.scope_type scope_none,
  eq_iff c.scope_type scope_product,
  eq_iff c.scope_type scope_project,
)

module _ (add : Float64 → Float64 → Float64) (sums : List (ℕ × Float64)) (c : Claims)
    (v : IsScopedViewer c) where
  organization_node-IsVisible :
      (o : LoadedOrganization) → IsVisible c (organization_node add sums (some c) o)
  unfolding organization_node
  organization_node-IsVisible o =
      All-map-filter _ (product_node add sums (some c)) (λ p. product_in_scope (some c) p.row)
        o.products
        λ p shown.
          let may = product_in_scope-MaySee c p.row v shown in
          (
            may,
            All-map-filter _ (project_node add sums (some c)) (λ j. project_in_scope (some c) j.row)
                p.projects λ j kept. project_in_scope-MaySee c p.row j.row v may kept,
          )

module _ (add : Float64 → Float64 → Float64) (g : Gorm) (q : Queries g) where
  open g use {Db}

  -- Where a tree request of a viewer with a scope is answered 200, every product of the tree is
  -- the one of his scope or his scope is of the type project, and every project is the one of
  -- his scope or his scope is of the type product.
  pub handle_tree-IsVisible :
      (now : Time) (c : Claims) (start end : String) (d : Db) (orgs : List OrganizationTree)
      → IsScopedViewer c
      → (handle_tree add g q now (some c) start end d).0 ≡ json 200 orgs
      → All (IsVisible c) orgs
  handle_tree-IsVisible now c start end d orgs v h =
      let (_, loaded, sums, _, _, _, same) =
        handle_tree-cases add g q now (some c) start end d orgs h in
      rw same (All-map (IsVisible c) _ loaded (organization_node-IsVisible add sums c v))
