-- ===== src/Examples/Api.antt =====
-- The theorems about the API at concrete requests.
use cloud_cost_dashboard.Base.{◌+◌, ◌*◌, ◌≡◌, refl, arith, eq_iff, some, List, [], ◌∷◌, All, filter}
use cloud_cost_dashboard.Base.Exec.{ok}
use cloud_cost_dashboard.Text.Dates.{day}
use cloud_cost_dashboard.Gorm.Memory.{memory, memory-IsLawful}
use cloud_cost_dashboard.Hierarchy.Prune.{
  prune_regions, prune_environments, prune_projects, prune_products, prune_organizations,
}
use cloud_cost_dashboard.Api.Response.{Response, json}
use cloud_cost_dashboard.Api.Hierarchy.{
  handle_delete_organization, handle_delete_product, handle_delete_project,
  handle_delete_environment, handle_delete_region,
}
use cloud_cost_dashboard.Api.Hierarchy.Deletes.{
  Deletes, handle_delete_organization-Deletes, handle_delete-Deletes,
}
use cloud_cost_dashboard.Api.Costs.{
  CostQuery, CostPoint, handle_cost_timeseries, in_range, parse_date_range, effective_scope,
  parse_uint_param, resolve_cloud_account_ids, is_level, in_node,
}
use cloud_cost_dashboard.Text.Numbers.{print_uint, scan_uint}
use cloud_cost_dashboard.Api.Costs.Under.{under_node}
use cloud_cost_dashboard.Api.Costs.Points.{PointsOf}
use cloud_cost_dashboard.Api.Costs.Scope.{
  IsScopedViewer, handle_cost_timeseries_ignores_scope, handle_cost_timeseries-PointsOf,
}
use cloud_cost_dashboard.Api.Tree.{OrganizationTree, handle_tree}
use cloud_cost_dashboard.Api.Tree.Visible.{IsVisible, handle_tree-IsVisible}
use cloud_cost_dashboard.Api.Tree.Totals.{AddsUp, handle_tree-AddsUp}
use cloud_cost_dashboard.Examples.World.{tables, db, viewer}
use cloud_cost_dashboard.Examples.Storage.{queries, queries-IsLawful}

handle_delete_organization_example :
    let out = handle_delete_organization memory "1" db in
    Deletes prune_organizations "1" "failed to delete organization" tables out.1.0 out.0
handle_delete_organization_example =
    handle_delete_organization-Deletes memory memory-IsLawful "1" db

-- Only ten statements run, and requests that need more are rolled back.
handle_delete_example :
    let product = handle_delete_product memory "1" (tables, 10) in
    let project = handle_delete_project memory "1" (tables, 10) in
    let environment = handle_delete_environment memory "1" (tables, 10) in
    let region = handle_delete_region memory "1" (tables, 10) in
    Deletes prune_products "1" "failed to delete product" tables product.1.0 product.0
    × Deletes prune_projects "1" "failed to delete project" tables project.1.0 project.0
    × Deletes prune_environments "1" "failed to delete environment" tables environment.1.0
        environment.0
    × Deletes prune_regions "1" "failed to delete region" tables region.1.0 region.0
handle_delete_example = handle_delete-Deletes memory memory-IsLawful "1" (tables, 10)

viewer-IsScopedViewer : IsScopedViewer viewer
viewer-IsScopedViewer = record {
  role = refl;
  scoped = λ e. ground (arith, e, eq_iff "product" "none");
}

-- A request of all costs of the first organization, by service.
abbrev asked : CostQuery
asked = record { start = ""; end = ""; scope_type = "org"; scope_id = "1"; group_by = "service" }

handle_cost_timeseries_ignores_scope_example :
    handle_cost_timeseries memory queries
      (2 * day)
      (some viewer)
      (record asked { scope_type = "product"; scope_id = "1" })
      db
    ≡ handle_cost_timeseries memory queries (2 * day) (some viewer) asked db
handle_cost_timeseries_ignores_scope_example =
    handle_cost_timeseries_ignores_scope memory queries (2 * day) viewer 2 asked "product" "1" db
      viewer-IsScopedViewer refl

abbrev points : List CostPoint
points = ("compute", 7) ∷ []

last_days : parse_date_range (2 * day) "" "" ≡ ok (0, 2 * day)
unfolding parse_date_range
last_days = refl

asked_points :
    (handle_cost_timeseries memory queries (2 * day) (some viewer) asked db).0 ≡ json 200 points
unfolding handle_cost_timeseries parse_date_range effective_scope print_uint parse_uint_param
    scan_uint resolve_cloud_account_ids is_level in_node
asked_points = refl

handle_cost_timeseries-PointsOf_example :
    PointsOf memory queries queries-IsLawful
      (0, 2 * day)
      "service"
      (under_node "product" 2 tables)
      tables
      points
handle_cost_timeseries-PointsOf_example =
    handle_cost_timeseries-PointsOf memory queries queries-IsLawful (2 * day) viewer 2 asked db
      (0, 2 * day) points viewer-IsScopedViewer refl (omega arith)
      (λ e. ground (arith, e, eq_iff "product" "")) last_days asked_points

abbrev tree_of : Response (List OrganizationTree) → List OrganizationTree
tree_of (json n orgs) = orgs
tree_of _ = []

abbrev tree_seen : List OrganizationTree
tree_seen = tree_of (handle_tree ◌+◌ memory queries (2 * day) (some viewer) "" "" db).0

tree_answered :
    (handle_tree ◌+◌ memory queries (2 * day) (some viewer) "" "" db).0 ≡ json 200 tree_seen
unfolding handle_tree parse_date_range
tree_answered = refl

handle_tree-IsVisible_example : All (IsVisible viewer) tree_seen
handle_tree-IsVisible_example =
    handle_tree-IsVisible ◌+◌ memory queries (2 * day) viewer "" "" db tree_seen
      viewer-IsScopedViewer tree_answered

handle_tree-AddsUp_example :
    All (AddsUp ◌+◌ queries.sum (filter (in_range 0 (2 * day)) tables.cost_records)) tree_seen
handle_tree-AddsUp_example =
    handle_tree-AddsUp ◌+◌ memory queries queries-IsLawful (2 * day) (some viewer) "" ""
      (0, 2 * day) db tree_seen last_days tree_answered
