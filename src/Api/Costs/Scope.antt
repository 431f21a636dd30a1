-- ===== src/Api/Costs/Scope.antt =====
-- What a viewer with a scope is answered.
use cloud_cost_dashboard.Base.{
  ℕ, ◌<◌, String, ◌≡◌, refl, sym, ◌∙◌, ap, ap₂, ◌≢◌, ◌&&◌, not, none, some, List, arith, str_eq,
  eq_iff, if-true, if◌then◌else◌,
}
use cloud_cost_dashboard.Base.Exec.{ok}
use cloud_cost_dashboard.Model.{Time, role_viewer, scope_none}
use cloud_cost_dashboard.Gorm.{Gorm}
use cloud_cost_dashboard.Gorm.Queries.{Queries, IsLawfulQueries}
use cloud_cost_dashboard.Text.Numbers.{two_to_64, scan_uint, print_uint, scan_uint-print_uint}
use cloud_cost_dashboard.Auth.Libraries.{Claims}
use cloud_cost_dashboard.Api.Response.{json}
use cloud_cost_dashboard.Api.Costs.{
  CostQuery, CostPoint, scope_id_text, effective_scope, points_of_node, points_for, group_or_day,
  handle_cost_timeseries, parse_uint_param, parse_date_range,
}
use cloud_cost_dashboard.Api.Costs.Under.{under_node}
use cloud_cost_dashboard.Api.Costs.Points.{PointsOf, points_of_node-PointsOf}

-- The claims of a viewer with a scope.
pub record IsScopedViewer (c : Claims) : Type 0 where
  pub role : c.role ≡ role_viewer
  pub scoped : c.scope_type ≢ scope_none

effective_scope_viewer :
    (c : Claims) (t id : String)
    → IsScopedViewer c
    → effective_scope (some c) t id ≡ (c.scope_type, scope_id_text c.scope_id id)
unfolding effective_scope
effective_scope_viewer c t id v =
    if-true (c.scope_type, scope_id_text c.scope_id id) (t, id)
      (ground (arith, v.role, v.scoped, eq_iff c.role role_viewer, eq_iff c.scope_type scope_none))

scan_uint_nil : scan_uint "" ≡ none
unfolding scan_uint
scan_uint_nil = refl

print_uint-ne-nil : (n : ℕ) → n < two_to_64 → print_uint n ≢ ""
print_uint-ne-nil n h e = cc (scan_uint-print_uint n h, ap scan_uint e, scan_uint_nil)

parse_uint_param-print_uint : (n : ℕ) → n < two_to_64 → parse_uint_param (print_uint n) ≡ some n
unfolding parse_uint_param
parse_uint_param-print_uint n h = scan_uint-print_uint n h

module _ (g : Gorm) (q : Queries g) where
  open g use {Db, view}

  -- A viewer whose scope names a node is answered alike whatever scope the request asks for.
  pub handle_cost_timeseries_ignores_scope :
      (now : Time) (c : Claims) (n : ℕ) (r : CostQuery) (t id : String) (d : Db)
      → IsScopedViewer c
      → c.scope_id ≡ some n
      → handle_cost_timeseries g q now (some c) (record r { scope_type = t; scope_id = id }) d
        ≡ handle_cost_timeseries g q now (some c) r d
  unfolding handle_cost_timeseries
  handle_cost_timeseries_ignores_scope now c n r t id d v named =
      ap (λ scope. points_for g q (parse_date_range now r.start r.end) r.group_by scope d)
        (effective_scope_viewer c t id v
          ∙ ap (λ o. (c.scope_type, o))
              (ap (λ o. scope_id_text o id) named
                ∙ sym (ap (λ o. scope_id_text o r.scope_id) named))
          ∙ sym (effective_scope_viewer c r.scope_type r.scope_id v))

  points_for_node :
      (range : Time × Time) (group_by t id : String) (d : Db)
      → t ≢ ""
      → id ≢ ""
      → points_for g q (ok range) group_by (t, id) d
        ≡ points_of_node g q range (group_or_day group_by) t (parse_uint_param id) d
  unfolding points_for
  points_for_node range group_by t id d typed named =
      if-true {b = not (str_eq t "") && not (str_eq id "")}
        (points_of_node g q range (group_or_day group_by) t (parse_uint_param id) d) _
        (ground (arith, eq_iff t "", eq_iff id ""))

  module _ (promises : IsLawfulQueries g q) where
    -- Where a viewer whose scope has a type and names a node, by a 64-bit number, is answered
    -- 200 for a valid range, the points group exactly the cost records of the range that are
    -- under that node.
    pub handle_cost_timeseries-PointsOf :
        (now : Time) (c : Claims) (n : ℕ) (r : CostQuery) (d : Db) (range : Time × Time)
        (points : List CostPoint)
        → IsScopedViewer c
        → c.scope_id ≡ some n
        → n < two_to_64
        → c.scope_type ≢ ""
        → parse_date_range now r.start r.end ≡ ok range
        → (handle_cost_timeseries g q now (some c) r d).0 ≡ json 200 points
        → PointsOf g q promises range
            (if str_eq r.group_by "" then "day" else r.group_by)
            (under_node c.scope_type n (view d))
            (view d)
            points
    unfolding handle_cost_timeseries
    handle_cost_timeseries-PointsOf now c n r d range points v named small typed parsed h =
        let days = group_or_day r.group_by in
        let e =
          ap₂ (λ p scope. points_for g q p r.group_by scope d) parsed
            (effective_scope_viewer c r.scope_type r.scope_id v
              ∙ ap (λ o. (c.scope_type, scope_id_text o r.scope_id)) named)
          ∙ points_for_node range r.group_by c.scope_type (print_uint n) d typed
              (print_uint-ne-nil n small)
          ∙ ap (λ o. points_of_node g q range days c.scope_type o d)
              (parse_uint_param-print_uint n small) in
        points_of_node-PointsOf g q promises range days c.scope_type n d points
          (sym (ap (λ o. o.0) e) ∙ h)
