-- ===== src/Api/Costs.antt =====
-- backend/internal/api/handlers_costs.go.
pub mod Under
pub mod Asked
pub mod Points
pub mod Scope
pub mod Outcomes
use Prim.Native.String
use cloud_cost_dashboard.Base.{
  ℕ, String, Bool, true, false, ◌&&◌, not, Option, none, some, List, [], ◌∷◌, elem, any, str_eq,
  ◌==◌, leb, if◌then◌else◌,
}
use cloud_cost_dashboard.Base.Exec.{Result, ok, err, Exec}
use cloud_cost_dashboard.Model.{
  Tables, Time, Float64, CloudAccount, CostRecord, role_viewer, scope_none,
}
use cloud_cost_dashboard.Gorm.{Gorm}
use cloud_cost_dashboard.Gorm.Queries.{Queries, Order, amount_desc, label_asc}
use cloud_cost_dashboard.Hierarchy.Prune.{
  children, regions_in, environments_in, projects_in, products_in,
}
use cloud_cost_dashboard.Text.Numbers.{scan_uint, print_uint}
use cloud_cost_dashboard.Text.Dates.{truncate_to_day, days_before, parse_date}
use cloud_cost_dashboard.Auth.Libraries.{Claims}
use cloud_cost_dashboard.Api.Response.{Response, json, error, answer}

-- A query parameter that is missing reads as "".
pub record CostQuery : Type 0 where
  pub start : String
  pub end : String
  pub scope_type : String
  pub scope_id : String
  pub group_by : String

-- A bound of the range: its parameter, or the default.
abbrev pub bound : String → Time → String → Result Time
bound param default message =
    if str_eq param ""
    then ok default
    else (elim (parse_date param) [ some t ↦ ok t | none ↦ err message ])

abbrev pub both : Result Time → Result Time → Result (Time × Time)
both (err e) _ = err e
both (ok start) (err e) = err e
both (ok start) (ok end) = ok (start, end)

-- `parseDateRange`, at the time `now`.
unfoldable pub parse_date_range : Time → String → String → Result (Time × Time)
parse_date_range now start end =
    let today = truncate_to_day now in
    both (bound start (days_before 30 today) "invalid start date (want YYYY-MM-DD)")
      (bound end today "invalid end date (want YYYY-MM-DD)")

unfoldable pub parse_uint_param : String → Option ℕ
parse_uint_param s = scan_uint s

-- A point {"label": l, "amount": v}.
abbrev pub CostPoint : Type 0
CostPoint = String × Float64

-- Whether the caller is a viewer with a scope.
abbrev pub is_restricted : Option Claims → Bool
is_restricted none = false
is_restricted (some c) = str_eq c.role role_viewer && not (str_eq c.scope_type scope_none)

abbrev pub scope_id_text : Option ℕ → String → String
scope_id_text none asked = asked
scope_id_text (some n) asked = print_uint n

-- The scope that a request is answered for: a viewer's own takes the place of the parameters.
unfoldable pub effective_scope : Option Claims → String → String → String × String
effective_scope none scope_type scope_id = (scope_type, scope_id)
effective_scope (some c) scope_type scope_id =
    if is_restricted (some c)
    then (c.scope_type, scope_id_text c.scope_id scope_id)
    else (scope_type, scope_id)

-- The condition by which `resolveCloudAccountIDs` plucks the cloud accounts of a node; an account
-- is its own scope and is not looked up.
unfoldable pub in_node : String → ℕ → Tables → CloudAccount → Bool
in_node scope_type n s a =
    if str_eq scope_type "region"
    then a.region_id == n
    else if str_eq scope_type "environment"
    then elem a.region_id (regions_in (n ∷ []) s)
    else if str_eq scope_type "project"
    then elem a.region_id (regions_in (environments_in (n ∷ []) s) s)
    else if str_eq scope_type "product"
    then elem a.region_id (regions_in (environments_in (projects_in (n ∷ []) s) s) s)
    else elem a.region_id
        (regions_in (environments_in (projects_in (products_in (n ∷ []) s) s) s) s)

unfoldable pub is_level : String → Bool
is_level t = any (λ l. str_eq t l) ("region" ∷ "environment" ∷ "project" ∷ "product" ∷ "org" ∷ [])

abbrev pub in_range : Time → Time → CostRecord → Bool
in_range start end c = leb start c.date && leb c.date end

-- The `cloud_account_id IN ?` of the query, where there are ids.
abbrev pub in_accounts : Option (List ℕ) → CostRecord → Bool
in_accounts none c = true
in_accounts (some ids) c = elem c.cloud_account_id ids

-- The parameter "groupBy" with its default.
abbrev pub group_or_day : String → String
group_or_day group_by = if str_eq group_by "" then "day" else group_by

module _ (g : Gorm) (q : Queries g) where
  open g use {Db}
  open q use {day_label, pluck_accounts, sums_by_label}

  unfoldable pub resolve_cloud_account_ids : String → ℕ → Exec Db (List ℕ)
  resolve_cloud_account_ids scope_type n d =
      if str_eq scope_type "account"
      then (ok (n ∷ []), d)
      else if is_level scope_type
      then pluck_accounts (in_node scope_type n) d
      else (err (String.◌++◌ "invalid scopeType: " scope_type), d)

  -- What a point is labelled by, and the order of the points.
  abbrev pub label_of : String → CostRecord → String
  label_of group_by c = if str_eq group_by "service" then c.service_name else day_label c.date

  abbrev pub order_of : String → Order
  order_of group_by = if str_eq group_by "service" then amount_desc else label_asc

  -- The query at the end of the handler.
  unfoldable pub query_points :
      Time × Time → String → Option (List ℕ) → Db → Response (List CostPoint) × Db
  query_points (start, end) group_by ids d = answer (json 200) (error 500 "failed to query costs") (
      sums_by_label (label_of group_by) (order_of group_by)
        (λ c. in_range start end c && in_accounts ids c) d)

  points_in : Time × Time → String → Result (List ℕ) × Db → Response (List CostPoint) × Db
  unfolding query_points
  points_in range group_by (err e, d) = (error 400 e, d)
  points_in range group_by (ok [], d) = (json 200 [], d)
  points_in range group_by (ok (n ∷ ids), d) = query_points range group_by (some (n ∷ ids)) d

  pub points_of_node :
      Time × Time → String → String → Option ℕ → Db → Response (List CostPoint) × Db
  unfolding points_in
  points_of_node range group_by scope_type none d = (error 400 "invalid scopeId", d)
  points_of_node range group_by scope_type (some n) d =
      points_in range group_by (resolve_cloud_account_ids scope_type n d)

  points_of_scope : Time × Time → String → String × String → Db → Response (List CostPoint) × Db
  unfolding points_of_node query_points
  points_of_scope range group_by (scope_type, scope_id) d =
      if not (str_eq scope_type "") && not (str_eq scope_id "")
      then points_of_node range group_by scope_type (parse_uint_param scope_id) d
      else query_points range group_by none d

  points_for : Result (Time × Time) → String → String × String → Db → Response (List CostPoint) × Db
  unfolding points_of_scope
  points_for (err e) group_by scope d = (error 400 e, d)
  points_for (ok range) group_by scope d = points_of_scope range (group_or_day group_by) scope d

  unfoldable pub handle_cost_timeseries :
      Time → Option Claims → CostQuery → Db → Response (List CostPoint) × Db
  unfolding points_for
  handle_cost_timeseries now claims r d =
      points_for (parse_date_range now r.start r.end) r.group_by
        (effective_scope claims r.scope_type r.scope_id) d
