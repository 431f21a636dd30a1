-- ===== src/Api/Costs/Points.antt =====
-- Which records the points of a node are made of.
use mathlib.Core.List.{not-mem-nil}
use cloud_cost_dashboard.Base.{
  ℕ, String, ◌≡◌, refl, sym, ◌∙◌, ap, subst, inl, inr, Bool, false, ◌&&◌, Option, some, List, [],
  ◌∷◌, arith, elem, filter, filter_ext, filter_none, any_ext, leb, if◌then◌else◌, any-map, any-perm,
  any-filter, str_eq, ◌==◌, Bool-cases, if-true, if-false,
}
use cloud_cost_dashboard.Base.Exec.{Result, ok, err, Result-cases}
use cloud_cost_dashboard.Model.{Tables, Time, CostRecord}
use cloud_cost_dashboard.Gorm.{Gorm}
use cloud_cost_dashboard.Gorm.Queries.{Queries, IsLawfulQueries, IsGrouped}
use cloud_cost_dashboard.Api.Response.{json, error, answer-ok, answer-err}
use cloud_cost_dashboard.Api.Costs.{
  CostPoint, in_node, is_level, in_range, in_accounts, resolve_cloud_account_ids, label_of,
  order_of, query_points, points_in, points_of_node,
}
use cloud_cost_dashboard.Api.Costs.Under.{under_node, in_node-region_under}

module _ (g : Gorm) (q : Queries g) (promises : IsLawfulQueries g q) where
  open g use {Db, view}
  open q use {pluck_accounts, sums_by_label}
  open promises use {pluck_rows, label_groups, view-pluck_accounts}

  -- The points are grouped, by service or by day, from the records in the range that meet `p`.
  abbrev pub PointsOf :
      Time × Time → String → (CostRecord → Bool) → Tables → List CostPoint → Type 0
  PointsOf range group_by p s points =
      IsGrouped q.sum str_eq
        (λ (c : CostRecord).
          if str_eq group_by "service" then c.service_name else q.day_label c.date)
        (filter (λ c. (leb range.0 c.date && leb c.date range.1) && p c) s.cost_records) points

  -- The ids that a node resolves to are those of the records under it.
  pub resolves :
      (t : String) (n : ℕ) (d : Db) (ids : List ℕ)
      → (resolve_cloud_account_ids g q t n d).0 ≡ ok ids
      → ((c : CostRecord) → elem c.cloud_account_id ids ≡ under_node t n (view d) c)
        × (view (resolve_cloud_account_ids g q t n d).1 ≡ view d)
  unfolding resolve_cloud_account_ids
  resolves t n d ids h = elim (Bool-cases (str_eq t "account")) [
    | inl self ↦
        let e = if-true {A = Result (List ℕ) × Db} (ok (n ∷ []), d) _ self in
        let same : ids ≡ n ∷ [] = cc (ap (λ o. o.0) e, h) in
        (
          (λ c.
              ap (elem c.cloud_account_id) same
              ∙ ground arith
              ∙ sym (if-true (c.cloud_account_id == n) _ self)),
          ap (λ o. view o.1) e,
        )
    | inr node ↦
        let e = if-false {A = Result (List ℕ) × Db} (ok (n ∷ []), d) _ node in
        elim (Bool-cases (is_level t)) [
          | inl level ↦
              let e' = e ∙ if-true (pluck_accounts (in_node t n) d) _ level in
              let plucked = pluck_rows (in_node t n) d ids (sym (ap (λ o. o.0) e') ∙ h) in
              (
                (λ c.
                    any-perm (λ m. m == c.cloud_account_id) plucked
                    ∙ any-map (λ a. a.id) (λ m. m == c.cloud_account_id) _
                    ∙ any-filter (in_node t n (view d)) _ (view d).cloud_accounts
                    ∙ any_ext _ _ (view d).cloud_accounts
                        (λ a. ground (arith, in_node-region_under (view d) t n a level))
                    ∙ sym (if-false (c.cloud_account_id == n) _ node)),
                ap (λ o. view o.1) e' ∙ view-pluck_accounts (in_node t n) d,
              )
          | inr unknown ↦
              cc (ap (λ o. o.0) (e ∙ if-false (pluck_accounts (in_node t n) d) _ unknown), h)
        ]
  ]

  pub query_points-PointsOf :
      (range : Time × Time) (group_by : String) (ids : Option (List ℕ)) (d : Db)
      (points : List CostPoint)
      → (query_points g q range group_by ids d).0 ≡ json 200 points
      → PointsOf range group_by (in_accounts ids) (view d) points
  unfolding query_points
  query_points-PointsOf range group_by ids d points h =
      let label = label_of g q group_by in
      let p = λ (c : CostRecord). in_range range.0 range.1 c && in_accounts ids c in
      let out = sums_by_label label (order_of g q group_by) p d in
      elim (Result-cases out.0) [
        | inl (l, read) ↦
            let same : l ≡ points = cc (
              ap (λ o. o.0) (answer-ok (json 200) (error 500 "failed to query costs") out l read),
              h,
            ) in
            label_groups label (order_of g q group_by) p d points (read ∙ ap ok same)
        | inr (e, failed) ↦ cc (
          ap (λ o. o.0) (answer-err (json 200) (error 500 "failed to query costs") out e failed),
          h,
        )
      ]

  PointsOf-ext :
      (range : Time × Time) (group_by : String) (p r : CostRecord → Bool) (s s' : Tables)
      (points : List CostPoint)
      → ((c : CostRecord) → p c ≡ r c)
      → s ≡ s'
      → PointsOf range group_by p s points
      → PointsOf range group_by r s' points
  PointsOf-ext range group_by p r s s' points same e grouped =
      subst (λ l. IsGrouped q.sum str_eq (label_of g q group_by) l points)
        (filter_ext (λ c. in_range range.0 range.1 c && p c)
            (λ c. in_range range.0 range.1 c && r c) s.cost_records
            (λ c. ap (λ b. in_range range.0 range.1 c && b) (same c))
          ∙ ap (λ (t : Tables). filter (λ c. in_range range.0 range.1 c && r c) t.cost_records) e)
        grouped

  -- No record, no point.
  no_points :
      (range : Time × Time) (group_by : String) (p : CostRecord → Bool) (s : Tables)
      → ((c : CostRecord) → p c ≡ false)
      → PointsOf range group_by p s []
  no_points range group_by p s h =
      subst (λ l. IsGrouped {L = String} q.sum str_eq (label_of g q group_by) l [])
        (sym (filter_none _ s.cost_records (λ c. ground (arith, h c))))
        (record {
          entry = λ l v m. absurd (not-mem-nil m);
          complete = λ c m. absurd (not-mem-nil m);
        })

  points_in-PointsOf :
      (range : Time × Time) (group_by : String) (p : CostRecord → Bool) (s : Tables)
      (ids : Result (List ℕ)) (d : Db) (points : List CostPoint)
      → ((l : List ℕ) → ids ≡ ok l → (c : CostRecord) → elem c.cloud_account_id l ≡ p c)
      → view d ≡ s
      → (points_in g q range group_by (ids, d)).0 ≡ json 200 points
      → PointsOf range group_by p s points
  unfolding points_in
  points_in-PointsOf range group_by p s (err e) d points same e' h = cc
  points_in-PointsOf range group_by p s (ok []) d points same e' h =
      let none_left : points ≡ [] = cc h in
      rw none_left (no_points range group_by p s (λ c. sym (same [] refl c)))
  points_in-PointsOf range group_by p s (ok (n ∷ l)) d points same e' h =
      PointsOf-ext range group_by (in_accounts (some (n ∷ l))) p (view d) s points
        (same (n ∷ l) refl) e' (query_points-PointsOf range group_by (some (n ∷ l)) d points h)

  points_in_err :
      (range : Time × Time) (group_by : String) (out : Result (List ℕ) × Db) (e : String)
      → out.0 ≡ err e
      → (points_in g q range group_by out).0 ≡ error 400 e
  unfolding points_in
  points_in_err range group_by (ok l, d) e h = cc
  points_in_err range group_by (err c, d) e h = ap (error 400) (cc h)

  -- The points that are answered for a node are made of exactly the records of the range that are
  -- under it.
  pub points_of_node-PointsOf :
      (range : Time × Time) (group_by t : String) (n : ℕ) (d : Db) (points : List CostPoint)
      → (points_of_node g q range group_by t (some n) d).0 ≡ json 200 points
      → PointsOf range group_by (under_node t n (view d)) (view d) points
  unfolding points_of_node
  points_of_node-PointsOf range group_by t n d points h =
      elim (Result-cases (resolve_cloud_account_ids g q t n d).0) [
        | inl (ids, found) ↦
            points_in-PointsOf range group_by (under_node t n (view d)) (view d)
              (resolve_cloud_account_ids g q t n d).0 (resolve_cloud_account_ids g q t n d).1 points
              (λ l e. (resolves t n d l e).0) (resolves t n d ids found).1 h
        | inr (e, failed) ↦
            cc (points_in_err range group_by (resolve_cloud_account_ids g q t n d) e failed, h)
      ]
