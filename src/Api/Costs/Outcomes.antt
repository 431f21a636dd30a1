-- ===== src/Api/Costs/Outcomes.antt =====
-- Every way in which a timeseries request ends.
use cloud_cost_dashboard.Base.{
  ℕ, String, ◌<>◌, ◌≡◌, ◌≢◌, refl, sym, ◌∙◌, ap, Bool, true, if-true, if-false, if◌then◌else◌, ◌⊎◌,
  inl, inr, false, ◌&&◌, not, Option, none, some, List, [], ◌∷◌, arith, str_eq, eq_iff, Bool-cases,
}
use cloud_cost_dashboard.Base.Exec.{Result, ok, err, Result-cases}
use cloud_cost_dashboard.Model.{Tables, Time, CloudAccount, CostRecord}
use cloud_cost_dashboard.Gorm.{Gorm}
use cloud_cost_dashboard.Gorm.Queries.{Queries, Order, IsLawfulQueries}
use cloud_cost_dashboard.Auth.Libraries.{Claims}
use cloud_cost_dashboard.Api.Response.{Response, json, error, answer, answer-ok, answer-err}
use cloud_cost_dashboard.Api.Costs.{
  CostQuery, CostPoint, effective_scope, in_node, is_level, in_range, in_accounts,
  resolve_cloud_account_ids, label_of, order_of, query_points, points_in, points_of_node,
  points_of_scope, points_for, group_or_day, handle_cost_timeseries, parse_uint_param,
  parse_date_range,
}
use cloud_cost_dashboard.Api.Costs.Asked.{
  RangeOf, ScopeOf, parse_date_range-RangeOf, effective_scope-ScopeOf,
}
use cloud_cost_dashboard.Api.Costs.Under.{under_node}
use cloud_cost_dashboard.Api.Costs.Points.{PointsOf, query_points-PointsOf, points_of_node-PointsOf}

not_level :
    (t : String)
    → str_eq t "account" ≡ false
    → is_level t ≡ false
    → (t ≢ "account")
      × (t ≢ "region")
      × (t ≢ "environment")
      × (t ≢ "project")
      × (t ≢ "product")
      × (t ≢ "org")
unfolding is_level
not_level t other e = (
  (λ h. ground (arith, h, other, eq_iff t "account")),
  (λ h. ground (arith, h, e, eq_iff t "region")),
  (λ h. ground (arith, h, e, eq_iff t "environment")),
  (λ h. ground (arith, h, e, eq_iff t "project")),
  (λ h. ground (arith, h, e, eq_iff t "product")),
  (λ h. ground (arith, h, e, eq_iff t "org")),
)

module _ (g : Gorm) (q : Queries g) (promises : IsLawfulQueries g q) where
  open g use {Db, view}
  open q use {sums_by_label, pluck_accounts}
  open promises use {view-pluck_accounts, view-sums_by_label}

  -- A query of sums fails, over a database with the same tables.
  abbrev pub SumsFail : Db → Type 0
  SumsFail d =
      (label : CostRecord → String) × (order : Order) × (p : CostRecord → Bool) × (d' : Db)
      × (e : String) × (view d' ≡ view d)
      × ((sums_by_label label order p d').0 ≡ err e)

  -- What a request for the scope (t, id) is answered, by the parsed range.
  pub data Answered (parsed : Result (Time × Time)) (group_by t id : String) (d : Db)
      (r : Response (List CostPoint)) : Type 0 where
    bad_range : (e : String) → parsed ≡ err e → r ≡ error 400 e → Answered parsed group_by t id d r
    everything :
        (range : Time × Time) (points : List CostPoint)
        → parsed ≡ ok range
        → (t ≡ "") ⊎ (id ≡ "")
        → r ≡ json 200 points
        → PointsOf g q promises range
            (if str_eq group_by "" then "day" else group_by)
            (λ c. true)
            (view d)
            points
        → Answered parsed group_by t id d r
    bad_id :
        (range : Time × Time)
        → parsed ≡ ok range
        → t ≢ ""
        → id ≢ ""
        → parse_uint_param id ≡ none
        → r ≡ error 400 "invalid scopeId"
        → Answered parsed group_by t id d r
    bad_type :
        (range : Time × Time) (n : ℕ)
        → parsed ≡ ok range
        → parse_uint_param id ≡ some n
        → (t ≢ "account")
          × (t ≢ "region")
          × (t ≢ "environment")
          × (t ≢ "project")
          × (t ≢ "product")
          × (t ≢ "org")
        → r ≡ error 400 ("invalid scopeType: " <> t)
        → Answered parsed group_by t id d r
    pluck_failed :
        (range : Time × Time) (n : ℕ) (e : String) (p : Tables → CloudAccount → Bool)
        → parsed ≡ ok range
        → parse_uint_param id ≡ some n
        → (pluck_accounts p d).0 ≡ err e
        → r ≡ error 400 e
        → Answered parsed group_by t id d r
    node :
        (range : Time × Time) (n : ℕ) (points : List CostPoint)
        → parsed ≡ ok range
        → parse_uint_param id ≡ some n
        → r ≡ json 200 points
        → PointsOf g q promises range
            (if str_eq group_by "" then "day" else group_by)
            (under_node t n (view d))
            (view d)
            points
        → Answered parsed group_by t id d r
    failed :
        (range : Time × Time)
        → parsed ≡ ok range
        → SumsFail d
        → r ≡ error 500 "failed to query costs"
        → Answered parsed group_by t id d r

  query_points-cases :
      (range : Time × Time) (group_by : String) (ids : Option (List ℕ)) (d : Db)
      → ((points : List CostPoint) × ((query_points g q range group_by ids d).0 ≡ json 200 points))
        ⊎ (SumsFail d
            × ((query_points g q range group_by ids d).0 ≡ error 500 "failed to query costs"))
  unfolding query_points
  query_points-cases range group_by ids d =
      let out =
        sums_by_label (label_of g q group_by) (order_of g q group_by)
          (λ c. in_range range.0 range.1 c && in_accounts ids c) d in
      let why = error 500 "failed to query costs" in
      elim (Result-cases out.0) [
        | inl (l, ran) ↦ inl (l, ap (λ o. o.0) (answer-ok (json 200) why out l ran))
        | inr (e, stopped) ↦ inr (
          (_, _, _, d, e, refl, stopped),
          ap (λ o. o.0) (answer-err (json 200) why out e stopped),
        )
      ]

  view-answer :
      {A B : Type 0} (done : A → Response B) (why : Response B) (out : Result A × Db)
      → view (answer done why out).1 ≡ view out.1
  view-answer done why (ok a, d) = refl
  view-answer done why (err e, d) = refl

  view-query_points :
      (range : Time × Time) (group_by : String) (ids : Option (List ℕ)) (d : Db)
      → view (query_points g q range group_by ids d).1 ≡ view d
  unfolding query_points
  view-query_points range group_by ids d = view-answer (json 200) _ _ ∙ view-sums_by_label _ _ _ d

  view-resolve :
      (t : String) (n : ℕ) (d : Db) → view (resolve_cloud_account_ids g q t n d).1 ≡ view d
  unfolding resolve_cloud_account_ids
  view-resolve t n d = elim (Bool-cases (str_eq t "account")) [
    | inl self ↦ rw self refl
    | inr other ↦ elim (Bool-cases (is_level t)) [
      | inl level ↦ rw (other, level) (view-pluck_accounts _ d)
      | inr unknown ↦ rw (other, unknown) refl
    ]
  ]

  -- The outcome of a list of ids.
  points_in-cases :
      (range : Time × Time) (group_by : String) (out : Result (List ℕ) × Db)
      → (((points : List CostPoint) × ((points_in g q range group_by out).0 ≡ json 200 points))
          ⊎ ((SumsFail out.1
                × ((points_in g q range group_by out).0 ≡ error 500 "failed to query costs"))
              ⊎ ((e : String) × (out.0 ≡ err e)
                  × ((points_in g q range group_by out).0 ≡ error 400 e))))
        × (view (points_in g q range group_by out).1 ≡ view out.1)
  unfolding points_in
  points_in-cases range group_by (err e, d) = (inr (inr (e, refl, refl)), refl)
  points_in-cases range group_by (ok [], d) = (inl ([], refl), refl)
  points_in-cases range group_by (ok (n ∷ ids), d) = (
    elim (query_points-cases range group_by (some (n ∷ ids)) d) [
      | inl done ↦ inl done
      | inr stopped ↦ inr (inl stopped)
    ],
    view-query_points range group_by (some (n ∷ ids)) d,
  )

  -- Why the ids of a node are not found.
  resolve-err :
      (t : String) (n : ℕ) (d : Db) (e : String)
      → (resolve_cloud_account_ids g q t n d).0 ≡ err e
      → ((e ≡ "invalid scopeType: " <> t)
          × ((t ≢ "account")
              × (t ≢ "region")
              × (t ≢ "environment")
              × (t ≢ "project")
              × (t ≢ "product")
              × (t ≢ "org")))
        ⊎ ((p : Tables → CloudAccount → Bool) × ((pluck_accounts p d).0 ≡ err e))
  unfolding resolve_cloud_account_ids
  resolve-err t n d e h = elim (Bool-cases (str_eq t "account")) [
    | inl self ↦
        let found : resolve_cloud_account_ids g q t n d ≡ (ok (n ∷ []), d) = if-true _ _ self in
        cc (ap (λ o. o.0) found, h)
    | inr node_type ↦
        let past = if-false {A = Result (List ℕ) × Db} (ok (n ∷ []), d) _ node_type in
        elim (Bool-cases (is_level t)) [
          | inl level ↦ inr (
            in_node t n,
            sym (ap (λ o. o.0) (past ∙ if-true (pluck_accounts (in_node t n) d) _ level)) ∙ h,
          )
          | inr unknown ↦
              let refused : resolve_cloud_account_ids g q t n d
                  ≡ (err ("invalid scopeType: " <> t), d) =
                past ∙ if-false _ _ unknown in
              inl (cc (ap (λ o. o.0) refused, h), not_level t node_type unknown)
        ]
  ]

  points_of_node-Answered :
      (range : Time × Time) (group_by t id : String) (parsed : Option ℕ) (d : Db)
      → t ≢ ""
      → id ≢ ""
      → parse_uint_param id ≡ parsed
      → Answered
          (ok range)
          group_by
          t
          id
          d
          (points_of_node g q range (group_or_day group_by) t parsed d).0
  unfolding points_of_node
  points_of_node-Answered range group_by t id none d typed named e =
      bad_id range refl typed named e refl
  points_of_node-Answered range group_by t id (some n) d typed named e =
      elim (points_in-cases range (group_or_day group_by) (resolve_cloud_account_ids g q t n d)).0 [
        | inl (points, done) ↦
            node range n points refl e done
              (points_of_node-PointsOf g q promises range (group_or_day group_by) t n d points done)
        | inr (inl ((label, order, p, d', why, same, stopped), answered)) ↦
            failed range refl (label, order, p, d', why, same ∙ view-resolve t n d, stopped)
              answered
        | inr (inr (why, refused, answered)) ↦ elim (resolve-err t n d why refused) [
          | inl (message, unknown) ↦
              bad_type range n refl e unknown (answered ∙ ap (error 400) message)
          | inr (p, stopped) ↦ pluck_failed range n why p refl e stopped answered
        ]
      ]

  view-points_of_node :
      (range : Time × Time) (group_by t : String) (parsed : Option ℕ) (d : Db)
      → view (points_of_node g q range group_by t parsed d).1 ≡ view d
  unfolding points_of_node
  view-points_of_node range group_by t none d = refl
  view-points_of_node range group_by t (some n) d =
      (points_in-cases range group_by (resolve_cloud_account_ids g q t n d)).1 ∙ view-resolve t n d

  everything-Answered :
      (range : Time × Time) (group_by t id : String) (d : Db)
      → (t ≡ "") ⊎ (id ≡ "")
      → Answered
          (ok range)
          group_by
          t
          id
          d
          (query_points g q range (group_or_day group_by) none d).0
  everything-Answered range group_by t id d unscoped =
      elim (query_points-cases range (group_or_day group_by) none d) [
        | inl (points, done) ↦
            everything range points refl unscoped done
              (query_points-PointsOf g q promises range (group_or_day group_by) none d points done)
        | inr (stopped, answered) ↦ failed range refl stopped answered
      ]

  unscoped :
      (t id : String) → (not (str_eq t "") && not (str_eq id "")) ≡ false → (t ≡ "") ⊎ (id ≡ "")
  unscoped t id e = ground (arith, eq_iff t "", eq_iff id "")

  typed : (t id : String) → (not (str_eq t "") && not (str_eq id "")) ≡ true → t ≢ ""
  typed t id e h = ground (arith, h, eq_iff t "")

  named : (t id : String) → (not (str_eq t "") && not (str_eq id "")) ≡ true → id ≢ ""
  named t id e h = ground (arith, h, eq_iff id "")

  points_for-Answered :
      (parsed : Result (Time × Time)) (group_by t id : String) (d : Db)
      → Answered parsed group_by t id d (points_for g q parsed group_by (t, id) d).0
        × (view (points_for g q parsed group_by (t, id) d).1 ≡ view d)
  unfolding points_for points_of_scope
  points_for-Answered (err e) group_by t id d = (bad_range e refl refl, refl)
  points_for-Answered (ok range) group_by t id d =
      elim (Bool-cases (not (str_eq t "") && not (str_eq id ""))) [
        | inl scoped ↦ rw scoped (
          points_of_node-Answered range group_by t id (parse_uint_param id) d (typed t id scoped)
              (named t id scoped) refl,
          view-points_of_node range (group_or_day group_by) t (parse_uint_param id) d,
        )
        | inr bare ↦ rw bare (
          everything-Answered range group_by t id d (unscoped t id bare),
          view-query_points range (group_or_day group_by) none d,
        )
      ]

  pub handle_cost_timeseries-Answered :
      (now : Time) (claims : Option Claims) (r : CostQuery) (d : Db)
      → Answered
          (parse_date_range now r.start r.end)
          r.group_by
          (effective_scope claims r.scope_type r.scope_id).0
          (effective_scope claims r.scope_type r.scope_id).1
          d
          (handle_cost_timeseries g q now claims r d).0
        × (view (handle_cost_timeseries g q now claims r d).1 ≡ view d)
        × RangeOf now r.start r.end (parse_date_range now r.start r.end)
        × ScopeOf claims r.scope_type r.scope_id (effective_scope claims r.scope_type r.scope_id)
  unfolding handle_cost_timeseries
  handle_cost_timeseries-Answered now claims r d =
      let (answered, unchanged) =
        points_for-Answered (parse_date_range now r.start r.end) r.group_by
          (effective_scope claims r.scope_type r.scope_id).0
          (effective_scope claims r.scope_type r.scope_id).1 d in
      (
        answered,
        unchanged,
        parse_date_range-RangeOf now r.start r.end,
        effective_scope-ScopeOf claims r.scope_type r.scope_id,
      )
