-- ===== src/Gorm/Queries.antt =====
-- The reading queries of the API that are more than a condition on one table: the preloaded
-- hierarchy, ids by nested subqueries, and sums of costs by group.  They too are gorm's and SQLite's.
use cloud_cost_dashboard.Base.{
  ℕ, String, ◌≡◌, ◌≢◌, Bool, true, List, [], map, Mem, Perm, filter, any, ◌==◌, str_eq,
}
use cloud_cost_dashboard.Base.Exec.{ok, Exec}
use cloud_cost_dashboard.Model.{Tables, Time, Float64, CloudAccount, CostRecord, LoadedOrganization}
use cloud_cost_dashboard.Gorm.{Gorm}

pub data Order : Type 0 where
  amount_desc label_asc : Order

pub record Queries (g : Gorm) : Type 0 where
  -- SQL's `sum`, and `strftime('%Y-%m-%d', date)`
  pub sum : List Float64 → Float64
  pub day_label : Time → String
  -- `Preload(...).Find(&orgs)`
  pub preload : Exec g.Db (List LoadedOrganization)
  -- `Model(&models.CloudAccount{}).Where(cond).Pluck("id", &ids)`; subqueries read the tables
  pub pluck_accounts : (Tables → CloudAccount → Bool) → Exec g.Db (List ℕ)
  -- `Select("cloud_account_id, sum(amount)").Where(cond).Group("cloud_account_id").Scan(&sums)`
  pub sums_by_account : (CostRecord → Bool) → Exec g.Db (List (ℕ × Float64))
  -- `Where(cond).Select("label, sum(amount)").Group("label").Order(order).Scan(&points)`
  pub sums_by_label :
      (CostRecord → String) → Order → (CostRecord → Bool) → Exec g.Db (List (String × Float64))

-- The result of a `GROUP BY`: one entry for each label that occurs, with the sum of its group.
pub record IsGrouped {L : Type 0} (sum : List Float64 → Float64) (eq : L → L → Bool)
    (label : CostRecord → L) (costs : List CostRecord) (out : List (L × Float64)) : Type 0 where
  pub entry :
      (l : L) (v : Float64)
      → Mem (l, v) out
      → (group : List CostRecord) × Perm group (filter (λ c. eq (label c) l) costs)
        × (group ≢ [])
        × (v ≡ sum (map (λ c. c.amount) group))
  pub complete : (c : CostRecord) → Mem c costs → any (λ e. eq e.0 (label c)) out ≡ true

pub record IsLawfulQueries (g : Gorm) (q : Queries g) : Type 0 where
  pub view-preload : (d : g.Db) → g.view (q.preload d).1 ≡ g.view d
  pub view-pluck_accounts :
      (p : Tables → CloudAccount → Bool) (d : g.Db) → g.view (q.pluck_accounts p d).1 ≡ g.view d
  pub view-sums_by_account :
      (p : CostRecord → Bool) (d : g.Db) → g.view (q.sums_by_account p d).1 ≡ g.view d
  pub view-sums_by_label :
      (label : CostRecord → String) (o : Order) (p : CostRecord → Bool) (d : g.Db)
      → g.view (q.sums_by_label label o p d).1 ≡ g.view d
  pub pluck_rows :
      (p : Tables → CloudAccount → Bool) (d : g.Db) (ids : List ℕ)
      → (q.pluck_accounts p d).0 ≡ ok ids
      → Perm ids (map (λ a. a.id) (filter (p (g.view d)) (g.view d).cloud_accounts))
  pub account_groups :
      (p : CostRecord → Bool) (d : g.Db) (out : List (ℕ × Float64))
      → (q.sums_by_account p d).0 ≡ ok out
      → IsGrouped q.sum ◌==◌ (λ c. c.cloud_account_id) (filter p (g.view d).cost_records) out
  pub label_groups :
      (label : CostRecord → String) (o : Order) (p : CostRecord → Bool) (d : g.Db)
      (out : List (String × Float64))
      → (q.sums_by_label label o p d).0 ≡ ok out
      → IsGrouped q.sum str_eq label (filter p (g.view d).cost_records) out
