-- ===== src/Api/Tree/Totals.antt =====
-- The totals of the tree.
use cloud_cost_dashboard.Base.{
  ℕ, String, ◌≡◌, refl, ◌∙◌, ap, subst, ◌⊎◌, inl, inr, false, Option, none, some, List, [], ◌∷◌,
  map, Mem, Memᴰ, Perm, arith, filter, any, All, All-map, All-map-filter, ◌==◌, ==_iff,
  filter_none_of_mem, Option-cases, Bool-cases, ◌≢◌,
}
use cloud_cost_dashboard.Base.Exec.{ok}
use cloud_cost_dashboard.Model.{
  Tables, Time, Float64, zero_float, CostRecord, LoadedRegion, LoadedEnvironment, LoadedProject,
  LoadedProduct, LoadedOrganization,
}
use cloud_cost_dashboard.Gorm.{Gorm}
use cloud_cost_dashboard.Gorm.Queries.{Queries, IsLawfulQueries, IsGrouped}
use cloud_cost_dashboard.Auth.Libraries.{Claims}
use cloud_cost_dashboard.Api.Response.{json}
use cloud_cost_dashboard.Api.Costs.{in_range, parse_date_range}
use cloud_cost_dashboard.Api.Tree.{
  CloudAccountTree, RegionTree, EnvironmentTree, ProjectTree, ProductTree, OrganizationTree,
  cost_entry, cost_of, add_all, account_node, region_node, environment_node, project_node,
  product_node, organization_node, handle_tree,
}
use cloud_cost_dashboard.Api.Tree.Answers.{handle_tree-cases}

-- What an account is charged: the sum of its records, or zero where it has none.
abbrev pub IsCharged : (List Float64 → Float64) → List CostRecord → ℕ → Float64 → Type 0
IsCharged sum costs n v =
    ((group : List CostRecord) × Perm group (filter (λ c. c.cloud_account_id == n) costs)
      × (group ≢ [])
      × (v ≡ sum (map (λ c. c.amount) group)))
    ⊎ ((filter (λ c. c.cloud_account_id == n) costs ≡ []) × (v ≡ zero_float))

module _ (add : Float64 → Float64 → Float64) (sum : List Float64 → Float64)
    (costs : List CostRecord) where
  -- Each account is charged for its records, and each node above has the sum of its children.
  abbrev pub RegionAdds : RegionTree → Type 0
  RegionAdds r =
      (r.total_cost ≡ add_all add zero_float (map (λ a. a.total_cost) r.cloud_accounts))
      × All (λ (a : CloudAccountTree). IsCharged sum costs a.id a.total_cost) r.cloud_accounts

  abbrev pub EnvironmentAdds : EnvironmentTree → Type 0
  EnvironmentAdds e =
      (e.total_cost ≡ add_all add zero_float (map (λ r. r.total_cost) e.regions))
      × All RegionAdds e.regions

  abbrev pub ProjectAdds : ProjectTree → Type 0
  ProjectAdds p =
      (p.total_cost ≡ add_all add zero_float (map (λ e. e.total_cost) p.environments))
      × All EnvironmentAdds p.environments

  abbrev pub ProductAdds : ProductTree → Type 0
  ProductAdds p =
      (p.total_cost ≡ add_all add zero_float (map (λ j. j.total_cost) p.projects))
      × All ProjectAdds p.projects

  abbrev pub AddsUp : OrganizationTree → Type 0
  AddsUp o =
      (o.total_cost ≡ add_all add zero_float (map (λ p. p.total_cost) o.products))
      × All ProductAdds o.products

cost_entry-some :
    (n : ℕ) (v : Float64) (sums : List (ℕ × Float64))
    → cost_entry n sums ≡ some v
    → Memᴰ (n, v) sums
cost_entry-some n v [] h = cc
cost_entry-some n v ((k, w) ∷ sums) h = elim (Option-cases (cost_entry n sums)) [
  | inl missing ↦ Memᴰ.head (ground arith)
  | inr (u, found) ↦ Memᴰ.tail (cost_entry-some n v sums (ground arith))
]

cost_entry-none :
    (n : ℕ) (sums : List (ℕ × Float64))
    → cost_entry n sums ≡ none
    → any (λ e. e.0 == n) sums ≡ false
cost_entry-none n [] h = refl
cost_entry-none n ((k, w) ∷ sums) h = ground (arith, cost_entry-none n sums)

-- An account that no entry names has no record.
unlisted :
    (sum : List Float64 → Float64) (costs : List CostRecord) (sums : List (ℕ × Float64)) (n : ℕ)
    → IsGrouped sum ◌==◌ (λ c. c.cloud_account_id) costs sums
    → any (λ e. e.0 == n) sums ≡ false
    → (c : CostRecord) → Mem c costs
    → (c.cloud_account_id == n) ≡ false
unlisted sum costs sums n grouped missing c m = elim (Bool-cases (c.cloud_account_id == n)) [
  | inl same ↦ cc (
    missing,
    grouped.complete c m,
    ap (λ k. any (λ e. e.0 == k) sums) ((==_iff c.cloud_account_id n).0 same),
  )
  | inr other ↦ other
]

-- The map that is made of the grouped sums charges each account.
cost_of-IsCharged :
    (sum : List Float64 → Float64) (costs : List CostRecord) (sums : List (ℕ × Float64)) (n : ℕ)
    → IsGrouped sum ◌==◌ (λ c. c.cloud_account_id) costs sums
    → IsCharged sum costs n (cost_of sums n)
unfolding cost_of
cost_of-IsCharged sum costs sums n grouped = elim (Option-cases (cost_entry n sums)) [
  | inl missing ↦
      rw (missing, cost_of)
        (inr (
          filter_none_of_mem _ costs
              (unlisted sum costs sums n grouped (cost_entry-none n sums missing)),
          refl,
        ))
  | inr (v, found) ↦
      let (group, same, nonempty, e) = grouped.entry n v ∣ cost_entry-some n v sums found ∣₁ in
      rw (found, cost_of) (inl (group, same, nonempty, e))
]

module _ (add : Float64 → Float64 → Float64) (sum : List Float64 → Float64)
    (costs : List CostRecord) (sums : List (ℕ × Float64)) (claims : Option Claims)
    (grouped : IsGrouped sum ◌==◌ (λ c. c.cloud_account_id) costs sums) where
  region_node-Adds : (r : LoadedRegion) → RegionAdds add sum costs (region_node add sums claims r)
  unfolding region_node
  region_node-Adds r = (
    refl,
    All-map _ (account_node add sums claims) r.cloud_accounts
        (λ a. cost_of-IsCharged sum costs sums a.id grouped),
  )

  environment_node-Adds :
      (e : LoadedEnvironment) → EnvironmentAdds add sum costs (environment_node add sums claims e)
  unfolding environment_node
  environment_node-Adds e =
      (refl, All-map _ (region_node add sums claims) e.regions region_node-Adds)

  project_node-Adds :
      (p : LoadedProject) → ProjectAdds add sum costs (project_node add sums claims p)
  unfolding project_node
  project_node-Adds p =
      (refl, All-map _ (environment_node add sums claims) p.environments environment_node-Adds)

  product_node-Adds :
      (p : LoadedProduct) → ProductAdds add sum costs (product_node add sums claims p)
  unfolding product_node
  product_node-Adds p = (
    refl,
    All-map-filter _ (project_node add sums claims) _ p.projects (λ j _. project_node-Adds j),
  )

  organization_node-AddsUp :
      (o : LoadedOrganization) → AddsUp add sum costs (organization_node add sums claims o)
  unfolding organization_node
  organization_node-AddsUp o = (
    refl,
    All-map-filter _ (product_node add sums claims) _ o.products (λ p _. product_node-Adds p),
  )

module _ (add : Float64 → Float64 → Float64) (g : Gorm) (q : Queries g)
    (promises : IsLawfulQueries g q) where
  open g use {Db, view}

  -- In the answer to a tree request every total adds up: an account's is the sum of its records of
  -- the range, or zero where it has none, and any other node's is that of its children.
  pub handle_tree-AddsUp :
      (now : Time) (claims : Option Claims) (start end : String) (range : Time × Time) (d : Db)
      (orgs : List OrganizationTree)
      → parse_date_range now start end ≡ ok range
      → (handle_tree add g q now claims start end d).0 ≡ json 200 orgs
      → All (AddsUp add q.sum (filter (in_range range.0 range.1) (view d).cost_records)) orgs
  handle_tree-AddsUp now claims start end range d orgs parsed h =
      let (r, loaded, sums, parsed', _, summed, same) =
        handle_tree-cases add g q now claims start end d orgs h in
      let d' = (q.preload d).1 in
      let same_range : r ≡ range = cc (parsed, parsed') in
      let grouped = promises.account_groups (in_range r.0 r.1) d' sums summed in
      let costs =
        ap (λ (s : Time × Time). filter (in_range s.0 s.1) (view d').cost_records) same_range
        ∙ ap (λ (t : Tables). filter (in_range range.0 range.1) t.cost_records)
            (promises.view-preload d) in
      rw same (
        All-map _ (organization_node add sums claims) loaded (
          organization_node-AddsUp add q.sum
            (filter (in_range range.0 range.1) (view d).cost_records) sums claims
            (subst (λ l. IsGrouped {L = ℕ} q.sum ◌==◌ (λ c. c.cloud_account_id) l sums) costs
              grouped)))
