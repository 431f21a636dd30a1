-- ===== src/Api/Tree/Answers.antt =====
-- How a tree request ends.
use cloud_cost_dashboard.Base.{ℕ, String, ◌≡◌, refl, ◌∙◌, Option, List, map}
use cloud_cost_dashboard.Base.Exec.{Result, ok, err}
use cloud_cost_dashboard.Model.{Time, Float64, LoadedOrganization}
use cloud_cost_dashboard.Gorm.{Gorm}
use cloud_cost_dashboard.Gorm.Queries.{Queries, IsLawfulQueries}
use cloud_cost_dashboard.Auth.Libraries.{Claims}
use cloud_cost_dashboard.Api.Response.{json}
use cloud_cost_dashboard.Api.Costs.{parse_date_range, in_range}
use cloud_cost_dashboard.Api.Tree.{
  OrganizationTree, organization_node, tree_of_costs, tree_of_rows, tree_in, handle_tree,
}

module _ (add : Float64 → Float64 → Float64) (g : Gorm) (q : Queries g) (claims : Option Claims)
    (orgs : List OrganizationTree) where
  open g use {Db}
  open q use {preload, sums_by_account}

  tree_of_costs-cases :
      (loaded : List LoadedOrganization) (out : Result (List (ℕ × Float64)) × Db)
      → (tree_of_costs add g q claims loaded out).0 ≡ json 200 orgs
      → (sums : List (ℕ × Float64)) × (out.0 ≡ ok sums)
        × (orgs ≡ map (organization_node add sums claims) loaded)
  unfolding tree_of_costs
  tree_of_costs-cases loaded (err e, d) h = cc
  tree_of_costs-cases loaded (ok sums, d) h = (sums, refl, cc h)

  tree_of_rows-cases :
      (range : Time × Time) (out : Result (List LoadedOrganization) × Db)
      → (tree_of_rows add g q claims range out).0 ≡ json 200 orgs
      → (loaded : List LoadedOrganization) × (sums : List (ℕ × Float64)) × (out.0 ≡ ok loaded)
        × ((sums_by_account (in_range range.0 range.1) out.1).0 ≡ ok sums)
        × (orgs ≡ map (organization_node add sums claims) loaded)
  unfolding tree_of_rows
  tree_of_rows-cases range (err e, d) h = cc
  tree_of_rows-cases (start, end) (ok loaded, d) h =
      let (sums, read, same) =
        tree_of_costs-cases loaded (sums_by_account (in_range start end) d) h in
      (loaded, sums, refl, read, same)

  tree_in-cases :
      (range : Result (Time × Time)) (d : Db)
      → (tree_in add g q claims range d).0 ≡ json 200 orgs
      → (r : Time × Time) × (loaded : List LoadedOrganization) × (sums : List (ℕ × Float64))
        × (range ≡ ok r)
        × ((preload d).0 ≡ ok loaded)
        × ((sums_by_account (in_range r.0 r.1) (preload d).1).0 ≡ ok sums)
        × (orgs ≡ map (organization_node add sums claims) loaded)
  unfolding tree_in
  tree_in-cases (err e) d h = cc
  tree_in-cases (ok r) d h =
      let (loaded, sums, read, summed, same) = tree_of_rows-cases r (preload d) h in
      (r, loaded, sums, refl, read, summed, same)

module _ (add : Float64 → Float64 → Float64) (g : Gorm) (q : Queries g) where
  open g use {Db}

  -- Whatever a tree request comes to: an error, or the loaded organizations with some sums.
  pub handle_tree-cases :
      (now : Time) (claims : Option Claims) (start end : String) (d : Db)
      (orgs : List OrganizationTree)
      → (handle_tree add g q now claims start end d).0 ≡ json 200 orgs
      → (range : Time × Time) × (loaded : List LoadedOrganization) × (sums : List (ℕ × Float64))
        × (parse_date_range now start end ≡ ok range)
        × ((q.preload d).0 ≡ ok loaded)
        × ((q.sums_by_account (in_range range.0 range.1) (q.preload d).1).0 ≡ ok sums)
        × (orgs ≡ map (organization_node add sums claims) loaded)
  unfolding handle_tree
  handle_tree-cases now claims start end d orgs h =
      tree_in-cases add g q claims orgs (parse_date_range now start end) d h

-- It changes no table.
module _ (g : Gorm) (q : Queries g) (promises : IsLawfulQueries g q)
    (add : Float64 → Float64 → Float64) (claims : Option Claims) where
  open g use {Db, view}

  view-tree_of_costs :
      (loaded : List LoadedOrganization) (out : Result (List (ℕ × Float64)) × Db)
      → view (tree_of_costs add g q claims loaded out).1 ≡ view out.1
  unfolding tree_of_costs
  view-tree_of_costs loaded (ok sums, d) = refl
  view-tree_of_costs loaded (err e, d) = refl

  view-tree_of_rows :
      (range : Time × Time) (out : Result (List LoadedOrganization) × Db)
      → view (tree_of_rows add g q claims range out).1 ≡ view out.1
  unfolding tree_of_rows
  view-tree_of_rows range (err e, d) = refl
  view-tree_of_rows (start, end) (ok loaded, d) =
      view-tree_of_costs loaded (q.sums_by_account (in_range start end) d)
      ∙ promises.view-sums_by_account (in_range start end) d

  view-tree_in :
      (range : Result (Time × Time)) (d : Db) → view (tree_in add g q claims range d).1 ≡ view d
  unfolding tree_in
  view-tree_in (err e) d = refl
  view-tree_in (ok range) d = view-tree_of_rows range (q.preload d) ∙ promises.view-preload d

  pub view-handle_tree :
      (now : Time) (start end : String) (d : Db)
      → view (handle_tree add g q now claims start end d).1 ≡ view d
  unfolding handle_tree
  view-handle_tree now start end d = view-tree_in (parse_date_range now start end) d
