-- ===== src/Hierarchy/Cascade/Refines.antt =====
-- A cascade that returns has pruned the tables: the code against its abstract side.
use cloud_cost_dashboard.Base.{
  ℕ, ◌≡◌, sym, ap, ◌∙◌, Bool, not, List, [], ◌∷◌, map, Perm, arith, ◌==◌, filter, elem, filter_ext,
  any_ext, any-filter, any-map, any-perm,
}
use cloud_cost_dashboard.Base.Exec.{ok, Exec, for_each, ◌>>=◌, ◌>>◌, >>=-eq-ok}
use cloud_cost_dashboard.Model.{Tables, Table, Row, rows, set_rows}
use cloud_cost_dashboard.Gorm.{Gorm, IsLawful}
use cloud_cost_dashboard.Hierarchy.Prune.{
  children, accounts_in, regions_in, environments_in, projects_in, products_in, prune_costs,
  prune_regions, prune_environments, prune_projects, prune_products, prune_organizations,
}
use cloud_cost_dashboard.Hierarchy.Prune.Laws.{SameMembers, elem-children}
use cloud_cost_dashboard.Hierarchy.Prune.Levels.{
  IsPruning, prune_costs-IsPruning, prune_regions-IsPruning, prune_environments-IsPruning,
  prune_projects-IsPruning, prune_products-IsPruning,
}
use cloud_cost_dashboard.Hierarchy.Cascade.{
  cascade_delete_region, cascade_delete_environment, cascade_delete_project, cascade_delete_product,
  cascade_delete_organization,
}

==_comm : (a b : ℕ) → (a == b) ≡ (b == a)
==_comm a b = ground arith

-- The rows that a query by parent reads have the ids that the subquery has.
SameMembers-of_perm {ℓ} :
    {A : Type ℓ} (key parent : A → ℕ) (n : ℕ) (l all_rows : List A)
    → Perm l (filter (λ a. parent a == n) all_rows)
    → SameMembers (map key l) (children key parent (n ∷ []) all_rows)
SameMembers-of_perm key parent n l all_rows read m =
    any-map key (λ k. k == m) l
    ∙ any-perm (λ a. key a == m) read
    ∙ any-filter (λ a. parent a == n) (λ a. key a == m) all_rows
    ∙ any_ext _ _ all_rows (λ a. ground (arith, ==_comm (parent a) n))
    ∙ sym (elem-children key parent m (n ∷ []) all_rows)

-- Deleting by one id.
filter_one {ℓ} :
    {A : Type ℓ} (key : A → ℕ) (n : ℕ) (l : List A)
    → filter (λ a. not (key a == n)) l ≡ filter (λ a. not (elem (key a) (n ∷ []))) l
filter_one key n l = filter_ext _ _ l (λ a. ground (arith, ==_comm (key a) n))

module _ (g : Gorm) (promises : IsLawful g) where
  open g use {Db, view, find, delete}
  open promises use {view-find, find_rows, delete_rows}

  -- A call that returns has changed the tables as `change` says.
  pub record Refines (m : Exec Db (Unit {0})) (change : Tables → Tables) : Type 0 where
    pub at : (d : Db) → (m d).0 ≡ ok tt → view (m d).1 ≡ change (view d)

  Refines-then :
      (m k : Exec Db (Unit {0})) (first next : Tables → Tables)
      → Refines m first
      → Refines k next
      → Refines (m >> k) (λ s. next (first s))
  Refines-then m k first next rm rk = record {
    at = λ d h.
        let (_, ran, went_on, same) = >>=-eq-ok m (λ _. k) d h in
        ap (λ r. view r.1) same ∙ rk.at (m d).1 went_on ∙ ap next (rm.at d ran);
  }

  Refines-delete :
      (t : Table) (p : Row t → Bool)
      → Refines (delete t p) (λ s. set_rows t (filter (λ r. not (p r)) (rows t s)) s)
  Refines-delete t p = record { at = λ d h. delete_rows t p d h }

  module _ (body : ℕ → Exec Db (Unit {0})) (prune : List ℕ → Tables → Tables)
      (law : IsPruning prune) (step : (n : ℕ) → Refines (body n) (prune (n ∷ []))) where
    -- A loop over rows prunes by their ids.
    for_each-Refines :
        {A : Type 0} (key : A → ℕ) (l : List A)
        → Refines (for_each (λ a. body (key a)) l) (prune (map key l))
    for_each-Refines key [] = record { at = λ d h. sym (law.nothing (view d)) }
    for_each-Refines key (a ∷ l) = record {
      at = λ d h.
          (Refines-then (body (key a)) (for_each (λ b. body (key b)) l) (prune (key a ∷ []))
              (prune (map key l)) (step (key a)) (for_each-Refines key l)).at
            d h
          ∙ law.twice (key a ∷ []) (map key l) (view d);
    }

    -- Read the rows under `n`, run `body` on each, and go on.
    walk-Refines :
        (t : Table) (key parent : Row t → ℕ) (n : ℕ) (rest : Exec Db (Unit {0}))
        (after : Tables → Tables)
        → Refines rest after
        → Refines
            (find t (λ a. parent a == n) >>= λ l. for_each (λ a. body (key a)) l >> rest)
            (λ s. after (prune (children key parent (n ∷ []) (rows t s)) s))
    walk-Refines t key parent n rest after rr = record {
      at = λ d h.
          let go = λ (l : List (Row t)). for_each (λ a. body (key a)) l >> rest in
          let p = λ (a : Row t). parent a == n in
          let (l, read, went_on, same) = >>=-eq-ok (find t p) go d h in
          let looped =
            (Refines-then (for_each (λ a. body (key a)) l) rest (prune (map key l)) after
                (for_each-Refines key l) rr).at
              (find t p d).1 went_on in
          ap (λ r. view r.1) same
          ∙ looped
          ∙ ap (λ s. after (prune (map key l) s)) (view-find t p d)
          ∙ ap after (
              law.same (map key l) _ (view d)
                (SameMembers-of_perm key parent n l (rows t (view d)) (find_rows t p d l read)));
    }

  Refines-of_eq :
      (m : Exec Db (Unit {0})) (f h : Tables → Tables)
      → ((s : Tables) → f s ≡ h s)
      → Refines m f
      → Refines m h
  Refines-of_eq m f h e r = record { at = λ d ran. r.at d ran ∙ e (view d) }

  cost_deletion-Refines :
      (n : ℕ)
      → Refines (delete Table.cost_records (λ c. c.cloud_account_id == n)) (prune_costs (n ∷ []))
  cost_deletion-Refines n =
      Refines-of_eq _ _ _
        (λ s.
          ap (λ l. record s { cost_records = l })
            (filter_one (λ c. c.cloud_account_id) n s.cost_records))
        (Refines-delete Table.cost_records (λ c. c.cloud_account_id == n))

  -- `cascadeDeleteRegion` takes out the region, its cloud accounts and their cost records.
  pub cascade_delete_region-Refines :
      (id : ℕ) → Refines (cascade_delete_region g id) (prune_regions (id ∷ []))
  unfolding cascade_delete_region
  cascade_delete_region-Refines id =
      Refines-of_eq _ _ _
        (λ s i. record s {
          cost_records = (prune_costs (accounts_in (id ∷ []) s) s).cost_records;
          cloud_accounts = filter_one (λ a. a.region_id) id s.cloud_accounts i;
          regions = filter_one (λ r. r.id) id s.regions i;
        })
        (walk-Refines (λ n. delete Table.cost_records (λ c. c.cloud_account_id == n)) prune_costs
          prune_costs-IsPruning cost_deletion-Refines Table.cloud_accounts (λ a. a.id)
          (λ a. a.region_id) id
          (delete Table.cloud_accounts (λ a. a.region_id == id)
            >> delete Table.regions (λ r. r.id == id))
          _
          (Refines-then _ _ _ _ (Refines-delete Table.cloud_accounts (λ a. a.region_id == id))
            (Refines-delete Table.regions (λ r. r.id == id))))

  -- `cascadeDeleteEnvironment` takes out the environment and all below it.
  pub cascade_delete_environment-Refines :
      (id : ℕ) → Refines (cascade_delete_environment g id) (prune_environments (id ∷ []))
  unfolding cascade_delete_environment
  cascade_delete_environment-Refines id =
      Refines-of_eq _ _ _
        (λ s i. record (prune_regions (regions_in (id ∷ []) s) s) {
          environments = filter_one (λ r. r.id) id s.environments i;
        })
        (walk-Refines (cascade_delete_region g) prune_regions prune_regions-IsPruning
          cascade_delete_region-Refines Table.regions (λ r. r.id) (λ r. r.environment_id) id
          (delete Table.environments (λ r. r.id == id)) _
          (Refines-delete Table.environments (λ r. r.id == id)))

  -- `cascadeDeleteProject` takes out the project and all below it.
  pub cascade_delete_project-Refines :
      (id : ℕ) → Refines (cascade_delete_project g id) (prune_projects (id ∷ []))
  unfolding cascade_delete_project
  cascade_delete_project-Refines id =
      Refines-of_eq _ _ _
        (λ s i. record (prune_environments (environments_in (id ∷ []) s) s) {
          projects = filter_one (λ r. r.id) id s.projects i;
        })
        (walk-Refines (cascade_delete_environment g) prune_environments prune_environments-IsPruning
          cascade_delete_environment-Refines Table.environments (λ r. r.id) (λ r. r.project_id) id
          (delete Table.projects (λ r. r.id == id)) _
          (Refines-delete Table.projects (λ r. r.id == id)))

  -- `cascadeDeleteProduct` takes out the product and all below it.
  pub cascade_delete_product-Refines :
      (id : ℕ) → Refines (cascade_delete_product g id) (prune_products (id ∷ []))
  unfolding cascade_delete_product
  cascade_delete_product-Refines id =
      Refines-of_eq _ _ _
        (λ s i. record (prune_projects (projects_in (id ∷ []) s) s) {
          products = filter_one (λ r. r.id) id s.products i;
        })
        (walk-Refines (cascade_delete_project g) prune_projects prune_projects-IsPruning
          cascade_delete_project-Refines Table.projects (λ r. r.id) (λ r. r.product_id) id
          (delete Table.products (λ r. r.id == id)) _
          (Refines-delete Table.products (λ r. r.id == id)))

  -- The body of `handleDeleteOrganization` takes out the organization and all below it.
  pub cascade_delete_organization-Refines :
      (id : ℕ) → Refines (cascade_delete_organization g id) (prune_organizations (id ∷ []))
  unfolding cascade_delete_organization
  cascade_delete_organization-Refines id =
      Refines-of_eq _ _ _
        (λ s i. record (prune_products (products_in (id ∷ []) s) s) {
          organizations = filter_one (λ r. r.id) id s.organizations i;
        })
        (walk-Refines (cascade_delete_product g) prune_products prune_products-IsPruning
          cascade_delete_product-Refines Table.products (λ r. r.id) (λ r. r.organization_id) id
          (delete Table.organizations (λ r. r.id == id)) _
          (Refines-delete Table.organizations (λ r. r.id == id)))
