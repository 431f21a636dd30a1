-- ===== src/Api/Hierarchy/Completes.antt =====
-- That the delete handlers succeed where no statement fails.
use cloud_cost_dashboard.Base.{ℕ, String, ◌≡◌, refl, ◌∙◌, ap, Bool, some, List, [], ◌∷◌, ◌==◌}
use cloud_cost_dashboard.Base.Exec.{Result, ok, Exec, for_each, continue}
use cloud_cost_dashboard.Model.{Table, Row}
use cloud_cost_dashboard.Gorm.{Gorm}
use cloud_cost_dashboard.Hierarchy.Cascade.{
  cascade_delete_region, cascade_delete_environment, cascade_delete_project, cascade_delete_product,
  cascade_delete_organization,
}
use cloud_cost_dashboard.Api.Response.{no_content, error, url_param_uint, answer-ok}
use cloud_cost_dashboard.Api.Hierarchy.{delete_node, handle_delete_organization}

-- A database no statement of which fails, and that commits a transaction whose body returns.
pub record IsReliable (g : Gorm) : Type 0 where
  pub find_returns :
      (t : Table) (p : Row t → Bool) (d : g.Db) → (l : List (Row t)) × ((g.find t p d).0 ≡ ok l)
  pub delete_returns : (t : Table) (p : Row t → Bool) (d : g.Db) → (g.delete t p d).0 ≡ ok tt
  pub commit_returns :
      (body : Exec g.Db (Unit {0})) (d : g.Db)
      → (body d).0 ≡ ok tt
      → (g.transaction body d).0 ≡ ok tt

module _ {S A : Type 0} where
  continue_returns :
      (r : Result A) (f : A → Exec S (Unit {0})) (s : S)
      → ((a : A) × (r ≡ ok a))
      → ((a : A) → (f a s).0 ≡ ok tt)
      → (continue r f s).0 ≡ ok tt
  continue_returns r f s (a, e) rest = ap (λ o. (continue o f s).0) e ∙ rest a

  for_each_returns :
      (body : A → Exec S (Unit {0})) (l : List A)
      → ((a : A) (s : S) → (body a s).0 ≡ ok tt)
      → (s : S) → (for_each body l s).0 ≡ ok tt
  for_each_returns body [] each s = refl
  for_each_returns body (a ∷ l) each s =
      ap (λ o. (continue o (λ _. for_each body l) (body a s).1).0) (each a s)
      ∙ for_each_returns body l each (body a s).1

module _ (g : Gorm) (reliable : IsReliable g) where
  open g use {Db, find, delete, transaction}
  open reliable use {find_returns, delete_returns, commit_returns}

  cascade_delete_region_returns : (n : ℕ) (d : Db) → (cascade_delete_region g n d).0 ≡ ok tt
  unfolding cascade_delete_region
  cascade_delete_region_returns n d =
      let (accounts, found) = find_returns Table.cloud_accounts (λ a. a.region_id == n) d in
      continue_returns (find Table.cloud_accounts (λ a. a.region_id == n) d).0 _ _ (accounts, found)
        (λ l.
          continue_returns
            (for_each (λ a. delete Table.cost_records (λ c. c.cloud_account_id == a.id)) l _).0 _ _
            (
              tt,
              for_each_returns _ l
                  (λ a. delete_returns Table.cost_records (λ c. c.cloud_account_id == a.id)) _,
            )
            (λ _.
              continue_returns (delete Table.cloud_accounts (λ a. a.region_id == n) _).0 _ _
                (tt, delete_returns Table.cloud_accounts (λ a. a.region_id == n) _)
                (λ _. delete_returns Table.regions (λ r. r.id == n) _)))

  -- The other levels: find the children, delete each, delete the node.
  level_returns :
      (t up : Table) (p : Row t → Bool) (q : Row up → Bool) (body : Row t → Exec Db (Unit {0}))
      → ((r : Row t) (d : Db) → (body r d).0 ≡ ok tt)
      → (d : Db)
      → (continue
          (find t p d).0
          (λ l s. continue (for_each body l s).0 (λ _. delete up q) (for_each body l s).1)
          (find t p d).1).0
        ≡ ok tt
  level_returns t up p q body each d =
      continue_returns (find t p d).0 _ _ (find_returns t p d) (λ l.
        continue_returns (for_each body l _).0 _ _ (tt, for_each_returns body l each _)
          (λ _. delete_returns up q _))

  cascade_delete_environment_returns :
      (n : ℕ) (d : Db) → (cascade_delete_environment g n d).0 ≡ ok tt
  unfolding cascade_delete_environment
  cascade_delete_environment_returns n =
      level_returns Table.regions Table.environments (λ r. r.environment_id == n) (λ e. e.id == n) _
        (λ r. cascade_delete_region_returns r.id)

  cascade_delete_project_returns : (n : ℕ) (d : Db) → (cascade_delete_project g n d).0 ≡ ok tt
  unfolding cascade_delete_project
  cascade_delete_project_returns n =
      level_returns Table.environments Table.projects (λ e. e.project_id == n) (λ p. p.id == n) _
        (λ e. cascade_delete_environment_returns e.id)

  cascade_delete_product_returns : (n : ℕ) (d : Db) → (cascade_delete_product g n d).0 ≡ ok tt
  unfolding cascade_delete_product
  cascade_delete_product_returns n =
      level_returns Table.projects Table.products (λ p. p.product_id == n) (λ p. p.id == n) _
        (λ p. cascade_delete_project_returns p.id)

  cascade_delete_organization_returns :
      (n : ℕ) (d : Db) → (cascade_delete_organization g n d).0 ≡ ok tt
  unfolding cascade_delete_organization
  cascade_delete_organization_returns n =
      level_returns Table.products Table.organizations (λ p. p.organization_id == n)
        (λ o. o.id == n) _ (λ p. cascade_delete_product_returns p.id)

  -- Over a database no statement of which fails, deleting an organization by a number is answered 204.
  pub handle_delete_organization-no_content :
      (id : String) (n : ℕ) (d : Db)
      → url_param_uint id ≡ some n
      → (handle_delete_organization g id d).0 ≡ no_content
  unfolding handle_delete_organization delete_node
  handle_delete_organization-no_content id n d good =
      let cascade = cascade_delete_organization g in
      let message : String = "failed to delete organization" in
      ap (λ o. (delete_node g cascade message o d).0) good
      ∙ ap (λ o. o.0)
          (answer-ok (λ _. no_content) (error 500 message) (transaction (cascade n) d) tt
            (commit_returns (cascade n) d (cascade_delete_organization_returns n d)))
