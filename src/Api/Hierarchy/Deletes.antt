-- ===== src/Api/Hierarchy/Deletes.antt =====
-- What the delete handlers do to the tables.
use cloud_cost_dashboard.Base.{
  ℕ, String, ◌≡◌, refl, ◌∙◌, inl, inr, none, some, List, [], ◌∷◌, Option-cases,
}
use cloud_cost_dashboard.Base.Exec.{Result, ok, err, Exec}
use cloud_cost_dashboard.Model.{Tables}
use cloud_cost_dashboard.Gorm.{Gorm, IsLawful}
use cloud_cost_dashboard.Hierarchy.Prune.{
  prune_regions, prune_environments, prune_projects, prune_products, prune_organizations,
}
use cloud_cost_dashboard.Hierarchy.Cascade.Refines.{
  Refines, cascade_delete_region-Refines, cascade_delete_environment-Refines,
  cascade_delete_project-Refines, cascade_delete_product-Refines,
  cascade_delete_organization-Refines,
}
use cloud_cost_dashboard.Api.Response.{Response, error, no_content, url_param_uint, answer}
use cloud_cost_dashboard.Api.Hierarchy.{
  delete_node, handle_delete_organization, handle_delete_product, handle_delete_project,
  handle_delete_environment, handle_delete_region,
}

-- The three ways in which a delete request ends: the id is no number and nothing changed; the
-- request failed and nothing changed; or it was done, and the tables are pruned.
pub data Deletes (prune : List ℕ → Tables → Tables) (id message : String) (s s' : Tables)
    (r : Response (Unit {0})) : Type 0 where
  invalid :
      url_param_uint id ≡ none
      → r ≡ error 400 "invalid id"
      → s' ≡ s
      → Deletes prune id message s s' r
  rolled_back : r ≡ error 500 message → s' ≡ s → Deletes prune id message s s' r
  pruned :
      (n : ℕ)
      → url_param_uint id ≡ some n
      → r ≡ no_content
      → s' ≡ prune (n ∷ []) s
      → Deletes prune id message s s' r

module _ (g : Gorm) (promises : IsLawful g) where
  open g use {Db, view, transaction}
  open promises use {transaction_commits, transaction_rolls_back}

  delete_node-Deletes :
      (cascade : ℕ → Exec Db (Unit {0})) (prune : List ℕ → Tables → Tables)
      → ((n : ℕ) → Refines g promises (cascade n) (prune (n ∷ [])))
      → (message id : String) (d : Db)
      → let out = delete_node g cascade message (url_param_uint id) d in
        Deletes prune id message (view d) (view out.1) out.0
  unfolding delete_node
  delete_node-Deletes cascade prune refines message id d = elim (Option-cases (url_param_uint id)) [
    | inl bad ↦ rw bad (invalid bad refl refl)
    | inr (n, good) ↦ rw good (ended n good (transaction (cascade n) d).0 refl)
  ]
    where
      ended :
          (n : ℕ)
          → url_param_uint id ≡ some n
          → (r : Result (Unit {0})) → (transaction (cascade n) d).0 ≡ r
          → let out =
              answer (λ _. no_content) (error 500 message) (r, (transaction (cascade n) d).1) in
            Deletes prune id message (view d) (view out.1) out.0
      ended n good (ok _) h =
          let (ran, committed) = transaction_commits (cascade n) d h in
          pruned n good refl (committed ∙ (refines n).at d ran)
      ended n good (err e) h = rolled_back refl (transaction_rolls_back (cascade n) d e h)

  -- Deleting an organization ends in one of three ways: the id is no number and it is 400; it is 500 and no
  -- table changes; or it is 204 and exactly the organization of that id is gone, with its products and all below them.
  pub handle_delete_organization-Deletes :
      (id : String) (d : Db)
      → let out = handle_delete_organization g id d in
        Deletes prune_organizations id "failed to delete organization" (view d) (view out.1) out.0
  unfolding handle_delete_organization
  handle_delete_organization-Deletes id d =
      delete_node-Deletes _ prune_organizations (cascade_delete_organization-Refines g promises)
        "failed to delete organization" id d

  pub handle_delete_product-Deletes :
      (id : String) (d : Db)
      → let out = handle_delete_product g id d in
        Deletes prune_products id "failed to delete product" (view d) (view out.1) out.0
  unfolding handle_delete_product
  handle_delete_product-Deletes id d =
      delete_node-Deletes _ prune_products (cascade_delete_product-Refines g promises)
        "failed to delete product" id d

  pub handle_delete_project-Deletes :
      (id : String) (d : Db)
      → let out = handle_delete_project g id d in
        Deletes prune_projects id "failed to delete project" (view d) (view out.1) out.0
  unfolding handle_delete_project
  handle_delete_project-Deletes id d =
      delete_node-Deletes _ prune_projects (cascade_delete_project-Refines g promises)
        "failed to delete project" id d

  pub handle_delete_environment-Deletes :
      (id : String) (d : Db)
      → let out = handle_delete_environment g id d in
        Deletes prune_environments id "failed to delete environment" (view d) (view out.1) out.0
  unfolding handle_delete_environment
  handle_delete_environment-Deletes id d =
      delete_node-Deletes _ prune_environments (cascade_delete_environment-Refines g promises)
        "failed to delete environment" id d

  pub handle_delete_region-Deletes :
      (id : String) (d : Db)
      → let out = handle_delete_region g id d in
        Deletes prune_regions id "failed to delete region" (view d) (view out.1) out.0
  unfolding handle_delete_region
  handle_delete_region-Deletes id d =
      delete_node-Deletes _ prune_regions (cascade_delete_region-Refines g promises)
        "failed to delete region" id d

  -- Deleting a product, a project, an environment or a region ends in one of three ways: the id is
  -- no number and it is 400; it is 500 and no table changes; or it is 204 and exactly the one of that
  -- id is gone, with all that is below it down to the cost records.
  pub handle_delete-Deletes :
      (id : String) (d : Db)
      → let product = handle_delete_product g id d in
        let project = handle_delete_project g id d in
        let environment = handle_delete_environment g id d in
        let region = handle_delete_region g id d in
        Deletes prune_products id "failed to delete product" (view d) (view product.1) product.0
        × Deletes prune_projects id "failed to delete project" (view d) (view project.1) project.0
        × Deletes prune_environments id "failed to delete environment"
            (view d)
            (view environment.1)
            environment.0
        × Deletes prune_regions id "failed to delete region" (view d) (view region.1) region.0
  handle_delete-Deletes id d = (
    handle_delete_product-Deletes id d,
    handle_delete_project-Deletes id d,
    handle_delete_environment-Deletes id d,
    handle_delete_region-Deletes id d,
  )
