-- ===== src/Api/Hierarchy/Links.antt =====
-- The delete handlers leave no row without the row that it belongs to.
use cloud_cost_dashboard.Base.{ℕ, String, sym, subst, List, [], ◌∷◌}
use cloud_cost_dashboard.Model.{Tables}
use cloud_cost_dashboard.Gorm.{Gorm, IsLawful}
use cloud_cost_dashboard.Hierarchy.Prune.References.{
  IsLinked, prune_regions-IsLinked, prune_environments-IsLinked, prune_projects-IsLinked,
  prune_products-IsLinked, prune_organizations-IsLinked,
}
use cloud_cost_dashboard.Api.Response.{Response}
use cloud_cost_dashboard.Api.Hierarchy.{
  handle_delete_organization, handle_delete_product, handle_delete_project,
  handle_delete_environment, handle_delete_region,
}
use cloud_cost_dashboard.Api.Hierarchy.Deletes.{
  Deletes, invalid, rolled_back, pruned, handle_delete_organization-Deletes,
  handle_delete_product-Deletes, handle_delete_project-Deletes, handle_delete_environment-Deletes,
  handle_delete_region-Deletes,
}

Deletes-IsLinked :
    {prune : List ℕ → Tables → Tables} {id message : String} {before after : Tables}
    {r : Response (Unit {0})}
    → ((ns : List ℕ) (s : Tables) → IsLinked s → IsLinked (prune ns s))
    → Deletes prune id message before after r
    → IsLinked before
    → IsLinked after
Deletes-IsLinked keeps (invalid h e same) l = subst IsLinked (sym same) l
Deletes-IsLinked keeps (rolled_back e same) l = subst IsLinked (sym same) l
Deletes-IsLinked {before} keeps (pruned n h e same) l =
    subst IsLinked (sym same) (keeps (n ∷ []) before l)

module _ (g : Gorm) (promises : IsLawful g) (id : String) (d : g.Db) where
  open g use {view}

  -- Where every row below the organizations belongs to a row that is there, it still does after any
  -- request to delete a part of the hierarchy, whether it is done or fails.
  pub handle_delete-IsLinked :
      IsLinked (view d)
      → IsLinked (view (handle_delete_organization g id d).1)
        × IsLinked (view (handle_delete_product g id d).1)
        × IsLinked (view (handle_delete_project g id d).1)
        × IsLinked (view (handle_delete_environment g id d).1)
        × IsLinked (view (handle_delete_region g id d).1)
  handle_delete-IsLinked h = (
    Deletes-IsLinked prune_organizations-IsLinked
        (handle_delete_organization-Deletes g promises id d) h,
    Deletes-IsLinked prune_products-IsLinked (handle_delete_product-Deletes g promises id d) h,
    Deletes-IsLinked prune_projects-IsLinked (handle_delete_project-Deletes g promises id d) h,
    Deletes-IsLinked prune_environments-IsLinked (handle_delete_environment-Deletes g promises id d)
        h,
    Deletes-IsLinked prune_regions-IsLinked (handle_delete_region-Deletes g promises id d) h,
  )
