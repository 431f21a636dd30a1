-- ===== src/Api/Creates.antt =====
-- What the handlers that create a row of the hierarchy or a cloud account do to the tables.
pub mod Users
use cloud_cost_dashboard.Base.{
  ℕ, String, ◌≡◌, refl, ◌∙◌, ap, inl, inr, Bool, true, false, ◌||◌, some, [], ◌∷◌, ◌++◌, any,
  str_eq, ◌==◌, if◌then◌else◌,
}
use cloud_cost_dashboard.Base.Exec.{Result-cases}
use cloud_cost_dashboard.Model.{Tables, Table, Row, Time, rows, set_rows, key, stored, clash}
use cloud_cost_dashboard.Gorm.{Gorm, IsLawful}
use cloud_cost_dashboard.Api.Response.{Response, json, error, answer, answer-ok, answer-err}
use cloud_cost_dashboard.Api.Hierarchy.{
  CreateOrganization, CreateProduct, CreateProject, CreateEnvironment, CreateRegion,
  handle_create_organization, handle_create_product, handle_create_project,
  handle_create_environment, handle_create_region,
}
use cloud_cost_dashboard.Api.Accounts.{
  CreateCloudAccountRequest, no_account, handle_create_cloud_account,
}

-- The three ways in which a request to create `row` ends: it is not valid, and 400; the database
-- refuses, with the status `code`; or the row is added, under a key of its own and with the
-- database's columns filled in, where no row clashes with it.
pub data Creates (t : Table) (row : Row t) (invalid : Bool) (code : ℕ) (before after : Tables)
    (r : Response (Row t)) : Type 0 where
  rejected :
      (message : String)
      → invalid ≡ true
      → r ≡ error 400 message
      → after ≡ before
      → Creates t row invalid code before after r
  refused :
      (message : String)
      → invalid ≡ false
      → r ≡ error code message
      → after ≡ before
      → Creates t row invalid code before after r
  added :
      (n : ℕ) (now : Time)
      → invalid ≡ false
      → r ≡ json 201 (stored t n now row)
      → any (λ x. key t x == n) (rows t before) ≡ false
      → any (clash t row) (rows t before) ≡ false
      → after ≡ set_rows t (rows t before ++ stored t n now row ∷ []) before
      → Creates t row invalid code before after r

module _ (g : Gorm) (promises : IsLawful g) where
  open g use {Db, view, create}
  open promises use {create_rows, create_fails}

  created :
      (t : Table) (row : Row t) (code : ℕ) (message : String) (d : Db)
      → let out = answer (json 201) (error code message) (create t row d) in
        Creates t row false code (view d) (view out.1) out.0
  created t row code message d = elim (Result-cases (create t row d).0) [
    | inl (r, ran) ↦
        let (n, now, filled, new_key, free, after) = create_rows t row r d ran in
        rw (answer-ok (json 201) (error code message) (create t row d) r ran) (
          added n now refl (ap (json 201) filled) new_key free
            (after ∙ ap (λ x. set_rows t (rows t (view d) ++ x ∷ []) (view d)) filled))
    | inr (e, failed) ↦
        rw (answer-err (json 201) (error code message) (create t row d) e failed)
          (refused message refl refl (create_fails t row d e failed))
  ]

  guarded :
      (t : Table) (row : Row t) (invalid : Bool) (code : ℕ) (asked message : String) (d : Db)
      → let out =
          if invalid
          then (error 400 asked, d)
          else answer (json 201) (error code message) (create t row d) in
        Creates t row invalid code (view d) (view out.1) out.0
  guarded t row true code asked message d = rejected asked refl refl refl
  guarded t row false code asked message d = created t row code message d

  pub handle_create_organization-Creates :
      (b : CreateOrganization) (d : Db)
      → let out = handle_create_organization g (some b) d in
        Creates Table.organizations
          (record { id = 0; name = b.name; created_at = 0 })
          (str_eq b.name "")
          409
          (view d)
          (view out.1)
          out.0
  unfolding handle_create_organization
  handle_create_organization-Creates b d = guarded Table.organizations _ _ 409 _ _ d

  pub handle_create_product-Creates :
      (b : CreateProduct) (d : Db)
      → let out = handle_create_product g (some b) d in
        Creates Table.products
          (record { id = 0; organization_id = b.organization_id; name = b.name; created_at = 0 })
          (str_eq b.name "" || b.organization_id == 0)
          400
          (view d)
          (view out.1)
          out.0
  unfolding handle_create_product
  handle_create_product-Creates b d = guarded Table.products _ _ 400 _ _ d

  pub handle_create_project-Creates :
      (b : CreateProject) (d : Db)
      → let out = handle_create_project g (some b) d in
        Creates Table.projects
          (record { id = 0; product_id = b.product_id; name = b.name; created_at = 0 })
          (str_eq b.name "" || b.product_id == 0)
          400
          (view d)
          (view out.1)
          out.0
  unfolding handle_create_project
  handle_create_project-Creates b d = guarded Table.projects _ _ 400 _ _ d

  pub handle_create_environment-Creates :
      (b : CreateEnvironment) (d : Db)
      → let out = handle_create_environment g (some b) d in
        Creates Table.environments
          (record { id = 0; project_id = b.project_id; name = b.name; created_at = 0 })
          (str_eq b.name "" || b.project_id == 0)
          400
          (view d)
          (view out.1)
          out.0
  unfolding handle_create_environment
  handle_create_environment-Creates b d = guarded Table.environments _ _ 400 _ _ d

  pub handle_create_region-Creates :
      (b : CreateRegion) (d : Db)
      → let out = handle_create_region g (some b) d in
        Creates Table.regions
          (record { id = 0; environment_id = b.environment_id; name = b.name; created_at = 0 })
          (str_eq b.name "" || b.environment_id == 0)
          400
          (view d)
          (view out.1)
          out.0
  unfolding handle_create_region
  handle_create_region-Creates b d = guarded Table.regions _ _ 400 _ _ d

  pub handle_create_cloud_account-Creates :
      (b : CreateCloudAccountRequest) (d : Db)
      → let out = handle_create_cloud_account g (some b) d in
        Creates Table.cloud_accounts
          (record no_account {
            region_id = b.region_id;
            provider = b.provider;
            name = b.name;
            external_id = b.external_id;
            credential_id = b.credential_id;
            active = true;
          })
          (str_eq b.name "" || (b.region_id == 0 || str_eq b.provider ""))
          400
          (view d)
          (view out.1)
          out.0
  unfolding handle_create_cloud_account
  handle_create_cloud_account-Creates b d = guarded Table.cloud_accounts _ _ 400 _ _ d

  -- How a request ends, seen in the tables.
  abbrev pub Ends : (t : Table) → Row t → Bool → ℕ → Db → Response (Row t) × Db → Type 0
  Ends t row invalid code d out = Creates t row invalid code (view d) (view out.1) out.0
