-- ===== src/Api/Costs/Under.antt =====
-- Which records belong to a node of the hierarchy: the way up from a record's account.
use cloud_cost_dashboard.Base.{
  ℕ, String, ◌≡◌, refl, ◌∙◌, inl, inr, Bool, true, false, ◌&&◌, List, [], ◌∷◌, arith, elem, any,
  any_ext, str_eq, ◌==◌, Bool-cases, if◌then◌else◌,
}
use cloud_cost_dashboard.Model.{Tables, CloudAccount, CostRecord}
use cloud_cost_dashboard.Hierarchy.Prune.{children}
use cloud_cost_dashboard.Hierarchy.Prune.Laws.{elem-children}
use cloud_cost_dashboard.Api.Costs.{in_node, is_level}

-- Some row of the id `x` has a parent that passes.
abbrev pub climb : {A : Type 0} → (A → ℕ) → (A → ℕ) → List A → (ℕ → Bool) → ℕ → Bool
climb key parent l passes x = any (λ a. key a == x && passes (parent a)) l

abbrev pub of_environment : Tables → (ℕ → Bool) → ℕ → Bool
of_environment s passes = climb (λ r. r.id) (λ r. r.environment_id) s.regions passes

abbrev pub of_project : Tables → (ℕ → Bool) → ℕ → Bool
of_project s passes = of_environment s (climb (λ e. e.id) (λ e. e.project_id) s.environments passes)

abbrev pub of_product : Tables → (ℕ → Bool) → ℕ → Bool
of_product s passes = of_project s (climb (λ p. p.id) (λ p. p.product_id) s.projects passes)

abbrev pub of_organization : Tables → (ℕ → Bool) → ℕ → Bool
of_organization s passes =
    of_product s (climb (λ p. p.id) (λ p. p.organization_id) s.products passes)

-- Whether a region is, or lies in, the node `n` of a type.
abbrev pub region_under : String → ℕ → Tables → ℕ → Bool
region_under t n s region =
    if str_eq t "region"
    then region == n
    else if str_eq t "environment"
    then of_environment s (λ x. x == n) region
    else if str_eq t "project"
    then of_project s (λ x. x == n) region
    else if str_eq t "product"
    then of_product s (λ x. x == n) region
    else if str_eq t "org"
    then of_organization s (λ x. x == n) region
    else false

-- The records of a node: those of the account, or of the accounts whose region is under it.
abbrev pub under_node : String → ℕ → Tables → CostRecord → Bool
under_node t n s c =
    if str_eq t "account"
    then c.cloud_account_id == n
    else any (λ a. a.id == c.cloud_account_id && region_under t n s a.region_id) s.cloud_accounts

==_comm : (m n : ℕ) → (m == n) ≡ (n == m)
==_comm m n = ground arith

-- A subquery finds the rows from which the way up passes.
children-climb :
    {A : Type 0} (key parent : A → ℕ) (xs : List ℕ) (l : List A) (passes : ℕ → Bool)
    → ((x : ℕ) → elem x xs ≡ passes x)
    → (x : ℕ) → elem x (children key parent xs l) ≡ climb key parent l passes x
children-climb key parent xs l passes h x =
    elem-children key parent x xs l ∙ any_ext _ _ l (λ a. ground (arith, h (parent a)))

itself : (n x : ℕ) → elem x (n ∷ []) ≡ (x == n)
itself n x = ground arith

module _ (s : Tables) where
  regions-up :
      (es : List ℕ) (passes : ℕ → Bool)
      → ((x : ℕ) → elem x es ≡ passes x)
      → (x : ℕ)
      → elem x (children (λ r. r.id) (λ r. r.environment_id) es s.regions)
        ≡ of_environment s passes x
  regions-up es passes h = children-climb _ _ es s.regions passes h

  environments-up :
      (ps : List ℕ) (passes : ℕ → Bool)
      → ((x : ℕ) → elem x ps ≡ passes x)
      → (x : ℕ)
      → elem x (
          children
            (λ r. r.id)
            (λ r. r.environment_id)
            (children (λ e. e.id) (λ e. e.project_id) ps s.environments)
            s.regions)
        ≡ of_project s passes x
  environments-up ps passes h = regions-up _ _ (children-climb _ _ ps s.environments passes h)

  projects-up :
      (ps : List ℕ) (passes : ℕ → Bool)
      → ((x : ℕ) → elem x ps ≡ passes x)
      → (x : ℕ)
      → elem x (
          children
            (λ r. r.id)
            (λ r. r.environment_id)
            (children
              (λ e. e.id)
              (λ e. e.project_id)
              (children (λ p. p.id) (λ p. p.product_id) ps s.projects)
              s.environments)
            s.regions)
        ≡ of_product s passes x
  projects-up ps passes h = environments-up _ _ (children-climb _ _ ps s.projects passes h)

  -- What the handler plucks for a node is what lies under it.
  pub in_node-region_under :
      (t : String) (n : ℕ) (a : CloudAccount)
      → is_level t ≡ true
      → in_node t n s a ≡ region_under t n s a.region_id
  unfolding in_node is_level
  in_node-region_under t n a h = elim (Bool-cases (str_eq t "region")) [
    | inl e ↦ rw e refl
    | inr not_region ↦ elim (Bool-cases (str_eq t "environment")) [
      | inl e ↦ rw (not_region, e) (regions-up (n ∷ []) _ (itself n) a.region_id)
      | inr not_environment ↦ elim (Bool-cases (str_eq t "project")) [
        | inl e ↦
            rw (not_region, not_environment, e) (environments-up (n ∷ []) _ (itself n) a.region_id)
        | inr not_project ↦ elim (Bool-cases (str_eq t "product")) [
          | inl e ↦
              rw (not_region, not_environment, not_project, e)
                (projects-up (n ∷ []) _ (itself n) a.region_id)
          | inr not_product ↦
              let org : str_eq t "org" ≡ true =
                ground (arith, h, not_region, not_environment, not_project, not_product) in
              rw (not_region, not_environment, not_project, not_product, org)
                (projects-up _ _ (children-climb _ _ (n ∷ []) s.products _ (itself n)) a.region_id)
        ]
      ]
    ]
  ]
