-- ===== src/Hierarchy/Prune/Levels.antt =====
-- At every level of the hierarchy, pruning by two lists in turn is pruning by both.
use cloud_cost_dashboard.Base.{◌≡◌, refl, ap, ◌∙◌, not, List, [], ◌++◌, filter, elem, ℕ}
use cloud_cost_dashboard.Model.{Tables}
use cloud_cost_dashboard.Hierarchy.Prune.{
  accounts_in, regions_in, environments_in, projects_in, products_in, prune_costs, prune_regions,
  prune_environments, prune_projects, prune_products, prune_organizations,
}
use cloud_cost_dashboard.Hierarchy.Prune.Laws.{
  SameMembers, filter-true, filter_twice, filter_same, children_twice, children_twice_by_parent,
  children_same, children_nil,
}

-- What a level's pruning promises: it composes, it reads its list as a set, and the empty list
-- prunes nothing.
pub record IsPruning (prune : List ℕ → Tables → Tables) : Type 0 where
  pub twice : (xs ys : List ℕ) (s : Tables) → prune ys (prune xs s) ≡ prune (xs ++ ys) s
  pub same : (xs ys : List ℕ) (s : Tables) → SameMembers xs ys → prune xs s ≡ prune ys s
  pub nothing : (s : Tables) → prune [] s ≡ s

pub prune_costs-IsPruning : IsPruning prune_costs
prune_costs-IsPruning = record {
  twice = λ xs ys s.
      ap (λ l. record s { cost_records = l })
        (filter_twice (λ c. c.cloud_account_id) xs ys s.cost_records);
  same = λ xs ys s h.
      ap (λ l. record s { cost_records = l })
        (filter_same (λ c. c.cloud_account_id) xs ys s.cost_records h);
  nothing = λ s. ap (λ l. record s { cost_records = l }) (filter-true _ s.cost_records (λ c. refl));
}

pub prune_regions-IsPruning : IsPruning prune_regions
prune_regions-IsPruning = record {
  twice = λ xs ys s i. record s {
    cost_records =
        (filter_twice (λ c. c.cloud_account_id) (accounts_in xs s)
              (accounts_in ys (prune_regions xs s)) s.cost_records
            ∙ filter_same (λ c. c.cloud_account_id) _ (accounts_in (xs ++ ys) s) s.cost_records
                (children_twice_by_parent (λ a. a.id) (λ a. a.region_id) xs ys s.cloud_accounts))
          i;
    cloud_accounts = filter_twice (λ a. a.region_id) xs ys s.cloud_accounts i;
    regions = filter_twice (λ r. r.id) xs ys s.regions i;
  };
  same = λ xs ys s h i. record s {
    cost_records =
        filter_same (λ c. c.cloud_account_id) (accounts_in xs s) (accounts_in ys s) s.cost_records
          (children_same (λ a. a.id) (λ a. a.region_id) xs ys s.cloud_accounts h) i;
    cloud_accounts = filter_same (λ a. a.region_id) xs ys s.cloud_accounts h i;
    regions = filter_same (λ r. r.id) xs ys s.regions h i;
  };
  nothing = λ s i. record s {
    cost_records =
        (ap (λ l. filter (λ c. not (elem c.cloud_account_id l)) s.cost_records)
              (children_nil (λ a. a.id) (λ a. a.region_id) s.cloud_accounts)
            ∙ filter-true _ s.cost_records (λ c. refl))
          i;
    cloud_accounts = filter-true _ s.cloud_accounts (λ a. refl) i;
    regions = filter-true _ s.regions (λ r. refl) i;
  };
}

pub prune_environments-IsPruning : IsPruning prune_environments
prune_environments-IsPruning = record {
  twice = λ xs ys s i.
      record ((low_twice (regions_in xs s) (regions_in ys (prune_environments xs s)) s
          ∙ low_same _ (regions_in (xs ++ ys) s) s
              (children_twice (λ r. r.id) (λ r. r.environment_id) xs ys s.regions))
        i) { environments = filter_twice (λ e. e.id) xs ys s.environments i };
  same = λ xs ys s h i.
      record (low_same (regions_in xs s) (regions_in ys s) s
        (children_same (λ r. r.id) (λ r. r.environment_id) xs ys s.regions h) i) {
          environments = filter_same (λ e. e.id) xs ys s.environments h i;
        };
  nothing = λ s i.
      record ((ap (λ l. prune_regions l s)
            (children_nil (λ r. r.id) (λ r. r.environment_id) s.regions)
          ∙ low_nothing s)
        i) { environments = filter-true _ s.environments (λ e. refl) i };
}
  where
    open prune_regions-IsPruning use {twice as low_twice, same as low_same, nothing as low_nothing}

pub prune_projects-IsPruning : IsPruning prune_projects
prune_projects-IsPruning = record {
  twice = λ xs ys s i.
      record ((low_twice (environments_in xs s) (environments_in ys (prune_projects xs s)) s
          ∙ low_same _ (environments_in (xs ++ ys) s) s
              (children_twice (λ e. e.id) (λ e. e.project_id) xs ys s.environments))
        i) { projects = filter_twice (λ p. p.id) xs ys s.projects i };
  same = λ xs ys s h i.
      record (low_same (environments_in xs s) (environments_in ys s) s
        (children_same (λ e. e.id) (λ e. e.project_id) xs ys s.environments h) i) {
          projects = filter_same (λ p. p.id) xs ys s.projects h i;
        };
  nothing = λ s i.
      record ((ap (λ l. prune_environments l s)
            (children_nil (λ e. e.id) (λ e. e.project_id) s.environments)
          ∙ low_nothing s)
        i) { projects = filter-true _ s.projects (λ p. refl) i };
}
  where
    open prune_environments-IsPruning use {
      twice as low_twice, same as low_same, nothing as low_nothing,
    }

pub prune_products-IsPruning : IsPruning prune_products
prune_products-IsPruning = record {
  twice = λ xs ys s i.
      record ((low_twice (projects_in xs s) (projects_in ys (prune_products xs s)) s
          ∙ low_same _ (projects_in (xs ++ ys) s) s
              (children_twice (λ p. p.id) (λ p. p.product_id) xs ys s.projects))
        i) { products = filter_twice (λ q. q.id) xs ys s.products i };
  same = λ xs ys s h i.
      record (low_same (projects_in xs s) (projects_in ys s) s
        (children_same (λ p. p.id) (λ p. p.product_id) xs ys s.projects h) i) {
          products = filter_same (λ q. q.id) xs ys s.products h i;
        };
  nothing = λ s i.
      record ((ap (λ l. prune_projects l s)
            (children_nil (λ p. p.id) (λ p. p.product_id) s.projects)
          ∙ low_nothing s)
        i) { products = filter-true _ s.products (λ q. refl) i };
}
  where
    open prune_projects-IsPruning use {twice as low_twice, same as low_same, nothing as low_nothing}

pub prune_organizations-IsPruning : IsPruning prune_organizations
prune_organizations-IsPruning = record {
  twice = λ xs ys s i.
      record ((low_twice (products_in xs s) (products_in ys (prune_organizations xs s)) s
          ∙ low_same _ (products_in (xs ++ ys) s) s
              (children_twice (λ p. p.id) (λ p. p.organization_id) xs ys s.products))
        i) { organizations = filter_twice (λ o. o.id) xs ys s.organizations i };
  same = λ xs ys s h i.
      record (low_same (products_in xs s) (products_in ys s) s
        (children_same (λ p. p.id) (λ p. p.organization_id) xs ys s.products h) i) {
          organizations = filter_same (λ o. o.id) xs ys s.organizations h i;
        };
  nothing = λ s i.
      record ((ap (λ l. prune_products l s)
            (children_nil (λ p. p.id) (λ p. p.organization_id) s.products)
          ∙ low_nothing s)
        i) { organizations = filter-true _ s.organizations (λ o. refl) i };
}
  where
    open prune_products-IsPruning use {twice as low_twice, same as low_same, nothing as low_nothing}
