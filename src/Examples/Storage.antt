-- ===== src/Examples/Storage.antt =====
-- The queries and the upsert of the database in memory.
use mathlib.Core.Logic.{∥∥₁_elim}
use mathlib.Core.List.Perm
use mathlib.Core.Bool.{Bool-discrete}
use mathlib.Core.HLevel.{hedberg}
use native.Mathlib.Decide.{ℕ_discrete}
use cloud_cost_dashboard.Base.{
  zero, suc, ◌+◌, String, ◌≡◌, ◌≢◌, refl, sym, ◌∙◌, ap, Bool, true, false, not, ◌&&◌, some, List,
  [], ◌∷◌, map, Memᴰ, filter, any, arith, str_eq, eq_iff, eq_refl, ◌==◌, ==_refl, if◌then◌else◌,
  Bool-cases, inl, inr, if-true, if-false,
}
use cloud_cost_dashboard.Base.Exec.{Result, ok, err}
use cloud_cost_dashboard.Model.{
  Tables, Float64, CostRecord, Region, Environment, Project, Product, Organization, LoadedRegion,
  LoadedEnvironment, LoadedProject, LoadedProduct, LoadedOrganization,
}
use cloud_cost_dashboard.Text.Numbers.{print_uint}
use cloud_cost_dashboard.Gorm.Memory.{Memory, memory}
use cloud_cost_dashboard.Gorm.Queries.{Queries, IsLawfulQueries, IsGrouped}
use cloud_cost_dashboard.Scheduler.Upsert.{
  Place, is_at, stored_at, overwritten, written_at, OnConflict, index_columns, Upserts,
  IsLawfulUpserts,
}

some_ok {ℓ} : {A : Type ℓ} {a b : A} → ok a ≡ ok b → b ≡ a
some_ok h = cc

abbrev load_region : Tables → Region → LoadedRegion
load_region s r = record {
  row = r;
  cloud_accounts = filter (λ a. a.region_id == r.id) s.cloud_accounts;
}

abbrev load_environment : Tables → Environment → LoadedEnvironment
load_environment s e = record {
  row = e;
  regions = map (load_region s) (filter (λ r. r.environment_id == e.id) s.regions);
}

abbrev load_project : Tables → Project → LoadedProject
load_project s j = record {
  row = j;
  environments = map (load_environment s) (filter (λ e. e.project_id == j.id) s.environments);
}

abbrev load_product : Tables → Product → LoadedProduct
load_product s p = record {
  row = p;
  projects = map (load_project s) (filter (λ j. j.product_id == p.id) s.projects);
}

abbrev load_organization : Tables → Organization → LoadedOrganization
load_organization s o = record {
  row = o;
  products = map (load_product s) (filter (λ p. p.organization_id == o.id) s.products);
}

abbrev total : List Float64 → Float64
total [] = 0
total (x ∷ l) = x + total l

-- An entry for each record, with the sum of its group.
abbrev group :
    {L : Type 0} → (CostRecord → L) → (L → L → Bool) → List CostRecord → CostRecord → L × Float64
group label eq costs c =
    (label c, total (map (λ x. x.amount) (filter (λ x. eq (label x) (label c)) costs)))

abbrev pub queries : Queries memory
queries = record {
  sum = total;
  day_label = print_uint;
  preload = λ d. (ok (map (load_organization d.0) d.0.organizations), d);
  pluck_accounts = λ p d. (ok (map (λ a. a.id) (filter (p d.0) d.0.cloud_accounts)), d);
  sums_by_account = λ p d.
      let costs = filter p d.0.cost_records in
      (ok (map (group (λ c. c.cloud_account_id) ◌==◌ costs) costs), d);
  sums_by_label = λ label o p d.
      let costs = filter p d.0.cost_records in (ok (map (group label str_eq costs) costs), d);
}

filter-has :
    (p : CostRecord → Bool) (l : List CostRecord) {c : CostRecord}
    → Memᴰ c l
    → p c ≡ true
    → filter p l ≢ []
filter-has p [] m h = elim m [ ]
filter-has p (x ∷ l) (Memᴰ.head e) h = λ empty. ground (arith, ap p e)
filter-has p (x ∷ l) (Memᴰ.tail m) h = ground (arith, filter-has p l m h)

module _ {L : Type 0} (label : CostRecord → L) (eq : L → L → Bool)
    (eq_self : (l : L) → eq l l ≡ true) (costs : List CostRecord) where
  grouped_entry :
      (l : List CostRecord) {e : L × Float64}
      → Memᴰ e (map (group label eq costs) l)
      → (c : CostRecord) × Memᴰ c l × (e ≡ group label eq costs c)
  grouped_entry [] m = elim m [ ]
  grouped_entry (c ∷ l) (Memᴰ.head h) = (c, Memᴰ.head refl, h)
  grouped_entry (c ∷ l) (Memᴰ.tail m) = let (x, m', e) = grouped_entry l m in (x, Memᴰ.tail m', e)

  grouped_complete :
      (l : List CostRecord) {c : CostRecord}
      → Memᴰ c l
      → any (λ e. eq e.0 (label c)) (map (group label eq costs) l) ≡ true
  grouped_complete [] m = elim m [ ]
  grouped_complete (x ∷ l) {c} (Memᴰ.head h) =
      let here : eq (label x) (label c) ≡ true =
        ap (λ y. eq (label y) (label c)) (sym h) ∙ eq_self (label c) in
      ground (arith, here)
  grouped_complete (x ∷ l) (Memᴰ.tail m) = ground (arith, grouped_complete l m)

  group-IsGrouped : IsGrouped total eq label costs (map (group label eq costs) costs)
  group-IsGrouped = record {
    entry = λ l v m. (
      filter (λ c. eq (label c) l) costs,
      Perm.refl _,
      λ empty.
          ∥∥₁_elim m (λ x y. absurd x)
            (λ m'.
              let (c, mc, e) = grouped_entry costs m' in
              filter-has (λ x. eq (label x) l) costs mc
                (ap (eq (label c)) (ap (λ x. x.0) e) ∙ eq_self (label c)) empty),
      ∥∥₁_elim m (hedberg ℕ_discrete _ _) (λ m'.
          let (c, mc, e) = grouped_entry costs m' in
          ap (λ x. x.1) e
          ∙ ap (λ k. total (map (λ x. x.amount) (filter (λ x. eq (label x) k) costs)))
              (sym (ap (λ x. x.0) e))),
    );
    complete = λ c m. ∥∥₁_elim m (hedberg Bool-discrete _ _) (grouped_complete costs);
  }

pub queries-IsLawful : IsLawfulQueries memory queries
queries-IsLawful = record {
  view-preload = λ d. refl;
  view-pluck_accounts = λ p d. refl;
  view-sums_by_account = λ p d. refl;
  view-sums_by_label = λ label o p d. refl;
  pluck_rows = λ p d ids h. rw (some_ok h) (Perm.refl _);
  account_groups = λ p d out h.
      rw (some_ok h)
        (group-IsGrouped (λ c. c.cloud_account_id) ◌==◌ ==_refl (filter p d.0.cost_records));
  label_groups = λ label o p d out h.
      rw (some_ok h) (group-IsGrouped label str_eq eq_refl (filter p d.0.cost_records));
}

-- The upsert takes out the row at the place and puts the new one in.
abbrev place_of : CostRecord → Place
place_of c = record { account = c.cloud_account_id; date = c.date; service = c.service_name }

abbrev put : List String → CostRecord → List CostRecord → List CostRecord
put assigned c l =
    let now_there = overwritten assigned c (stored_at (place_of c) l) in
    (record c { amount = now_there.0; currency = now_there.1 })
    ∷ filter (λ x. not (is_at (place_of c) x)) l

abbrev put_all : List String → List CostRecord → List CostRecord → List CostRecord
put_all assigned [] l = l
put_all assigned (c ∷ cs) l = put_all assigned cs (put assigned c l)

abbrev same_columns : List String → List String → Bool
same_columns [] [] = true
same_columns [] (b ∷ bs) = false
same_columns (a ∷ as') [] = false
same_columns (a ∷ as') (b ∷ bs) = str_eq a b && same_columns as' bs

abbrev put_in : List String → List CostRecord → Memory → Result (Unit {0}) × Memory
put_in assigned cs (s, zero) = (err "disk I/O error", (s, 0))
put_in assigned cs (s, suc n) =
    (ok tt, (record s { cost_records = put_all assigned cs s.cost_records }, n))

-- A clause that does not name the columns of the index is refused.
abbrev upsert_in : OnConflict → List CostRecord → Memory → Result (Unit {0}) × Memory
upsert_in clause cs d =
    if same_columns clause.columns index_columns
    then put_in clause.do_updates cs d
    else (err "ON CONFLICT clause does not match any PRIMARY KEY or UNIQUE constraint", d)

-- A row at the place of another is where that one is.
same_place : (p : Place) (c x : CostRecord) → is_at (place_of c) x ≡ true → is_at p x ≡ is_at p c
same_place p c x h =
    let account : x.cloud_account_id ≡ c.cloud_account_id = ground arith in
    let date : x.date ≡ c.date = ground arith in
    let service : x.service_name ≡ c.service_name =
      ground (arith, eq_iff x.service_name c.service_name) in
    λ i. account i == p.account && (date i == p.date && str_eq (service i) p.service)

-- Rows at another place are out of the way.
stored_at-filter :
    (p : Place) (c : CostRecord) (l : List CostRecord)
    → is_at p c ≡ false
    → stored_at p (filter (λ x. not (is_at (place_of c) x)) l) ≡ stored_at p l
stored_at-filter p c [] h = refl
stored_at-filter p c (x ∷ l) h =
    let rest = filter (λ y. not (is_at (place_of c) y)) l in
    elim (Bool-cases (is_at (place_of c) x)) [
      | inl same ↦
          ap (stored_at p) (if-false {b = not (is_at (place_of c) x)} (x ∷ rest) rest (ap not same))
          ∙ stored_at-filter p c l h
          ∙ sym (if-false {b = is_at p x} _ _ (same_place p c x same ∙ h))
      | inr other ↦
          ap (stored_at p) (if-true {b = not (is_at (place_of c) x)} (x ∷ rest) rest (ap not other))
          ∙ ap (λ o. if is_at p x then some (x.amount, x.currency) else o)
              (stored_at-filter p c l h)
    ]

-- The place of a row is the place that it is at.
place_of-is_at : (p : Place) (c : CostRecord) → is_at p c ≡ true → p ≡ place_of c
place_of-is_at p c h =
    let account : p.account ≡ c.cloud_account_id = ground arith in
    let date : p.date ≡ c.date = ground arith in
    let service : p.service ≡ c.service_name = ground (arith, eq_iff c.service_name p.service) in
    λ i. record { account = account i; date = date i; service = service i }

stored_at-put :
    (assigned : List String) (p : Place) (c : CostRecord) (l : List CostRecord)
    → stored_at p (put assigned c l)
      ≡ (if is_at p c then some (overwritten assigned c (stored_at p l)) else stored_at p l)
stored_at-put assigned p c l = elim (Bool-cases (is_at p c)) [
  | inl here ↦
      if-true {b = is_at p c} _ (stored_at p (filter (λ x. not (is_at (place_of c) x)) l)) here
      ∙ ap (λ q. some (overwritten assigned c (stored_at q l))) (sym (place_of-is_at p c here))
      ∙ sym (if-true {b = is_at p c} _ (stored_at p l) here)
  | inr past ↦
      if-false {b = is_at p c} _ (stored_at p (filter (λ x. not (is_at (place_of c) x)) l)) past
      ∙ stored_at-filter p c l past
      ∙ sym (if-false {b = is_at p c} _ (stored_at p l) past)
]

stored_at-put_all :
    (assigned : List String) (p : Place) (cs l : List CostRecord)
    → stored_at p (put_all assigned cs l) ≡ written_at assigned p cs (stored_at p l)
stored_at-put_all assigned p [] l = refl
stored_at-put_all assigned p (c ∷ cs) l =
    stored_at-put_all assigned p cs (put assigned c l)
    ∙ ap (written_at assigned p cs) (stored_at-put assigned p c l)

abbrev pub upserts : Upserts memory
upserts = record { upsert = upsert_in }

put_in-stores :
    (assigned : List String) (cs : List CostRecord) (d : Memory) (p : Place)
    → (put_in assigned cs d).0 ≡ ok tt
    → stored_at p (put_in assigned cs d).1.0.cost_records
      ≡ written_at assigned p cs (stored_at p d.0.cost_records)
put_in-stores assigned cs (s, zero) p h = cc
put_in-stores assigned cs (s, suc n) p h = stored_at-put_all assigned p cs s.cost_records

put_in-others :
    (assigned : List String) (cs : List CostRecord) (d : Memory)
    → (put_in assigned cs d).1.0
      ≡ record d.0 { cost_records = (put_in assigned cs d).1.0.cost_records }
put_in-others assigned cs (s, zero) = refl
put_in-others assigned cs (s, suc n) = refl

put_in-fails :
    (assigned : List String) (cs : List CostRecord) (d : Memory) (e : String)
    → (put_in assigned cs d).0 ≡ err e
    → (put_in assigned cs d).1.0 ≡ d.0
put_in-fails assigned cs (s, zero) e h = refl
put_in-fails assigned cs (s, suc n) e h = cc

upsert_in-stores :
    (clause : OnConflict) (cs : List CostRecord) (d : Memory) (p : Place)
    → clause.columns ≡ index_columns
    → (upsert_in clause cs d).0 ≡ ok tt
    → stored_at p (upsert_in clause cs d).1.0.cost_records
      ≡ written_at clause.do_updates p cs (stored_at p d.0.cost_records)
upsert_in-stores clause cs d p named h =
    let e : upsert_in clause cs d ≡ put_in clause.do_updates cs d = rw named refl in
    ap (λ o. stored_at p o.1.0.cost_records) e
    ∙ put_in-stores clause.do_updates cs d p (sym (ap (λ o. o.0) e) ∙ h)

upsert_in-others :
    (clause : OnConflict) (cs : List CostRecord) (d : Memory)
    → (upsert_in clause cs d).1.0
      ≡ record d.0 { cost_records = (upsert_in clause cs d).1.0.cost_records }
upsert_in-others clause cs d = elim (Bool-cases (same_columns clause.columns index_columns)) [
  | inl same ↦ rw same (put_in-others clause.do_updates cs d)
  | inr other ↦ rw other refl
]

upsert_in-fails :
    (clause : OnConflict) (cs : List CostRecord) (d : Memory) (e : String)
    → (upsert_in clause cs d).0 ≡ err e
    → (upsert_in clause cs d).1.0 ≡ d.0
upsert_in-fails clause cs d e h = elim (Bool-cases (same_columns clause.columns index_columns)) [
  | inl same ↦
      let out = if-true {A = Result (Unit {0}) × Memory} (put_in clause.do_updates cs d) _ same in
      ap (λ o. o.1.0) out ∙ put_in-fails clause.do_updates cs d e (sym (ap (λ o. o.0) out) ∙ h)
  | inr other ↦ rw other refl
]

pub upserts-IsLawful : IsLawfulUpserts memory upserts
upserts-IsLawful = record {
  upsert_stores = upsert_in-stores;
  upsert_others = upsert_in-others;
  upsert_fails = upsert_in-fails;
}
