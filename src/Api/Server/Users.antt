-- ===== src/Api/Server/Users.antt =====
-- The users over the whole life of a server.
use cloud_cost_dashboard.Base.{
  String, ◌≡◌, refl, sym, ◌∙◌, ap, subst, ◌≢◌, ◌⊎◌, inl, inr, Bool, false, List, [], ◌∷◌, ◌++◌,
  arith, any, any-append, All, str_eq, eq_iff, ◌==◌,
}
use cloud_cost_dashboard.Base.Exec.{Result-cases}
use cloud_cost_dashboard.Model.{Tables, Table, User, role_admin, role_manager, role_viewer}
use cloud_cost_dashboard.Gorm.{Gorm, IsLawful}
use cloud_cost_dashboard.Auth.Libraries.{Bcrypt}
use cloud_cost_dashboard.Bootstrap.{first_admin}
use cloud_cost_dashboard.Api.Users.{CreateUserRequest}
use cloud_cost_dashboard.Api.Users.Laws.{Created}

-- No entry clashes with one behind it.
abbrev pub Distinct {ℓ} : {A : Type ℓ} → (A → A → Bool) → List A → Type 0
Distinct clash [] = Unit
Distinct clash (x ∷ l) = (any (clash x) l ≡ false) × Distinct clash l

Distinct-append {ℓ} :
    {A : Type ℓ} (clash : A → A → Bool) (l : List A) (x : A)
    → ((a b : A) → clash a b ≡ clash b a)
    → Distinct clash l
    → any (clash x) l ≡ false
    → Distinct clash (l ++ x ∷ [])
Distinct-append clash [] x commutes h free = (refl, tt)
Distinct-append clash (y ∷ l) x commutes h free = (
  ground (arith, any-append (clash y) l (x ∷ []), h.0, commutes x y),
  Distinct-append clash l x commutes h.1 (ground arith),
)

All-append {ℓ κ} :
    {A : Type ℓ} (P : A → Type κ) (l : List A) (x : A) → All P l → P x → All P (l ++ x ∷ [])
All-append P [] x h k = (k, tt)
All-append P (y ∷ l) x h k = (h.0, All-append P l x h.1 k)

abbrev pub same_email : User → User → Bool
same_email u x = str_eq u.email x.email

abbrev pub same_id : User → User → Bool
same_id u x = x.id == u.id

abbrev pub HasKnownRole : User → Type 0
HasKnownRole u = (u.role ≡ role_admin) ⊎ ((u.role ≡ role_manager) ⊎ (u.role ≡ role_viewer))

-- Users that can be told apart, each with a role and a scope.
pub record IsSound (l : List User) : Type 0 where
  pub emails : Distinct same_email l
  pub ids : Distinct same_id l
  pub roles : All HasKnownRole l
  pub scopes : All (λ u. u.scope_type ≢ "") l

abbrev pub Sound : Tables → Type 0
Sound s = IsSound s.users

append-IsSound :
    (l : List User) (u : User)
    → IsSound l
    → any (same_email u) l ≡ false
    → any (same_id u) l ≡ false
    → HasKnownRole u
    → u.scope_type ≢ ""
    → IsSound (l ++ u ∷ [])
append-IsSound l u h new_email new_id role scope = record {
  emails =
      Distinct-append same_email l u
        (λ a b. ground (arith, eq_iff a.email b.email, eq_iff b.email a.email)) h.emails new_email;
  ids = Distinct-append same_id l u (λ a b. ground arith) h.ids new_id;
  roles = All-append HasKnownRole l u h.roles role;
  scopes = All-append (λ u. u.scope_type ≢ "") l u h.scopes scope;
}

pub Created-Sound :
    {bcrypt : Bcrypt} {req : CreateUserRequest} (before after : Tables) (u : User)
    → Created bcrypt req before after u
    → Sound before
    → Sound after
Created-Sound before after u c h =
    subst Sound (sym c.row) (append-IsSound before.users u h c.new_email c.new_key c.role c.scope)

pub first_admin-Sound :
    (g : Gorm) (promises : IsLawful g) (email hash : String) (d : g.Db)
    → Sound (g.view d)
    → Sound (g.view (g.create Table.users (first_admin email hash) d).1)
first_admin-Sound g promises email hash d h =
    let row = first_admin email hash in
    elim (Result-cases (g.create Table.users row d).0) [
      | inl (u, ran) ↦
          let (n, now, filled, new_key, free, after) =
            promises.create_rows Table.users row u d ran in
          subst Sound (sym after) (
            append-IsSound (g.view d).users u h
              (ap (λ x. any (same_email x) (g.view d).users) filled ∙ free)
              (ap (λ x. any (same_id x) (g.view d).users) filled ∙ new_key)
              (inl (ap (λ x. x.role) filled))
              (λ e. ground (arith, ap (λ x. x.scope_type) filled, e, eq_iff "none" "")))
      | inr (e, failed) ↦ subst Sound (sym (promises.create_fails Table.users row d e failed)) h
    ]
