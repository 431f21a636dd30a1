-- ===== src/Gorm/Statements.antt =====
-- A statement leaves every table but its own as it is, whether it fails or not.
use cloud_cost_dashboard.Base.{◌≡◌, refl, ◌∙◌, ap, ◌≢◌, inl, inr, Bool, List}
use cloud_cost_dashboard.Base.Exec.{Result-cases}
use cloud_cost_dashboard.Model.{Tables, Table, Row, set_rows}
use cloud_cost_dashboard.Gorm.{Gorm, IsLawful}

-- Setting the rows of another table than that of the users.
pub users-set_rows :
    (t : Table) (l : List (Row t)) (s : Tables) → t ≢ Table.users → (set_rows t l s).users ≡ s.users
users-set_rows Table.users l s other = absurd (other refl)
users-set_rows Table.organizations l s other = refl
users-set_rows Table.products l s other = refl
users-set_rows Table.projects l s other = refl
users-set_rows Table.environments l s other = refl
users-set_rows Table.regions l s other = refl
users-set_rows Table.provider_credentials l s other = refl
users-set_rows Table.cloud_accounts l s other = refl
users-set_rows Table.cost_records l s other = refl

module _ (g : Gorm) (promises : IsLawful g) (t : Table) (other : t ≢ Table.users) where
  open g use {Db, view}

  pub users-create : (r : Row t) (d : Db) → (view (g.create t r d).1).users ≡ (view d).users
  users-create r d = elim (Result-cases (g.create t r d).0) [
    | inl (row, ran) ↦
        let (n, now, _, _, _, after) = promises.create_rows t r row d ran in
        ap (λ s. s.users) after ∙ users-set_rows t _ (view d) other
    | inr (e, failed) ↦ ap (λ s. s.users) (promises.create_fails t r d e failed)
  ]

  pub users-delete : (p : Row t → Bool) (d : Db) → (view (g.delete t p d).1).users ≡ (view d).users
  users-delete p d = elim (Result-cases (g.delete t p d).0) [
    | inl (_, ran) ↦
        ap (λ s. s.users) (promises.delete_rows t p d ran) ∙ users-set_rows t _ (view d) other
    | inr (e, failed) ↦ ap (λ s. s.users) (promises.delete_fails t p d e failed)
  ]

  pub users-updates :
      (p : Row t → Bool) (f : Row t → Row t) (d : Db)
      → (view (g.updates t p f d).1).users ≡ (view d).users
  users-updates p f d = elim (Result-cases (g.updates t p f d).0) [
    | inl (_, ran) ↦
        ap (λ s. s.users) (promises.updates_rows t p f d ran) ∙ users-set_rows t _ (view d) other
    | inr (e, failed) ↦ ap (λ s. s.users) (promises.updates_fails t p f d e failed)
  ]
