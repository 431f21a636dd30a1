-- ===== src/Examples/Unfailing.antt =====
-- A database in memory no statement of which fails, for the theorem on deletes that succeed.
use cloud_cost_dashboard.Base.{
  suc, ◌≡◌, refl, not, some, List, [], ◌∷◌, ◌++◌, map, filter, length, if◌then◌else◌,
}
use cloud_cost_dashboard.Base.Exec.{Result, ok, err}
use cloud_cost_dashboard.Model.{Tables, rows, set_rows, stored}
use cloud_cost_dashboard.Gorm.{Gorm}
use cloud_cost_dashboard.Api.Response.{no_content, url_param_uint}
use cloud_cost_dashboard.Api.Hierarchy.{handle_delete_organization}
use cloud_cost_dashboard.Api.Hierarchy.Completes.{IsReliable, handle_delete_organization-no_content}
use cloud_cost_dashboard.Examples.World.{tables}

abbrev first_of {ℓ} : {A : Type ℓ} → List A → Result A
first_of [] = err "record not found"
first_of (x ∷ l) = ok x

abbrev settle : Tables → Result (Unit {0}) × Tables → Result (Unit {0}) × Tables
settle s (ok tt, s') = (ok tt, s')
settle s (err e, s') = (err e, s)

settle_returns :
    (s : Tables) (out : Result (Unit {0}) × Tables) → out.0 ≡ ok tt → (settle s out).0 ≡ ok tt
settle_returns s (ok tt, s') h = refl
settle_returns s (err e, s') h = cc

abbrev unfailing : Gorm
unfailing = record {
  Db = Tables;
  view = λ s. s;
  find = λ t p s. (ok (filter p (rows t s)), s);
  first = λ t p s. (first_of (filter p (rows t s)), s);
  count = λ t p s. (ok (length (filter p (rows t s))), s);
  delete = λ t p s. (ok tt, set_rows t (filter (λ r. not (p r)) (rows t s)) s);
  create = λ t r s.
      let r' = stored t (suc (length (rows t s))) 0 r in
      (ok r', set_rows t (rows t s ++ r' ∷ []) s);
  updates = λ t p f s. (ok tt, set_rows t (map (λ r. if p r then f r else r) (rows t s)) s);
  transaction = λ body s. settle s (body s);
}

unfailing-IsReliable : IsReliable unfailing
unfailing-IsReliable = record {
  find_returns = λ t p s. (filter p (rows t s), refl);
  delete_returns = λ t p s. refl;
  commit_returns = λ body s h. settle_returns s (body s) h;
}

one_read : url_param_uint "1" ≡ some 1
unfolding url_param_uint
one_read = refl

handle_delete_organization-no_content_example :
    (handle_delete_organization unfailing "1" tables).0 ≡ no_content
handle_delete_organization-no_content_example =
    handle_delete_organization-no_content unfailing unfailing-IsReliable "1" 1 tables one_read
