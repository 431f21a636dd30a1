-- ===== src/Api/Accounts/Laws.antt =====
-- What the handlers of credentials and cloud accounts do to the tables.
use cloud_cost_dashboard.Base.{
  ℕ, String, ◌≡◌, refl, sym, ◌∙◌, ap, ◌⊎◌, inl, inr, false, not, none, some, arith, filter, any,
  ◌==◌, is_some_of, Bool-cases, Option-cases, if-true, if-false, ltb,
}
use cloud_cost_dashboard.Base.Exec.{Result, ok, err, Result-cases}
use cloud_cost_dashboard.Model.{Tables, Table, CloudAccount}
use cloud_cost_dashboard.Gorm.{Gorm, IsLawful, count_zero}
use cloud_cost_dashboard.Api.Response.{
  Response, error, no_content, url_param_uint, answer, answer-ok, answer-err,
}
use cloud_cost_dashboard.Api.Accounts.{
  counted, delete_unused, delete_credential, handle_delete_credential, delete_after_costs,
  handle_delete_cloud_account,
}

-- The ways in which the deletion of a cloud account ends.
pub data DeletesAccount (id : String) (s s' : Tables) (r : Response (Unit {0})) : Type 0 where
  invalid :
      url_param_uint id ≡ none → r ≡ error 400 "invalid id" → s' ≡ s → DeletesAccount id s s' r
  nothing : r ≡ error 500 "failed to delete cost history" → s' ≡ s → DeletesAccount id s s' r
  costs_only :
      (n : ℕ)
      → url_param_uint id ≡ some n
      → r ≡ error 500 "failed to delete cloud account"
      → s' ≡ record s { cost_records = filter (λ c. not (c.cloud_account_id == n)) s.cost_records }
      → DeletesAccount id s s' r
  deleted :
      (n : ℕ)
      → url_param_uint id ≡ some n
      → r ≡ no_content
      → s' ≡ record s {
        cost_records = filter (λ c. not (c.cloud_account_id == n)) s.cost_records;
        cloud_accounts = filter (λ a. not (a.id == n)) s.cloud_accounts;
      }
      → DeletesAccount id s s' r

module _ (g : Gorm) (promises : IsLawful g) where
  open g use {Db, view, count, delete}
  open promises use {view-count, delete_rows, delete_fails}

  -- From where the costs are deleted.
  after_costs-DeletesAccount :
      (id : String) (n : ℕ)
      → url_param_uint id ≡ some n
      → (d : Db) (r : Result (Unit {0}))
      → (delete Table.cost_records (λ c. c.cloud_account_id == n) d).0 ≡ r
      → let d1 = (delete Table.cost_records (λ c. c.cloud_account_id == n) d).1 in
        let out = delete_after_costs g n (r, d1) in DeletesAccount id (view d) (view out.1) out.0
  unfolding delete_after_costs
  after_costs-DeletesAccount id n good d (err e) h =
      nothing refl (delete_fails Table.cost_records _ d e h)
  after_costs-DeletesAccount id n good d (ok _) h =
      accounts (delete Table.cloud_accounts (λ a. a.id == n) d1).0 refl
    where
      d1 : Db
      d1 = (delete Table.cost_records (λ c. c.cloud_account_id == n) d).1

      pruned : view d1 ≡ record (view d) {
        cost_records = filter (λ c. not (c.cloud_account_id == n)) (view d).cost_records;
      }
      pruned = delete_rows Table.cost_records (λ c. c.cloud_account_id == n) d h

      accounts :
          (r : Result (Unit {0}))
          → (delete Table.cloud_accounts (λ a. a.id == n) d1).0 ≡ r
          → let d2 = (delete Table.cloud_accounts (λ a. a.id == n) d1).1 in
            let out =
              answer (λ _. no_content) (error 500 "failed to delete cloud account") (r, d2) in
            DeletesAccount id (view d) (view out.1) out.0
      accounts (err e) k =
          costs_only n good refl (delete_fails Table.cloud_accounts _ d1 e k ∙ pruned)
      accounts (ok _) k = deleted n good refl (
          delete_rows Table.cloud_accounts (λ a. a.id == n) d1 k
          ∙ ap
              (λ (s : Tables). record s {
                cloud_accounts = filter (λ a. not (a.id == n)) s.cloud_accounts;
              })
              pruned)

  -- Deleting a cloud account ends in one of four ways: the id is no number and it is 400; no table
  -- changes and it is 500; its costs alone are gone and it is 500; or exactly the account and its
  -- costs are gone and it is 204.
  pub handle_delete_cloud_account-DeletesAccount :
      (id : String) (d : Db)
      → let out = handle_delete_cloud_account g id d in
        DeletesAccount id (view d) (view out.1) out.0
  unfolding handle_delete_cloud_account
  handle_delete_cloud_account-DeletesAccount id d = elim (Option-cases (url_param_uint id)) [
    | inl bad ↦ rw bad (invalid bad refl refl)
    | inr (n, good) ↦ rw good (
        after_costs-DeletesAccount id n good d
          (delete Table.cost_records (λ c. c.cloud_account_id == n) d).0 refl)
  ]

  -- What a deletion of a credential that is not refused does.
  unused_deleted :
      (n : ℕ) (d : Db) (r : Result ℕ)
      → (delete_unused g n (r, d)).0 ≡ no_content
      → (counted r ≡ 0)
        × (view (delete_unused g n (r, d)).1 ≡ record (view d) {
          provider_credentials = filter (λ c. not (c.id == n)) (view d).provider_credentials;
        })
  unfolding delete_unused
  unused_deleted n d r h =
      let out = delete Table.provider_credentials (λ c. c.id == n) d in
      let failed = error 500 "failed to delete credential" in
      let in_use : Response (Unit {0}) × Db =
        (error 409 "credential is still attached to a cloud account", d) in
      let answered = answer (λ _. no_content) failed out in
      elim (Bool-cases (ltb 0 (counted r))) [
        | inl used ↦ cc (ap (λ o. o.0) (if-true in_use answered used), h)
        | inr unused ↦
            let e = if-false in_use answered unused in
            elim (Result-cases out.0) [
              | inl (_, ran) ↦ (
                ground (arith, unused),
                ap (λ o. view o.1) (e ∙ answer-ok (λ _. no_content) failed out tt ran)
                    ∙ delete_rows Table.provider_credentials (λ c. c.id == n) d ran,
              )
              | inr (m, stopped) ↦
                  cc (ap (λ o. o.0) (e ∙ answer-err (λ _. no_content) failed out m stopped), h)
            ]
      ]

  -- A credential is answered to be deleted only where no cloud account had it, or counting those
  -- accounts failed; then exactly the credential of the id is gone.
  pub handle_delete_credential-no_content :
      (id : String) (d : Db)
      → (handle_delete_credential g id d).0 ≡ no_content
      → (n : ℕ) × (url_param_uint id ≡ some n)
        × ((any (λ a. is_some_of a.credential_id n) (view d).cloud_accounts ≡ false)
            ⊎ ((e : String) × ((count Table.cloud_accounts (λ a. is_some_of a.credential_id n) d).0
                  ≡ err e)))
        × (view (handle_delete_credential g id d).1 ≡ record (view d) {
          provider_credentials = filter (λ c. not (c.id == n)) (view d).provider_credentials;
        })
  unfolding handle_delete_credential delete_credential
  handle_delete_credential-no_content id d h = elim (Option-cases (url_param_uint id)) [
    | inl bad ↦ cc (ap (λ o. (delete_credential g o d).0) bad, h)
    | inr (n, good) ↦
        let having = λ (a : CloudAccount). is_some_of a.credential_id n in
        let e = ap (λ o. delete_credential g o d) good in
        let (none_used, after) =
          unused_deleted n (count Table.cloud_accounts having d).1
            (count Table.cloud_accounts having d).0 (sym (ap (λ o. o.0) e) ∙ h) in
        (
          n,
          good,
          (elim (Result-cases (count Table.cloud_accounts having d).0) [
            | inl (m, ran) ↦ inl (
                count_zero g promises Table.cloud_accounts having d
                  (ran ∙ ap ok (ap counted (sym ran) ∙ none_used)))
            | inr failed ↦ inr failed
          ]),
          ap (λ o. view o.1) e
              ∙ after
              ∙ ap
                  (λ (s : Tables). record s {
                    provider_credentials = filter (λ c. not (c.id == n)) s.provider_credentials;
                  })
                  (view-count Table.cloud_accounts having d),
        )
  ]
