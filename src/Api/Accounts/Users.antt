-- ===== src/Api/Accounts/Users.antt =====
-- The handlers of credentials and cloud accounts leave the users alone.
use cloud_cost_dashboard.Base.{
  ℕ, String, ◌≡◌, refl, ◌∙◌, ap, Bool, true, false, ◌||◌, Option, none, some, List, str_eq,
  if◌then◌else◌, ◌==◌, ltb, is_some_of,
}
use cloud_cost_dashboard.Base.Exec.{Result, ok, err}
use cloud_cost_dashboard.Model.{Table, Time, CloudAccount}
use cloud_cost_dashboard.Gorm.{Gorm, IsLawful}
use cloud_cost_dashboard.Gorm.Statements.{users-create, users-delete, users-updates}
use cloud_cost_dashboard.Crypto.{Bytes, Box, encrypt}
use cloud_cost_dashboard.Providers.{Adapters, registry}
use cloud_cost_dashboard.Providers.Records
use cloud_cost_dashboard.Providers.Records.{CostProvider}
use cloud_cost_dashboard.Providers.Csv.{Conversions, parse_cost_csv}
use cloud_cost_dashboard.Scheduler.{import_manual_records, sync_account}
use cloud_cost_dashboard.Scheduler.Others.{sync_account_keeps_others, upsert-Keeps-others}
use cloud_cost_dashboard.Scheduler.Upsert.{Upserts, IsLawfulUpserts}
use cloud_cost_dashboard.Api.Response.{Response, answer, url_param_uint}
use cloud_cost_dashboard.Api.Accounts.{
  Fields, CreateCredentialRequest, UpdateCloudAccountRequest, counted, store_encrypted,
  store_payload, handle_create_credential, delete_unused, delete_credential,
  handle_delete_credential, updated, update_account, handle_update_cloud_account,
  delete_after_costs, delete_account, handle_delete_cloud_account, sync_answer, sync_by,
  sync_found_account, sync_now_of, handle_sync_now, import_records, import_file, handle_import_csv,
}

module _ (g : Gorm) (promises : IsLawful g) where
  open g use {Db, view}

  -- The users after a handler are those before it.
  abbrev Same : {A : Type 0} → Db → A × Db → Type 0
  Same d out = (view out.1).users ≡ (view d).users

  users-answer :
      {A B : Type 0} (done : A → Response B) (why : Response B) (d : Db) (out : Result A × Db)
      → Same d out
      → Same d (answer done why out)
  users-answer done why d (ok a, d') h = h
  users-answer done why d (err e, d') h = h

  users-if :
      {A : Type 0} (d : Db) (b : Bool) (out out' : A × Db)
      → Same d out
      → Same d out'
      → Same d (if b then out else out')
  users-if d true out out' h h' = h
  users-if d false out out' h h' = h'

  module _ (box : Box) (marshal : Fields → Result Bytes) (random : Result Bytes) where
    users-store_encrypted :
        (req : CreateCredentialRequest) (r : Result String) (d : Db)
        → Same d (store_encrypted g box marshal random req r d)
    unfolding store_encrypted
    users-store_encrypted req (err e) d = refl
    users-store_encrypted req (ok encrypted) d =
        users-answer _ _ d _ (users-create g promises Table.provider_credentials (λ e. cc) _ d)

    users-store_payload :
        (req : CreateCredentialRequest) (r : Result Bytes) (d : Db)
        → Same d (store_payload g box marshal random req r d)
    unfolding store_payload
    users-store_payload req (err e) d = refl
    users-store_payload req (ok payload) d =
        users-store_encrypted req (encrypt box random payload) d

    pub users-handle_create_credential :
        (body : Option CreateCredentialRequest) (d : Db)
        → (view (handle_create_credential g box marshal random body d).1).users ≡ (view d).users
    unfolding handle_create_credential
    users-handle_create_credential none d = refl
    users-handle_create_credential (some req) d =
        users-if d (str_eq req.name "" || str_eq req.provider "") _ _ refl
          (users-store_payload req (marshal req.fields) d)

  users-delete_credential : (id : Option ℕ) (d : Db) → Same d (delete_credential g id d)
  unfolding delete_credential delete_unused
  users-delete_credential none d = refl
  users-delete_credential (some n) d =
      let counting = g.count Table.cloud_accounts (λ a. is_some_of a.credential_id n) d in
      users-if counting.1 (ltb 0 (counted counting.0)) _ _ refl (
        users-answer _ _ counting.1 _
          (users-delete g promises Table.provider_credentials (λ e. cc) _ counting.1))
      ∙ ap (λ s. s.users) (promises.view-count Table.cloud_accounts _ d)

  pub users-handle_delete_credential :
      (id : String) (d : Db) → (view (handle_delete_credential g id d).1).users ≡ (view d).users
  unfolding handle_delete_credential
  users-handle_delete_credential id d = users-delete_credential (url_param_uint id) d

  users-updated : (n : ℕ) (out : Result (Unit {0}) × Db) → Same out.1 (updated g n out)
  unfolding updated
  users-updated n (err e, d) = refl
  users-updated n (ok _, d) = ap (λ s. s.users) (promises.view-first Table.cloud_accounts _ d)

  users-update_account :
      (id : Option ℕ) (body : Option UpdateCloudAccountRequest) (d : Db)
      → Same d (update_account g id body d)
  unfolding update_account
  users-update_account none body d = refl
  users-update_account (some n) none d = refl
  users-update_account (some n) (some req) d =
      users-updated n _ ∙ users-updates g promises Table.cloud_accounts (λ e. cc) _ _ d

  pub users-handle_update_cloud_account :
      (id : String) (body : Option UpdateCloudAccountRequest) (d : Db)
      → (view (handle_update_cloud_account g id body d).1).users ≡ (view d).users
  unfolding handle_update_cloud_account
  users-handle_update_cloud_account id body d = users-update_account (url_param_uint id) body d

  users-delete_after_costs :
      (n : ℕ) (out : Result (Unit {0}) × Db) → Same out.1 (delete_after_costs g n out)
  unfolding delete_after_costs
  users-delete_after_costs n (err e, d) = refl
  users-delete_after_costs n (ok _, d) =
      users-answer _ _ d _ (users-delete g promises Table.cloud_accounts (λ e. cc) _ d)

  users-delete_account : (id : Option ℕ) (d : Db) → Same d (delete_account g id d)
  unfolding delete_account
  users-delete_account none d = refl
  users-delete_account (some n) d =
      users-delete_after_costs n _ ∙ users-delete g promises Table.cost_records (λ e. cc) _ d

  pub users-handle_delete_cloud_account :
      (id : String) (d : Db) → (view (handle_delete_cloud_account g id d).1).users ≡ (view d).users
  unfolding handle_delete_cloud_account
  users-handle_delete_cloud_account id d = users-delete_account (url_param_uint id) d

  module _ (u : Upserts g) (upserts : IsLawfulUpserts g u) where
    module _ (box : Box) (unmarshal : Bytes → Result (String → String)) (adapters : Adapters)
        (now later : Time) where
      users-sync_by :
          (provider : Option CostProvider) (a : CloudAccount) (d : Db)
          → Same d (sync_by g u box unmarshal adapters now later provider a d)
      unfolding sync_by
      users-sync_by none a d = refl
      users-sync_by (some provider) a d =
          answered (sync_account g u box unmarshal now later provider a d)
          ∙ ap (λ s. s.users)
              (sync_account_keeps_others g promises u upserts box unmarshal now later provider a d)
        where
          answered :
              (out : Result (Unit {0}) × Db)
              → Same out.1 (sync_answer g u box unmarshal adapters now later out)
          answered (ok _, d) = refl
          answered (err e, d) = refl

      users-sync_found_account :
          (out : Result CloudAccount × Db)
          → Same out.1 (sync_found_account g u box unmarshal adapters now later out)
      unfolding sync_found_account
      users-sync_found_account (err e, d) = refl
      users-sync_found_account (ok a, d) = users-sync_by (registry adapters a.provider) a d

      users-sync_now_of :
          (id : Option ℕ) (d : Db) → Same d (sync_now_of g u box unmarshal adapters now later id d)
      unfolding sync_now_of
      users-sync_now_of none d = refl
      users-sync_now_of (some n) d =
          users-sync_found_account (g.first Table.cloud_accounts (λ a. a.id == n) d)
          ∙ ap (λ s. s.users) (promises.view-first Table.cloud_accounts _ d)

      pub users-handle_sync_now :
          (id : String) (d : Db)
          → (view (handle_sync_now g u box unmarshal adapters now later id d).1).users
            ≡ (view d).users
      unfolding handle_sync_now
      users-handle_sync_now id d = users-sync_now_of (url_param_uint id) d

    module _ (conv : Conversions) where
      users-import_records :
          (n : ℕ) (r : Result (List Records.CostRecord)) (d : Db)
          → Same d (import_records g u conv n r d)
      unfolding import_records import_manual_records
      users-import_records n (err e) d = refl
      users-import_records n (ok records) d =
          users-answer _ _ d _
            (ap (λ s. s.users) (upsert-Keeps-others g promises u upserts n records d))

      users-import_file :
          (id : Option ℕ) (file : Option (Result (List (List String)))) (d : Db)
          → Same d (import_file g u conv id file d)
      unfolding import_file
      users-import_file none file d = refl
      users-import_file (some n) none d = refl
      users-import_file (some n) (some rows) d = users-import_records n (parse_cost_csv conv rows) d

      pub users-handle_import_csv :
          (id : String) (file : Option (Result (List (List String)))) (d : Db)
          → (view (handle_import_csv g u conv id file d).1).users ≡ (view d).users
      unfolding handle_import_csv
      users-handle_import_csv id file d = users-import_file (url_param_uint id) file d
