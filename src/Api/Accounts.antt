-- ===== src/Api/Accounts.antt =====
-- backend/internal/api/handlers_accounts.go.  `marshal` is json.Marshal of the fields, `random`
-- what reading a nonce returns; of an uploaded file the handler gets what the reader returned.
pub mod Laws
pub mod Stores
pub mod Updates
pub mod Syncs
pub mod Users
use Prim.Native.String
use cloud_cost_dashboard.Base.{
  ℕ, String, Bool, true, ◌||◌, Option, none, some, List, length, str_eq, ◌==◌, if◌then◌else◌, ltb,
  is_some_of,
}
use cloud_cost_dashboard.Base.Exec.{Result, ok, err, Exec}
use cloud_cost_dashboard.Model.{ProviderKey, ProviderCredential, CloudAccount, Table, Time}
use cloud_cost_dashboard.Gorm.{Gorm}
use cloud_cost_dashboard.Crypto.{Bytes, Box, encrypt}
use cloud_cost_dashboard.Providers.{Adapters, registry}
use cloud_cost_dashboard.Providers.Records
use cloud_cost_dashboard.Providers.Records.{CostProvider}
use cloud_cost_dashboard.Providers.Csv.{Conversions, parse_cost_csv}
use cloud_cost_dashboard.Scheduler.{import_manual_records, sync_account}
use cloud_cost_dashboard.Scheduler.Upsert.{Upserts}
use cloud_cost_dashboard.Api.Response.{Response, json, error, no_content, url_param_uint, answer}

abbrev pub Fields : Type 0
Fields = List (String × String)

pub record CreateCredentialRequest : Type 0 where
  pub provider : ProviderKey
  pub name : String
  pub fields : Fields

pub record CreateCloudAccountRequest : Type 0 where
  pub region_id : ℕ
  pub provider : ProviderKey
  pub name : String
  pub external_id : String
  pub credential_id : Option ℕ

pub record UpdateCloudAccountRequest : Type 0 where
  pub name : Option String
  pub external_id : Option String
  pub credential_id : Option ℕ
  pub active : Option Bool

-- `if req.X != nil { updates["x"] = *req.X }`.
abbrev or_kept {ℓ} : {A : Type ℓ} → Option A → A → A
or_kept none kept = kept
or_kept (some new) kept = new

abbrev or_kept_id : Option ℕ → Option ℕ → Option ℕ
or_kept_id none kept = kept
or_kept_id (some new) kept = some new

abbrev pub changed_account : UpdateCloudAccountRequest → CloudAccount → CloudAccount
changed_account req a = record a {
  name = or_kept req.name a.name;
  external_id = or_kept req.external_id a.external_id;
  credential_id = or_kept_id req.credential_id a.credential_id;
  active = or_kept req.active a.active;
}

-- The zero value of the struct, which `First` leaves where it fails.
abbrev pub no_account : CloudAccount
no_account = record {
  id = 0;
  region_id = 0;
  provider = "";
  name = "";
  external_id = "";
  credential_id = none;
  active = Bool.false;
  last_sync_at = none;
  last_sync_err = "";
  created_at = 0;
}

abbrev pub found_or_zero : Result CloudAccount → CloudAccount
found_or_zero (ok a) = a
found_or_zero (err e) = no_account

-- `inUse` after the count, whose error is not looked at.
abbrev pub counted : Result ℕ → ℕ
counted (ok n) = n
counted (err e) = 0

module _ (g : Gorm) where
  open g use {Db, find, first, count, delete, create, updates}

  module _ (box : Box) (marshal : Fields → Result Bytes) (random : Result Bytes) where
    store_encrypted :
        CreateCredentialRequest → Result String → Db → Response ProviderCredential × Db
    store_encrypted req (err e) d = (error 500 "failed to encrypt credential", d)
    store_encrypted req (ok encrypted) d =
        answer (json 201) (error 500 "failed to store credential") (
          create Table.provider_credentials
            (record {
              id = 0;
              provider = req.provider;
              name = req.name;
              encrypted_payload = encrypted;
              created_at = 0;
            })
            d)

    store_payload : CreateCredentialRequest → Result Bytes → Db → Response ProviderCredential × Db
    unfolding store_encrypted
    store_payload req (err e) d = (error 400 "invalid fields", d)
    store_payload req (ok payload) d = store_encrypted req (encrypt box random payload) d

    unfoldable pub handle_create_credential :
        Option CreateCredentialRequest → Db → Response ProviderCredential × Db
    unfolding store_payload
    handle_create_credential none d = (error 400 "provider and name are required", d)
    handle_create_credential (some req) d =
        if str_eq req.name "" || str_eq req.provider ""
        then (error 400 "provider and name are required", d)
        else store_payload req (marshal req.fields) d

  unfoldable pub handle_list_credentials : Db → Response (List ProviderCredential) × Db
  handle_list_credentials d =
      answer (json 200) (error 500 "failed to list credentials")
        (find Table.provider_credentials (λ c. true) d)

  -- `handleDeleteCredential` once the accounts are counted.
  delete_unused : ℕ → Result ℕ × Db → Response (Unit {0}) × Db
  delete_unused id (r, d) =
      if ltb 0 (counted r)
      then (error 409 "credential is still attached to a cloud account", d)
      else answer (λ _. no_content) (error 500 "failed to delete credential")
          (delete Table.provider_credentials (λ c. c.id == id) d)

  delete_credential : Option ℕ → Db → Response (Unit {0}) × Db
  unfolding delete_unused
  delete_credential none d = (error 400 "invalid id", d)
  delete_credential (some id) d =
      delete_unused id (count Table.cloud_accounts (λ a. is_some_of a.credential_id id) d)

  unfoldable pub handle_delete_credential : String → Db → Response (Unit {0}) × Db
  unfolding delete_credential
  handle_delete_credential id d = delete_credential (url_param_uint id) d

  unfoldable pub handle_create_cloud_account :
      Option CreateCloudAccountRequest → Db → Response CloudAccount × Db
  handle_create_cloud_account none d = (error 400 "regionId, provider and name are required", d)
  handle_create_cloud_account (some req) d =
      if str_eq req.name "" || (req.region_id == 0 || str_eq req.provider "")
      then (error 400 "regionId, provider and name are required", d)
      else answer (json 201) (error 400 "could not create cloud account") (
          create Table.cloud_accounts
            (record no_account {
              region_id = req.region_id;
              provider = req.provider;
              name = req.name;
              external_id = req.external_id;
              credential_id = req.credential_id;
              active = true;
            })
            d)

  -- `handleUpdateCloudAccount` once the update ran: the row as it is now, or the zero value.
  updated : ℕ → Result (Unit {0}) × Db → Response CloudAccount × Db
  updated id (err e, d) = (error 500 "failed to update cloud account", d)
  updated id (ok _, d) =
      let (row, d') = first Table.cloud_accounts (λ a. a.id == id) d in
      (json 200 (found_or_zero row), d')

  update_account : Option ℕ → Option UpdateCloudAccountRequest → Db → Response CloudAccount × Db
  unfolding updated
  update_account none req d = (error 400 "invalid id", d)
  update_account (some id) none d = (error 400 "invalid request body", d)
  update_account (some id) (some req) d =
      updated id (updates Table.cloud_accounts (λ a. a.id == id) (changed_account req) d)

  unfoldable pub handle_update_cloud_account :
      String → Option UpdateCloudAccountRequest → Db → Response CloudAccount × Db
  unfolding update_account
  handle_update_cloud_account id req d = update_account (url_param_uint id) req d

  -- The two deletions stand in no transaction.
  delete_after_costs : ℕ → Result (Unit {0}) × Db → Response (Unit {0}) × Db
  delete_after_costs id (err e, d) = (error 500 "failed to delete cost history", d)
  delete_after_costs id (ok _, d) =
      answer (λ _. no_content) (error 500 "failed to delete cloud account")
        (delete Table.cloud_accounts (λ a. a.id == id) d)

  delete_account : Option ℕ → Db → Response (Unit {0}) × Db
  unfolding delete_after_costs
  delete_account none d = (error 400 "invalid id", d)
  delete_account (some id) d =
      delete_after_costs id (delete Table.cost_records (λ c. c.cloud_account_id == id) d)

  unfoldable pub handle_delete_cloud_account : String → Db → Response (Unit {0}) × Db
  unfolding delete_account
  handle_delete_cloud_account id d = delete_account (url_param_uint id) d

  module _ (u : Upserts g) where
    module _ (box : Box) (unmarshal : Bytes → Result (String → String)) (adapters : Adapters)
        (now later : Time) where
      -- What a sync answers: {"status": "synced"} as its one value.
      sync_answer : Result (Unit {0}) × Db → Response String × Db
      sync_answer (ok _, d) = (json 200 "synced", d)
      sync_answer (err e, d) = (error 502 (String.◌++◌ "sync failed: " e), d)

      sync_by : Option CostProvider → CloudAccount → Db → Response String × Db
      unfolding sync_answer
      sync_by none account d =
          (error 400 "this provider has no live sync; use CSV import instead", d)
      sync_by (some provider) account d =
          sync_answer (sync_account g u box unmarshal now later provider account d)

      sync_found_account : Result CloudAccount × Db → Response String × Db
      unfolding sync_by
      sync_found_account (err e, d) = (error 404 "cloud account not found", d)
      sync_found_account (ok account, d) = sync_by (registry adapters account.provider) account d

      sync_now_of : Option ℕ → Db → Response String × Db
      unfolding sync_found_account
      sync_now_of none d = (error 400 "invalid id", d)
      sync_now_of (some id) d = sync_found_account (first Table.cloud_accounts (λ a. a.id == id) d)

      unfoldable pub handle_sync_now : String → Db → Response String × Db
      unfolding sync_now_of
      handle_sync_now id d = sync_now_of (url_param_uint id) d

    module _ (conv : Conversions) where
      import_records : ℕ → Result (List Records.CostRecord) → Db → Response ℕ × Db
      import_records id (err e) d = (error 400 e, d)
      import_records id (ok records) d =
          answer (λ _. json 200 (length records)) (error 500 "failed to store imported costs")
            (import_manual_records g u id records d)

      import_file : Option ℕ → Option (Result (List (List String))) → Db → Response ℕ × Db
      unfolding import_records
      import_file none file d = (error 400 "invalid id", d)
      import_file (some id) none d = (error 400 "missing file field", d)
      import_file (some id) (some rows) d = import_records id (parse_cost_csv conv rows) d

      -- The answer is {"imported": n}.
      unfoldable pub handle_import_csv :
          String → Option (Result (List (List String))) → Db → Response ℕ × Db
      unfolding import_file
      handle_import_csv id file d = import_file (url_param_uint id) file d
