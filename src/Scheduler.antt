-- ===== src/Scheduler.antt =====
-- `SyncAll`, `SyncAccount` and the upsert of backend/internal/scheduler/scheduler.go; `Cron` has the
-- rest.  `now` is the clock.
pub mod Upsert
pub mod Cron
pub mod Keeps
pub mod Others
pub mod Sync
pub mod Success
pub mod Touches
pub mod Refreshes
use Prim.Native.String
use cloud_cost_dashboard.Base.{
  ℕ, String, ◌≡◌, Bool, true, ◌&&◌, Option, none, some, List, [], ◌∷◌, map, ◌==◌, str_eq,
}
use cloud_cost_dashboard.Base.Exec.{Result, ok, err, Exec, raise, lift, pure, ◌>>=◌, ◌>>◌}
use cloud_cost_dashboard.Model.{
  Tables, Table, Time, CloudAccount, CostRecord, ProviderCredential, Float64,
}
use cloud_cost_dashboard.Gorm.{Gorm}
use cloud_cost_dashboard.Crypto.{Bytes, Box, decrypt}
use cloud_cost_dashboard.Text.Dates.{truncate_to_day, days_before}
use cloud_cost_dashboard.Providers
use cloud_cost_dashboard.Providers.{Adapters, registry}
use cloud_cost_dashboard.Providers.Records
use cloud_cost_dashboard.Providers.Records.{CostProvider}
use Upsert.{Upserts, OnConflict}

abbrev pub sync_window_days : ℕ
sync_window_days = 14

-- `fmt.Errorf("context: %w", err)`.
abbrev pub wrap {ℓ} : {A : Type ℓ} → String → Result A → Result A
wrap context (ok a) = ok a
wrap context (err e) = err (String.◌++◌ context e)

abbrev pub wrapped {ℓ} : {S A : Type ℓ} → String → Exec S A → Exec S A
wrapped context m s = (wrap context (m s).0, (m s).1)

-- The row that a fetched record becomes.
unfoldable pub cost_row : ℕ → Records.CostRecord → CostRecord
cost_row account r = record {
  id = 0;
  cloud_account_id = account;
  date = r.date;
  service_name = r.service_name;
  amount = r.amount;
  currency = r.currency;
  created_at = 0;
}

-- The clause of the upsert: what identifies a record, and what a newer one replaces.
abbrev pub cost_conflict : OnConflict
cost_conflict = record {
  columns = "cloud_account_id" ∷ "date" ∷ "service_name" ∷ [];
  do_updates = "amount" ∷ "currency" ∷ [];
}

-- The two columns that a sync writes to its account.
abbrev pub synced : Time → String → CloudAccount → CloudAccount
synced now message a = record a { last_sync_at = some now; last_sync_err = message }

module _ (g : Gorm) (u : Upserts g) where
  open g use {Db, find, first, updates}
  open u use {upsert}

  unfoldable pub upsert_cost_records : ℕ → List Records.CostRecord → Exec Db (Unit {0})
  unfolding cost_row
  upsert_cost_records account [] d = (ok tt, d)
  upsert_cost_records account (r ∷ rs) d = upsert cost_conflict (map (cost_row account) (r ∷ rs)) d

  unfoldable pub import_manual_records : ℕ → List Records.CostRecord → Exec Db (Unit {0})
  import_manual_records account records = upsert_cost_records account records

  module _ (box : Box) (unmarshal : Bytes → Result (String → String)) where
    -- The rest of `SyncAccount` once the credential's fields are known; `later` is the clock at its end.
    sync_fields : Time → Time → CostProvider → CloudAccount → (String → String) → Exec Db (Unit {0})
    sync_fields now later provider account fields = do
      records ← lift (
          provider.fetch_costs (record { external_id = account.external_id; credential = fields })
            (record {
              start = days_before sync_window_days (truncate_to_day now);
              end = truncate_to_day now;
            }))
      wrapped "store cost records: " (upsert_cost_records account.id records)
      updates Table.cloud_accounts (λ a. a.id == account.id) (synced later "")

    -- `SyncAccount` once the credential's id is known.
    sync_with : Time → Time → CostProvider → CloudAccount → Option ℕ → Exec Db (Unit {0})
    unfolding sync_fields
    sync_with now later provider account none = raise "no credential attached"
    sync_with now later provider account (some credential_id) = do
      cred ←
          wrapped "load credential: "
            (first Table.provider_credentials (λ c. c.id == credential_id))
      plaintext ← lift (wrap "decrypt credential: " (decrypt box cred.encrypted_payload))
      fields ← lift (wrap "parse credential payload: " (unmarshal plaintext))
      sync_fields now later provider account fields

    unfoldable pub sync_account : Time → Time → CostProvider → CloudAccount → Exec Db (Unit {0})
    unfolding sync_with
    sync_account now later provider account =
        sync_with now later provider account account.credential_id

    -- `err.Error()` is stored with the account; what that update returns is not looked at.
    noted : Time → CloudAccount → Result (Unit {0}) × Db → Db
    noted later account (ok _, d) = d
    noted later account (err e, d) =
        (updates Table.cloud_accounts (λ a. a.id == account.id) (synced later e) d).1

    pub sync_if : Option CostProvider → Time → Time → CloudAccount → Db → Db
    unfolding noted
    sync_if none now later account d = d
    sync_if (some provider) now later account d =
        noted later account (sync_account now later provider account d)

    -- The loop of `SyncAll`; the clock stands still in it.
    sync_accounts : Adapters → Time → Time → List CloudAccount → Db → Db
    unfolding sync_if
    sync_accounts adapters now later [] d = d
    sync_accounts adapters now later (account ∷ rest) d =
        sync_accounts adapters now later rest
          (sync_if (registry adapters account.provider) now later account d)

    sync_found : Adapters → Time → Time → Result (List CloudAccount) × Db → Db
    unfolding sync_accounts
    sync_found adapters now later (err e, d) = d
    sync_found adapters now later (ok accounts, d) = sync_accounts adapters now later accounts d

    unfoldable pub sync_all : Adapters → Time → Time → Db → Db
    unfolding sync_found
    sync_all adapters now later d =
        sync_found adapters now later (find Table.cloud_accounts (λ a. a.active) d)
