-- ===== src/Scheduler/Keeps.antt =====
-- What a sync leaves alone, seen through any view of the tables that the writes of costs and of
-- cloud accounts leave alone.
use cloud_cost_dashboard.Base.{
  ℕ, String, Bool, ◌≡◌, refl, ◌∙◌, ap, Option, none, some, List, [], ◌∷◌, ◌==◌,
}
use cloud_cost_dashboard.Base.Exec.{Result, ok, err, Exec, continue}
use cloud_cost_dashboard.Model.{Tables, Table, Time, CloudAccount}
use cloud_cost_dashboard.Gorm.{Gorm, IsLawful}
use cloud_cost_dashboard.Crypto.{Bytes, Box, decrypt}
use cloud_cost_dashboard.Text.Dates.{truncate_to_day, days_before}
use cloud_cost_dashboard.Providers.{Adapters, registry}
use cloud_cost_dashboard.Providers.Records
use cloud_cost_dashboard.Providers.Records.{CostProvider}
use cloud_cost_dashboard.Scheduler.{
  sync_window_days, sync_fields, upsert_cost_records, sync_with, sync_account, noted, sync_if,
  sync_accounts, sync_found, sync_all, wrap, synced,
}
use cloud_cost_dashboard.Scheduler.Upsert.{Upserts}

module _ {X : Type 0} (look : Tables → X) (g : Gorm) where
  open g use {Db, view}

  -- A call that leaves what `look` sees alone, whether it fails or not.
  abbrev pub Keeps : {A : Type 0} → (Db → A × Db) → Type 0
  Keeps m = (d : Db) → look (view (m d).1) ≡ look (view d)

  pub continue-Keeps :
      {A B : Type 0} (r : Result A) (f : A → Exec Db B)
      → ((a : A) → Keeps (f a))
      → Keeps (continue r f)
  continue-Keeps (ok a) f rest d = rest a d
  continue-Keeps (err e) f rest d = refl

  module _ (promises : IsLawful g) (u : Upserts g) (box : Box)
      (unmarshal : Bytes → Result (String → String)) (now later : Time)
      (updates_keep : (q : CloudAccount → Bool) (f : CloudAccount → CloudAccount)
        → Keeps (g.updates Table.cloud_accounts q f)) where
    module _ (account : CloudAccount)
        (upsert_keeps : (l : List Records.CostRecord)
          → Keeps (upsert_cost_records g u account.id l)) where
      sync_fields-Keeps :
          (provider : CostProvider) (fields : String → String)
          → Keeps (sync_fields g u box unmarshal now later provider account fields)
      unfolding sync_fields
      sync_fields-Keeps provider fields d =
          continue-Keeps
            (provider.fetch_costs
              (record { external_id = account.external_id; credential = fields })
              (record {
                start = days_before sync_window_days (truncate_to_day now);
                end = truncate_to_day now;
              }))
            _
            (λ records d1.
              continue-Keeps
                (wrap "store cost records: " (upsert_cost_records g u account.id records d1).0) _
                (λ _. updates_keep (λ a. a.id == account.id) (synced later "")) _
              ∙ upsert_keeps records d1)
            d

      sync_with-Keeps :
          (provider : CostProvider) (credential : Option ℕ)
          → Keeps (sync_with g u box unmarshal now later provider account credential)
      unfolding sync_with
      sync_with-Keeps provider none d = refl
      sync_with-Keeps provider (some n) d =
          continue-Keeps
            (wrap "load credential: " (g.first Table.provider_credentials (λ c. c.id == n) d).0) _
            (λ cred d2.
              continue-Keeps (wrap "decrypt credential: " (decrypt box cred.encrypted_payload)) _
                (λ plaintext d3.
                  continue-Keeps (wrap "parse credential payload: " (unmarshal plaintext)) _
                    (λ fields. sync_fields-Keeps provider fields) d3)
                d2)
            _
          ∙ ap look (promises.view-first Table.provider_credentials (λ c. c.id == n) d)

      pub sync_account-Keeps :
          (provider : CostProvider)
          → Keeps (sync_account g u box unmarshal now later provider account)
      unfolding sync_account
      sync_account-Keeps provider d = sync_with-Keeps provider account.credential_id d

      noted-Keeps :
          (out : Result (Unit {0}) × Db)
          → look (view (noted g u box unmarshal later account out)) ≡ look (view out.1)
      unfolding noted
      noted-Keeps (ok _, d) = refl
      noted-Keeps (err e, d) = updates_keep (λ a. a.id == account.id) (synced later e) d

      pub sync_if-Keeps :
          (provider : CostProvider) (d : Db)
          → look (view (sync_if g u box unmarshal (some provider) now later account d))
            ≡ look (view d)
      unfolding sync_if
      sync_if-Keeps provider d =
          noted-Keeps (sync_account g u box unmarshal now later provider account d)
          ∙ sync_account-Keeps provider d

    -- A full sync, where no upsert changes what is seen.
    module _
        (upsert_keeps : (n : ℕ) (l : List Records.CostRecord) → Keeps (upsert_cost_records g u n l))
        (adapters : Adapters) where
      sync_any-Keeps :
          (provider : Option CostProvider) (account : CloudAccount) (d : Db)
          → look (view (sync_if g u box unmarshal provider now later account d)) ≡ look (view d)
      unfolding sync_if
      sync_any-Keeps none account d = refl
      sync_any-Keeps (some provider) account d =
          sync_if-Keeps account (upsert_keeps account.id) provider d

      sync_accounts-Keeps :
          (l : List CloudAccount) (d : Db)
          → look (view (sync_accounts g u box unmarshal adapters now later l d)) ≡ look (view d)
      unfolding sync_accounts
      sync_accounts-Keeps [] d = refl
      sync_accounts-Keeps (a ∷ l) d =
          sync_accounts-Keeps l
            (sync_if g u box unmarshal (registry adapters a.provider) now later a d)
          ∙ sync_any-Keeps (registry adapters a.provider) a d

      sync_found-Keeps :
          (out : Result (List CloudAccount) × Db)
          → look (view (sync_found g u box unmarshal adapters now later out)) ≡ look (view out.1)
      unfolding sync_found
      sync_found-Keeps (err e, d) = refl
      sync_found-Keeps (ok l, d) = sync_accounts-Keeps l d

      pub sync_all-Keeps :
          (d : Db) → look (view (sync_all g u box unmarshal adapters now later d)) ≡ look (view d)
      unfolding sync_all
      sync_all-Keeps d =
          sync_found-Keeps (g.find Table.cloud_accounts (λ a. a.active) d)
          ∙ ap look (promises.view-find Table.cloud_accounts (λ a. a.active) d)
