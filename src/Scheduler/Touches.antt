-- ===== src/Scheduler/Touches.antt =====
-- What the sync of one account does to the table of accounts.
use cloud_cost_dashboard.Base.{
  ℕ, String, ◌≡◌, refl, ◌∙◌, ap, ◌⊎◌, inl, inr, Bool, Option, none, some, List, [], ◌∷◌, map, ◌==◌,
  if◌then◌else◌,
}
use cloud_cost_dashboard.Base.Exec.{Result, ok, err, Exec, continue}
use cloud_cost_dashboard.Model.{Table, Time, CloudAccount}
use cloud_cost_dashboard.Gorm.{Gorm, IsLawful}
use cloud_cost_dashboard.Crypto.{Bytes, Box, decrypt}
use cloud_cost_dashboard.Text.Dates.{truncate_to_day, days_before}
use cloud_cost_dashboard.Providers.Records
use cloud_cost_dashboard.Providers.Records.{CostProvider}
use cloud_cost_dashboard.Scheduler.{
  sync_window_days, sync_fields, upsert_cost_records, sync_with, sync_account, noted, sync_if, wrap,
  synced,
}
use cloud_cost_dashboard.Scheduler.Upsert.{Upserts, IsLawfulUpserts}

-- The accounts once a sync wrote its time and message to that of the id.
abbrev pub touched : ℕ → Time → String → List CloudAccount → List CloudAccount
touched n later message l = map (λ a. if a.id == n then synced later message a else a) l

module _ (g : Gorm) (promises : IsLawful g) (u : Upserts g) (upserts : IsLawfulUpserts g u)
    (box : Box) (unmarshal : Bytes → Result (String → String)) (now later : Time)
    (updates_return : (q : CloudAccount → Bool) (f : CloudAccount → CloudAccount) (d : g.Db)
      → (g.updates Table.cloud_accounts q f d).0 ≡ ok tt) where
  open g use {Db, view}

  -- A call that returns has written the time of the sync to the account; one that fails has left the
  -- accounts as they were.
  abbrev Ends : ℕ → Db → Result (Unit {0}) × Db → Type 0
  Ends n d out =
      ((out.0 ≡ ok tt) × ((view out.1).cloud_accounts ≡ touched n later "" (view d).cloud_accounts))
      ⊎ ((e : String) × (out.0 ≡ err e) × ((view out.1).cloud_accounts ≡ (view d).cloud_accounts))

  Ends-from :
      (n : ℕ) (d d' : Db) (out : Result (Unit {0}) × Db)
      → (view d').cloud_accounts ≡ (view d).cloud_accounts
      → Ends n d' out
      → Ends n d out
  Ends-from n d d' out same (inl (done, after)) = inl (done, after ∙ ap (touched n later "") same)
  Ends-from n d d' out same (inr (e, failed, after)) = inr (e, failed, after ∙ same)

  continue-Ends :
      {A : Type 0} (n : ℕ) (r : Result A) (f : A → Exec Db (Unit {0})) (d d' : Db)
      → (view d').cloud_accounts ≡ (view d).cloud_accounts
      → ((a : A) → Ends n d' (f a d'))
      → Ends n d (continue r f d')
  continue-Ends n (ok a) f d d' same rest = Ends-from n d d' (f a d') same (rest a)
  continue-Ends n (err e) f d d' same rest = inr (e, refl, same)

  accounts_updated :
      (n : ℕ) (message : String) (d : Db)
      → (view
          (g.updates Table.cloud_accounts
            (λ a. a.id == n)
            (synced later message)
            d).1).cloud_accounts
        ≡ touched n later message (view d).cloud_accounts
  accounts_updated n message d =
      ap (λ s. s.cloud_accounts)
        (promises.updates_rows Table.cloud_accounts (λ a. a.id == n) (synced later message) d
          (updates_return (λ a. a.id == n) (synced later message) d))

  accounts_upserted :
      (n : ℕ) (l : List Records.CostRecord) (d : Db)
      → (view (upsert_cost_records g u n l d).1).cloud_accounts ≡ (view d).cloud_accounts
  unfolding upsert_cost_records
  accounts_upserted n [] d = refl
  accounts_upserted n (r ∷ l) d = ap (λ s. s.cloud_accounts) (upserts.upsert_others _ _ d)

  module _ (provider : CostProvider) (account : CloudAccount) where
    sync_fields-Ends :
        (fields : String → String) (d : Db)
        → Ends account.id d (sync_fields g u box unmarshal now later provider account fields d)
    unfolding sync_fields
    sync_fields-Ends fields d =
        continue-Ends account.id
          (provider.fetch_costs (record { external_id = account.external_id; credential = fields })
            (record {
              start = days_before sync_window_days (truncate_to_day now);
              end = truncate_to_day now;
            }))
          _ d d refl
          (λ records.
            let stored = upsert_cost_records g u account.id records d in
            continue-Ends account.id (wrap "store cost records: " stored.0) _ d stored.1
              (accounts_upserted account.id records d)
              (λ _. inl (
                updates_return (λ a. a.id == account.id) (synced later "") stored.1,
                accounts_updated account.id "" stored.1,
              )))

    sync_with-Ends :
        (credential : Option ℕ) (d : Db)
        → Ends account.id d (sync_with g u box unmarshal now later provider account credential d)
    unfolding sync_with
    sync_with-Ends none d = inr ("no credential attached", refl, refl)
    sync_with-Ends (some n) d =
        let found = g.first Table.provider_credentials (λ c. c.id == n) d in
        continue-Ends account.id (wrap "load credential: " found.0) _ d found.1
          (ap (λ s. s.cloud_accounts) (promises.view-first Table.provider_credentials _ d))
          (λ cred.
            continue-Ends account.id
              (wrap "decrypt credential: " (decrypt box cred.encrypted_payload)) _ found.1 found.1
              refl
              (λ plaintext.
                continue-Ends account.id (wrap "parse credential payload: " (unmarshal plaintext)) _
                  found.1 found.1 refl (λ fields. sync_fields-Ends fields found.1)))

    noted-touched :
        (d : Db) (out : Result (Unit {0}) × Db)
        → Ends account.id d out
        → (message : String) × ((view (noted g u box unmarshal later account out)).cloud_accounts
            ≡ touched account.id later message (view d).cloud_accounts)
    unfolding noted
    noted-touched d (ok _, d') (inl (done, after)) = ("", after)
    noted-touched d (ok _, d') (inr (e, failed, after)) = cc
    noted-touched d (err e, d') (inl (done, after)) = cc
    noted-touched d (err e, d') (inr (e', failed, after)) =
        (e, accounts_updated account.id e d' ∙ ap (touched account.id later e) after)

    pub sync_if-touched :
        (d : Db)
        → (message : String) × ((view
              (sync_if g u box unmarshal (some provider) now later account d)).cloud_accounts
            ≡ touched account.id later message (view d).cloud_accounts)
    unfolding sync_if sync_account
    sync_if-touched d =
        noted-touched d (sync_account g u box unmarshal now later provider account d)
          (sync_with-Ends account.credential_id d)
