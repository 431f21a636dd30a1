-- ===== src/Scheduler/Others.antt =====
-- The tables that no sync and no import writes.
use cloud_cost_dashboard.Base.{ℕ, String, Bool, ◌≡◌, refl, ap, List, [], ◌∷◌, inl, inr}
use cloud_cost_dashboard.Base.Exec.{Result, Result-cases}
use cloud_cost_dashboard.Model.{Tables, Table, Time, CloudAccount}
use cloud_cost_dashboard.Gorm.{Gorm, IsLawful}
use cloud_cost_dashboard.Crypto.{Bytes, Box}
use cloud_cost_dashboard.Providers.{Adapters}
use cloud_cost_dashboard.Providers.Records
use cloud_cost_dashboard.Providers.Records.{CostProvider}
use cloud_cost_dashboard.Scheduler.{upsert_cost_records, sync_account, sync_all}
use cloud_cost_dashboard.Scheduler.Keeps.{Keeps, sync_account-Keeps, sync_all-Keeps}
use cloud_cost_dashboard.Scheduler.Upsert.{Upserts, IsLawfulUpserts}

-- The tables without the costs and the cloud accounts.
abbrev pub others : Tables → Tables
others s = record s { cost_records = []; cloud_accounts = [] }

module _ (g : Gorm) (promises : IsLawful g) (u : Upserts g) (upserts : IsLawfulUpserts g u) where
  open g use {Db, view}

  updates_keep_others :
      (q : CloudAccount → Bool) (f : CloudAccount → CloudAccount)
      → Keeps others g (g.updates Table.cloud_accounts q f)
  updates_keep_others q f d = elim (Result-cases (g.updates Table.cloud_accounts q f d).0) [
    | inl (_, h) ↦ ap others (promises.updates_rows Table.cloud_accounts q f d h)
    | inr (e, h) ↦ ap others (promises.updates_fails Table.cloud_accounts q f d e h)
  ]

  pub upsert-Keeps-others :
      (n : ℕ) (l : List Records.CostRecord) → Keeps others g (upsert_cost_records g u n l)
  unfolding upsert_cost_records
  upsert-Keeps-others n [] d = refl
  upsert-Keeps-others n (r ∷ l) d = ap others (upserts.upsert_others _ _ d)

  module _ (box : Box) (unmarshal : Bytes → Result (String → String)) (now later : Time) where
    pub sync_account_keeps_others :
        (provider : CostProvider) (account : CloudAccount) (d : Db)
        → others (view (sync_account g u box unmarshal now later provider account d).1)
          ≡ others (view d)
    sync_account_keeps_others provider account =
        sync_account-Keeps others g promises u box unmarshal now later updates_keep_others account
          (upsert-Keeps-others account.id) provider

    -- A full sync writes no table but those of the cost records and the cloud accounts.
    pub sync_all_keeps_tables :
        (adapters : Adapters) (d : Db)
        → others (view (sync_all g u box unmarshal adapters now later d)) ≡ others (view d)
    sync_all_keeps_tables adapters =
        sync_all-Keeps others g promises u box unmarshal now later updates_keep_others
          upsert-Keeps-others adapters
