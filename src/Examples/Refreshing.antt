-- ===== src/Examples/Refreshing.antt =====
-- A full sync on a database each statement of which runs.
use cloud_cost_dashboard.Base.{◌*◌, String, ◌≡◌, refl, true, List, filter, any}
use cloud_cost_dashboard.Base.Exec.{Result, ok, err}
use cloud_cost_dashboard.Model.{Tables, CloudAccount}
use cloud_cost_dashboard.Text.Dates.{day}
use cloud_cost_dashboard.Gorm.{Gorm, IsLawful}
use cloud_cost_dashboard.Gorm.Memory.{Memory, memory, memory-IsLawful}
use cloud_cost_dashboard.Providers.{registry}
use cloud_cost_dashboard.Scheduler.{sync_all}
use cloud_cost_dashboard.Scheduler.Refreshes.{IsRefreshed, has_id, sync_all-IsRefreshed}
use cloud_cost_dashboard.Scheduler.Sync.{is_synced}
use cloud_cost_dashboard.Scheduler.Upsert.{Upserts, IsLawfulUpserts}
use cloud_cost_dashboard.Examples.World.{tables}
use cloud_cost_dashboard.Examples.Libraries.{box}
use cloud_cost_dashboard.Examples.Parts.{adapters, no_fields}
use cloud_cost_dashboard.Examples.Storage.{upserts, upserts-IsLawful}

-- The database in memory, with a budget for each statement.
abbrev refilled {ℓ} : {A : Type ℓ} → (Memory → Result A × Memory) → Tables → Result A × Tables
refilled run s = ((run (s, 1)).0, (run (s, 1)).1.0)

abbrev settle : Tables → Result (Unit {0}) × Tables → Result (Unit {0}) × Tables
settle s (ok tt, s') = (ok tt, s')
settle s (err e, s') = (err e, s)

settle_commits :
    (s : Tables) (out : Result (Unit {0}) × Tables)
    → (settle s out).0 ≡ ok tt
    → (out.0 ≡ ok tt) × ((settle s out).1 ≡ out.1)
settle_commits s (ok tt, s') h = (refl, refl)
settle_commits s (err e, s') h = cc

settle_rolls_back :
    (s : Tables) (out : Result (Unit {0}) × Tables) (e : String)
    → (settle s out).0 ≡ err e
    → (settle s out).1 ≡ s
settle_rolls_back s (ok tt, s') e h = cc
settle_rolls_back s (err c, s') e h = refl

abbrev steady : Gorm
steady = record {
  Db = Tables;
  view = λ s. s;
  find = λ t p. refilled (memory.find t p);
  first = λ t p. refilled (memory.first t p);
  count = λ t p. refilled (memory.count t p);
  delete = λ t p. refilled (memory.delete t p);
  create = λ t r. refilled (memory.create t r);
  updates = λ t p f. refilled (memory.updates t p f);
  transaction = λ body s. settle s (body s);
}

steady-IsLawful : IsLawful steady
steady-IsLawful = record {
  view-find = λ t p s. memory-IsLawful.view-find t p (s, 1);
  view-first = λ t p s. memory-IsLawful.view-first t p (s, 1);
  view-count = λ t p s. memory-IsLawful.view-count t p (s, 1);
  find_rows = λ t p s l h. memory-IsLawful.find_rows t p (s, 1) l h;
  first_row = λ t p s r h. memory-IsLawful.first_row t p (s, 1) r h;
  count_rows = λ t p s n h. memory-IsLawful.count_rows t p (s, 1) n h;
  delete_rows = λ t p s h. memory-IsLawful.delete_rows t p (s, 1) h;
  create_rows = λ t r r' s h. memory-IsLawful.create_rows t r r' (s, 1) h;
  updates_rows = λ t p f s h. memory-IsLawful.updates_rows t p f (s, 1) h;
  delete_fails = λ t p s e h. memory-IsLawful.delete_fails t p (s, 1) e h;
  create_fails = λ t r s e h. memory-IsLawful.create_fails t r (s, 1) e h;
  updates_fails = λ t p f s e h. memory-IsLawful.updates_fails t p f (s, 1) e h;
  transaction_commits = λ body s h. settle_commits s (body s) h;
  transaction_rolls_back = λ body s e h. settle_rolls_back s (body s) e h;
}

abbrev steady_upserts : Upserts steady
steady_upserts = record { upsert = λ c l. refilled (upserts.upsert c l) }

steady_upserts-IsLawful : IsLawfulUpserts steady steady_upserts
steady_upserts-IsLawful = record {
  upsert_stores = λ c l s p e h. upserts-IsLawful.upsert_stores c l (s, 1) p e h;
  upsert_others = λ c l s. upserts-IsLawful.upsert_others c l (s, 1);
  upsert_fails = λ c l s e h. upserts-IsLawful.upsert_fails c l (s, 1) e h;
}

aws_synced : any (is_synced adapters 1) tables.cloud_accounts ≡ true
unfolding registry
aws_synced = refl

abbrev after : List CloudAccount
after =
    (sync_all steady steady_upserts box no_fields adapters (2 * day) (2 * day)
      tables).cloud_accounts

-- The payload of the credential of the account does not decrypt, so its sync fails.
sync_all-IsRefreshed_example : IsRefreshed (2 * day) 1 after × (has_id 1 after ≡ true)
sync_all-IsRefreshed_example =
    sync_all-IsRefreshed steady steady-IsLawful steady_upserts steady_upserts-IsLawful box no_fields
      (2 * day) (2 * day) (λ q f s. refl) adapters 1 tables
      (filter (λ a. a.active) tables.cloud_accounts) refl aws_synced
