-- ===== src/Examples/Syncing.antt =====
-- A sync that succeeds, at a concrete account.
use cloud_cost_dashboard.Base.{◌*◌, String, ◌≡◌, refl, true, some, none, [], ◌∷◌}
use cloud_cost_dashboard.Base.Exec.{Result, ok}
use cloud_cost_dashboard.Model.{CloudAccount}
use cloud_cost_dashboard.Text.Dates.{day}
use cloud_cost_dashboard.Gorm.Memory.{Memory, memory, memory-IsLawful}
use cloud_cost_dashboard.Crypto.{Bytes, decrypt}
use cloud_cost_dashboard.Providers.Records.{CostProvider}
use cloud_cost_dashboard.Scheduler.{sync_account, upsert_cost_records}
use cloud_cost_dashboard.Scheduler.Upsert.{Place}
use cloud_cost_dashboard.Scheduler.Success.{SyncedFrom, sync_account-SyncedFrom}
use cloud_cost_dashboard.Providers.{Adapters}
use cloud_cost_dashboard.Api.Accounts.{handle_sync_now}
use cloud_cost_dashboard.Api.Accounts.Syncs.{SyncsNow, handle_sync_now-SyncsNow}
use cloud_cost_dashboard.Examples.World.{tables}
use cloud_cost_dashboard.Examples.Libraries.{box}
use cloud_cost_dashboard.Examples.Storage.{upserts, upserts-IsLawful}

abbrev keyed : Memory
keyed = (
  record tables {
    provider_credentials =
        (record {
          id = 1;
          provider = "aws";
          name = "key";
          encrypted_payload = box.encode (1 ∷ 2 ∷ 7 ∷ []);
          created_at = 0;
        })
        ∷ [];
  },
  100,
)

abbrev account : CloudAccount
account = record {
  id = 1;
  region_id = 1;
  provider = "aws";
  name = "account";
  external_id = "x";
  credential_id = some 1;
  active = true;
  last_sync_at = none;
  last_sync_err = "";
  created_at = 0;
}

-- A provider that reports the day at which the range ends.
abbrev cloud : CostProvider
cloud = record {
  name = "cloud";
  fetch_costs = λ config range.
      ok (
        (record { date = range.end; service_name = "compute"; amount = 3; currency = "EUR" }) ∷ []);
}

abbrev fields_of : Bytes → Result (String → String)
fields_of plaintext = ok (λ field. "secret")

abbrev place : Place
place = record { account = 1; date = 20 * day; service = "compute" }

synced_ok :
    (sync_account memory upserts box fields_of (20 * day) (20 * day) cloud account keyed).0 ≡ ok tt
unfolding sync_account decrypt upsert_cost_records
synced_ok = refl

sync_account-SyncedFrom_example :
    SyncedFrom memory memory-IsLawful upserts upserts-IsLawful box fields_of
      (20 * day)
      (20 * day)
      cloud
      account
      place
      keyed.0
      (sync_account memory upserts box fields_of (20 * day) (20 * day) cloud account keyed).1.0
sync_account-SyncedFrom_example =
    sync_account-SyncedFrom memory memory-IsLawful upserts upserts-IsLawful box fields_of (20 * day)
      (20 * day) cloud account keyed place synced_ok

abbrev clouds : Adapters
clouds = record { aws = cloud; azure = cloud; gcp = cloud; oci = cloud }

handle_sync_now-SyncsNow_example :
    let answer =
      handle_sync_now memory upserts box fields_of clouds (20 * day) (20 * day) "1" keyed in
    SyncsNow memory memory-IsLawful upserts upserts-IsLawful box fields_of clouds
      (20 * day)
      (20 * day)
      place
      "1"
      keyed
      answer.1.0
      answer.0
handle_sync_now-SyncsNow_example =
    handle_sync_now-SyncsNow memory memory-IsLawful upserts upserts-IsLawful box fields_of clouds
      (20 * day) (20 * day) place "1" keyed
