-- ===== src/Examples/Accounts.antt =====
-- The theorems about credentials, cloud accounts and imports at concrete requests.
use cloud_cost_dashboard.Base.{
  ℕ, String, ◌≡◌, refl, ◌⊎◌, some, List, [], ◌∷◌, any, false, length, is_some_of, filter, not, ◌==◌,
}
use cloud_cost_dashboard.Base.Exec.{Result, ok, err}
use cloud_cost_dashboard.Model.{Table, ProviderCredential}
use cloud_cost_dashboard.Text.Dates.{date, parse_date}
use cloud_cost_dashboard.Text.Numbers.{parse_uint}
use cloud_cost_dashboard.Text.Spaces.{trim_space, lower_eq}
use cloud_cost_dashboard.Gorm.Memory.{Memory, memory, memory-IsLawful}
use cloud_cost_dashboard.Crypto.{Bytes, encrypt}
use cloud_cost_dashboard.Providers.Records
use cloud_cost_dashboard.Providers.Csv.{Conversions, parse_cost_csv}
use cloud_cost_dashboard.Scheduler.{import_manual_records, upsert_cost_records}
use cloud_cost_dashboard.Scheduler.Sync.{last_record}
use cloud_cost_dashboard.Scheduler.Upsert.{Place, stored_at}
use cloud_cost_dashboard.Api.Response.{json, no_content, url_param_uint}
use cloud_cost_dashboard.Api.Accounts.{
  Fields, CreateCredentialRequest, handle_create_credential, handle_delete_credential,
  handle_delete_cloud_account, handle_import_csv,
}
use cloud_cost_dashboard.Api.Accounts.Laws.{
  DeletesAccount, handle_delete_cloud_account-DeletesAccount, handle_delete_credential-no_content,
}
use cloud_cost_dashboard.Api.Accounts.Stores.{
  StoredCredential, handle_create_credential-json, handle_import_csv-json,
}
use cloud_cost_dashboard.Examples.World.{tables, db}
use cloud_cost_dashboard.Examples.Libraries.{box, box-IsLawful}
use cloud_cost_dashboard.Examples.Storage.{upserts, upserts-IsLawful}

-- One statement runs: the costs go, the account stays.
handle_delete_cloud_account-DeletesAccount_example :
    let out = handle_delete_cloud_account memory "1" (tables, 1) in
    DeletesAccount "1" tables out.1.0 out.0
handle_delete_cloud_account-DeletesAccount_example =
    handle_delete_cloud_account-DeletesAccount memory memory-IsLawful "1" (tables, 1)

-- A database whose accounts have no credential.
abbrev detached : Memory
detached = (record tables { cloud_accounts = [] }, 100)

credential_deleted : (handle_delete_credential memory "1" detached).0 ≡ no_content
unfolding handle_delete_credential url_param_uint
credential_deleted = refl

handle_delete_credential-no_content_example :
    (n : ℕ) × (url_param_uint "1" ≡ some n)
    × ((any (λ a. is_some_of a.credential_id n) detached.0.cloud_accounts ≡ false)
        ⊎ ((e : String) × ((memory.count Table.cloud_accounts
                (λ a. is_some_of a.credential_id n)
                detached).0
              ≡ err e)))
    × ((handle_delete_credential memory "1" detached).1.0 ≡ record detached.0 {
      provider_credentials = filter (λ c. not (c.id == n)) tables.provider_credentials;
    })
handle_delete_credential-no_content_example =
    handle_delete_credential-no_content memory memory-IsLawful "1" detached credential_deleted

abbrev marshal : Fields → Result Bytes
marshal fields = ok (length fields ∷ [])

abbrev asked : CreateCredentialRequest
asked = record { provider = "gcp"; name = "robot"; fields = ("key", "k") ∷ [] }

abbrev robot : ProviderCredential
robot = record {
  id = 2;
  provider = "gcp";
  name = "robot";
  encrypted_payload = box.encode (3 ∷ 4 ∷ 1 ∷ []);
  created_at = 0;
}

robot_created :
    (handle_create_credential memory box marshal (ok (3 ∷ 4 ∷ [])) (some asked) db).0
    ≡ json 201 robot
unfolding handle_create_credential encrypt
robot_created = refl

handle_create_credential-json_example :
    StoredCredential memory memory-IsLawful box box-IsLawful marshal
      (3 ∷ 4 ∷ [])
      refl
      asked
      tables
      (handle_create_credential memory box marshal (ok (3 ∷ 4 ∷ [])) (some asked) db).1.0
      robot
handle_create_credential-json_example =
    handle_create_credential-json memory memory-IsLawful box box-IsLawful marshal (3 ∷ 4 ∷ []) refl
      asked db robot robot_created

abbrev conversions : Conversions
conversions = record { parse_float = parse_uint; quote = λ s. s }

abbrev file : Result (List (List String))
file = ok (("date" ∷ "service_name" ∷ "amount" ∷ []) ∷ ("2024-03-01" ∷ "vps" ∷ "5" ∷ []) ∷ [])

abbrev place : Place
place = record { account = 2; date = date 2024 3 1; service = "vps" }

imported : (handle_import_csv memory upserts conversions "2" (some file) db).0 ≡ json 200 1
unfolding handle_import_csv url_param_uint parse_cost_csv lower_eq trim_space parse_date
    import_manual_records upsert_cost_records
imported = refl

handle_import_csv-json_example :
    (n : ℕ) × (url_param_uint "2" ≡ some n)
    × ((records : List Records.CostRecord) × (parse_cost_csv conversions file ≡ ok records)
        × (1 ≡ length records)
        × (stored_at place
              (handle_import_csv memory upserts conversions "2" (some file) db).1.0.cost_records
            ≡ last_record n place records (stored_at place tables.cost_records)))
handle_import_csv-json_example =
    handle_import_csv-json memory memory-IsLawful upserts upserts-IsLawful conversions "2" file db 1
      place imported
