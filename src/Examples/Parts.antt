-- ===== src/Examples/Parts.antt =====
-- The theorems about logins, users, routes, imports, syncs, files and keys at concrete inputs.
use cloud_cost_dashboard.Base.{
  ◌*◌, String, ◌≡◌, ◌≢◌, ◌↔◌, refl, arith, eq_iff, none, some, List, [], ◌∷◌, true, false, any, sym,
  ap, ◌∙◌, Mem,
}
use cloud_cost_dashboard.Base.Exec.{Result, ok, err}
use cloud_cost_dashboard.Model.{Tables}
use cloud_cost_dashboard.Text.Dates.{day}
use cloud_cost_dashboard.Gorm.Memory.{memory, memory-IsLawful}
use cloud_cost_dashboard.Auth.{
  Handler, issue_token, parse_token, claims_of, check_password, after_prefix,
}
use cloud_cost_dashboard.Auth.Libraries.{Claims}
use cloud_cost_dashboard.Auth.Middleware.{Bears}
use cloud_cost_dashboard.Auth.Tokens.{parse_token-issue_token, parse_token_other_method}
use cloud_cost_dashboard.Api.Response.{json, no_content}
use cloud_cost_dashboard.Api.Router.{Route, access, serve}
use cloud_cost_dashboard.Api.Router.Guards.{Guarded, serve-Guarded}
use cloud_cost_dashboard.Api.Users.{
  LoginRequest, LoginResponse, CreateUserRequest, handle_login, handle_create_user,
}
use cloud_cost_dashboard.Api.Users.Laws.{
  CreatedOrNot, handle_login-json, handle_create_user-CreatedOrNot,
}
use cloud_cost_dashboard.Crypto.{decrypt, encrypt}
use cloud_cost_dashboard.Crypto.Seal.{decrypt-encrypt}
use cloud_cost_dashboard.Crypto.{Bytes}
use cloud_cost_dashboard.Text.Numbers.{parse_uint}
use cloud_cost_dashboard.Text.Dates.{date}
use cloud_cost_dashboard.Text.Spaces.{trim_space, lower_eq}
use cloud_cost_dashboard.Providers.{Adapters, registry}
use cloud_cost_dashboard.Providers.Records
use cloud_cost_dashboard.Providers.Records.{CostProvider}
use cloud_cost_dashboard.Providers.Csv.{Conversions, Columns, columns_of, parse_cost_csv}
use cloud_cost_dashboard.Providers.Csv.Rows.{EachRow, parse_cost_csv_iff}
use cloud_cost_dashboard.Scheduler.{upsert_cost_records, import_manual_records, sync_all}
use cloud_cost_dashboard.Scheduler.Upsert.{Place, stored_at}
use cloud_cost_dashboard.Scheduler.Sync.{
  last_record, is_synced, import_manual_records_twice, sync_all_keeps_others,
}
use cloud_cost_dashboard.Examples.Storage.{upserts, upserts-IsLawful}
use cloud_cost_dashboard.Examples.World.{alice, tables, db, viewer}
use cloud_cost_dashboard.Examples.Libraries.{
  jwt, jwt-IsLawful, bcrypt, bcrypt-IsLawful, box, box-IsLawful,
}

token_issued : issue_token jwt "s" alice 0 ≡ ok "signed"
unfolding issue_token
token_issued = refl

parse_token-issue_token_example : parse_token jwt "s" "signed" 60 ≡ ok (claims_of alice 0)
parse_token-issue_token_example =
    parse_token-issue_token jwt jwt-IsLawful "s" "signed" alice 0 60 token_issued (omega arith)

parse_token_other_method_example : parse_token jwt "s" "forged" 60 ≡ err "invalid token"
parse_token_other_method_example = parse_token_other_method jwt jwt-IsLawful "s" "forged" 60 refl

abbrev login : LoginRequest
login = record { email = "alice@example.com"; password = "pw" }

abbrev logged : LoginResponse
logged = record { token = "signed"; user = alice }

login_answered : (handle_login memory jwt bcrypt "s" 0 (some login) db).0 ≡ json 200 logged
unfolding handle_login check_password issue_token
login_answered = refl

handle_login-json_example :
    Mem alice tables.users
    × (alice.email ≡ login.email)
    × (check_password bcrypt "pw#" "pw" ≡ true)
    × (parse_token jwt "s" "signed" 60 ≡ ok (claims_of alice 0))
handle_login-json_example =
    handle_login-json memory memory-IsLawful jwt jwt-IsLawful bcrypt "s" 0 login db logged 60
      login_answered (omega arith)

abbrev bob : CreateUserRequest
bob = record {
  email = "bob@example.com";
  password = "b";
  role = "manager";
  scope_type = "";
  scope_id = none;
}

handle_create_user-CreatedOrNot_example :
    CreatedOrNot memory memory-IsLawful jwt bcrypt bcrypt-IsLawful bob db
      (handle_create_user memory jwt bcrypt (some bob) db)
handle_create_user-CreatedOrNot_example =
    handle_create_user-CreatedOrNot memory memory-IsLawful jwt bcrypt bcrypt-IsLawful bob db

-- A handler that empties the store.
abbrev wipe : Handler Unit Tables
wipe claims d = (no_content, record d { users = [] })

serve-Guarded_example :
    Guarded jwt "s" 60
      (access Route.create_user)
      wipe
      "Bearer signed"
      tables
      (serve jwt "s" 60 Route.create_user wipe "Bearer signed" tables)
serve-Guarded_example =
    serve-Guarded jwt "s" 60 wipe "Bearer signed" tables Route.create_user (λ e. cc)

pub bearer_signed : after_prefix "Bearer " "Bearer signed" ≡ some "signed"
unfolding after_prefix
bearer_signed = refl

signed_parses : parse_token jwt "s" "signed" 60 ≡ ok viewer
unfolding parse_token
signed_parses = refl

-- The header bears the claims of a viewer, and of no administrator.
pub viewer_only :
    (claims : Claims) → Bears jwt "s" 60 "Bearer signed" claims → claims.role ≢ "admin"
viewer_only claims b e =
    let same_token : b.token ≡ "signed" = cc (b.prefixed, bearer_signed) in
    let same_claims : claims ≡ viewer =
      cc (b.accepted, ap (λ t. parse_token jwt "s" t 60) same_token, signed_parses) in
    ground (arith, sym e ∙ ap (λ c. c.role) same_claims, eq_iff "admin" "viewer")

abbrev sealed_text : String
sealed_text = box.encode (1 ∷ 2 ∷ 7 ∷ [])

sealed_ok : encrypt box (ok (1 ∷ 2 ∷ [])) (7 ∷ []) ≡ ok sealed_text
unfolding encrypt
sealed_ok = refl

decrypt-encrypt_example : decrypt box sealed_text ≡ ok (7 ∷ [])
decrypt-encrypt_example =
    decrypt-encrypt box box-IsLawful (1 ∷ 2 ∷ []) (7 ∷ []) sealed_text refl sealed_ok

-- One record, fetched for the account of the second region.
abbrev fetched : List Records.CostRecord
fetched = (record { date = day; service_name = "compute"; amount = 3; currency = "EUR" }) ∷ []

abbrev place : Place
place = record { account = 2; date = day; service = "compute" }

import_once : (import_manual_records memory upserts 2 fetched db).0 ≡ ok tt
unfolding import_manual_records upsert_cost_records
import_once = refl

import_again :
    (import_manual_records memory upserts 2 fetched
      (import_manual_records memory upserts 2 fetched db).1).0
    ≡ ok tt
unfolding import_manual_records upsert_cost_records
import_again = refl

import_manual_records_twice_example :
    let once = (import_manual_records memory upserts 2 fetched db).1 in
    let twice = (import_manual_records memory upserts 2 fetched once).1 in
    (stored_at place once.0.cost_records
      ≡ last_record 2 place fetched (stored_at place tables.cost_records))
    × (stored_at place twice.0.cost_records ≡ stored_at place once.0.cost_records)
import_manual_records_twice_example =
    import_manual_records_twice memory memory-IsLawful upserts upserts-IsLawful 2 fetched db place
      import_once import_again

-- An adapter that fetches the one record.
abbrev pub cloud : CostProvider
cloud = record { name = "cloud"; fetch_costs = λ account range. ok fetched }

abbrev pub adapters : Adapters
adapters = record { aws = cloud; azure = cloud; gcp = cloud; oci = cloud }

abbrev pub no_fields : Bytes → Result (String → String)
no_fields plaintext = ok (λ field. "")

contabo_unsynced : any (is_synced adapters 2) tables.cloud_accounts ≡ false
unfolding registry
contabo_unsynced = refl

sync_all_keeps_others_example :
    stored_at place
      (sync_all memory upserts box no_fields adapters (2 * day) (2 * day) db).0.cost_records
    ≡ some (7, "USD")
sync_all_keeps_others_example =
    sync_all_keeps_others memory memory-IsLawful upserts upserts-IsLawful box no_fields (2 * day)
      (2 * day) adapters place db contabo_unsynced

abbrev csv_header : List String
csv_header = "Date" ∷ " service_name" ∷ "AMOUNT" ∷ []

abbrev csv_row : List String
csv_row = "2024-03-01" ∷ "vps" ∷ "5" ∷ []

abbrev pub conversions : Conversions
conversions = record { parse_float = parse_uint; quote = λ s. s }

abbrev csv_columns : Columns
csv_columns = record { date = 0; service = 1; amount = 2; currency = none }

abbrev csv_record : Records.CostRecord
csv_record = record { date = date 2024 3 1; service_name = "vps"; amount = 5; currency = "USD" }

columns_found : columns_of csv_header ≡ ok csv_columns
unfolding columns_of lower_eq trim_space
columns_found = refl

parse_cost_csv_iff_example :
    (parse_cost_csv conversions (ok (csv_header ∷ csv_row ∷ [])) ≡ ok (csv_record ∷ []))
    ↔ EachRow conversions csv_columns (csv_row ∷ []) (csv_record ∷ [])
parse_cost_csv_iff_example =
    parse_cost_csv_iff conversions csv_header (csv_row ∷ []) csv_columns (csv_record ∷ [])
      columns_found
