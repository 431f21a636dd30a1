-- ===== src/Config.antt =====
-- backend/internal/config/config.go.  The environment is a function, "" where a variable is not set.
use cloud_cost_dashboard.Base.{String, none, some, ◌≡◌, refl, str_eq, if◌then◌else◌}
use cloud_cost_dashboard.Text.Numbers.{parse_uint}
use cloud_cost_dashboard.Text.Integers.{ℤ, pos, negsuc, parse_int}

pub record Config : Type 0 where
  pub port : String
  pub db_path : String
  pub jwt_secret : String
  pub encryption_key : String
  pub sync_interval_minutes : ℤ

module _ (env : String → String) where
  unfoldable pub get_env : String → String → String
  get_env name fallback = if str_eq (env name) "" then fallback else env name

  -- A number that does not parse is the fallback too.
  unfoldable pub get_env_int : String → ℤ → ℤ
  get_env_int name fallback =
      if str_eq (env name) ""
      then fallback
      else (elim (parse_int (env name)) [ some n ↦ n | none ↦ fallback ])

  unfoldable pub load : Config
  unfolding get_env get_env_int
  load = record {
    port = get_env "PORT" "8080";
    db_path = get_env "DB_PATH" "data/cloudcost.db";
    jwt_secret = get_env "JWT_SECRET" "dev-secret-change-me";
    encryption_key = get_env "ENCRYPTION_KEY" "dev-encryption-key-32-bytes-long";
    sync_interval_minutes = get_env_int "SYNC_INTERVAL_MINUTES" (pos 60);
  }

load_defaults : (load (λ name. "")).sync_interval_minutes ≡ pos 60
unfolding load
load_defaults = refl

load_negative : (load (λ name. "-5")).sync_interval_minutes ≡ negsuc 4
unfolding load parse_int parse_uint
load_negative = refl
