-- ===== src/Examples/World.antt =====
-- A small hierarchy with two products, and the database in memory that holds it.
use cloud_cost_dashboard.Base.{ℕ, String, true, some, none, [], ◌∷◌}
use cloud_cost_dashboard.Model.{Tables, User, CloudAccount, CostRecord}
use cloud_cost_dashboard.Auth.Libraries.{Claims}
use cloud_cost_dashboard.Gorm.Memory.{Memory}

abbrev pub alice : User
alice = record {
  id = 1;
  email = "alice@example.com";
  password_hash = "pw#";
  role = "viewer";
  scope_type = "product";
  scope_id = some 2;
  created_at = 0;
}

-- The claims of a viewer of the second product, issued at 0.
abbrev pub viewer : Claims
viewer = record {
  user_id = 1;
  role = "viewer";
  scope_type = "product";
  scope_id = some 2;
  expires_at = 86_400_000_000_000;
  issued_at = 0;
}

abbrev account : ℕ → ℕ → String → CloudAccount
account n region provider = record {
  id = n;
  region_id = region;
  provider = provider;
  name = "account";
  external_id = "x";
  credential_id = some 1;
  active = true;
  last_sync_at = none;
  last_sync_err = "";
  created_at = 0;
}

abbrev cost : ℕ → ℕ → ℕ → CostRecord
cost n account amount = record {
  id = n;
  cloud_account_id = account;
  date = 86_400_000_000_000;
  service_name = "compute";
  amount = amount;
  currency = "USD";
  created_at = 0;
}

abbrev pub tables : Tables
tables = record {
  users = alice ∷ [];
  organizations = (record { id = 1; name = "acme"; created_at = 0 }) ∷ [];
  products =
      (record { id = 1; organization_id = 1; name = "shop"; created_at = 0 })
      ∷ (record { id = 2; organization_id = 1; name = "desk"; created_at = 0 })
      ∷ [];
  projects =
      (record { id = 1; product_id = 1; name = "web"; created_at = 0 })
      ∷ (record { id = 2; product_id = 2; name = "mail"; created_at = 0 })
      ∷ [];
  environments =
      (record { id = 1; project_id = 1; name = "prod"; created_at = 0 })
      ∷ (record { id = 2; project_id = 2; name = "prod"; created_at = 0 })
      ∷ [];
  regions =
      (record { id = 1; environment_id = 1; name = "eu"; created_at = 0 })
      ∷ (record { id = 2; environment_id = 2; name = "eu"; created_at = 0 })
      ∷ [];
  provider_credentials =
      (record { id = 1; provider = "aws"; name = "key"; encrypted_payload = ""; created_at = 0 })
      ∷ [];
  cloud_accounts = account 1 1 "aws" ∷ account 2 2 "contabo" ∷ [];
  cost_records = cost 1 1 10 ∷ cost 2 2 7 ∷ [];
}

abbrev pub db : Memory
db = (tables, 100)
