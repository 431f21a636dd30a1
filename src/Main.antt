-- ===== src/Main.antt =====
-- `main` of backend/cmd/server/main.go.  `libraries` has what the server is linked with, `open` is
-- `db.Open`, which opens the file and migrates the schema, and `new_box` is `crypto.New`.  `load_env`
-- is `godotenv.Load`, which adds the variables of a file `.env`, and `listen` is the error of
-- `http.ListenAndServe` on an address, none as long as it serves.
use cloud_cost_dashboard.Base.{String, ◌<>◌, Option, none, some}
use cloud_cost_dashboard.Base.Exec.{Result, ok, err}
use cloud_cost_dashboard.Crypto.{Box}
use cloud_cost_dashboard.Config.{Config, load}
use cloud_cost_dashboard.Bootstrap.{bootstrap_admin}
use cloud_cost_dashboard.Scheduler.Cron.{Started, start}
use cloud_cost_dashboard.Api.Server.{Server}

-- `main` either ends with a message, or serves on an address until, if ever, that ends with a message.
pub data Launch (D : Type 0) : Type 1 where
  fatal : String → Launch D
  serving : Server → D → Started → String → Option String → Launch D

module _ (libraries : Server) (open_db : String → Result libraries.gorm.Db)
    (new_box : String → Result Box) (add_func : String → Result (Unit {0}))
    (listen : String → Option String) (load_env : (String → String) → String → String)
    (process_env : String → String) where
  open libraries use {gorm, bcrypt}
  open gorm use {Db}

  abbrev env : String → String
  env = load_env process_env

  -- The message of a server that ends.
  stopped : Option String → Option String
  stopped none = none
  stopped (some e) = some ("server error: " <> e)

  with_admin : Config → Box → Result (Unit {0}) × Db → Launch Db
  unfolding stopped
  with_admin cfg box (err e, d) = fatal e
  with_admin cfg box (ok _, d) =
      serving (record libraries { box = box; jwt_secret = cfg.jwt_secret }) d
        (start add_func cfg.sync_interval_minutes) (":" <> cfg.port)
        (stopped (listen (":" <> cfg.port)))

  with_box : Config → Db → Result Box → Launch Db
  unfolding with_admin
  with_box cfg d (err e) = fatal ("failed to init encryption: " <> e)
  with_box cfg d (ok box) =
      with_admin cfg box (bootstrap_admin gorm bcrypt (env "ADMIN_EMAIL") (env "ADMIN_PASSWORD") d)

  with_db : Config → Result Db → Launch Db
  unfolding with_box
  with_db cfg (err e) = fatal ("failed to open database: " <> e)
  with_db cfg (ok d) = with_box cfg d (new_box cfg.encryption_key)

  unfoldable pub main : Launch Db
  unfolding with_db load
  main = with_db (load env) (open_db (load env).db_path)
