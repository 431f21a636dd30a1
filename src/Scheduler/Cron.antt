-- ===== src/Scheduler/Cron.antt =====
-- `New`, `Start` and `Stop` of backend/internal/scheduler/scheduler.go.  `add_func` is the cron
-- library's check of a specification; the runs themselves are `SyncAll`.
use Prim.Native.String
use cloud_cost_dashboard.Base.{String, Bool, true, false, Option, none, some, ◌≡◌, refl}
use cloud_cost_dashboard.Base.Exec.{Result, ok, err}
use cloud_cost_dashboard.Text.Numbers.{print_uint}
use cloud_cost_dashboard.Text.Integers.{ℤ, pos, print_int}

-- The field `cron`: none before `Start`; a cron has its jobs, by their specifications, and runs or
-- does not.
pub record Cron : Type 0 where
  pub job : Option String
  pub is_running : Bool

-- What `Start` leaves: the cron, and whether it launched a first sync.
pub record Started : Type 0 where
  pub cron : Cron
  pub first_sync : Bool

unfoldable pub spec_of : ℤ → String
spec_of interval = String.◌++◌ "@every " (String.◌++◌ (print_int interval) "m")

scheduled : String → Result (Unit {0}) → Started
scheduled spec (ok _) = record {
  cron = record { job = some spec; is_running = true };
  first_sync = true;
}
scheduled spec (err e) = record {
  cron = record { job = none; is_running = false };
  first_sync = false;
}

-- Where the job is refused nothing runs, not even the first sync.
unfoldable pub start : (String → Result (Unit {0})) → ℤ → Started
unfolding scheduled spec_of
start add_func interval = scheduled (spec_of interval) (add_func (spec_of interval))

unfoldable pub stop : Option Cron → Option Cron
stop none = none
stop (some c) = some (record c { is_running = false })

every_hour : (start (λ spec. ok tt) (pos 60)).cron.job ≡ some "@every 60m"
unfolding start print_int print_uint
every_hour = refl
