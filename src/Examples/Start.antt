-- ===== src/Examples/Start.antt =====
-- The start of the server over an empty database.
use cloud_cost_dashboard.Model.{no_rows}
use cloud_cost_dashboard.Gorm.Memory.{memory, memory-IsLawful}
use cloud_cost_dashboard.Bootstrap.{Bootstrapped, bootstrap_admin, bootstrap_admin-Bootstrapped}
use cloud_cost_dashboard.Examples.Libraries.{bcrypt, bcrypt-IsLawful}

bootstrap_admin-Bootstrapped_example :
    let out = bootstrap_admin memory bcrypt "" "" (no_rows, 10) in
    Bootstrapped memory memory-IsLawful bcrypt bcrypt-IsLawful "" "" (no_rows, 10) out.0 out.1.0
bootstrap_admin-Bootstrapped_example =
    bootstrap_admin-Bootstrapped memory memory-IsLawful bcrypt bcrypt-IsLawful "" "" (no_rows, 10)
