-- ===== src/Providers/Azure/Rows.antt =====
-- Which rows of Cost Management become records.
use cloud_cost_dashboard.Base.{◌<◌, ◌≡◌, Bool, not, ◌||◌, some, List, ltb, length}
use cloud_cost_dashboard.Base.Picks.{Picks}
use cloud_cost_dashboard.Model.{Float64}
use cloud_cost_dashboard.Text.Civil.{parse_compact_date}
use cloud_cost_dashboard.Providers.Records.{CostRecord}
use cloud_cost_dashboard.Providers.Sdk.{CostManagement}
use cloud_cost_dashboard.Providers.Azure.{Columns, Cell, to_float, text_of, cell, currency_of}

module _ (sdk : CostManagement) where
  -- The record that a row stands for.
  pub record IsRead (cols : Columns) (row : List (Cell sdk)) (r : CostRecord) : Type 0 where
    pub wide : (cols.cost < length row) × (cols.date < length row) × (cols.service < length row)
    pub amount : to_float sdk (cell sdk row cols.cost) ≡ some r.amount
    pub number : Float64
    pub numeric : to_float sdk (cell sdk row cols.date) ≡ some number
    pub date : parse_compact_date (sdk.print_float number) ≡ some r.date
    pub service : r.service_name ≡ text_of sdk (cell sdk row cols.service)
    pub currency : r.currency ≡ currency_of sdk cols.currency row

  module _ (cols : Columns) (row : List (Cell sdk)) where
    abbrev too_narrow : Bool
    too_narrow =
        not (ltb cols.cost (length row))
        || (not (ltb cols.date (length row)) || not (ltb cols.service (length row)))
