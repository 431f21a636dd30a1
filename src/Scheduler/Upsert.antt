-- ===== src/Scheduler/Upsert.antt =====
-- `Clauses(clause.OnConflict{…}).Create(&rows)` on the table of costs: the upsert of gorm and SQLite,
-- for whatever clause the program passes.
use cloud_cost_dashboard.Base.{
  ℕ, String, ◌≡◌, Bool, ◌&&◌, Option, none, some, List, [], ◌∷◌, any, ◌==◌, str_eq, if◌then◌else◌,
}
use cloud_cost_dashboard.Base.Exec.{ok, err, Exec}
use cloud_cost_dashboard.Model.{Time, Float64, CostRecord, or_default}
use cloud_cost_dashboard.Gorm.{Gorm}

-- A place in the table of costs: the columns of its unique index.
pub record Place : Type 0 where
  pub account : ℕ
  pub date : Time
  pub service : String

abbrev pub is_at : Place → CostRecord → Bool
is_at p c = c.cloud_account_id == p.account && (c.date == p.date && str_eq c.service_name p.service)

-- What is stored at a place, an amount and a currency.
abbrev pub stored_at : Place → List CostRecord → Option (Float64 × String)
stored_at p [] = none
stored_at p (c ∷ cs) =
    let rest = stored_at p cs in if is_at p c then some (c.amount, c.currency) else rest

-- `clause.OnConflict{Columns, DoUpdates: clause.AssignmentColumns(…)}`.
pub record OnConflict : Type 0 where
  pub columns : List String
  pub do_updates : List String

-- The columns of the unique index on the table of costs.
abbrev pub index_columns : List String
index_columns = "cloud_account_id" ∷ "date" ∷ "service_name" ∷ []

-- A row that is written over another changes the assigned columns only; a new row has all of its
-- columns, the currency with its default.
abbrev pub overwritten : List String → CostRecord → Option (Float64 × String) → Float64 × String
overwritten assigned c none = (c.amount, or_default c.currency "USD")
overwritten assigned c (some (amount, currency)) = (
  if any (str_eq "amount") assigned then c.amount else amount,
  if any (str_eq "currency") assigned then or_default c.currency "USD" else currency,
)

-- What a batch leaves there, its rows one by one.
abbrev pub written_at :
    List String → Place → List CostRecord → Option (Float64 × String) → Option (Float64 × String)
written_at assigned p [] before = before
written_at assigned p (c ∷ cs) before =
    written_at assigned p cs (if is_at p c then some (overwritten assigned c before) else before)

pub record Upserts (g : Gorm) : Type 0 where
  pub upsert : OnConflict → List CostRecord → Exec g.Db (Unit {0})

pub record IsLawfulUpserts (g : Gorm) (u : Upserts g) : Type 0 where
  -- Where the clause names the columns of the index, a row whose place is taken is written over what
  -- is there, any other is added; no other table changes.
  pub upsert_stores :
      (clause : OnConflict) (rows : List CostRecord) (d : g.Db) (p : Place)
      → clause.columns ≡ index_columns
      → (u.upsert clause rows d).0 ≡ ok tt
      → stored_at p (g.view (u.upsert clause rows d).1).cost_records
        ≡ written_at clause.do_updates p rows (stored_at p (g.view d).cost_records)
  pub upsert_others :
      (clause : OnConflict) (rows : List CostRecord) (d : g.Db)
      → g.view (u.upsert clause rows d).1
        ≡ record (g.view d) { cost_records = (g.view (u.upsert clause rows d).1).cost_records }
  pub upsert_fails :
      (clause : OnConflict) (rows : List CostRecord) (d : g.Db) (e : String)
      → (u.upsert clause rows d).0 ≡ err e
      → g.view (u.upsert clause rows d).1 ≡ g.view d
