-- ===== src/Gorm.antt =====
-- The database layer, gorm over SQLite, as far as the backend calls it.  It is no code of the
-- repository, so it is a parameter: the calls (`Gorm`), and what their documentation promises (`IsLawful`).
-- A condition of a `Where` is a test on a row.  `view` is what the tables hold; a database has
-- more state (connections, sequences), which decides for instance when a call fails.
pub mod Memory
pub mod Queries
pub mod Statements
use cloud_cost_dashboard.Base.{
  ℕ, String, ◌≡◌, refl, sym, arith, Bool, true, false, not, List, [], ◌∷◌, ◌++◌, map, Mem, Perm,
  filter, any, ◌==◌, if◌then◌else◌, length,
}
use cloud_cost_dashboard.Base.Exec.{ok, err, Exec}
use cloud_cost_dashboard.Model.{Tables, Table, Row, Time, rows, set_rows, key, stored, clash}

pub record Gorm : Type 1 where
  pub Db : Type 0
  pub view : Db → Tables
  -- `Where(cond).Find(&list)`
  pub find : (t : Table) → (Row t → Bool) → Exec Db (List (Row t))
  -- `Where(cond).First(&row)`
  pub first : (t : Table) → (Row t → Bool) → Exec Db (Row t)
  -- `Where(cond).Count(&n)`
  pub count : (t : Table) → (Row t → Bool) → Exec Db ℕ
  -- `Where(cond).Delete(&X{})`
  pub delete : (t : Table) → (Row t → Bool) → Exec Db (Unit {0})
  -- `Create(&row)`: the row comes back with what the database filled in
  pub create : (t : Table) → Row t → Exec Db (Row t)
  -- `Model(&X{}).Where(cond).Updates(change)`
  pub updates : (t : Table) → (Row t → Bool) → (Row t → Row t) → Exec Db (Unit {0})
  -- `Transaction(body)`
  pub transaction : Exec Db (Unit {0}) → Exec Db (Unit {0})

pub record IsLawful (g : Gorm) : Type 0 where
  -- Reading changes no table, also where it fails.
  pub view-find : (t : Table) (p : Row t → Bool) (d : g.Db) → g.view (g.find t p d).1 ≡ g.view d
  pub view-first : (t : Table) (p : Row t → Bool) (d : g.Db) → g.view (g.first t p d).1 ≡ g.view d
  pub view-count : (t : Table) (p : Row t → Bool) (d : g.Db) → g.view (g.count t p d).1 ≡ g.view d
  -- `Find` reads the rows that meet the condition, in an order of the database's choice.
  pub find_rows :
      (t : Table) (p : Row t → Bool) (d : g.Db) (l : List (Row t))
      → (g.find t p d).0 ≡ ok l
      → Perm l (filter p (rows t (g.view d)))
  -- `First` reads one of them.
  pub first_row :
      (t : Table) (p : Row t → Bool) (d : g.Db) (r : Row t)
      → (g.first t p d).0 ≡ ok r
      → Mem r (rows t (g.view d)) × (p r ≡ true)
  -- `Count` counts the rows that meet the condition.
  pub count_rows :
      (t : Table) (p : Row t → Bool) (d : g.Db) (n : ℕ)
      → (g.count t p d).0 ≡ ok n
      → n ≡ length (filter p (rows t (g.view d)))
  -- `Delete` takes out the rows that meet the condition, and nothing else.
  pub delete_rows :
      (t : Table) (p : Row t → Bool) (d : g.Db)
      → (g.delete t p d).0 ≡ ok tt
      → g.view (g.delete t p d).1
        ≡ set_rows t (filter (λ r. not (p r)) (rows t (g.view d))) (g.view d)
  -- `Create` adds one row, under a key that no row of the table has; a unique index holds.
  pub create_rows :
      (t : Table) (r r' : Row t) (d : g.Db)
      → (g.create t r d).0 ≡ ok r'
      → (n : ℕ) × (now : Time) × (r' ≡ stored t n now r)
        × (any (λ x. key t x == n) (rows t (g.view d)) ≡ false)
        × (any (clash t r) (rows t (g.view d)) ≡ false)
        × (g.view (g.create t r d).1 ≡ set_rows t (rows t (g.view d) ++ r' ∷ []) (g.view d))
  -- `Updates` changes the rows that meet the condition.
  pub updates_rows :
      (t : Table) (p : Row t → Bool) (f : Row t → Row t) (d : g.Db)
      → (g.updates t p f d).0 ≡ ok tt
      → g.view (g.updates t p f d).1
        ≡ set_rows t (map (λ r. if p r then f r else r) (rows t (g.view d))) (g.view d)
  -- A statement that fails changes nothing.
  pub delete_fails :
      (t : Table) (p : Row t → Bool) (d : g.Db) (e : String)
      → (g.delete t p d).0 ≡ err e
      → g.view (g.delete t p d).1 ≡ g.view d
  pub create_fails :
      (t : Table) (r : Row t) (d : g.Db) (e : String)
      → (g.create t r d).0 ≡ err e
      → g.view (g.create t r d).1 ≡ g.view d
  pub updates_fails :
      (t : Table) (p : Row t → Bool) (f : Row t → Row t) (d : g.Db) (e : String)
      → (g.updates t p f d).0 ≡ err e
      → g.view (g.updates t p f d).1 ≡ g.view d
  -- A transaction that returns has run its body; one that fails is rolled back, as it is where its
  -- body returns an error.
  pub transaction_commits :
      (body : Exec g.Db (Unit {0})) (d : g.Db)
      → (g.transaction body d).0 ≡ ok tt
      → ((body d).0 ≡ ok tt) × (g.view (g.transaction body d).1 ≡ g.view (body d).1)
  pub transaction_rolls_back :
      (body : Exec g.Db (Unit {0})) (d : g.Db) (e : String)
      → (g.transaction body d).0 ≡ err e
      → g.view (g.transaction body d).1 ≡ g.view d

empty_filter : {A : Type 0} (p : A → Bool) (l : List A) → length (filter p l) ≡ 0 → any p l ≡ false
empty_filter p [] h = refl
empty_filter p (x ∷ l) h = ground (arith, empty_filter p l)

-- A count of 0 means that there are none.
pub count_zero :
    (g : Gorm) (promises : IsLawful g) (t : Table) (p : Row t → Bool) (d : g.Db)
    → (g.count t p d).0 ≡ ok 0
    → any p (rows t (g.view d)) ≡ false
count_zero g promises t p d h =
    empty_filter p (rows t (g.view d)) (sym (promises.count_rows t p d 0 h))
