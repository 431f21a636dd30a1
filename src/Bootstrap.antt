-- ===== src/Bootstrap.antt =====
-- `bootstrapAdmin` of backend/cmd/server/main.go: the first administrator.  An error is `log.Fatalf`,
-- which ends the server; the environment variables are arguments, "" where they are not set.
use cloud_cost_dashboard.Base.{
  ℕ, ◌<>◌, ◌≢◌, List, filter, length, arith, String, ◌≡◌, refl, sym, ◌∙◌, ap, subst, ◌⊎◌, inl, inr,
  true, false, none, [], ◌∷◌, ◌++◌, ltb, str_eq, Bool-cases, if◌then◌else◌,
}
use cloud_cost_dashboard.Base.Exec.{Result, ok, err}
use cloud_cost_dashboard.Model.{Tables, Table, User, role_admin, scope_none}
use cloud_cost_dashboard.Gorm.{Gorm, IsLawful}
use cloud_cost_dashboard.Auth.{hash_password, check_password}
use cloud_cost_dashboard.Auth.Libraries.{Bcrypt, IsLawfulBcrypt}
use cloud_cost_dashboard.Api.Accounts.{counted}

abbrev pub env_or : String → String → String
env_or value default = if str_eq value "" then default else value

abbrev pub first_admin : String → String → User
first_admin email hash = record {
  id = 0;
  email = email;
  password_hash = hash;
  role = role_admin;
  scope_type = scope_none;
  scope_id = none;
  created_at = 0;
}

module _ (g : Gorm) (bcrypt : Bcrypt) where
  open g use {Db, count, create}

  stored_admin : Result User × Db → Result (Unit {0}) × Db
  stored_admin (ok _, d) = (ok tt, d)
  stored_admin (err e, d) = (err ("failed to create bootstrap admin: " <> e), d)

  create_admin : String → Result String → Db → Result (Unit {0}) × Db
  unfolding stored_admin
  create_admin email (err e) d = (err ("failed to hash bootstrap admin password: " <> e), d)
  create_admin email (ok hash) d = stored_admin (create Table.users (first_admin email hash) d)

  after_count : String → String → Result ℕ × Db → Result (Unit {0}) × Db
  unfolding create_admin
  after_count email password (r, d) =
      if ltb 0 (counted r)
      then (ok tt, d)
      else create_admin (env_or email "admin@example.com")
          (hash_password bcrypt (env_or password "changeme123")) d

  unfoldable pub bootstrap_admin : String → String → Db → Result (Unit {0}) × Db
  unfolding after_count
  bootstrap_admin email password d = after_count email password (count Table.users (λ u. true) d)

filter_every : {A : Type 0} (l : List A) → filter (λ x. true) l ≡ l
filter_every [] = refl
filter_every (x ∷ l) = ap (λ o. x ∷ o) (filter_every l)

nil_of_length : {A : Type 0} (l : List A) → length l ≡ 0 → l ≡ []
nil_of_length [] h = refl
nil_of_length (x ∷ l) h = cc

module _ (g : Gorm) (promises : IsLawful g) (bcrypt : Bcrypt)
    (lawful_bcrypt : IsLawfulBcrypt bcrypt) (email password : String) where
  open g use {Db, view, count, create}
  open promises use {view-count, count_rows, create_rows, create_fails}

  -- The address and the password: those of the environment, or the defaults.
  abbrev pub address : String
  address = if str_eq email "" then "admin@example.com" else email

  abbrev pub secret_word : String
  secret_word = if str_eq password "" then "changeme123" else password

  -- No user is there, or the users cannot be counted, which is read as 0.
  abbrev pub IsFirst : Db → Type 0
  IsFirst d = ((view d).users ≡ []) ⊎ ((e : String) × ((count Table.users (λ u. true) d).0 ≡ err e))

  -- The ways in which it ends, from the database `d`.
  pub data Bootstrapped (d : Db) (r : Result (Unit {0})) (after : Tables) : Type 0 where
    existing : (view d).users ≢ [] → r ≡ ok tt → after ≡ view d → Bootstrapped d r after
    added :
        (u : User)
        → IsFirst d
        → r ≡ ok tt
        → u.role ≡ "admin"
        → u.scope_type ≡ "none"
        → u.email ≡ address
        → check_password bcrypt u.password_hash secret_word ≡ true
        → after ≡ record (view d) { users = (view d).users ++ u ∷ [] }
        → Bootstrapped d r after
    no_hash :
        (e : String)
        → IsFirst d
        → hash_password bcrypt secret_word ≡ err e
        → r ≡ err ("failed to hash bootstrap admin password: " <> e)
        → after ≡ view d
        → Bootstrapped d r after
    not_created :
        (u : User) (d' : Db) (e : String)
        → IsFirst d
        → (create Table.users u d').0 ≡ err e
        → (u.email ≡ address) × (view d' ≡ view d)
        → r ≡ err ("failed to create bootstrap admin: " <> e)
        → after ≡ view d
        → Bootstrapped d r after

  create_admin-Bootstrapped :
      (hashed : Result String) (d d' : Db)
      → IsFirst d
      → view d' ≡ view d
      → hash_password bcrypt secret_word ≡ hashed
      → let out = create_admin g bcrypt address hashed d' in Bootstrapped d out.0 (view out.1)
  unfolding create_admin hash_password check_password
  create_admin-Bootstrapped (err e) d d' first same h = no_hash e first h refl same
  create_admin-Bootstrapped (ok hash) d d' first same h = ended (create Table.users row d').0 refl
    where
      row : User
      row = first_admin address hash

      ended :
          (r : Result User)
          → (create Table.users row d').0 ≡ r
          → let out = stored_admin g bcrypt (r, (create Table.users row d').1) in
            Bootstrapped d out.0 (view out.1)
      ended (err e) k =
          not_created row d' e first k (refl, same) refl
            (create_fails Table.users row d' e k ∙ same)
      ended (ok u) k =
          let (n, now, filled, _, _, after) = create_rows Table.users row u d' k in
          added u first refl (ap (λ x. x.role) filled) (ap (λ x. x.scope_type) filled)
            (ap (λ x. x.email) filled)
            (ap (λ x. bcrypt.compare x.password_hash secret_word) filled
              ∙ lawful_bcrypt.compare-generate _ hash h)
            (after ∙ ap (λ (s : Tables). record s { users = s.users ++ u ∷ [] }) same)

  -- What the number of users says.
  counted-cases :
      (d : Db) (r : Result ℕ)
      → (count Table.users (λ u. true) d).0 ≡ r
      → ((ltb 0 (counted r) ≡ true) × ((view d).users ≢ []))
        ⊎ ((ltb 0 (counted r) ≡ false) × IsFirst d)
  counted-cases d (err e) h = inr (refl, inr (e, h))
  counted-cases d (ok n) h =
      let many : n ≡ length (view d).users =
        count_rows Table.users (λ u. true) d n h ∙ ap length (filter_every (view d).users) in
      elim (Bool-cases (ltb 0 n)) [
        | inl some_users ↦ inl (some_users, λ e. ground (arith, many, ap length e))
        | inr no_users ↦ inr (no_users, inl (nil_of_length (view d).users (ground (arith, many))))
      ]

  after_count-Bootstrapped :
      (d : Db) (r : Result ℕ)
      → (count Table.users (λ u. true) d).0 ≡ r
      → let out = after_count g bcrypt email password (r, (count Table.users (λ u. true) d).1) in
        Bootstrapped d out.0 (view out.1)
  unfolding after_count
  after_count-Bootstrapped d r h =
      let same = view-count Table.users (λ u. true) d in
      elim (counted-cases d r h) [
        | inl (some_users, nonempty) ↦ rw some_users (existing nonempty refl same)
        | inr (no_users, first) ↦
            rw no_users
              (create_admin-Bootstrapped (hash_password bcrypt secret_word) d _ first same refl)
      ]

  -- The start of the server ends in one of four ways.  Where there are users, no table changes.  Where
  -- there are none, or counting them fails, one administrator without a scope is added, with the
  -- address and the password of the environment or their defaults, and nothing else; or the
  -- password cannot be hashed or the row not be created, each with its error and no table changed.
  pub bootstrap_admin-Bootstrapped :
      (d : Db)
      → let out = bootstrap_admin g bcrypt email password d in Bootstrapped d out.0 (view out.1)
  unfolding bootstrap_admin
  bootstrap_admin-Bootstrapped d =
      after_count-Bootstrapped d (count Table.users (λ u. true) d).0 refl

-- What holds of the tables before holds after, if it is kept by the insert of the administrator.
pub bootstrap_admin_keeps {ℓ} :
    (g : Gorm) (promises : IsLawful g) (bcrypt : Bcrypt) (P : Tables → Type ℓ)
    (email password : String) (d : g.Db)
    → P (g.view d)
    → ((hash : String) (d' : g.Db)
        → g.view d' ≡ g.view d
        → P (
            g.view
              (g.create Table.users (first_admin (env_or email "admin@example.com") hash) d').1))
    → P (g.view (bootstrap_admin g bcrypt email password d).1)
unfolding bootstrap_admin
bootstrap_admin_keeps g promises bcrypt P email password d before kept =
    counted_one (g.count Table.users (λ u. true) d) (promises.view-count Table.users (λ u. true) d)
  where
    address : String
    address = env_or email "admin@example.com"

    stored :
        (out : Result User × g.Db) → P (g.view out.1) → P (g.view (stored_admin g bcrypt out).1)
    stored (ok u, d') h = h
    stored (err e, d') h = h

    hashed :
        (r : Result String) (d' : g.Db)
        → g.view d' ≡ g.view d
        → P (g.view (create_admin g bcrypt address r d').1)
    hashed (err e) d' same = subst P (sym same) before
    hashed (ok hash) d' same = stored _ (kept hash d' same)

    counted_one :
        (out : Result ℕ × g.Db)
        → g.view out.1 ≡ g.view d
        → P (g.view (after_count g bcrypt email password out).1)
    counted_one (r, d') same = elim (Bool-cases (ltb 0 (counted r))) [
      | inl some_users ↦ rw some_users (subst P (sym same) before)
      | inr no_users ↦
          rw no_users (hashed (hash_password bcrypt (env_or password "changeme123")) d' same)
    ]
