-- ===== src/Api/Users/Laws.antt =====
-- Logging in and creating users.
use cloud_cost_dashboard.Base.{
  ℕ, ◌+◌, ◌<◌, String, ◌≡◌, refl, ◌∙◌, ap, ◌≢◌, ◌⊎◌, inl, inr, true, false, ◌||◌, Option, none,
  some, [], ◌∷◌, ◌++◌, Mem, arith, any, str_eq, eq_iff, ◌==◌, Bool-cases,
}
use cloud_cost_dashboard.Base.Exec.{Result, ok, err, Result-cases}
use cloud_cost_dashboard.Model.{Time, User, Tables, Table, role_admin, role_manager, role_viewer}
use cloud_cost_dashboard.Gorm.{Gorm, IsLawful}
use cloud_cost_dashboard.Text.Dates.{day}
use cloud_cost_dashboard.Auth.{check_password, hash_password, issue_token, parse_token, claims_of}
use cloud_cost_dashboard.Auth.Libraries.{Jwt, Bcrypt, IsLawfulJwt, IsLawfulBcrypt}
use cloud_cost_dashboard.Auth.Tokens.{parse_token-issue_token}
use cloud_cost_dashboard.Api.Response.{Response, json, error, answer-ok, answer-err}
use cloud_cost_dashboard.Api.Users.{
  LoginRequest, LoginResponse, CreateUserRequest, logged_in, handle_login, store_user, known_role,
  new_user, handle_create_user,
}

module _ (g : Gorm) (promises : IsLawful g) (jwt : Jwt) (lawful_jwt : IsLawfulJwt jwt)
    (bcrypt : Bcrypt) where
  open g use {Db, view, first, create}
  open promises use {view-first, first_row, create_rows, create_fails}

  logged_in-cases :
      (secret : String) (now : Time) (password : String) (found : Result User) (a : LoginResponse)
      → logged_in g jwt bcrypt secret now password found ≡ json 200 a
      → (found ≡ ok a.user)
        × (check_password bcrypt a.user.password_hash password ≡ true)
        × (issue_token jwt secret a.user now ≡ ok a.token)
  unfolding logged_in
  logged_in-cases secret now password (err e) a h = cc
  logged_in-cases secret now password (ok u) a h = ground arith

  -- Where a login is answered 200, the user is one of the table, by the email and with the
  -- password of the request, and the token is accepted as that user's at any time until 24 hours
  -- after the login, less one second for the rounding.
  pub handle_login-json :
      (secret : String) (now : Time) (req : LoginRequest) (d : Db) (a : LoginResponse)
      (later : Time)
      → (handle_login g jwt bcrypt secret now (some req) d).0 ≡ json 200 a
      → later + 1_000_000_000 < now + day
      → Mem a.user (view d).users
        × (a.user.email ≡ req.email)
        × (check_password bcrypt a.user.password_hash req.password ≡ true)
        × (parse_token jwt secret a.token later ≡ ok (claims_of a.user now))
  unfolding handle_login
  handle_login-json secret now req d a later h early =
      let same_email = λ (u : User). str_eq u.email req.email in
      let (found, fits, issued) =
        logged_in-cases secret now req.password (first Table.users same_email d).0 a h in
      let (member, e) = first_row Table.users same_email d a.user found in
      (
        member,
        (eq_iff a.user.email req.email).0 e,
        fits,
        parse_token-issue_token jwt lawful_jwt secret a.token a.user now later issued early,
      )

-- A login writes nothing, however it ends.
pub view-handle_login :
    (g : Gorm) (promises : IsLawful g) (jwt : Jwt) (bcrypt : Bcrypt) (secret : String) (now : Time)
    (req : Option LoginRequest) (d : g.Db)
    → g.view (handle_login g jwt bcrypt secret now req d).1 ≡ g.view d
unfolding handle_login
view-handle_login g promises jwt bcrypt secret now none d = refl
view-handle_login g promises jwt bcrypt secret now (some req) d =
    promises.view-first Table.users _ d

-- What creating a user does: the one new row, or nothing.
pub record Created (bcrypt : Bcrypt) (req : CreateUserRequest) (before after : Tables) (u : User)
    : Type 0 where
  pub role : (u.role ≡ role_admin) ⊎ ((u.role ≡ role_manager) ⊎ (u.role ≡ role_viewer))
  pub asked : (u.email ≡ req.email) × (u.role ≡ req.role) × (u.scope_id ≡ req.scope_id)
  pub scope : u.scope_type ≢ ""
  pub scope_asked : req.scope_type ≢ "" → u.scope_type ≡ req.scope_type
  pub scope_default : req.scope_type ≡ "" → u.scope_type ≡ "none"
  pub nonempty : (u.email ≢ "") × (req.password ≢ "")
  pub password : check_password bcrypt u.password_hash req.password ≡ true
  pub new_email : any (λ x. str_eq u.email x.email) before.users ≡ false
  pub new_key : any (λ x. x.id == u.id) before.users ≡ false
  pub row : after ≡ record before { users = before.users ++ u ∷ [] }

module _ (g : Gorm) (promises : IsLawful g) (jwt : Jwt) (bcrypt : Bcrypt)
    (lawful_bcrypt : IsLawfulBcrypt bcrypt) (req : CreateUserRequest) (d : g.Db) where
  open g use {Db, view, create}
  open promises use {create_rows, create_fails}

  -- Why no user is created.
  pub data Refused (r : Response User) : Type 0 where
    missing :
        (req.email ≡ "") ⊎ (req.password ≡ "")
        → r ≡ error 400 "email and password are required"
        → Refused r
    bad_role :
        (req.role ≢ "admin") × (req.role ≢ "manager") × (req.role ≢ "viewer")
        → r ≡ error 400 "role must be admin, manager, or viewer"
        → Refused r
    no_hash :
        (e : String)
        → hash_password bcrypt req.password ≡ err e
        → r ≡ error 500 "failed to hash password"
        → Refused r
    not_stored :
        (u : User) (e : String)
        → (create Table.users u d).0 ≡ err e
        → r ≡ error 409 "could not create user (email may already exist)"
        → Refused r

  abbrev pub CreatedOrNot : Response User × Db → Type 0
  CreatedOrNot out =
      ((u : User) × (out.0 ≡ json 201 u) × Created bcrypt req (view d) (view out.1) u)
      ⊎ (((u : User) → out.0 ≢ json 201 u) × (view out.1 ≡ view d) × Refused out.0)

  refused :
      (status : ℕ) (message : String)
      → Refused (error status message)
      → CreatedOrNot (error status message, d)
  refused status message why = inr ((λ u e. cc), refl, why)

  missing_field :
      (str_eq req.email "" || str_eq req.password "") ≡ true
      → (req.email ≡ "") ⊎ (req.password ≡ "")
  missing_field h = ground (arith, h, eq_iff req.email "", eq_iff req.password "")

  unknown_role :
      known_role req.role ≡ false
      → (req.role ≢ "admin") × (req.role ≢ "manager") × (req.role ≢ "viewer")
  unknown_role h = (
    (λ e. ground (arith, e, h, eq_iff req.role "admin")),
    (λ e. ground (arith, e, h, eq_iff req.role "manager")),
    (λ e. ground (arith, e, h, eq_iff req.role "viewer")),
  )

  module _ (nonempty : (str_eq req.email "" || str_eq req.password "") ≡ false)
      (known : known_role req.role ≡ true) where
    created :
        (hash : String) (u : User)
        → hash_password bcrypt req.password ≡ ok hash
        → (create Table.users (new_user req hash) d).0 ≡ ok u
        → Created bcrypt req (view d) (view (create Table.users (new_user req hash) d).1) u
    unfolding hash_password check_password
    created hash u hashed done =
        let (n, now, e, new_key, free, rows_after) =
          create_rows Table.users (new_user req hash) u d done in
        record {
          role = ground (
            arith,
            ap (λ r. r.role) e,
            known,
            eq_iff req.role role_admin,
            eq_iff req.role role_manager,
            eq_iff req.role role_viewer,
          );
          asked = (ap (λ r. r.email) e, ap (λ r. r.role) e, ap (λ r. r.scope_id) e);
          scope =
              ground (arith, ap (λ r. r.scope_type) e, eq_iff req.scope_type "", eq_iff "none" "");
          scope_asked =
              λ given. ground (arith, ap (λ r. r.scope_type) e, given, eq_iff req.scope_type "");
          scope_default = λ missing.
              ground (arith, ap (λ r. r.scope_type) e, missing, eq_iff req.scope_type "");
          nonempty =
              ground
                (arith, ap (λ r. r.email) e, nonempty, eq_iff req.email "", eq_iff req.password "");
          password =
              ap (λ r. bcrypt.compare r.password_hash req.password) e
              ∙ lawful_bcrypt.compare-generate req.password hash hashed;
          new_email = ap (λ r. any (λ x. str_eq r.email x.email) (view d).users) e ∙ free;
          new_key = ap (λ r. any (λ x. x.id == r.id) (view d).users) e ∙ new_key;
          row = rows_after;
        }

    store_user-CreatedOrNot :
        (hashed : Result String)
        → hash_password bcrypt req.password ≡ hashed
        → CreatedOrNot (store_user g jwt bcrypt req hashed d)
    unfolding store_user
    store_user-CreatedOrNot (err e) h = refused 500 "failed to hash password" (no_hash e h refl)
    store_user-CreatedOrNot (ok hash) h =
        let row = create Table.users (new_user req hash) d in
        let taken = error 409 "could not create user (email may already exist)" in
        elim (Result-cases row.0) [
          | inl (u, done) ↦
              rw (answer-ok (json 201) taken row u done) (inl (u, refl, created hash u h done))
          | inr (e, failed) ↦ rw (answer-err (json 201) taken row e failed) (
              inr (
                (λ u x. cc),
                create_fails Table.users (new_user req hash) d e failed,
                not_stored (new_user req hash) e failed refl,
              ))
        ]

  -- Creating a user adds one row with the email, the role, the scope type ("none" where it is "") and
  -- the scope id that are asked for, with a known role and a hash of the password, under a new
  -- email.  Where the request is not answered with the user, no table changes: the email or the
  -- password is missing or the role unknown, which is 400, the password cannot be hashed, which
  -- is 500, or the row is not inserted, which is 409.
  pub handle_create_user-CreatedOrNot : CreatedOrNot (handle_create_user g jwt bcrypt (some req) d)
  unfolding handle_create_user
  handle_create_user-CreatedOrNot =
      elim (Bool-cases (str_eq req.email "" || str_eq req.password "")) [
        | inl lacking ↦
            rw lacking
              (refused 400 "email and password are required" (missing (missing_field lacking) refl))
        | inr nonempty ↦ elim (Bool-cases (known_role req.role)) [
          | inl known ↦
              rw (nonempty, known)
                (store_user-CreatedOrNot nonempty known (hash_password bcrypt req.password) refl)
          | inr unknown ↦
              rw (nonempty, unknown)
                (refused 400 "role must be admin, manager, or viewer"
                  (bad_role (unknown_role unknown) refl))
        ]
      ]
