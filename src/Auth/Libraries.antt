-- ===== src/Auth/Libraries.antt =====
-- golang-jwt and bcrypt, no code of the repository: the calls that the backend makes, and what
-- their documentation promises.
use cloud_cost_dashboard.Base.{ℕ, ◌<◌, String, ◌≡◌, Bool, true, Option}
use cloud_cost_dashboard.Base.Exec.{Result, ok, err}
use cloud_cost_dashboard.Model.{Time, Role, ScopeType}

-- `Claims` of auth.go, with the two registered claims that it uses.
pub record Claims : Type 0 where
  pub user_id : ℕ
  pub role : Role
  pub scope_type : ScopeType
  pub scope_id : Option ℕ
  pub expires_at : Time
  pub issued_at : Time

-- Whether a token names a method of the HMAC family.
pub data SigningMethod : Type 0 where
  hmac other : SigningMethod

pub record Jwt : Type 0 where
  -- `jwt.NewWithClaims(jwt.SigningMethodHS256, claims).SignedString(secret)`
  pub sign : String → Claims → Result String
  -- `jwt.ParseWithClaims` with the key function, at a time: the claims and `token.Valid`
  pub parse_with_claims : (SigningMethod → Result String) → Time → String → Result (Claims × Bool)
  -- the method that the token's header names
  pub method_of : String → SigningMethod

pub record IsLawfulJwt (jwt : Jwt) : Type 0 where
  -- A token that was signed is valid under its key until it expires, and gives its claims back.
  pub parse-sign :
      (secret token : String) (claims : Claims) (key : SigningMethod → Result String) (now : Time)
      → jwt.sign secret claims ≡ ok token
      → key hmac ≡ ok secret
      → now < claims.expires_at
      → jwt.parse_with_claims key now token ≡ ok (claims, true)
  -- Where the key function fails, parsing does.
  pub no_key :
      (token : String) (key : SigningMethod → Result String) (now : Time) (e : String)
      → key (jwt.method_of token) ≡ err e
      → (c : String) × (jwt.parse_with_claims key now token ≡ err c)

pub record Bcrypt : Type 0 where
  -- `bcrypt.GenerateFromPassword(password, bcrypt.DefaultCost)`
  pub generate : String → Result String
  -- `bcrypt.CompareHashAndPassword(hash, password) == nil`
  pub compare : String → String → Bool

pub record IsLawfulBcrypt (bcrypt : Bcrypt) : Type 0 where
  pub compare-generate :
      (password hash : String)
      → bcrypt.generate password ≡ ok hash
      → bcrypt.compare hash password ≡ true
