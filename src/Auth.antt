-- ===== src/Auth.antt =====
-- Authentication: backend/internal/auth/auth.go and middleware.go.
pub mod Libraries
pub mod Tokens
pub mod Middleware
use Prim.Native.Char.{code}
use Prim.Native.String
use cloud_cost_dashboard.Base.{
  ℕ, ◌+◌, ◌-◌, ◌*◌, ◌%◌, String, Bool, true, false, List, Option, none, some, any, str_eq, ◌==◌,
  if◌then◌else◌,
}
use cloud_cost_dashboard.Base.Exec.{Result, ok, err}
use cloud_cost_dashboard.Model.{Time, Role, User}
use cloud_cost_dashboard.Text.Dates.{day}
use cloud_cost_dashboard.Api.Response.{Response, error}
use Libraries.{Claims, SigningMethod, Jwt, Bcrypt, hmac, other}

-- `jwt.NewNumericDate`: whole seconds.
abbrev pub numeric_date : Time → Time
numeric_date t = t - t % 1_000_000_000

abbrev pub claims_of : User → Time → Claims
claims_of user now = record {
  user_id = user.id;
  role = user.role;
  scope_type = user.scope_type;
  scope_id = user.scope_id;
  expires_at = numeric_date (now + day);
  issued_at = numeric_date now;
}

module _ (bcrypt : Bcrypt) where
  unfoldable pub hash_password : String → Result String
  hash_password password = bcrypt.generate password

  unfoldable pub check_password : String → String → Bool
  check_password hash password = bcrypt.compare hash password

-- The function that hands the key to the parser, for HMAC methods only.
key_for : String → SigningMethod → Result String
key_for secret hmac = ok secret
key_for secret other = err "unexpected signing method"

-- `if err != nil || !token.Valid`.
accepted : Result (Claims × Bool) → Result Claims
accepted (ok (claims, true)) = ok claims
accepted (ok (claims, false)) = err "invalid token"
accepted (err e) = err "invalid token"

module _ (jwt : Jwt) where
  unfoldable pub issue_token : String → User → Time → Result String
  issue_token secret user now = jwt.sign secret (claims_of user now)

  unfoldable pub parse_token : String → String → Time → Result Claims
  unfolding key_for accepted
  parse_token secret token now = accepted (jwt.parse_with_claims (key_for secret) now token)

-- `strings.HasPrefix` and `strings.TrimPrefix` together: what follows the prefix.
unfoldable pub after_prefix : String → String → Option String
after_prefix String.[] s = some s
after_prefix (String.◌∷◌ c p) String.[] = none
after_prefix (String.◌∷◌ c p) (String.◌∷◌ d s) =
    let rest = after_prefix p s in if code c == code d then rest else none

-- A handler behind the middleware has the claims of the request context; `D` is the database.
abbrev pub Handler : Type 0 → Type 0 → Type 0
Handler A D = Option Claims → D → Response A × D

module _ {A D : Type 0} where
  -- `RequireAuth` from the parsed token on.
  admit : Result Claims → Handler A D → D → Response A × D
  admit (err e) next d = (error 401 "invalid or expired token", d)
  admit (ok claims) next d = next (some claims) d

  with_bearer : Jwt → String → Time → Option String → Handler A D → D → Response A × D
  unfolding admit
  with_bearer jwt secret now none next d = (error 401 "missing bearer token", d)
  with_bearer jwt secret now (some token) next d = admit (parse_token jwt secret token now) next d

  -- `RequireAuth`, given the header "Authorization".
  unfoldable pub require_auth : Jwt → String → Time → Handler A D → String → D → Response A × D
  unfolding with_bearer
  require_auth jwt secret now next header d =
      with_bearer jwt secret now (after_prefix "Bearer " header) next d

  -- `RequireRole`.
  unfoldable pub require_role : List Role → Handler A D → Handler A D
  require_role roles next none d = (error 403 "forbidden", d)
  require_role roles next (some claims) d =
      if any (λ r. str_eq r claims.role) roles
      then next (some claims) d
      else (error 403 "forbidden", d)
