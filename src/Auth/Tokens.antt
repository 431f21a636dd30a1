-- ===== src/Auth/Tokens.antt =====
-- Tokens and the middleware.
use cloud_cost_dashboard.Base.{◌+◌, ◌<◌, String, ◌≡◌, refl, ap, arith}
use cloud_cost_dashboard.Base.Exec.{ok, err}
use cloud_cost_dashboard.Model.{Time, User}
use cloud_cost_dashboard.Text.Dates.{day}
use cloud_cost_dashboard.Auth.Libraries.{Jwt, IsLawfulJwt, other}
use cloud_cost_dashboard.Auth.{claims_of, key_for, accepted, issue_token, parse_token}

module _ (jwt : Jwt) (promises : IsLawfulJwt jwt) where
  -- A token that was issued at `issued` is accepted with the user's claims for the next 24 hours,
  -- less the second that the expiry is rounded by.
  pub parse_token-issue_token :
      (secret token : String) (user : User) (issued now : Time)
      → issue_token jwt secret user issued ≡ ok token
      → now + 1_000_000_000 < issued + day
      → parse_token jwt secret token now ≡ ok (claims_of user issued)
  unfolding issue_token parse_token key_for accepted
  parse_token-issue_token secret token user issued now h early = ap accepted (
      promises.parse-sign secret token (claims_of user issued) (key_for secret) now h refl
        (omega arith))

  -- A token whose header names no HMAC method is refused, whatever else it holds.
  pub parse_token_other_method :
      (secret token : String) (now : Time)
      → jwt.method_of token ≡ other
      → parse_token jwt secret token now ≡ err "invalid token"
  unfolding parse_token key_for accepted
  parse_token_other_method secret token now h =
      let (c, refused) =
        promises.no_key token (key_for secret) now "unexpected signing method"
          (ap (key_for secret) h) in
      ap accepted refused
