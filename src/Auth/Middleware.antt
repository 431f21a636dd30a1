-- ===== src/Auth/Middleware.antt =====
-- What `RequireAuth` and `RequireRole` let through.
use cloud_cost_dashboard.Base.{String, ◌≡◌, ◌∙◌, ap, ◌⊎◌, inl, inr, some, arith, Option-cases}
use cloud_cost_dashboard.Base.Exec.{ok, Result-cases}
use cloud_cost_dashboard.Model.{Time}
use cloud_cost_dashboard.Auth.Libraries.{Jwt, Claims}
use cloud_cost_dashboard.Auth.{Handler, after_prefix, parse_token, admit, with_bearer, require_auth}
use cloud_cost_dashboard.Api.Response.{error}

-- The header carries a token that the server accepts, with these claims.
pub record Bears (jwt : Jwt) (secret : String) (now : Time) (header : String) (claims : Claims)
    : Type 0 where
  pub token : String
  pub prefixed : after_prefix "Bearer " header ≡ some token
  pub accepted : parse_token jwt secret token now ≡ ok claims

module _ {A D : Type 0} (jwt : Jwt) (secret : String) (now : Time) (next : Handler A D)
    (header : String) (d : D) where
  pub require_auth-Bears :
      (claims : Claims)
      → Bears jwt secret now header claims
      → require_auth jwt secret now next header d ≡ next (some claims) d
  unfolding require_auth
  require_auth-Bears claims b =
      ap (λ o. with_bearer jwt secret now o next d) b.prefixed ∙ ap (λ r. admit r next d) b.accepted

  -- Either the header bears claims, or the request is refused.
  pub require_auth-cases :
      ((claims : Claims) × Bears jwt secret now header claims)
      ⊎ (((claims : Claims) → ¬ Bears jwt secret now header claims)
          × (message : String) × (require_auth jwt secret now next header d
              ≡ (error 401 message, d)))
  unfolding require_auth
  require_auth-cases = elim (Option-cases (after_prefix "Bearer " header)) [
    | inl missing ↦ inr (
      (λ claims b. ground (arith, b.prefixed)),
      "missing bearer token",
      ap (λ o. with_bearer jwt secret now o next d) missing,
    )
    | inr (token, found) ↦ elim (Result-cases (parse_token jwt secret token now)) [
      | inl (claims, fits) ↦
          inl (claims, record { token = token; prefixed = found; accepted = fits })
      | inr (e, bad) ↦ inr (
        (λ claims b. cc (b.prefixed, b.accepted)),
        "invalid or expired token",
        ap (λ o. with_bearer jwt secret now o next d) found ∙ ap (λ r. admit r next d) bad,
      )
    ]
  ]
