-- ===== src/Api/Router/Guards.antt =====
-- Who reaches a handler.
use cloud_cost_dashboard.Base.{
  String, ◌≡◌, refl, ◌∙◌, ap, ◌≢◌, ◌⊎◌, inl, inr, some, [], ◌∷◌, arith, eq_iff,
}
use cloud_cost_dashboard.Model.{Time, role_admin}
use cloud_cost_dashboard.Auth.Libraries.{Jwt, Claims}
use cloud_cost_dashboard.Auth.{Handler, require_role}
use cloud_cost_dashboard.Auth.Middleware.{Bears, require_auth-Bears, require_auth-cases}
use cloud_cost_dashboard.Api.Response.{Response, error}
use cloud_cost_dashboard.Api.Router.{
  Route, Access, open_to_all, authenticated, admin_only, access, pattern_of, behind, serve,
}

-- What a request behind the middleware comes to: the handler runs with the claims of a token that
-- the server accepts, or it does not run, the request is refused and the database is left alone.
pub data Guarded {A D : Type 0} (jwt : Jwt) (secret : String) (now : Time) (level : Access)
    (handler : Handler A D) (header : String) (d : D) (out : Response A × D) : Type 0 where
  ran :
      (claims : Claims)
      → Bears jwt secret now header claims
      → (level ≡ admin_only → claims.role ≡ role_admin)
      → out ≡ handler (some claims) d
      → Guarded jwt secret now level handler header d out
  no_token :
      ((claims : Claims) → ¬ Bears jwt secret now header claims)
      → (message : String) → out ≡ (error 401 message, d)
      → Guarded jwt secret now level handler header d out
  no_admin :
      (claims : Claims)
      → Bears jwt secret now header claims
      → level ≡ admin_only
      → claims.role ≢ role_admin
      → out ≡ (error 403 "forbidden", d)
      → Guarded jwt secret now level handler header d out

not_open : (route : Route) → route ≢ Route.login → access route ≢ open_to_all
unfolding access
not_open Route.login h = absurd (h refl)
not_open _ h = cc

writes_admin_only :
    (route : Route) → route ≢ Route.login → (pattern_of route).0 ≢ "GET" → access route ≡ admin_only
unfolding access pattern_of
writes_admin_only Route.login h writes = absurd (h refl)
writes_admin_only Route.me h writes = absurd (writes refl)
writes_admin_only Route.tree h writes = absurd (writes refl)
writes_admin_only Route.cost_timeseries h writes = absurd (writes refl)
writes_admin_only _ h writes = refl

-- `RequireRole(RoleAdmin)`.
require_admin :
    {A D : Type 0} (handler : Handler A D) (claims : Claims) (d : D)
    → ((claims.role ≡ role_admin)
        × (require_role (role_admin ∷ []) handler (some claims) d ≡ handler (some claims) d))
      ⊎ ((claims.role ≢ role_admin)
          × (require_role (role_admin ∷ []) handler (some claims) d ≡ (error 403 "forbidden", d)))
unfolding require_role
require_admin handler claims d = ground (arith, eq_iff role_admin claims.role)

module _ {A D : Type 0} (jwt : Jwt) (secret : String) (now : Time) (handler : Handler A D)
    (header : String) (d : D) where
  -- Behind either group of the router, a request is guarded as its group says.
  behind-Guarded :
      (level : Access)
      → level ≢ open_to_all
      → Guarded jwt secret now level handler header d (behind jwt secret now level handler header d)
  unfolding behind
  behind-Guarded open_to_all closed = absurd (closed refl)
  behind-Guarded authenticated closed = elim (require_auth-cases jwt secret now handler header d) [
    | inl (claims, b) ↦
        ran claims b (λ e. cc) (require_auth-Bears jwt secret now handler header d claims b)
    | inr (none_borne, message, e) ↦ no_token none_borne message e
  ]
  behind-Guarded admin_only closed =
      let guarded = require_role (role_admin ∷ []) handler in
      elim (require_auth-cases jwt secret now guarded header d) [
        | inl (claims, b) ↦
            let reached = require_auth-Bears jwt secret now guarded header d claims b in
            elim (require_admin handler claims d) [
              | inl (is_admin, e) ↦ ran claims b (λ _. is_admin) (reached ∙ e)
              | inr (not_admin, e) ↦ no_admin claims b refl not_admin (reached ∙ e)
            ]
        | inr (none_borne, message, e) ↦ no_token none_borne message e
      ]

  -- A request of any route but the login either runs the handler with the claims of a token that
  -- its header bears and the server accepts, an administrator's where the route is for
  -- administrators; or it is refused with 401 as there is no such token, or with 403 as the
  -- claims are not an administrator's, and the database is left alone.
  pub serve-Guarded :
      (route : Route)
      → route ≢ Route.login
      → Guarded jwt secret now
          (access route)
          handler
          header
          d
          (serve jwt secret now route handler header d)
  unfolding serve
  serve-Guarded route closed = behind-Guarded (access route) (not_open route closed)

  -- Outside the login, a route whose method is not GET leaves the database alone unless the header
  -- bears an administrator's claims.
  pub serve_writes_need_admin :
      (route : Route)
      → route ≢ Route.login
      → (pattern_of route).0 ≢ "GET"
      → ((claims : Claims) → Bears jwt secret now header claims → claims.role ≢ role_admin)
      → (serve jwt secret now route handler header d).1 ≡ d
  serve_writes_need_admin route closed writes no_admin_here = elim (serve-Guarded route closed) [
    | ran claims b admin e ↦
        absurd (no_admin_here claims b (admin (writes_admin_only route closed writes)))
    | no_token _ message e ↦ ap (λ o. o.1) e
    | no_admin claims b level role e ↦ ap (λ o. o.1) e
  ]
