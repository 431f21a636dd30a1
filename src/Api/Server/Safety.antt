-- ===== src/Api/Server/Safety.antt =====
-- What a request may change.
use cloud_cost_dashboard.Base.{
  String, ◌≡◌, refl, sym, ◌∙◌, ap, subst, ◌≢◌, ◌⊎◌, inl, inr, Option, none, some, str_eq, eq_iff,
  Bool-cases,
}
use cloud_cost_dashboard.Base.Exec.{Result, ok, err}
use cloud_cost_dashboard.Model.{Table, Time, role_admin}
use cloud_cost_dashboard.Gorm.{Gorm, IsLawful}
use cloud_cost_dashboard.Gorm.Queries.{IsLawfulQueries}
use cloud_cost_dashboard.Auth.{Handler}
use cloud_cost_dashboard.Auth.Libraries.{Claims, Jwt, Bcrypt}
use cloud_cost_dashboard.Auth.Middleware.{Bears}
use cloud_cost_dashboard.Api.Response.{Response, json, error, no_content, answer}
use cloud_cost_dashboard.Api.Router.{Route, access, behind, pattern_of, serve}
use cloud_cost_dashboard.Api.Router.Guards.{
  ran, no_token, no_admin, serve-Guarded, serve_writes_need_admin,
}
use cloud_cost_dashboard.Api.Users.{LoginRequest, handle_me, handle_list_users}
use cloud_cost_dashboard.Api.Users.Laws.{view-handle_login}
use cloud_cost_dashboard.Api.Accounts.{handle_list_credentials}
use cloud_cost_dashboard.Api.Tree.Answers.{view-handle_tree}
use cloud_cost_dashboard.Api.Costs.Outcomes.{handle_cost_timeseries-Answered}
use cloud_cost_dashboard.Api.Server.{
  Server, Surroundings, Request, with_body, handler, route_of, respond,
}

pub with_body-db {ℓ} :
    {A B : Type 0} {D : Type ℓ} (f : A → B) (out : Response A × D) → (with_body f out).1 ≡ out.1
with_body-db f (json code a, d) = refl
with_body-db f (error code message, d) = refl
with_body-db f (no_content, d) = refl

pub answer-db {ℓ} :
    {A B : Type 0} {D : Type ℓ} (done : A → Response B) (why : Response B) (out : Result A × D)
    → (answer done why out).1 ≡ out.1
answer-db done why (ok a, d) = refl
answer-db done why (err e, d) = refl

module _ (g : Gorm) (promises : IsLawful g) (jwt : Jwt) (bcrypt : Bcrypt) where
  open g use {Db, view}
  open promises use {view-first, view-find}

  view-handle_me :
      (claims : Option Claims) (d : Db) → view (handle_me g jwt bcrypt claims d).1 ≡ view d
  unfolding handle_me
  view-handle_me none d = refl
  view-handle_me (some c) d = ap view (answer-db _ _ _) ∙ view-first Table.users _ d

  view-handle_list_users : (d : Db) → view (handle_list_users g jwt bcrypt d).1 ≡ view d
  unfolding handle_list_users
  view-handle_list_users d = ap view (answer-db _ _ _) ∙ view-find Table.users _ d

  view-handle_list_credentials : (d : Db) → view (handle_list_credentials g d).1 ≡ view d
  unfolding handle_list_credentials
  view-handle_list_credentials d =
      ap view (answer-db _ _ _) ∙ view-find Table.provider_credentials _ d

-- Behind the middleware, what a handler makes true of a database that it is true of stays true.
pub serve_keeps {ℓ} :
    {A D : Type 0} (P : D → Type ℓ) (jwt : Jwt) (secret : String) (now : Time) (route : Route)
    (next : Handler A D) (header : String) (d : D)
    → route ≢ Route.login
    → P d
    → ((claims : Option Claims) → P (next claims d).1)
    → P (serve jwt secret now route next header d).1
serve_keeps P jwt secret now route next header d closed before after =
    elim (serve-Guarded jwt secret now next header d route closed) [
      | ran claims b admin e ↦ subst P (sym (ap (λ o. o.1) e)) (after (some claims))
      | no_token _ message e ↦ subst P (sym (ap (λ o. o.1) e)) before
      | no_admin claims b level role e ↦ subst P (sym (ap (λ o. o.1) e)) before
    ]

pub not_login :
    (r : Request)
    → ((body : Option LoginRequest) × (r ≡ Request.login body)) ⊎ (route_of r ≢ Route.login)
unfolding route_of
not_login (Request.login body) = inl (body, refl)
not_login _ = inr (λ e. cc)

module _ (s : Server) (promises : IsLawful s.gorm) (reads : IsLawfulQueries s.gorm s.queries)
    (here : Surroundings) where
  open s use {gorm, queries, jwt, bcrypt}
  open gorm use {Db, view}

  -- What the requests by GET do to the tables.
  pub handler_reads :
      (r : Request) (claims : Option Claims) (d : Db)
      → (pattern_of (route_of r)).0 ≡ "GET"
      → view (handler s here r claims d).1 ≡ view d
  unfolding handler route_of pattern_of
  handler_reads Request.me claims d h =
      ap view (with_body-db _ _) ∙ view-handle_me gorm promises jwt bcrypt claims d
  handler_reads Request.list_users claims d h =
      ap view (with_body-db _ _) ∙ view-handle_list_users gorm promises jwt bcrypt d
  handler_reads Request.list_credentials claims d h =
      ap view (with_body-db _ _) ∙ view-handle_list_credentials gorm promises jwt bcrypt d
  handler_reads (Request.tree start end) claims d h =
      ap view (with_body-db _ _)
      ∙ view-handle_tree gorm queries reads s.add claims here.now start end d
  handler_reads (Request.cost_timeseries r) claims d h =
      ap view (with_body-db _ _)
      ∙ (handle_cost_timeseries-Answered gorm queries reads here.now claims r d).1
  handler_reads _ claims d h = cc

  pub login_reads :
      (body : Option LoginRequest) (header : String) (d : Db)
      → view (respond s here header (Request.login body) d).1 ≡ view d
  unfolding respond serve access behind route_of handler
  login_reads body header d =
      ap view (with_body-db _ _)
      ∙ view-handle_login gorm promises jwt bcrypt s.jwt_secret here.now body d

  -- A request whose header bears no administrator's claims leaves every table as it is, whatever
  -- its route and its parts.
  pub respond_needs_admin :
      (header : String) (r : Request) (d : Db)
      → ((claims : Claims)
          → Bears jwt s.jwt_secret here.now header claims
          → claims.role ≢ role_admin)
      → view (respond s here header r d).1 ≡ view d
  unfolding respond
  respond_needs_admin header r d nobody = elim (not_login r) [
    | inl (body, e) ↦ rw e (login_reads body header d)
    | inr closed ↦ elim (Bool-cases (str_eq (pattern_of (route_of r)).0 "GET")) [
      | inl gets ↦
          serve_keeps (λ d'. view d' ≡ view d) jwt s.jwt_secret here.now (route_of r)
            (handler s here r) header d closed refl
            (λ claims. handler_reads r claims d ((eq_iff (pattern_of (route_of r)).0 "GET").0 gets))
      | inr writes ↦ ap view (
          serve_writes_need_admin jwt s.jwt_secret here.now (handler s here r) header d (route_of r)
            closed (λ e. cc (writes, (eq_iff (pattern_of (route_of r)).0 "GET").1 e)) nobody)
    ]
  ]
