-- ===== src/Api/Server/Runs.antt =====
-- What a server makes of its users, request by request.
use cloud_cost_dashboard.Base.{
  String, ◌≡◌, refl, sym, ◌∙◌, ap, subst, ◌≢◌, inl, inr, Option, none, some,
}
use cloud_cost_dashboard.Model.{role_admin}
use cloud_cost_dashboard.Gorm.{IsLawful}
use cloud_cost_dashboard.Gorm.Queries.{IsLawfulQueries}
use cloud_cost_dashboard.Auth.Libraries.{Claims, IsLawfulBcrypt}
use cloud_cost_dashboard.Auth.Middleware.{Bears}
use cloud_cost_dashboard.Scheduler.Others.{others, sync_all_keeps_tables}
use cloud_cost_dashboard.Scheduler.Upsert.{IsLawfulUpserts}
use cloud_cost_dashboard.Bootstrap.{bootstrap_admin, bootstrap_admin_keeps, env_or}
use cloud_cost_dashboard.Api.Response.{Response}
use cloud_cost_dashboard.Api.Router.{pattern_of}
use cloud_cost_dashboard.Api.Creates.Users.{
  users-handle_create_organization, users-handle_create_product, users-handle_create_project,
  users-handle_create_environment, users-handle_create_region, users-handle_create_cloud_account,
  users-handle_delete_organization, users-handle_delete_product, users-handle_delete_project,
  users-handle_delete_environment, users-handle_delete_region,
}
use cloud_cost_dashboard.Api.Accounts.Users.{
  users-handle_create_credential, users-handle_delete_credential, users-handle_update_cloud_account,
  users-handle_delete_cloud_account, users-handle_sync_now, users-handle_import_csv,
}
use cloud_cost_dashboard.Api.Users.{CreateUserRequest, handle_create_user}
use cloud_cost_dashboard.Api.Users.Laws.{view-handle_login, handle_create_user-CreatedOrNot}
use cloud_cost_dashboard.Api.Server.{
  Server, Surroundings, Request, with_body, handler, route_of, respond, sync_tick,
}
use cloud_cost_dashboard.Api.Server.Safety.{
  respond_needs_admin, with_body-db, serve_keeps, not_login, login_reads, handler_reads,
}
use cloud_cost_dashboard.Api.Server.Users.{Sound, IsSound, Created-Sound, first_admin-Sound}

module _ (s : Server) (promises : IsLawful s.gorm) (reads : IsLawfulQueries s.gorm s.queries)
    (upserts : IsLawfulUpserts s.gorm s.upserts) (lawful_bcrypt : IsLawfulBcrypt s.bcrypt)
    (here : Surroundings) where
  open s use {gorm, queries, box, jwt, bcrypt, adapters, conversions}
  open gorm use {Db, view}

  create_user-Sound :
      (body : Option CreateUserRequest) (d : Db)
      → Sound (view d)
      → Sound (view (handle_create_user gorm jwt bcrypt body d).1)
  unfolding handle_create_user
  create_user-Sound none d h = h
  create_user-Sound (some req) d h =
      elim (handle_create_user-CreatedOrNot gorm promises jwt bcrypt lawful_bcrypt req d) [
        | inl (u, e, c) ↦ Created-Sound _ _ u c h
        | inr (e, same, _) ↦ subst Sound (sym same) h
      ]

  -- The users are the same, once the answer is written as a body.
  same_users :
      {A B : Type 0} (f : A → B) (out : Response A × Db) (d : Db)
      → (view out.1).users ≡ (view d).users
      → Sound (view d)
      → Sound (view (with_body f out).1)
  same_users f out d e h =
      subst IsSound (sym (ap (λ d'. (view d').users) (with_body-db f out) ∙ e)) h

  get-Sound :
      (r : Request) (claims : Option Claims) (d : Db)
      → (pattern_of (route_of r)).0 ≡ "GET"
      → Sound (view d)
      → Sound (view (handler s here r claims d).1)
  get-Sound r claims d gets h =
      subst Sound (sym (handler_reads s promises reads here r claims d gets)) h

  handler-Sound :
      (r : Request) (claims : Option Claims) (d : Db)
      → Sound (view d)
      → Sound (view (handler s here r claims d).1)
  unfolding handler route_of pattern_of
  handler-Sound Request.me claims d h = get-Sound Request.me claims d refl h
  handler-Sound Request.list_users claims d h = get-Sound Request.list_users claims d refl h
  handler-Sound Request.list_credentials claims d h =
      get-Sound Request.list_credentials claims d refl h
  handler-Sound (Request.tree start end) claims d h =
      get-Sound (Request.tree start end) claims d refl h
  handler-Sound (Request.cost_timeseries q) claims d h =
      get-Sound (Request.cost_timeseries q) claims d refl h
  handler-Sound (Request.login body) claims d h =
      subst Sound
        (sym (
          ap view (with_body-db _ _)
          ∙ view-handle_login gorm promises jwt bcrypt s.jwt_secret here.now body d))
        h
  handler-Sound (Request.create_user body) claims d h =
      subst (λ d'. Sound (view d'))
        (sym (with_body-db _ (handle_create_user gorm jwt bcrypt body d)))
        (create_user-Sound body d h)
  handler-Sound (Request.create_organization body) claims d h =
      same_users _ _ d (users-handle_create_organization gorm promises body d) h
  handler-Sound (Request.create_product body) claims d h =
      same_users _ _ d (users-handle_create_product gorm promises body d) h
  handler-Sound (Request.create_project body) claims d h =
      same_users _ _ d (users-handle_create_project gorm promises body d) h
  handler-Sound (Request.create_environment body) claims d h =
      same_users _ _ d (users-handle_create_environment gorm promises body d) h
  handler-Sound (Request.create_region body) claims d h =
      same_users _ _ d (users-handle_create_region gorm promises body d) h
  handler-Sound (Request.create_cloud_account body) claims d h =
      same_users _ _ d (users-handle_create_cloud_account gorm promises body d) h
  handler-Sound (Request.delete_organization id) claims d h =
      same_users _ _ d (users-handle_delete_organization gorm promises id d) h
  handler-Sound (Request.delete_product id) claims d h =
      same_users _ _ d (users-handle_delete_product gorm promises id d) h
  handler-Sound (Request.delete_project id) claims d h =
      same_users _ _ d (users-handle_delete_project gorm promises id d) h
  handler-Sound (Request.delete_environment id) claims d h =
      same_users _ _ d (users-handle_delete_environment gorm promises id d) h
  handler-Sound (Request.delete_region id) claims d h =
      same_users _ _ d (users-handle_delete_region gorm promises id d) h
  handler-Sound (Request.create_credential body) claims d h =
      same_users _ _ d
        (users-handle_create_credential gorm promises box s.marshal here.random body d) h
  handler-Sound (Request.delete_credential id) claims d h =
      same_users _ _ d (users-handle_delete_credential gorm promises id d) h
  handler-Sound (Request.update_cloud_account id body) claims d h =
      same_users _ _ d (users-handle_update_cloud_account gorm promises id body d) h
  handler-Sound (Request.delete_cloud_account id) claims d h =
      same_users _ _ d (users-handle_delete_cloud_account gorm promises id d) h
  handler-Sound (Request.sync_now id) claims d h =
      same_users _ _ d
        (users-handle_sync_now gorm promises s.upserts upserts box s.unmarshal adapters here.now
          here.later id d)
        h
  handler-Sound (Request.import_csv id file) claims d h =
      same_users _ _ d
        (users-handle_import_csv gorm promises s.upserts upserts conversions id file d) h

  respond-Sound :
      (header : String) (r : Request) (d : Db)
      → Sound (view d)
      → Sound (view (respond s here header r d).1)
  unfolding respond
  respond-Sound header r d h = elim (not_login r) [
    | inl (body, e) ↦
        subst (λ x. Sound (view (respond s here header x d).1)) (sym e)
          (subst Sound (sym (login_reads s promises reads here body header d)) h)
    | inr closed ↦
        serve_keeps (λ d'. Sound (view d')) jwt s.jwt_secret here.now (route_of r)
          (handler s here r) header d closed h (λ claims. handler-Sound r claims d h)
  ]

  sync_tick-Sound : (d : Db) → Sound (view d) → Sound (view (sync_tick s here d))
  unfolding sync_tick
  sync_tick-Sound d h =
      subst IsSound
        (sym (
          ap (λ t. t.users)
            (sync_all_keeps_tables gorm promises s.upserts upserts box s.unmarshal here.now
              here.later adapters d)))
        h

-- What happens to a server's database: the bootstrap with some environment, a request with any
-- header, or a sync, at any time.
pub data Step (s : Server) : s.gorm.Db → s.gorm.Db → Type 0 where
  started :
      {d : s.gorm.Db} (email password : String)
      → Step s d (bootstrap_admin s.gorm s.bcrypt email password d).1
  requested :
      {d : s.gorm.Db} (here : Surroundings) (header : String) (r : Request)
      → Step s d (respond s here header r d).1
  synced : {d : s.gorm.Db} (here : Surroundings) → Step s d (sync_tick s here d)

pub data Run (s : Server) : s.gorm.Db → s.gorm.Db → Type 0 where
  stop : {d : s.gorm.Db} → Run s d d
  next : {d d' d'' : s.gorm.Db} → Step s d d' → Run s d' d'' → Run s d d''

module _ (s : Server) (promises : IsLawful s.gorm) (reads : IsLawfulQueries s.gorm s.queries)
    (upserts : IsLawfulUpserts s.gorm s.upserts) (lawful_bcrypt : IsLawfulBcrypt s.bcrypt) where
  open s use {gorm}
  open gorm use {Db, view}

  Step-Sound : {d d' : Db} → Step s d d' → Sound (view d) → Sound (view d')
  Step-Sound {d} (started email password) h =
      bootstrap_admin_keeps gorm promises s.bcrypt Sound email password d h (λ hash d' same.
        first_admin-Sound gorm promises (env_or email "admin@example.com") hash d'
          (subst Sound (sym same) h))
  Step-Sound {d} (requested here header r) h =
      respond-Sound s promises reads upserts lawful_bcrypt here header r d h
  Step-Sound {d} (synced here) h = sync_tick-Sound s promises reads upserts lawful_bcrypt here d h

  -- Over any run of a server, by starts, requests of whatever kind and sender, and syncs, users
  -- who have different emails and ids, a known role and a scope type before do so after.
  pub Run-Sound : {d d' : Db} → Run s d d' → Sound (view d) → Sound (view d')
  Run-Sound stop h = h
  Run-Sound (next step rest) h = Run-Sound rest (Step-Sound step h)

-- A step that no administrator takes part in: a request whose header bears no administrator's
-- claims, or a sync.
pub data QuietStep (s : Server) : s.gorm.Db → s.gorm.Db → Type 0 where
  asked :
      {d : s.gorm.Db} (here : Surroundings) (header : String) (r : Request)
      → ((claims : Claims)
          → Bears s.jwt s.jwt_secret here.now header claims
          → claims.role ≢ role_admin)
      → QuietStep s d (respond s here header r d).1
  refreshed : {d : s.gorm.Db} (here : Surroundings) → QuietStep s d (sync_tick s here d)

pub data QuietRun (s : Server) : s.gorm.Db → s.gorm.Db → Type 0 where
  ended : {d : s.gorm.Db} → QuietRun s d d
  also : {d d' d'' : s.gorm.Db} → QuietStep s d d' → QuietRun s d' d'' → QuietRun s d d''

module _ (s : Server) (promises : IsLawful s.gorm) (reads : IsLawfulQueries s.gorm s.queries)
    (upserts : IsLawfulUpserts s.gorm s.upserts) where
  open s use {gorm}
  open gorm use {Db, view}

  others-QuietStep : {d d' : Db} → QuietStep s d d' → others (view d') ≡ others (view d)
  unfolding sync_tick
  others-QuietStep {d} (asked here header r nobody) =
      ap others (respond_needs_admin s promises reads here header r d nobody)
  others-QuietStep {d} (refreshed here) =
      sync_all_keeps_tables gorm promises s.upserts upserts s.box s.unmarshal here.now here.later
        s.adapters d

  -- Over any run of syncs and of requests whose headers bear no administrator's claims, no table
  -- changes but those of the cost records and the cloud accounts: no user, no part of the hierarchy
  -- and no credential.
  pub others-QuietRun : {d d' : Db} → QuietRun s d d' → others (view d') ≡ others (view d)
  others-QuietRun ended = refl
  others-QuietRun (also step rest) = others-QuietRun rest ∙ others-QuietStep step
