-- ===== src/Api/Accounts/Syncs.antt =====
-- What a request to sync one account comes to.
use Prim.Native.String
use cloud_cost_dashboard.Base.{
  ℕ, String, ◌≡◌, refl, sym, ◌∙◌, ap, subst, Option, none, some, Mem, ◌==◌, ==_iff,
}
use cloud_cost_dashboard.Base.Exec.{Result, ok, err}
use cloud_cost_dashboard.Model.{Tables, Table, Time, CloudAccount}
use cloud_cost_dashboard.Gorm.{Gorm, IsLawful}
use cloud_cost_dashboard.Crypto.{Bytes, Box}
use cloud_cost_dashboard.Providers.{Adapters, registry}
use cloud_cost_dashboard.Providers.Registered.{AdapterOf, registry-AdapterOf}
use cloud_cost_dashboard.Providers.Records.{CostProvider}
use cloud_cost_dashboard.Scheduler.{sync_account}
use cloud_cost_dashboard.Scheduler.Others.{others, sync_account_keeps_others}
use cloud_cost_dashboard.Scheduler.Success.{SyncedFrom, sync_account-SyncedFrom}
use cloud_cost_dashboard.Scheduler.Upsert.{Place, Upserts, IsLawfulUpserts}
use cloud_cost_dashboard.Api.Response.{Response, json, error, url_param_uint}
use cloud_cost_dashboard.Api.Accounts.{
  sync_answer, sync_by, sync_found_account, sync_now_of, handle_sync_now,
}

module _ (g : Gorm) (promises : IsLawful g) (u : Upserts g) (upserts : IsLawfulUpserts g u)
    (box : Box) (unmarshal : Bytes → Result (String → String)) (adapters : Adapters)
    (now later : Time) (p : Place) where
  open g use {Db, view, first}

  -- The ways in which the request ends, seen at a place of the table of costs.
  pub data SyncsNow (id : String) (d : Db) (after : Tables) (r : Response String) : Type 0 where
    bad_id :
        url_param_uint id ≡ none
        → r ≡ error 400 "invalid id"
        → after ≡ view d
        → SyncsNow id d after r
    not_found :
        (n : ℕ)
        → url_param_uint id ≡ some n
        → (e : String) × ((first Table.cloud_accounts (λ a. a.id == n) d).0 ≡ err e)
        → r ≡ error 404 "cloud account not found"
        → after ≡ view d
        → SyncsNow id d after r
    no_adapter :
        (n : ℕ) (a : CloudAccount)
        → url_param_uint id ≡ some n
        → Mem a (view d).cloud_accounts × (a.id ≡ n)
        → AdapterOf adapters a.provider none
        → r ≡ error 400 "this provider has no live sync; use CSV import instead"
        → after ≡ view d
        → SyncsNow id d after r
    done :
        (n : ℕ) (a : CloudAccount) (provider : CostProvider)
        → url_param_uint id ≡ some n
        → Mem a (view d).cloud_accounts × (a.id ≡ n)
        → AdapterOf adapters a.provider (some provider)
        → r ≡ json 200 "synced"
        → SyncedFrom g promises u upserts box unmarshal now later provider a p (view d) after
        → SyncsNow id d after r
    failed :
        (n : ℕ) (a : CloudAccount) (provider : CostProvider) (d' : Db) (e : String)
        → url_param_uint id ≡ some n
        → Mem a (view d).cloud_accounts × (a.id ≡ n)
        → AdapterOf adapters a.provider (some provider)
        → view d' ≡ view d
        → (sync_account g u box unmarshal now later provider a d').0 ≡ err e
        → r ≡ error 502 (String.◌++◌ "sync failed: " e)
        → others after ≡ others (view d)
        → SyncsNow id d after r

  module _ (id : String) (n : ℕ) (good : url_param_uint id ≡ some n) (a : CloudAccount) (d0 d : Db)
      (found : Mem a (view d0).cloud_accounts × (a.id ≡ n)) (same : view d ≡ view d0) where
    answered :
        (provider : CostProvider)
        → AdapterOf adapters a.provider (some provider)
        → (out : Result (Unit {0}) × Db)
        → out ≡ sync_account g u box unmarshal now later provider a d
        → let answer = sync_answer g u box unmarshal adapters now later out in
          SyncsNow id d0 (view answer.1) answer.0
    unfolding sync_answer
    answered provider known (ok tt, d') e = done n a provider good found known refl (
        subst
          (λ s. SyncedFrom g promises u upserts box unmarshal now later provider a p s (view d'))
          same
          (subst
            (λ o.
              SyncedFrom g promises u upserts box unmarshal now later provider a p (view d)
                (view o.1))
            (sym e)
            (sync_account-SyncedFrom g promises u upserts box unmarshal now later provider a d p
              (sym (ap (λ o. o.0) e)))))
    answered provider known (err m, d') e =
        failed n a provider d m good found known same (sym (ap (λ o. o.0) e)) refl (
          ap (λ o. others (view o.1)) e
          ∙ sync_account_keeps_others g promises u upserts box unmarshal now later provider a d
          ∙ ap others same)

    sync_by-SyncsNow :
        (provider : Option CostProvider)
        → AdapterOf adapters a.provider provider
        → let answer = sync_by g u box unmarshal adapters now later provider a d in
          SyncsNow id d0 (view answer.1) answer.0
    unfolding sync_by
    sync_by-SyncsNow none known = no_adapter n a good found known refl same
    sync_by-SyncsNow (some provider) known = answered provider known _ refl

  found_account-SyncsNow :
      (id : String) (n : ℕ) (d : Db) (out : Result CloudAccount × Db)
      → url_param_uint id ≡ some n
      → out ≡ first Table.cloud_accounts (λ a. a.id == n) d
      → let answer = sync_found_account g u box unmarshal adapters now later out in
        SyncsNow id d (view answer.1) answer.0
  unfolding sync_found_account
  found_account-SyncsNow id n d (err m, d') good e =
      not_found n good (m, sym (ap (λ o. o.0) e)) refl
        (ap (λ o. view o.1) e ∙ promises.view-first Table.cloud_accounts (λ a. a.id == n) d)
  found_account-SyncsNow id n d (ok a, d') good e =
      let same : view d' ≡ view d =
        ap (λ o. view o.1) e ∙ promises.view-first Table.cloud_accounts (λ a. a.id == n) d in
      let (member, fits) =
        promises.first_row Table.cloud_accounts (λ a. a.id == n) d a (sym (ap (λ o. o.0) e)) in
      sync_by-SyncsNow id n good a d d' (member, (==_iff a.id n).0 fits) same
        (registry adapters a.provider) (registry-AdapterOf adapters a.provider)

  now_of-SyncsNow :
      (id : String) (parsed : Option ℕ) (d : Db)
      → url_param_uint id ≡ parsed
      → let answer = sync_now_of g u box unmarshal adapters now later parsed d in
        SyncsNow id d (view answer.1) answer.0
  unfolding sync_now_of
  now_of-SyncsNow id none d e = bad_id e refl refl
  now_of-SyncsNow id (some n) d e = found_account-SyncsNow id n d _ e refl

  -- A request to sync an account ends in one of five ways: 400 for an id that is no number, 404 where
  -- the account is not found, 400 where its provider has no adapter, each with no table changed;
  -- 200, where its credential was read and decrypted, the last 14 days fetched with it and each
  -- place left as the last fetched record for it says; or 502 with the error of the sync, where at
  -- most the costs and the cloud accounts changed.
  pub handle_sync_now-SyncsNow :
      (id : String) (d : Db)
      → let answer = handle_sync_now g u box unmarshal adapters now later id d in
        SyncsNow id d (view answer.1) answer.0
  unfolding handle_sync_now
  handle_sync_now-SyncsNow id d = now_of-SyncsNow id (url_param_uint id) d refl
