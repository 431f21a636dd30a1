-- ===== src/Api/Accounts/Updates.antt =====
-- What an update of a cloud account does.
use cloud_cost_dashboard.Base.{
  ℕ, String, ◌≡◌, ◌≢◌, false, arith, Bool-cases, refl, ap, sym, ◌∙◌, subst, inl, inr, Option, none,
  some, Mem, ◌==◌, ==_iff, if◌then◌else◌,
}
use cloud_cost_dashboard.Base.Picks.{Each, map-Each}
use cloud_cost_dashboard.Base.Exec.{Result, ok, err}
use cloud_cost_dashboard.Model.{Tables, Table, CloudAccount}
use cloud_cost_dashboard.Gorm.{Gorm, IsLawful}
use cloud_cost_dashboard.Api.Response.{Response, json, error, url_param_uint}
use cloud_cost_dashboard.Api.Accounts.{
  UpdateCloudAccountRequest, changed_account, or_kept, or_kept_id, found_or_zero, updated,
  update_account, handle_update_cloud_account,
}

-- A field after an update: the value that is asked for, or the one it had.
abbrev pub Asked : {A : Type 0} → Option A → A → A → Type 0
Asked none old new = new ≡ old
Asked (some value) old new = new ≡ value

abbrev pub AskedId : Option ℕ → Option ℕ → Option ℕ → Type 0
AskedId none old new = new ≡ old
AskedId (some value) old new = new ≡ some value

-- A row before and after an update of the account `n`.
pub record Changed (n : ℕ) (req : UpdateCloudAccountRequest) (a b : CloudAccount) : Type 0 where
  pub others : a.id ≢ n → b ≡ a
  pub name : a.id ≡ n → Asked req.name a.name b.name
  pub external_id : a.id ≡ n → Asked req.external_id a.external_id b.external_id
  pub credential_id : a.id ≡ n → AskedId req.credential_id a.credential_id b.credential_id
  pub active : a.id ≡ n → Asked req.active a.active b.active
  pub kept : b ≡ record a {
    name = b.name;
    external_id = b.external_id;
    credential_id = b.credential_id;
    active = b.active;
  }

or_kept-Asked : {A : Type 0} (o : Option A) (old : A) → Asked o old (or_kept o old)
or_kept-Asked none old = refl
or_kept-Asked (some value) old = refl

or_kept_id-AskedId : (o old : Option ℕ) → AskedId o old (or_kept_id o old)
or_kept_id-AskedId none old = refl
or_kept_id-AskedId (some value) old = refl

changed_account-Changed :
    (n : ℕ) (req : UpdateCloudAccountRequest) (a : CloudAccount)
    → Changed n req a (if a.id == n then changed_account req a else a)
changed_account-Changed n req a = elim (Bool-cases (a.id == n)) [
  | inl same ↦ rw same (record {
    others = λ other. absurd (other ((==_iff a.id n).0 same));
    name = λ e. or_kept-Asked req.name a.name;
    external_id = λ e. or_kept-Asked req.external_id a.external_id;
    credential_id = λ e. or_kept_id-AskedId req.credential_id a.credential_id;
    active = λ e. or_kept-Asked req.active a.active;
    kept = refl;
  })
  | inr other ↦
      let not_it : a.id ≢ n = λ e. ground (arith, other, e) in
      rw other (record {
        others = λ x. refl;
        name = λ e. absurd (not_it e);
        external_id = λ e. absurd (not_it e);
        credential_id = λ e. absurd (not_it e);
        active = λ e. absurd (not_it e);
        kept = refl;
      })
]

module _ (g : Gorm) (promises : IsLawful g) where
  open g use {Db, view, first, updates}
  open promises use {view-first, first_row, updates_rows, updates_fails}

  -- What is answered: the row of the account, or zeros where reading it back fails.
  pub data ReadBack (n : ℕ) (after : Tables) (a : CloudAccount) : Type 0 where
    found : Mem a after.cloud_accounts → a.id ≡ n → ReadBack n after a
    lost :
        (d' : Db) (e : String)
        → view d' ≡ after
        → (first Table.cloud_accounts (λ a. a.id == n) d').0 ≡ err e
        → a ≡ record {
          id = 0;
          region_id = 0;
          provider = "";
          name = "";
          external_id = "";
          credential_id = none;
          active = false;
          last_sync_at = none;
          last_sync_err = "";
          created_at = 0;
        }
        → ReadBack n after a

  -- The ways in which an update ends.
  pub data Updates (id : String) (body : Option UpdateCloudAccountRequest) (d : Db) (after : Tables)
      (r : Response CloudAccount) : Type 0 where
    bad_id :
        url_param_uint id ≡ none
        → r ≡ error 400 "invalid id"
        → after ≡ view d
        → Updates id body d after r
    bad_body :
        (n : ℕ)
        → url_param_uint id ≡ some n
        → body ≡ none
        → r ≡ error 400 "invalid request body"
        → after ≡ view d
        → Updates id body d after r
    failed :
        (n : ℕ) (req : UpdateCloudAccountRequest) (change : CloudAccount → CloudAccount)
        (e : String)
        → url_param_uint id ≡ some n
        → body ≡ some req
        → (updates Table.cloud_accounts (λ a. a.id == n) change d).0 ≡ err e
        → r ≡ error 500 "failed to update cloud account"
        → after ≡ view d
        → Updates id body d after r
    changed :
        (n : ℕ) (req : UpdateCloudAccountRequest) (a : CloudAccount)
        → url_param_uint id ≡ some n
        → body ≡ some req
        → r ≡ json 200 a
        → ReadBack n after a
        → Each (Changed n req) (view d).cloud_accounts after.cloud_accounts
        → after ≡ record (view d) { cloud_accounts = after.cloud_accounts }
        → Updates id body d after r

  -- What reading the row back gives.
  read_back :
      (n : ℕ) (d : Db) (r : Result CloudAccount)
      → (first Table.cloud_accounts (λ a. a.id == n) d).0 ≡ r
      → ReadBack n (view d) (found_or_zero r)
  read_back n d (ok a) h =
      let (member, fits) = first_row Table.cloud_accounts (λ a. a.id == n) d a h in
      found member ((==_iff a.id n).0 fits)
  read_back n d (err e) h = lost d e refl h refl

  updated-Updates :
      (id : String) (n : ℕ) (req : UpdateCloudAccountRequest) (d : Db)
      → url_param_uint id ≡ some n
      → (r : Result (Unit {0}))
      → (updates Table.cloud_accounts (λ a. a.id == n) (changed_account req) d).0 ≡ r
      → let d1 = (updates Table.cloud_accounts (λ a. a.id == n) (changed_account req) d).1 in
        let out = updated g n (r, d1) in Updates id (some req) d (view out.1) out.0
  unfolding updated
  updated-Updates id n req d good (err e) h =
      failed n req (changed_account req) e good refl h refl
        (updates_fails Table.cloud_accounts (λ a. a.id == n) (changed_account req) d e h)
  updated-Updates id n req d good (ok _) h =
      let d1 = (updates Table.cloud_accounts (λ a. a.id == n) (changed_account req) d).1 in
      let same = view-first Table.cloud_accounts (λ a. a.id == n) d1 in
      let read = first Table.cloud_accounts (λ a. a.id == n) d1 in
      let all_changed =
        updates_rows Table.cloud_accounts (λ a. a.id == n) (changed_account req) d h in
      let rows_changed = ap (λ (s : Tables). s.cloud_accounts) (same ∙ all_changed) in
      changed n req (found_or_zero read.0) good refl refl
        (subst (λ s. ReadBack n s (found_or_zero read.0)) (sym same) (read_back n d1 read.0 refl))
        (subst (Each (Changed n req) (view d).cloud_accounts) (sym rows_changed)
          (map-Each (Changed n req) _ (changed_account-Changed n req) (view d).cloud_accounts))
        (same ∙ all_changed ∙ ap (λ l. record (view d) { cloud_accounts = l }) (sym rows_changed))

  update_account-Updates :
      (id : String) (parsed : Option ℕ) (body : Option UpdateCloudAccountRequest) (d : Db)
      → url_param_uint id ≡ parsed
      → let out = update_account g parsed body d in Updates id body d (view out.1) out.0
  unfolding update_account
  update_account-Updates id none body d e = bad_id e refl refl
  update_account-Updates id (some n) none d e = bad_body n e refl refl refl
  update_account-Updates id (some n) (some req) d e =
      updated-Updates id n req d e
        (updates Table.cloud_accounts (λ a. a.id == n) (changed_account req) d).0 refl

  -- An update of a cloud account ends in one of four ways: the id is no number, or the body does not
  -- decode, which is 400, or the update fails, which is 500, and no table changes; or exactly the
  -- fields that were asked for have the values asked for in the account of the id, and the answer
  -- is 200 with the account as it is now, or with an account of zeros where reading it back fails.
  pub handle_update_cloud_account-Updates :
      (id : String) (body : Option UpdateCloudAccountRequest) (d : Db)
      → let out = handle_update_cloud_account g id body d in Updates id body d (view out.1) out.0
  unfolding handle_update_cloud_account
  handle_update_cloud_account-Updates id body d =
      update_account-Updates id (url_param_uint id) body d refl
