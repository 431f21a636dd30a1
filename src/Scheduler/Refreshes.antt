-- ===== src/Scheduler/Refreshes.antt =====
-- A full sync reaches every account that it is for, whatever fails on the way.
use cloud_cost_dashboard.Base.{
  ℕ, String, ◌≡◌, refl, sym, ◌∙◌, ap, subst, inl, inr, Bool, true, ◌&&◌, Option, none, some, List,
  [], ◌∷◌, any, any-perm, any-filter, arith, ◌==◌, ==_iff, Bool-cases,
}
use cloud_cost_dashboard.Base.Exec.{Result, ok, err}
use cloud_cost_dashboard.Model.{Table, Time, CloudAccount}
use cloud_cost_dashboard.Gorm.{Gorm, IsLawful}
use cloud_cost_dashboard.Crypto.{Bytes, Box}
use cloud_cost_dashboard.Providers.{Adapters, registry}
use cloud_cost_dashboard.Providers.Records.{CostProvider}
use cloud_cost_dashboard.Scheduler.{sync_if, sync_accounts, sync_found, sync_all}
use cloud_cost_dashboard.Scheduler.Sync.{has_adapter, is_synced}
use cloud_cost_dashboard.Scheduler.Upsert.{Upserts, IsLawfulUpserts}
use cloud_cost_dashboard.Scheduler.Touches.{touched, sync_if-touched}

-- Every account of the id has the time of the sync.
abbrev pub IsRefreshed : Time → ℕ → List CloudAccount → Type 0
IsRefreshed later n [] = Unit
IsRefreshed later n (a ∷ l) = (a.id ≡ n → a.last_sync_at ≡ some later) × IsRefreshed later n l

IsRefreshed-touched :
    (later : Time) (n k : ℕ) (message : String) (l : List CloudAccount)
    → IsRefreshed later n l
    → IsRefreshed later n (touched k later message l)
IsRefreshed-touched later n k message [] h = tt
IsRefreshed-touched later n k message (a ∷ l) h = elim (Bool-cases (a.id == k)) [
  | inl here ↦ rw here ((λ e. refl), IsRefreshed-touched later n k message l h.1)
  | inr past ↦ rw past (h.0, IsRefreshed-touched later n k message l h.1)
]

touched-IsRefreshed :
    (later : Time) (n : ℕ) (message : String) (l : List CloudAccount)
    → IsRefreshed later n (touched n later message l)
touched-IsRefreshed later n message [] = tt
touched-IsRefreshed later n message (a ∷ l) = elim (Bool-cases (a.id == n)) [
  | inl here ↦ rw here ((λ e. refl), touched-IsRefreshed later n message l)
  | inr past ↦
      rw past ((λ e. cc (past, (==_iff a.id n).1 e)), touched-IsRefreshed later n message l)
]

-- There is an account of the id.
abbrev pub has_id : ℕ → List CloudAccount → Bool
has_id n = any (λ a. a.id == n)

any-weaken {ℓ} :
    {A : Type ℓ} (p q : A → Bool) (l : List A)
    → ((a : A) → p a ≡ true → q a ≡ true)
    → any p l ≡ true
    → any q l ≡ true
any-weaken p q [] h e = e
any-weaken p q (a ∷ l) h e = elim (Bool-cases (p a)) [
  | inl here ↦ ground (arith, h a here)
  | inr past ↦ ground (arith, any-weaken p q l h (ground (arith, e, past)))
]

has_id-touched :
    (n k : ℕ) (later : Time) (message : String) (l : List CloudAccount)
    → has_id n (touched k later message l) ≡ has_id n l
has_id-touched n k later message [] = refl
has_id-touched n k later message (a ∷ l) = ground (arith, has_id-touched n k later message l)

module _ (g : Gorm) (promises : IsLawful g) (u : Upserts g) (upserts : IsLawfulUpserts g u)
    (box : Box) (unmarshal : Bytes → Result (String → String)) (now later : Time)
    (updates_return : (q : CloudAccount → Bool) (f : CloudAccount → CloudAccount) (d : g.Db)
      → (g.updates Table.cloud_accounts q f d).0 ≡ ok tt) where
  open g use {Db, view}

  -- What is refreshed stays so.
  sync_if_keeps_IsRefreshed :
      (n : ℕ) (provider : Option CostProvider) (account : CloudAccount) (d : Db)
      → IsRefreshed later n (view d).cloud_accounts
      → IsRefreshed later n
          (view (sync_if g u box unmarshal provider now later account d)).cloud_accounts
  unfolding sync_if
  sync_if_keeps_IsRefreshed n none account d h = h
  sync_if_keeps_IsRefreshed n (some provider) account d h =
      let (message, after) =
        sync_if-touched g promises u upserts box unmarshal now later updates_return provider account
          d in
      subst (IsRefreshed later n) (sym after) (IsRefreshed-touched later n account.id message _ h)

  sync_if_refreshes :
      (n : ℕ) (provider : Option CostProvider) (account : CloudAccount) (d : Db)
      → (has_adapter provider && account.id == n) ≡ true
      → IsRefreshed later n
          (view (sync_if g u box unmarshal provider now later account d)).cloud_accounts
  sync_if_refreshes n none account d h = cc
  sync_if_refreshes n (some provider) account d h =
      let (message, after) =
        sync_if-touched g promises u upserts box unmarshal now later updates_return provider account
          d in
      let same : account.id ≡ n = (==_iff account.id n).0 h in
      subst
        (λ k.
          IsRefreshed later k
            (view (sync_if g u box unmarshal (some provider) now later account d)).cloud_accounts)
        same
        (subst (IsRefreshed later account.id) (sym after)
          (touched-IsRefreshed later account.id message _))

  has_id-sync_if :
      (n : ℕ) (provider : Option CostProvider) (account : CloudAccount) (d : Db)
      → has_id n (view (sync_if g u box unmarshal provider now later account d)).cloud_accounts
        ≡ has_id n (view d).cloud_accounts
  unfolding sync_if
  has_id-sync_if n none account d = refl
  has_id-sync_if n (some provider) account d =
      let (message, after) =
        sync_if-touched g promises u upserts box unmarshal now later updates_return provider account
          d in
      ap (has_id n) after ∙ has_id-touched n account.id later message _

  module _ (adapters : Adapters) (n : ℕ) where
    has_id-sync_accounts :
        (l : List CloudAccount) (d : Db)
        → has_id n (view (sync_accounts g u box unmarshal adapters now later l d)).cloud_accounts
          ≡ has_id n (view d).cloud_accounts
    unfolding sync_accounts
    has_id-sync_accounts [] d = refl
    has_id-sync_accounts (a ∷ l) d =
        has_id-sync_accounts l _ ∙ has_id-sync_if n (registry adapters a.provider) a d

    has_id-sync_found :
        (out : Result (List CloudAccount) × Db)
        → has_id n (view (sync_found g u box unmarshal adapters now later out)).cloud_accounts
          ≡ has_id n (view out.1).cloud_accounts
    unfolding sync_found
    has_id-sync_found (ok l, d) = has_id-sync_accounts l d
    has_id-sync_found (err e, d) = refl

    sync_accounts_keep-IsRefreshed :
        (l : List CloudAccount) (d : Db)
        → IsRefreshed later n (view d).cloud_accounts
        → IsRefreshed later n
            (view (sync_accounts g u box unmarshal adapters now later l d)).cloud_accounts
    unfolding sync_accounts
    sync_accounts_keep-IsRefreshed [] d h = h
    sync_accounts_keep-IsRefreshed (a ∷ l) d h =
        sync_accounts_keep-IsRefreshed l _
          (sync_if_keeps_IsRefreshed n (registry adapters a.provider) a d h)

    sync_accounts_refresh :
        (l : List CloudAccount) (d : Db)
        → any (λ a. has_adapter (registry adapters a.provider) && a.id == n) l ≡ true
        → IsRefreshed later n
            (view (sync_accounts g u box unmarshal adapters now later l d)).cloud_accounts
    unfolding sync_accounts
    sync_accounts_refresh [] d h = cc
    sync_accounts_refresh (a ∷ l) d h =
        elim (Bool-cases (has_adapter (registry adapters a.provider) && a.id == n)) [
          | inl here ↦
              sync_accounts_keep-IsRefreshed l _
                (sync_if_refreshes n (registry adapters a.provider) a d here)
          | inr past ↦ sync_accounts_refresh l _ (ground (arith, h, past))
        ]

    sync_found_refreshes :
        (out : Result (List CloudAccount) × Db) (l : List CloudAccount)
        → out.0 ≡ ok l
        → any (λ a. has_adapter (registry adapters a.provider) && a.id == n) l ≡ true
        → IsRefreshed later n
            (view (sync_found g u box unmarshal adapters now later out)).cloud_accounts
    unfolding sync_found
    sync_found_refreshes (ok k, d) l e h =
        sync_accounts_refresh k d
          (ap (any (λ a. has_adapter (registry adapters a.provider) && a.id == n)) (cc e) ∙ h)
    sync_found_refreshes (err c, d) l e h = cc

    -- Where the query for the active accounts and the updates of accounts return, a full sync leaves
    -- each account with the time of the sync that was active and of a provider with an adapter,
    -- even if its credential, its fetch or the storing of its costs failed, or another account's;
    -- the account is still there.
    pub sync_all-IsRefreshed :
        (d : Db) (l : List CloudAccount)
        → (g.find Table.cloud_accounts (λ a. a.active) d).0 ≡ ok l
        → any (is_synced adapters n) (view d).cloud_accounts ≡ true
        → let after = (view (sync_all g u box unmarshal adapters now later d)).cloud_accounts in
          IsRefreshed later n after × (has_id n after ≡ true)
    unfolding sync_all
    sync_all-IsRefreshed d l read h = (
      sync_found_refreshes (g.find Table.cloud_accounts (λ a. a.active) d) l read (
          any-perm _ (promises.find_rows Table.cloud_accounts (λ a. a.active) d l read)
          ∙ any-filter (λ a. a.active) _ (view d).cloud_accounts
          ∙ h),
      has_id-sync_found (g.find Table.cloud_accounts (λ a. a.active) d)
          ∙ ap (λ s. has_id n s.cloud_accounts)
              (promises.view-find Table.cloud_accounts (λ a. a.active) d)
          ∙ any-weaken (is_synced adapters n) (λ a. a.id == n) (view d).cloud_accounts
              (λ a e. ground (arith, e)) h,
    )
