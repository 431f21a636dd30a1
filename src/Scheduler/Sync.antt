-- ===== src/Scheduler/Sync.antt =====
-- What a sync and an import do to the table of costs: backend/internal/scheduler/scheduler.go.
use cloud_cost_dashboard.Base.{
  ℕ, String, ◌≡◌, ◌⊎◌, inl, inr, refl, sym, ap, ◌∙◌, Bool, true, false, ◌&&◌, ◌||◌, any, any-filter,
  any-perm, Option, none, some, List, [], ◌∷◌, map, ◌==◌, str_eq, if◌then◌else◌, Bool-cases,
  if-true, if-false,
}
use cloud_cost_dashboard.Base.Exec.{Result, ok, err, Result-cases}
use cloud_cost_dashboard.Model.{Table, Tables, Float64, Time, CloudAccount}
use cloud_cost_dashboard.Gorm.{Gorm, IsLawful}
use cloud_cost_dashboard.Crypto.{Bytes, Box}
use cloud_cost_dashboard.Providers.{Adapters, registry}
use cloud_cost_dashboard.Providers.Records
use cloud_cost_dashboard.Providers.Records.{CostProvider}
use cloud_cost_dashboard.Scheduler.{
  cost_row, cost_conflict, upsert_cost_records, import_manual_records, sync_if, sync_accounts,
  sync_found, sync_all,
}
use cloud_cost_dashboard.Scheduler.Keeps.{Keeps, sync_if-Keeps as sync_one-Keeps}
use cloud_cost_dashboard.Scheduler.Upsert.{
  Place, stored_at, overwritten, written_at, Upserts, IsLawfulUpserts,
}

-- What the last record of a batch for a place says of it, an amount and a currency, "USD" where the
-- record has none; where no record is for the place, what was there before.
abbrev pub last_record :
    ℕ → Place → List Records.CostRecord → Option (Float64 × String) → Option (Float64 × String)
last_record account p [] before = before
last_record account p (r ∷ rs) before = last_record account p rs (
    if account == p.account && (r.date == p.date && str_eq r.service_name p.service)
    then some (r.amount, if str_eq r.currency "" then "USD" else r.currency)
    else before)

-- Written over another row or not, a row of a sync leaves its amount and its currency.
overwritten-cost_row :
    (account : ℕ) (r : Records.CostRecord) (before : Option (Float64 × String))
    → overwritten ("amount" ∷ "currency" ∷ []) (cost_row account r) before
      ≡ (r.amount, if str_eq r.currency "" then "USD" else r.currency)
unfolding cost_row
overwritten-cost_row account r none = refl
overwritten-cost_row account r (some (amount, currency)) = refl

written_at-last_record :
    (account : ℕ) (p : Place) (l : List Records.CostRecord) (before : Option (Float64 × String))
    → written_at ("amount" ∷ "currency" ∷ []) p (map (cost_row account) l) before
      ≡ last_record account p l before
unfolding cost_row
written_at-last_record account p [] before = refl
written_at-last_record account p (r ∷ l) before =
    let here = account == p.account && (r.date == p.date && str_eq r.service_name p.service) in
    written_at-last_record account p l _
    ∙ ap (λ o. last_record account p l (if here then some o else before))
        (overwritten-cost_row account r before)

-- A batch either leaves a place alone, or what it says of it does not depend on what was there.
last_record-cases :
    (account : ℕ) (p : Place) (l : List Records.CostRecord)
    → ((before : Option (ℕ × String)) → last_record account p l before ≡ before)
      ⊎ ((before after : Option (ℕ × String))
          → last_record account p l before ≡ last_record account p l after)
last_record-cases account p [] = inl (λ before. refl)
last_record-cases account p (r ∷ l) =
    let here = account == p.account && (r.date == p.date && str_eq r.service_name p.service) in
    elim (last_record-cases account p l) [
      | inr same ↦ inr (λ before after. same _ _)
      | inl keeps ↦ elim (Bool-cases here) [
        | inl hit ↦ inr (λ before after.
            ap (last_record account p l)
              (if-true {b = here} _ before hit ∙ sym (if-true _ after hit)))
        | inr past ↦ inl (λ before.
            ap (last_record account p l) (if-false {b = here} _ before past) ∙ keeps before)
      ]
    ]

last_record-last_record :
    (account : ℕ) (p : Place) (l : List Records.CostRecord) (before : Option (ℕ × String))
    → last_record account p l (last_record account p l before) ≡ last_record account p l before
last_record-last_record account p l before = elim (last_record-cases account p l) [
  | inl keeps ↦ keeps (last_record account p l before)
  | inr same ↦ same _ _
]

-- The records of an account say nothing of another one's places.
last_record-elsewhere :
    (p : Place) (account : ℕ) (l : List Records.CostRecord) (before : Option (ℕ × String))
    → (account == p.account) ≡ false
    → last_record account p l before ≡ before
last_record-elsewhere p account [] before other = refl
last_record-elsewhere p account (r ∷ l) before other =
    ap (last_record account p l) (
      if-false {b = account == p.account && (r.date == p.date && str_eq r.service_name p.service)} _
        before (rw other refl))
    ∙ last_record-elsewhere p account l before other

abbrev pub has_adapter : Option CostProvider → Bool
has_adapter none = false
has_adapter (some provider) = true

-- Whether an account is one that a full sync fetches costs for, and has the id.
abbrev pub is_synced : Adapters → ℕ → CloudAccount → Bool
is_synced adapters n a = a.active && (has_adapter (registry adapters a.provider) && a.id == n)

orb-false : (a : Bool) {b : Bool} → (a || b) ≡ false → (a ≡ false) × (b ≡ false)
orb-false true h = cc
orb-false false h = (refl, h)

module _ (g : Gorm) (promises : IsLawful g) (u : Upserts g) (upserts : IsLawfulUpserts g u) where
  open g use {Db, view}

  -- A batch of an account that is stored leaves at each place what its last record for the place says.
  pub upsert_cost_records-stored :
      (account : ℕ) (records : List Records.CostRecord) (d : Db) (p : Place)
      → (upsert_cost_records g u account records d).0 ≡ ok tt
      → stored_at p (view (upsert_cost_records g u account records d).1).cost_records
        ≡ last_record account p records (stored_at p (view d).cost_records)
  unfolding upsert_cost_records
  upsert_cost_records-stored account [] d p h = refl
  upsert_cost_records-stored account (r ∷ rs) d p h =
      upserts.upsert_stores cost_conflict _ d p refl h
      ∙ written_at-last_record account p (r ∷ rs) (stored_at p (view d).cost_records)

  -- Where an import returns and so does the same import again, the first leaves at every place
  -- (account, date and service) what the last record for the place says, or what was there if
  -- there is none, and the second changes no place.
  pub import_manual_records_twice :
      (account : ℕ) (records : List Records.CostRecord) (d : Db) (p : Place)
      → (import_manual_records g u account records d).0 ≡ ok tt
      → (import_manual_records g u account records
          (import_manual_records g u account records d).1).0
        ≡ ok tt
      → let once = (import_manual_records g u account records d).1 in
        let twice = (import_manual_records g u account records once).1 in
        (stored_at p (view once).cost_records
          ≡ last_record account p records (stored_at p (view d).cost_records))
        × (stored_at p (view twice).cost_records ≡ stored_at p (view once).cost_records)
  unfolding import_manual_records
  import_manual_records_twice account records d p h1 h2 =
      let once = upsert_cost_records-stored account records d p h1 in
      (
        once,
        upsert_cost_records-stored account records _ p h2
            ∙ ap (last_record account p records) once
            ∙ last_record-last_record account p records (stored_at p (view d).cost_records)
            ∙ sym once,
      )

  -- What is stored at a place.
  abbrev at_place : Place → Tables → Option (Float64 × String)
  at_place p s = stored_at p s.cost_records

  updates-Keeps :
      (p : Place) (q : CloudAccount → Bool) (f : CloudAccount → CloudAccount)
      → Keeps (at_place p) g (g.updates Table.cloud_accounts q f)
  updates-Keeps p q f d = elim (Result-cases (g.updates Table.cloud_accounts q f d).0) [
    | inl (_, h) ↦
        ap (λ s. stored_at p s.cost_records) (promises.updates_rows Table.cloud_accounts q f d h)
    | inr (e, h) ↦
        ap (λ s. stored_at p s.cost_records) (promises.updates_fails Table.cloud_accounts q f d e h)
  ]

  upsert_cost_records_fails :
      (account : ℕ) (l : List Records.CostRecord) (d : Db) (p : Place) (e : String)
      → (upsert_cost_records g u account l d).0 ≡ err e
      → stored_at p (view (upsert_cost_records g u account l d).1).cost_records
        ≡ stored_at p (view d).cost_records
  unfolding upsert_cost_records
  upsert_cost_records_fails account [] d p e h = refl
  upsert_cost_records_fails account (r ∷ rs) d p e h =
      ap (λ s. stored_at p s.cost_records) (upserts.upsert_fails cost_conflict _ d e h)

  upsert_cost_records-Keeps :
      (p : Place) (account : ℕ) (records : List Records.CostRecord)
      → (account == p.account) ≡ false
      → Keeps (at_place p) g (upsert_cost_records g u account records)
  upsert_cost_records-Keeps p account records other d =
      elim (Result-cases (upsert_cost_records g u account records d).0) [
        | inl (_, h) ↦
            upsert_cost_records-stored account records d p h
            ∙ last_record-elsewhere p account records _ other
        | inr (e, h) ↦ upsert_cost_records_fails account records d p e h
      ]

  module _ (box : Box) (unmarshal : Bytes → Result (String → String)) (now later : Time) where
    sync_if-Keeps :
        (p : Place) (provider : Option CostProvider) (account : CloudAccount)
        → (has_adapter provider && account.id == p.account) ≡ false
        → (d : Db)
        → stored_at p (view (sync_if g u box unmarshal provider now later account d)).cost_records
          ≡ stored_at p (view d).cost_records
    unfolding sync_if
    sync_if-Keeps p none account other d = refl
    sync_if-Keeps p (some provider) account other d =
        sync_one-Keeps (at_place p) g promises u box unmarshal now later (updates-Keeps p) account
          (λ records. upsert_cost_records-Keeps p account.id records other) provider d

    sync_accounts-Keeps :
        (adapters : Adapters) (p : Place) (l : List CloudAccount)
        → any (λ a. has_adapter (registry adapters a.provider) && a.id == p.account) l ≡ false
        → (d : Db)
        → stored_at p (view (sync_accounts g u box unmarshal adapters now later l d)).cost_records
          ≡ stored_at p (view d).cost_records
    unfolding sync_accounts
    sync_accounts-Keeps adapters p [] none_of d = refl
    sync_accounts-Keeps adapters p (a ∷ l) none_of d =
        let (here, rest) =
          orb-false (has_adapter (registry adapters a.provider) && a.id == p.account) none_of in
        sync_accounts-Keeps adapters p l rest
          (sync_if g u box unmarshal (registry adapters a.provider) now later a d)
        ∙ sync_if-Keeps p (registry adapters a.provider) a here d

    -- A full sync leaves every stored cost as it was whose account is not both active and of a
    -- provider with an adapter, whatever fails.
    pub sync_all_keeps_others :
        (adapters : Adapters) (p : Place) (d : Db)
        → any (is_synced adapters p.account) (view d).cloud_accounts ≡ false
        → stored_at p (view (sync_all g u box unmarshal adapters now later d)).cost_records
          ≡ stored_at p (view d).cost_records
    unfolding sync_all sync_found
    sync_all_keeps_others adapters p d none_of =
        found (g.find Table.cloud_accounts (λ a. a.active) d) (λ l h.
          any-perm (λ a. has_adapter (registry adapters a.provider) && a.id == p.account)
            (promises.find_rows Table.cloud_accounts (λ a. a.active) d l h)
          ∙ any-filter (λ a. a.active) _ (view d).cloud_accounts
          ∙ none_of)
        ∙ ap (λ s. stored_at p s.cost_records)
            (promises.view-find Table.cloud_accounts (λ a. a.active) d)
      where
        found :
            (out : Result (List CloudAccount) × Db)
            → ((l : List CloudAccount)
                → out.0 ≡ ok l
                → any (λ a. has_adapter (registry adapters a.provider) && a.id == p.account) l
                  ≡ false)
            → stored_at p (view (sync_found g u box unmarshal adapters now later out)).cost_records
              ≡ stored_at p (view out.1).cost_records
        found (err e, d) none_found = refl
        found (ok l, d) none_found = sync_accounts-Keeps adapters p l (none_found l refl) d
