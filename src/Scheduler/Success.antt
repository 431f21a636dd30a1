-- ===== src/Scheduler/Success.antt =====
-- What a sync of one account that succeeds has done.
use cloud_cost_dashboard.Base.{
  ℕ, ◌*◌, ◌-◌, String, ◌≡◌, refl, sym, ◌∙◌, ap, Option, none, some, List, Mem, ◌==◌, ==_iff,
}
use cloud_cost_dashboard.Base.Exec.{Result, ok, err, lift, >>=-eq-ok}
use cloud_cost_dashboard.Model.{Tables, Table, Time, CloudAccount, ProviderCredential}
use cloud_cost_dashboard.Gorm.{Gorm, IsLawful}
use cloud_cost_dashboard.Crypto.{Bytes, Box, decrypt}
use cloud_cost_dashboard.Providers.Records
use cloud_cost_dashboard.Providers.Records.{CostProvider}
use cloud_cost_dashboard.Text.Dates.{truncate_to_day}
use cloud_cost_dashboard.Scheduler.{
  upsert_cost_records, sync_fields, sync_with, sync_account, wrap, wrapped, synced,
}
use cloud_cost_dashboard.Scheduler.Upsert.{Place, stored_at, Upserts, IsLawfulUpserts}
use cloud_cost_dashboard.Scheduler.Sync.{last_record, upsert_cost_records-stored}

wrap-ok {ℓ} :
    {A : Type ℓ} (context : String) (r : Result A) {a : A} → wrap context r ≡ ok a → r ≡ ok a
wrap-ok context (ok b) h = h
wrap-ok context (err e) h = cc

module _ (g : Gorm) (promises : IsLawful g) (u : Upserts g) (upserts : IsLawfulUpserts g u)
    (box : Box) (unmarshal : Bytes → Result (String → String)) (now later : Time)
    (provider : CostProvider) (account : CloudAccount) where
  open g use {Db, view, first, updates}
  open promises use {view-first, first_row, updates_rows}

  -- What the provider returns for the last days, under the credential's fields.
  abbrev fetched : (String → String) → Result (List Records.CostRecord)
  fetched fields =
      provider.fetch_costs (record { external_id = account.external_id; credential = fields })
        (record { start = truncate_to_day now - 14 * 86400000000000; end = truncate_to_day now })

  -- The place holds what the last fetched record for it says.
  abbrev pub Stored : Place → (String → String) → Tables → Tables → Type 0
  Stored p fields before after =
      (records : List Records.CostRecord) × (fetched fields ≡ ok records)
      × (stored_at p after.cost_records
          ≡ last_record account.id p records (stored_at p before.cost_records))

  sync_fields-ok :
      (fields : String → String) (d : Db) (p : Place)
      → (sync_fields g u box unmarshal now later provider account fields d).0 ≡ ok tt
      → Stored p fields
          (view d)
          (view (sync_fields g u box unmarshal now later provider account fields d).1)
  unfolding sync_fields
  sync_fields-ok fields d p h =
      let (records, got, h1, e1) = >>=-eq-ok (lift (fetched fields)) _ d h in
      let (_, kept, h2, e2) =
        >>=-eq-ok (wrapped "store cost records: " (upsert_cost_records g u account.id records)) _ d
          h1 in
      let after =
        updates_rows Table.cloud_accounts (λ a. a.id == account.id) (synced later "") _ h2 in
      (
        records,
        got,
        ap (λ o. stored_at p (view o.1).cost_records) (e1 ∙ e2)
            ∙ ap (λ s. stored_at p s.cost_records) after
            ∙ upsert_cost_records-stored g promises u upserts account.id records d p
                (wrap-ok "store cost records: " _ kept),
      )

  -- The credential that the account names is in the table, its payload decrypts to fields, and what
  -- was fetched with them is stored.
  pub record SyncedFrom (p : Place) (before after : Tables) : Type 0 where
    pub cred : ProviderCredential
    pub plaintext : Bytes
    pub fields : String → String
    pub named : account.credential_id ≡ some cred.id
    pub member : Mem cred before.provider_credentials
    pub decrypted : decrypt box cred.encrypted_payload ≡ ok plaintext
    pub parsed : unmarshal plaintext ≡ ok fields
    pub records : Stored p fields before after

  sync_with-SyncedFrom :
      (credential : Option ℕ) (d : Db) (p : Place)
      → account.credential_id ≡ credential
      → (sync_with g u box unmarshal now later provider account credential d).0 ≡ ok tt
      → SyncedFrom p
          (view d)
          (view (sync_with g u box unmarshal now later provider account credential d).1)
  unfolding sync_with
  sync_with-SyncedFrom none d p e h = cc
  sync_with-SyncedFrom (some n) d p e h =
      let same_id = λ (c : ProviderCredential). c.id == n in
      let (cred, loaded, h1, e1) =
        >>=-eq-ok (wrapped "load credential: " (first Table.provider_credentials same_id)) _ d h in
      let d1 = (first Table.provider_credentials same_id d).1 in
      let (plaintext, opened, h2, e2) =
        >>=-eq-ok (lift (wrap "decrypt credential: " (decrypt box cred.encrypted_payload))) _ d1
          h1 in
      let (fields, read, h3, e3) =
        >>=-eq-ok (lift (wrap "parse credential payload: " (unmarshal plaintext))) _ d1 h2 in
      let (member, fits) =
        first_row Table.provider_credentials same_id d cred
          (wrap-ok "load credential: " _ loaded) in
      let (records, got, stored) = sync_fields-ok fields d1 p h3 in
      record {
        cred = cred;
        plaintext = plaintext;
        fields = fields;
        named = e ∙ ap some (sym ((==_iff cred.id n).0 fits));
        member = member;
        decrypted = wrap-ok "decrypt credential: " _ opened;
        parsed = wrap-ok "parse credential payload: " _ read;
        records = (
          records,
          got,
          ap (λ o. stored_at p (view o.1).cost_records) (e1 ∙ e2 ∙ e3)
              ∙ stored
              ∙ ap (λ s. last_record account.id p records (stored_at p s.cost_records))
                  (view-first Table.provider_credentials same_id d),
        );
      }

  -- A sync that returns without an error has read the credential that the account names, decrypted
  -- and parsed its payload, fetched the last 14 days with it, and left at every place what the last
  -- fetched record for the place says.
  pub sync_account-SyncedFrom :
      (d : Db) (p : Place)
      → (sync_account g u box unmarshal now later provider account d).0 ≡ ok tt
      → SyncedFrom p (view d) (view (sync_account g u box unmarshal now later provider account d).1)
  unfolding sync_account
  sync_account-SyncedFrom d p h = sync_with-SyncedFrom account.credential_id d p refl h
