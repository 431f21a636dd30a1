-- ===== src/Api/Accounts/Stores.antt =====
-- What the handlers of credentials and imports store.
use cloud_cost_dashboard.Base.{
  ℕ, String, ◌≡◌, refl, sym, ◌∙◌, ap, inl, inr, ◌||◌, some, List, [], ◌∷◌, ◌++◌, length, str_eq,
  Bool-cases, Option-cases, if-true, if-false,
}
use cloud_cost_dashboard.Base.Exec.{Result, ok, err, Result-cases}
use cloud_cost_dashboard.Model.{Tables, Table, ProviderCredential}
use cloud_cost_dashboard.Gorm.{Gorm, IsLawful}
use cloud_cost_dashboard.Crypto.{Bytes, Box, IsLawfulBox, encrypt, decrypt}
use cloud_cost_dashboard.Crypto.Seal.{decrypt-encrypt}
use cloud_cost_dashboard.Providers.Records
use cloud_cost_dashboard.Providers.Csv.{Conversions, parse_cost_csv}
use cloud_cost_dashboard.Scheduler.{import_manual_records}
use cloud_cost_dashboard.Scheduler.Sync.{last_record, upsert_cost_records-stored}
use cloud_cost_dashboard.Scheduler.Upsert.{Place, stored_at, Upserts, IsLawfulUpserts}
use cloud_cost_dashboard.Api.Response.{Response, json, error, url_param_uint, answer-ok, answer-err}
use cloud_cost_dashboard.Api.Accounts.{
  Fields, CreateCredentialRequest, store_encrypted, store_payload, handle_create_credential,
  import_records, import_file, handle_import_csv,
}

module _ (g : Gorm) (promises : IsLawful g) where
  open g use {Db, view, create}
  open promises use {create_rows}

  module _ (box : Box) (lawful_box : IsLawfulBox box) (marshal : Fields → Result Bytes)
      (nonce : Bytes) (size : length nonce ≡ box.nonce_size) (req : CreateCredentialRequest) where
    -- The credential that is stored, and how its payload reads.
    abbrev pub StoredCredential : Tables → Tables → ProviderCredential → Type 0
    StoredCredential before after c =
        (c.name ≡ req.name)
        × (c.provider ≡ req.provider)
        × ((payload : Bytes) × (marshal req.fields ≡ ok payload)
            × (decrypt box c.encrypted_payload ≡ ok payload))
        × (after ≡ record before { provider_credentials = before.provider_credentials ++ c ∷ [] })

    store_payload-stored :
        (payload : Result Bytes) (d : Db) (c : ProviderCredential)
        → marshal req.fields ≡ payload
        → (store_payload g box marshal (ok nonce) req payload d).0 ≡ json 201 c
        → StoredCredential
            (view d)
            (view (store_payload g box marshal (ok nonce) req payload d).1)
            c
    unfolding store_payload
    store_payload-stored (err e) d c m h = cc
    store_payload-stored (ok payload) d c m h = stored (encrypt box (ok nonce) payload) refl h
      where
        stored :
            (encrypted : Result String)
            → encrypt box (ok nonce) payload ≡ encrypted
            → (store_encrypted g box marshal (ok nonce) req encrypted d).0 ≡ json 201 c
            → StoredCredential
                (view d)
                (view (store_encrypted g box marshal (ok nonce) req encrypted d).1)
                c
        stored (err m') e k = cc
        stored (ok encrypted) e k =
            let row : ProviderCredential = record {
              id = 0;
              provider = req.provider;
              name = req.name;
              encrypted_payload = encrypted;
              created_at = 0;
            } in
            let out = create Table.provider_credentials row d in
            let failed = error 500 "failed to store credential" in
            elim (Result-cases out.0) [
              | inl (c', ran) ↦
                  let answered = answer-ok (json 201) failed out c' ran in
                  let same : c ≡ c' = cc (ap (λ o. o.0) answered, k) in
                  let (n, now, filled, _, _, after) =
                    create_rows Table.provider_credentials row c d (ran ∙ ap ok (sym same)) in
                  (
                    ap (λ x. x.name) filled,
                    ap (λ x. x.provider) filled,
                    (
                      payload,
                      m,
                      ap (λ x. decrypt box x.encrypted_payload) filled
                          ∙ decrypt-encrypt box lawful_box nonce payload encrypted size e,
                    ),
                    ap (λ o. view o.1) answered ∙ after,
                  )
              | inr (m', stopped) ↦
                  cc (ap (λ o. o.0) (answer-err (json 201) failed out m' stopped), k)
            ]

    -- A credential that is answered as created was stored as the one new row, under the name and the
    -- provider asked for; what is stored decrypts to the marshalled fields.
    pub handle_create_credential-json :
        (d : Db) (c : ProviderCredential)
        → (handle_create_credential g box marshal (ok nonce) (some req) d).0 ≡ json 201 c
        → StoredCredential
            (view d)
            (view (handle_create_credential g box marshal (ok nonce) (some req) d).1)
            c
    unfolding handle_create_credential
    handle_create_credential-json d c h =
        let refused : Response ProviderCredential × Db =
          (error 400 "provider and name are required", d) in
        let stored = store_payload g box marshal (ok nonce) req (marshal req.fields) d in
        elim (Bool-cases (str_eq req.name "" || str_eq req.provider "")) [
          | inl missing ↦ cc (ap (λ o. o.0) (if-true refused stored missing), h)
          | inr given ↦
              let e = if-false refused stored given in
              rw e (store_payload-stored (marshal req.fields) d c refl (sym (ap (λ o. o.0) e) ∙ h))
        ]

  module _ (u : Upserts g) (upserts : IsLawfulUpserts g u) (conv : Conversions) where
    import_records-stored :
        (n k : ℕ) (parsed : Result (List Records.CostRecord)) (d : Db) (p : Place)
        → (import_records g u conv n parsed d).0 ≡ json 200 k
        → (records : List Records.CostRecord) × (parsed ≡ ok records)
          × (k ≡ length records)
          × (stored_at p (view (import_records g u conv n parsed d).1).cost_records
              ≡ last_record n p records (stored_at p (view d).cost_records))
    unfolding import_records import_manual_records
    import_records-stored n k (err e) d p h = cc
    import_records-stored n k (ok records) d p h =
        let out = import_manual_records g u n records d in
        let done = λ (_ : Unit {0}). json 200 (length records) in
        let failed = error 500 "failed to store imported costs" in
        elim (Result-cases out.0) [
          | inl (_, ran) ↦
              let e = answer-ok done failed out tt ran in
              (
                records,
                refl,
                cc (ap (λ o. o.0) e, h),
                ap (λ o. stored_at p (view o.1).cost_records) e
                    ∙ upsert_cost_records-stored g promises u upserts n records d p ran,
              )
          | inr (m, stopped) ↦ cc (ap (λ o. o.0) (answer-err done failed out m stopped), h)
        ]

    -- An import that is answered with a number has parsed the whole file into so many records, and has
    -- left at every place what the last of them for the place says.
    pub handle_import_csv-json :
        (id : String) (rows : Result (List (List String))) (d : Db) (k : ℕ) (p : Place)
        → (handle_import_csv g u conv id (some rows) d).0 ≡ json 200 k
        → (n : ℕ) × (url_param_uint id ≡ some n)
          × ((records : List Records.CostRecord) × (parse_cost_csv conv rows ≡ ok records)
              × (k ≡ length records)
              × (stored_at p (view (handle_import_csv g u conv id (some rows) d).1).cost_records
                  ≡ last_record n p records (stored_at p (view d).cost_records)))
    unfolding handle_import_csv import_file
    handle_import_csv-json id rows d k p h = elim (Option-cases (url_param_uint id)) [
      | inl bad ↦ cc (ap (λ o. (import_file g u conv o (some rows) d).0) bad, h)
      | inr (n, good) ↦
          let e = ap (λ o. import_file g u conv o (some rows) d) good in
          let (records, parsed, count, after) =
            import_records-stored n k (parse_cost_csv conv rows) d p (sym (ap (λ o. o.0) e) ∙ h) in
          (
            n,
            good,
            (records, parsed, count, ap (λ o. stored_at p (view o.1).cost_records) e ∙ after),
          )
    ]
