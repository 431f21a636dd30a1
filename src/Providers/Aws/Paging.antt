-- ===== src/Providers/Aws/Paging.antt =====
-- The loop over the pages of Cost Explorer ends with the pages.
use mathlib.Core.List.{append-nil, append_assoc}
use cloud_cost_dashboard.Base.{
  ℕ, zero, suc, ◌<◌, String, ◌<>◌, ◌≡◌, refl, ◌∙◌, ap, false, ◌||◌, Option, none, some, List, [],
  ◌∷◌, ◌++◌, arith, length, str_eq, if-false,
}
use cloud_cost_dashboard.Base.Exec.{Result, ok, err}
use cloud_cost_dashboard.Base.Picks.{concat_map}
use cloud_cost_dashboard.Model.{Float64}
use cloud_cost_dashboard.Providers.Records.{CostRecord, AccountConfig, DateRange}
use cloud_cost_dashboard.Providers.Sdk.{AwsOutput, CostExplorer}
use cloud_cost_dashboard.Providers.Aws.{
  page_records, page_input, fetch_pages, with_client, fetch_costs,
}

module _ (parse_float : String → Option Float64) (sdk : CostExplorer) (client : sdk.Client)
    (r : DateRange) where
  -- What the service answers from a page token on: pages up to one that names no next page, or up
  -- to a call that fails.
  pub data Pages : Option String → List AwsOutput → Result (Unit {0}) → Type 0 where
    failed :
        {token : Option String} {e : String}
        → sdk.get_cost_and_usage client (page_input parse_float sdk r token) ≡ err e
        → Pages token [] (err e)
    last :
        {token : Option String} {out : AwsOutput}
        → sdk.get_cost_and_usage client (page_input parse_float sdk r token) ≡ ok out
        → out.next_page_token ≡ none
        → Pages token (out ∷ []) (ok tt)
    more :
        {token : Option String} {out : AwsOutput} {outs : List AwsOutput} {end : Result (Unit {0})}
        (t : String)
        → sdk.get_cost_and_usage client (page_input parse_float sdk r token) ≡ ok out
        → out.next_page_token ≡ some t
        → Pages (some t) outs end
        → Pages token (out ∷ outs) end

  -- What the loop makes of the pages.
  abbrev pub fetched : Result (Unit {0}) → List CostRecord → Result (List CostRecord)
  fetched (ok _) records = ok records
  fetched (err e) records = err ("aws: GetCostAndUsage: " <> e)

  fetch_pages-Pages :
      {token : Option String} {outs : List AwsOutput} {end : Result (Unit {0})}
      → Pages token outs end
      → (fuel : ℕ) (records : List CostRecord) → length outs < fuel
      → fetch_pages parse_float sdk fuel client r token records
        ≡ some (fetched end (records ++ concat_map (page_records parse_float) outs))
  unfolding fetch_pages
  fetch_pages-Pages p zero records h = elim h [ ]
  fetch_pages-Pages (failed e) (suc fuel) records h = rw (e, fetch_pages) refl
  fetch_pages-Pages (last {out} e end) (suc fuel) records h =
      ground (arith, append-nil (page_records parse_float out))
  fetch_pages-Pages (more {out} {outs} t e next rest) (suc fuel) records h = ground (
    arith,
    fetch_pages-Pages rest fuel (records ++ page_records parse_float out) (omega arith),
    append_assoc records (page_records parse_float out)
        (concat_map (page_records parse_float) outs),
  )

-- Where the service answers with finitely many pages and the loop has a round more than there are
-- pages, the adapter returns the records of all the pages in order, or the error of the call
-- that failed.
pub fetch_costs-Pages :
    (parse_float : String → Option Float64) (sdk : CostExplorer) (account : AccountConfig)
    (r : DateRange) (client : sdk.Client) (outs : List AwsOutput) (end : Result (Unit {0}))
    (fuel : ℕ)
    → (str_eq (account.credential "access_key_id") ""
        || str_eq (account.credential "secret_access_key") "")
      ≡ false
    → sdk.load_config "us-east-1"
        (account.credential "access_key_id")
        (account.credential "secret_access_key")
      ≡ ok client
    → Pages parse_float sdk client r none outs end
    → length outs < fuel
    → fetch_costs parse_float sdk fuel account r
      ≡ some (fetched parse_float sdk client r end (concat_map (page_records parse_float) outs))
unfolding fetch_costs with_client
fetch_costs-Pages parse_float sdk account r client outs end fuel given loaded pages enough =
    if-false _ _ given
    ∙ ap (with_client parse_float sdk fuel r) loaded
    ∙ fetch_pages-Pages parse_float sdk client r pages fuel [] enough
