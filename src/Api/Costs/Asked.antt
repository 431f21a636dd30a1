-- ===== src/Api/Costs/Asked.antt =====
-- Which range of days and which scope a timeseries request asks for.
use cloud_cost_dashboard.Base.{
  ℕ, ◌-◌, ◌*◌, ◌%◌, String, ◌≡◌, ◌≢◌, refl, ◌∙◌, ap, ap₂, true, false, ◌⊎◌, inl, inr, Option, none,
  some, arith, str_eq, eq_iff, Bool-cases, Option-cases, if-true, if-false,
}
use cloud_cost_dashboard.Base.Exec.{Result, ok, err}
use cloud_cost_dashboard.Model.{Time}
use cloud_cost_dashboard.Text.Dates.{parse_date}
use cloud_cost_dashboard.Text.Numbers.{print_uint}
use cloud_cost_dashboard.Auth.Libraries.{Claims}
use cloud_cost_dashboard.Api.Costs.{
  bound, both, parse_date_range, is_restricted, scope_id_text, effective_scope,
}

-- A bound is the date of its parameter, or the default where the parameter is missing.
abbrev pub IsBound : String → Time → Time → Type 0
IsBound text default t = ((text ≡ "") × (t ≡ default)) ⊎ ((text ≢ "") × (parse_date text ≡ some t))

abbrev pub IsNoDate : String → Type 0
IsNoDate text = (text ≢ "") × (parse_date text ≡ none)

-- The range: by default the 30 days before the day of `now`.
pub data RangeOf (now : Time) (start end : String) (parsed : Result (Time × Time)) : Type 0 where
  valid :
      (s e : Time)
      → parsed ≡ ok (s, e)
      → IsBound start (now - now % 86_400_000_000_000 - 30 * 86_400_000_000_000) s
      → IsBound end (now - now % 86_400_000_000_000) e
      → RangeOf now start end parsed
  bad_start :
      IsNoDate start
      → parsed ≡ err "invalid start date (want YYYY-MM-DD)"
      → RangeOf now start end parsed
  bad_end :
      (s : Time)
      → IsBound start (now - now % 86_400_000_000_000 - 30 * 86_400_000_000_000) s
      → IsNoDate end
      → parsed ≡ err "invalid end date (want YYYY-MM-DD)"
      → RangeOf now start end parsed

bound-cases :
    (text : String) (default : Time) (message : String)
    → ((t : Time) × (bound text default message ≡ ok t) × IsBound text default t)
      ⊎ ((bound text default message ≡ err message) × IsNoDate text)
bound-cases text default message = elim (Bool-cases (str_eq text "")) [
  | inl missing ↦ inl (default, if-true _ _ missing, inl ((eq_iff text "").0 missing, refl))
  | inr given ↦
      let named : text ≢ "" = λ e. ground (arith, e, given, eq_iff text "") in
      elim (Option-cases (parse_date text)) [
        | inl bad ↦ inr (rw (given, bad) refl, (named, bad))
        | inr (t, good) ↦ inl (t, rw (given, good) refl, inr (named, good))
      ]
]

pub parse_date_range-RangeOf :
    (now : Time) (start end : String) → RangeOf now start end (parse_date_range now start end)
unfolding parse_date_range
parse_date_range-RangeOf now start end =
    elim (bound-cases start (now - now % 86_400_000_000_000 - 30 * 86_400_000_000_000)
      "invalid start date (want YYYY-MM-DD)") [
        | inr (stopped, bad) ↦ bad_start bad (
            ap
              (λ b.
                both b
                  (bound end (now - now % 86_400_000_000_000) "invalid end date (want YYYY-MM-DD)"))
              stopped)
        | inl (s, read, is_start) ↦
            elim (bound-cases end (now - now % 86_400_000_000_000)
              "invalid end date (want YYYY-MM-DD)") [
                | inr (stopped, bad) ↦ bad_end s is_start bad (ap₂ both read stopped)
                | inl (e, read_end, is_end) ↦ valid s e (ap₂ both read read_end) is_start is_end
              ]
      ]

-- The scope that a request for (t, id) is answered for: a viewer's own, if it has one.
pub data ScopeOf (claims : Option Claims) (t id : String) (scope : String × String) : Type 0 where
  anyone : claims ≡ none → scope ≡ (t, id) → ScopeOf claims t id scope
  unrestricted :
      (c : Claims)
      → claims ≡ some c
      → (c.role ≢ "viewer") ⊎ (c.scope_type ≡ "none")
      → scope ≡ (t, id)
      → ScopeOf claims t id scope
  own_node :
      (c : Claims) (n : ℕ)
      → claims ≡ some c
      → (c.role ≡ "viewer") × (c.scope_type ≢ "none")
      → c.scope_id ≡ some n
      → scope ≡ (c.scope_type, print_uint n)
      → ScopeOf claims t id scope
  own_type :
      (c : Claims)
      → claims ≡ some c
      → (c.role ≡ "viewer") × (c.scope_type ≢ "none")
      → c.scope_id ≡ none
      → scope ≡ (c.scope_type, id)
      → ScopeOf claims t id scope

viewer_scope :
    (c : Claims) → is_restricted (some c) ≡ true → (c.role ≡ "viewer") × (c.scope_type ≢ "none")
viewer_scope c h = (
  ground (arith, h, eq_iff c.role "viewer"),
  λ e. ground (arith, e, h, eq_iff c.scope_type "none"),
)

no_viewer_scope :
    (c : Claims) → is_restricted (some c) ≡ false → (c.role ≢ "viewer") ⊎ (c.scope_type ≡ "none")
no_viewer_scope c h = elim (Bool-cases (str_eq c.scope_type "none")) [
  | inl bare ↦ inr ((eq_iff c.scope_type "none").0 bare)
  | inr scoped ↦ inl (λ e. ground (arith, e, h, scoped, eq_iff c.role "viewer"))
]

pub effective_scope-ScopeOf :
    (claims : Option Claims) (t id : String) → ScopeOf claims t id (effective_scope claims t id)
unfolding effective_scope
effective_scope-ScopeOf none t id = anyone refl refl
effective_scope-ScopeOf (some c) t id = elim (Bool-cases (is_restricted (some c))) [
  | inr free ↦
      unrestricted c refl (no_viewer_scope c free)
        (if-false (c.scope_type, scope_id_text c.scope_id id) (t, id) free)
  | inl scoped ↦
      let e : effective_scope (some c) t id ≡ (c.scope_type, scope_id_text c.scope_id id) =
        if-true (c.scope_type, scope_id_text c.scope_id id) (t, id) scoped in
      elim (Option-cases c.scope_id) [
        | inl unnamed ↦
            own_type c refl (viewer_scope c scoped) unnamed
              (e ∙ ap (λ (o : Option ℕ). (c.scope_type, scope_id_text o id)) unnamed)
        | inr (n, known) ↦
            own_node c n refl (viewer_scope c scoped) known
              (e ∙ ap (λ (o : Option ℕ). (c.scope_type, scope_id_text o id)) known)
      ]
]
