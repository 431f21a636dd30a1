-- ===== src/Api/Response.antt =====
-- The answer of a handler: backend/internal/api/helpers.go.
use cloud_cost_dashboard.Base.{ℕ, ◌<◌, ◌≡◌, refl, ◌≢◌, ◌↔◌, true, String, Option, some}
use cloud_cost_dashboard.Base.Exec.{Result, ok, err}
use cloud_cost_dashboard.Text.Numbers.{parse_uint, two_to_64}
use cloud_cost_dashboard.Text.Numbers.Uint.{all_digits, value, parse_uint_iff}

-- `json` is `writeJSON`, `error` is `writeError` or `http.Error`, `no_content` the bare status 204.
pub data Response (A : Type 0) : Type 0 where
  json : ℕ → A → Response A
  error : ℕ → String → Response A
  no_content : Response A

unfoldable pub url_param_uint : String → Option ℕ
unfolding parse_uint
url_param_uint param = parse_uint param

-- A URL parameter is accepted as the number `n` exactly where it is not empty, all of it is decimal
-- digits, they write `n`, and `n` is below 2^64: nothing wraps around.
pub url_param_uint_iff :
    (s : String) (n : ℕ)
    → (url_param_uint s ≡ some n)
      ↔ ((s ≢ "") × (all_digits s ≡ true) × (value s ≡ n) × (n < two_to_64))
unfolding url_param_uint
url_param_uint_iff s n = parse_uint_iff s n

-- `if err != nil { writeError(refused) } else { done }`.
abbrev pub answer {ℓ} :
    {A B : Type 0} {S : Type ℓ} → (A → Response B) → Response B → Result A × S → Response B × S
answer done refused (ok a, s) = (done a, s)
answer done refused (err e, s) = (refused, s)

module _ {ℓ} {A B : Type 0} {S : Type ℓ} (done : A → Response B) (refused : Response B) where
  pub answer-ok : (r : Result A × S) (a : A) → r.0 ≡ ok a → answer done refused r ≡ (done a, r.1)
  answer-ok (ok b, s) a h = cc
  answer-ok (err e, s) a h = cc

  pub answer-err :
      (r : Result A × S) (e : String) → r.0 ≡ err e → answer done refused r ≡ (refused, r.1)
  answer-err (ok b, s) e h = cc
  answer-err (err c, s) e h = refl
