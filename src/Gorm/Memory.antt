-- ===== src/Gorm/Memory.antt =====
-- A database in memory that keeps what `Gorm` asks: an example for the witnesses.  It runs as many
-- statements as its budget allows and fails from then on.
use mathlib.Core.List.Perm
use cloud_cost_dashboard.Base.{
  ℕ, zero, suc, ◌+◌, String, ◌≡◌, refl, ap, ◌∙◌, Bool, true, false, not, List, [], ◌∷◌, ◌++◌, map,
  Memᴰ, arith, filter, any, Bool-cases, inl, inr, if◌then◌else◌, ltb, ◌==◌, ◌≤◌, length,
}
use cloud_cost_dashboard.Base.Exec.{Result, ok, err}
use cloud_cost_dashboard.Model.{Tables, Table, Row, Time, rows, set_rows, key, stored, clash}
use cloud_cost_dashboard.Gorm.{Gorm, IsLawful}

abbrev pub Memory : Type 0
Memory = Tables × ℕ

-- One statement of the budget.
abbrev spend {ℓ} : {A : Type ℓ} → (Tables → Result A × Tables) → Memory → Result A × Memory
spend run (s, zero) = (err "disk I/O error", (s, 0))
spend run (s, suc n) = ((run s).0, ((run s).1, n))

abbrev first_of_list {ℓ} : {A : Type ℓ} → List A → Result A
first_of_list [] = err "record not found"
first_of_list (x ∷ l) = ok x

abbrev next_key : (t : Table) → List (Row t) → ℕ
next_key t [] = 1
next_key t (r ∷ l) = let n = next_key t l in if ltb (key t r) n then n else key t r + 1

abbrev insert : (t : Table) → Row t → Tables → Result (Row t) × Tables
insert t r s =
    if any (clash t r) (rows t s)
    then (err "UNIQUE constraint failed", s)
    else (let r' = stored t (next_key t (rows t s)) 0 r in
        (ok r', set_rows t (rows t s ++ r' ∷ []) s))

abbrev settle : Tables → Result (Unit {0}) × Memory → Result (Unit {0}) × Memory
settle s (ok tt, d) = (ok tt, d)
settle s (err e, (s', n)) = (err e, (s, n))

next_key-fresh :
    (t : Table) (m : ℕ) (l : List (Row t)) → next_key t l ≤ m → any (λ x. key t x == m) l ≡ false
next_key-fresh t m [] h = refl
next_key-fresh t m (r ∷ l) h = ground (arith, next_key-fresh t m l)

abbrev find_in : (t : Table) → (Row t → Bool) → Tables → Result (List (Row t))
find_in t p s = ok (filter p (rows t s))

abbrev first_in : (t : Table) → (Row t → Bool) → Tables → Result (Row t)
first_in t p s = first_of_list (filter p (rows t s))

abbrev count_in : (t : Table) → (Row t → Bool) → Tables → Result ℕ
count_in t p s = ok (length (filter p (rows t s)))

abbrev delete_in : (t : Table) → (Row t → Bool) → Tables → Result (Unit {0}) × Tables
delete_in t p s = (ok tt, set_rows t (filter (λ r. not (p r)) (rows t s)) s)

abbrev update_in :
    (t : Table) → (Row t → Bool) → (Row t → Row t) → Tables → Result (Unit {0}) × Tables
update_in t p f s = (ok tt, set_rows t (map (λ r. if p r then f r else r) (rows t s)) s)

abbrev unchanged {ℓ} : {A : Type ℓ} → (Tables → Result A) → Tables → Result A × Tables
unchanged read s = (read s, s)

view_unchanged {ℓ} :
    {A : Type ℓ} (read : Tables → Result A) (d : Memory) → (spend (unchanged read) d).1.0 ≡ d.0
view_unchanged read (s, zero) = refl
view_unchanged read (s, suc n) = refl

-- A statement that returned ran on the tables.
ran {ℓ} :
    {A : Type ℓ} (run : Tables → Result A × Tables) (d : Memory) {a : A}
    → (spend run d).0 ≡ ok a
    → ((run d.0).0 ≡ ok a) × ((spend run d).1.0 ≡ (run d.0).1)
ran run (s, zero) h = cc
ran run (s, suc n) h = (h, refl)

-- One that failed did so for want of budget, or by itself.
failed {ℓ} :
    {A : Type ℓ} (run : Tables → Result A × Tables) (d : Memory) {e : String}
    → ((s : Tables) → (run s).0 ≡ err e → (run s).1 ≡ s)
    → (spend run d).0 ≡ err e
    → (spend run d).1.0 ≡ d.0
failed run (s, zero) keeps h = refl
failed run (s, suc n) keeps h = keeps s h

insert_fails :
    (t : Table) (r : Row t) (s : Tables) (e : String)
    → (insert t r s).0 ≡ err e
    → (insert t r s).1 ≡ s
insert_fails t r s e h = ground arith

insert_stores :
    (t : Table) (r r' : Row t) (s : Tables)
    → (insert t r s).0 ≡ ok r'
    → (n : ℕ) × (now : Time) × (r' ≡ stored t n now r)
      × (any (λ x. key t x == n) (rows t s) ≡ false)
      × (any (clash t r) (rows t s) ≡ false)
      × ((insert t r s).1 ≡ set_rows t (rows t s ++ r' ∷ []) s)
insert_stores t r r' s h = elim (Bool-cases (any (clash t r) (rows t s))) [
  | inl taken ↦ absurd (ground arith)
  | inr free ↦ (
    next_key t (rows t s),
    0,
    ground arith,
    next_key-fresh t _ (rows t s) (omega arith),
    free,
    ground arith,
  )
]

some_ok {ℓ} : {A : Type ℓ} {a b : A} → ok a ≡ ok b → b ≡ a
some_ok h = cc

first_of_filter {ℓ} :
    {A : Type ℓ} (p : A → Bool) (l : List A) {r : A}
    → first_of_list (filter p l) ≡ ok r
    → Memᴰ r l × (p r ≡ true)
first_of_filter p [] h = cc
first_of_filter p (x ∷ l) {r} h = elim (Bool-cases (p x)) [
  | inl here ↦ let same : r ≡ x = ground arith in (Memᴰ.head same, ap p same ∙ here)
  | inr past ↦ let (m, e) = first_of_filter p l {r = r} (ground arith) in (Memᴰ.tail m, e)
]

settle_commits :
    (s : Tables) (out : Result (Unit {0}) × Memory)
    → (settle s out).0 ≡ ok tt
    → (out.0 ≡ ok tt) × ((settle s out).1.0 ≡ out.1.0)
settle_commits s (ok tt, d) h = (refl, refl)
settle_commits s (err e, (s', n)) h = cc

settle_rolls_back :
    (s : Tables) (out : Result (Unit {0}) × Memory) (e : String)
    → (settle s out).0 ≡ err e
    → (settle s out).1.0 ≡ s
settle_rolls_back s (ok tt, d) e h = cc
settle_rolls_back s (err c, (s', n)) e h = refl

abbrev pub memory : Gorm
memory = record {
  Db = Memory;
  view = λ d. d.0;
  find = λ t p. spend (unchanged (find_in t p));
  first = λ t p. spend (unchanged (first_in t p));
  count = λ t p. spend (unchanged (count_in t p));
  delete = λ t p. spend (delete_in t p);
  create = λ t r. spend (insert t r);
  updates = λ t p f. spend (update_in t p f);
  transaction = λ body d. settle d.0 (body d);
}

pub memory-IsLawful : IsLawful memory
memory-IsLawful = record {
  view-find = λ t p d. view_unchanged (find_in t p) d;
  view-first = λ t p d. view_unchanged (first_in t p) d;
  view-count = λ t p d. view_unchanged (count_in t p) d;
  find_rows = λ t p d l h. rw (some_ok (ran (unchanged (find_in t p)) d h).0) (Perm.refl _);
  first_row = λ t p d r h.
      let (m, e) = first_of_filter p (rows t d.0) (ran (unchanged (first_in t p)) d h).0 in
      (∣ m ∣₁, e);
  count_rows = λ t p d n h. some_ok (ran (unchanged (count_in t p)) d h).0;
  delete_rows = λ t p d h. (ran (delete_in t p) d h).1;
  create_rows = λ t r r' d h.
      let (inserted, moved) = ran (insert t r) d h in
      let (n, now, e, unused, free, v) = insert_stores t r r' d.0 inserted in
      (n, now, e, unused, free, moved ∙ v);
  updates_rows = λ t p f d h. (ran (update_in t p f) d h).1;
  delete_fails = λ t p d e h. failed (delete_in t p) d (λ s x. cc) h;
  create_fails = λ t r d e h. failed (insert t r) d (λ s. insert_fails t r s e) h;
  updates_fails = λ t p f d e h. failed (update_in t p f) d (λ s x. cc) h;
  transaction_commits = λ body d h. settle_commits d.0 (body d) h;
  transaction_rolls_back = λ body d e h. settle_rolls_back d.0 (body d) e h;
}
