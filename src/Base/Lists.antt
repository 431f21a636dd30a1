-- ===== src/Base/Lists.antt =====
-- Lists by Boolean predicates: `filter`, `any`, membership of a number, and their laws.
use Prim.Native.Nat.{ℕ, zero, suc}
use mathlib.Core.Path.{◌≡◌, refl, ap, ◌∙◌}
use mathlib.Core.Logic.{∥∥₁_elim, ∥∥₁_map, inl, inr}
use mathlib.Core.Bool.{Bool, true, false, ◌&&◌, ◌||◌, Bool-discrete}
use mathlib.Core.Option.{Option, none, some}
use mathlib.Core.List.{List, [], ◌∷◌, ◌++◌, map, Mem, Memᴰ, Perm, Permᴰ}
use mathlib.Core.HLevel.{hedberg}
use native.Mathlib.Omega.{arith}
use cloud_cost_dashboard.Base.Tests.{Bool-cases, ◌==◌, if◌then◌else◌}

module _ {ℓ} {A : Type ℓ} where
  abbrev pub length : List A → ℕ
  length [] = 0
  length (x ∷ xs) = suc (length xs)

  abbrev pub filter : (A → Bool) → List A → List A
  filter p [] = []
  filter p (x ∷ xs) = let rest = filter p xs in if p x then x ∷ rest else rest

  abbrev pub any : (A → Bool) → List A → Bool
  any p [] = false
  any p (x ∷ xs) = p x || any p xs

  abbrev pub all : (A → Bool) → List A → Bool
  all p [] = true
  all p (x ∷ xs) = p x && all p xs

  -- The first entry that passes the test.
  abbrev pub find : (A → Bool) → List A → Option A
  find p [] = none
  find p (x ∷ xs) = let rest = find p xs in if p x then some x else rest

  abbrev pub get_elem? : List A → ℕ → Option A
  get_elem? [] i = none
  get_elem? (x ∷ xs) zero = some x
  get_elem? (x ∷ xs) (suc i) = get_elem? xs i

  pub filter-filter :
      (p q : A → Bool) (xs : List A) → filter q (filter p xs) ≡ filter (λ x. p x && q x) xs
  filter-filter p q [] = refl
  filter-filter p q (x ∷ xs) = ground (arith, filter-filter p q xs)

  pub filter_ext :
      (p q : A → Bool) (xs : List A) → ((x : A) → p x ≡ q x) → filter p xs ≡ filter q xs
  filter_ext p q [] h = refl
  filter_ext p q (x ∷ xs) h = ground (arith, filter_ext p q xs h, h x)

  pub any_ext : (p q : A → Bool) (xs : List A) → ((x : A) → p x ≡ q x) → any p xs ≡ any q xs
  any_ext p q [] h = refl
  any_ext p q (x ∷ xs) h = ground (arith, any_ext p q xs h, h x)

  pub any-filter : (p q : A → Bool) (xs : List A) → any q (filter p xs) ≡ any (λ x. p x && q x) xs
  any-filter p q [] = refl
  any-filter p q (x ∷ xs) = ground (arith, any-filter p q xs)

  pub any-append : (p : A → Bool) (xs ys : List A) → any p (xs ++ ys) ≡ any p xs || any p ys
  any-append p [] ys = refl
  any-append p (x ∷ xs) ys = ground (arith, any-append p xs ys)

  pub any-or : (p q : A → Bool) (xs : List A) → any (λ x. p x || q x) xs ≡ any p xs || any q xs
  any-or p q [] = refl
  any-or p q (x ∷ xs) = ground (arith, any-or p q xs)

  any-permᴰ : (p : A → Bool) {xs ys : List A} → Permᴰ xs ys → any p xs ≡ any p ys
  any-permᴰ p Permᴰ.nil = refl
  any-permᴰ p (Permᴰ.cons {a} {b} e h) = ground (arith, ap p e, any-permᴰ p h)
  any-permᴰ p (Permᴰ.swap {a} {b} {a'} {b'} {l} e f) = ground (arith, ap p e, ap p f)
  any-permᴰ p (Permᴰ.trans h k) = any-permᴰ p h ∙ any-permᴰ p k

  pub any-perm : (p : A → Bool) {xs ys : List A} → Perm xs ys → any p xs ≡ any p ys
  any-perm p h = ∥∥₁_elim h (hedberg Bool-discrete _ _) (any-permᴰ p)

-- `x IN (list)`.
abbrev pub elem : ℕ → List ℕ → Bool
elem n = any (λ m. m == n)

pub any-map {ℓ κ} :
    {A : Type ℓ} {B : Type κ} (f : A → B) (p : B → Bool) (xs : List A)
    → any p (map f xs) ≡ any (λ x. p (f x)) xs
any-map f p [] = refl
any-map f p (x ∷ xs) = ground (arith, any-map f p xs)

pub filter_none {ℓ} :
    {A : Type ℓ} (p : A → Bool) (l : List A) → ((a : A) → p a ≡ false) → filter p l ≡ []
filter_none p [] h = refl
filter_none p (a ∷ l) h = ground (arith, h a, filter_none p l h)

module _ {ℓ} {A : Type ℓ} where
  pub filter_none_of_mem :
      (p : A → Bool) (l : List A) → ((a : A) → Mem a l → p a ≡ false) → filter p l ≡ []
  filter_none_of_mem p [] h = refl
  filter_none_of_mem p (a ∷ l) h =
      ground
        (arith, h a ∣ Memᴰ.head refl ∣₁, filter_none_of_mem p l (λ b m. h b (∥∥₁_map m Memᴰ.tail)))

-- Every entry of a list satisfies `P`.
module _ {ℓ κ} {A : Type ℓ} (P : A → Type κ) where
  abbrev pub All : List A → Type κ
  All [] = Unit
  All (x ∷ xs) = P x × All xs

  pub All-map {μ} : {B : Type μ} (f : B → A) (l : List B) → ((b : B) → P (f b)) → All (map f l)
  All-map f [] h = tt
  All-map f (b ∷ l) h = (h b, All-map f l h)

  pub All-map-filter {μ} :
      {B : Type μ} (f : B → A) (p : B → Bool) (l : List B)
      → ((b : B) → p b ≡ true → P (f b))
      → All (map f (filter p l))
  All-map-filter f p [] h = tt
  All-map-filter f p (b ∷ l) h = elim (Bool-cases (p b)) [
    | inl kept ↦ rw kept (h b kept, All-map-filter f p l h)
    | inr dropped ↦ rw dropped (All-map-filter f p l h)
  ]
