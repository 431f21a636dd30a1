-- ===== src/Base/Picks.antt =====
-- Loops that keep some of the entries of a list: `for … { if … { continue }; out = append(out, …) }`.
use mathlib.Core.Path.{◌≡◌, refl}
use mathlib.Core.Logic.{◌↔◌}
use mathlib.Core.Option.{Option, none, some}
use mathlib.Core.List.{List, [], ◌∷◌, ◌++◌, map}

abbrev pub keep {ℓ} : {B : Type ℓ} → Option B → List B → List B
keep none rest = rest
keep (some b) rest = b ∷ rest

-- The entries that `f` makes something of, in order.
abbrev pub filter_map {ℓ κ} : {A : Type ℓ} {B : Type κ} → (A → Option B) → List A → List B
filter_map f [] = []
filter_map f (x ∷ xs) = let rest = filter_map f xs in keep (f x) rest

abbrev pub concat_map {ℓ κ} : {A : Type ℓ} {B : Type κ} → (A → List B) → List A → List B
concat_map f [] = []
concat_map f (x ∷ xs) = f x ++ concat_map f xs

-- One result for each entry that has one, in order, and none for the others.
pub data Picks {A B : Type 0} (P : A → B → Type 0) : List A → List B → Type 0 where
  done : Picks P [] []
  kept :
      {x : A} {y : B} {xs : List A} {ys : List B}
      → P x y
      → Picks P xs ys
      → Picks P (x ∷ xs) (y ∷ ys)
  skipped :
      {x : A} {xs : List A} {ys : List B}
      → ((y : B) → ¬ P x y)
      → Picks P xs ys
      → Picks P (x ∷ xs) ys

-- Two lists, entry by entry.
pub data Each {A B : Type 0} (P : A → B → Type 0) : List A → List B → Type 0 where
  ended : Each P [] []
  paired :
      {x : A} {y : B} {xs : List A} {ys : List B} → P x y → Each P xs ys → Each P (x ∷ xs) (y ∷ ys)

pub map-Each :
    {A B : Type 0} (P : A → B → Type 0) (f : A → B)
    → ((x : A) → P x (f x))
    → (l : List A) → Each P l (map f l)
map-Each P f h [] = ended
map-Each P f h (x ∷ l) = paired (h x) (map-Each P f h l)

module _ {A B : Type 0} (P : A → B → Type 0) (f : A → Option B)
    (fits : (x : A) (y : B) → (f x ≡ some y) ↔ P x y) where
  keep-Picks :
      {x : A} {xs : List A} {ys : List B} (o : Option B)
      → f x ≡ o
      → Picks P xs ys
      → Picks P (x ∷ xs) (keep o ys)
  keep-Picks {x} none e rest = skipped (λ y p. cc (e, (fits x y).1 p)) rest
  keep-Picks {x} (some y) e rest = kept ((fits x y).0 e) rest

  pub filter_map-Picks : (xs : List A) → Picks P xs (filter_map f xs)
  filter_map-Picks [] = done
  filter_map-Picks (x ∷ xs) = keep-Picks (f x) refl (filter_map-Picks xs)
