-- ===== src/Base/Exec.antt =====
-- Calls that may fail and that change a store: what was written before an error stays written,
-- so the store comes back beside the error too.  An `error` value is its message.
use mathlib.Core.Path.{◌≡◌, refl}
use Prim.Native.String.{String}
use mathlib.Core.Logic.{◌⊎◌, inl, inr}
use mathlib.Core.List.{List, [], ◌∷◌}

pub data Result {ℓ} (A : Type ℓ) : Type ℓ where
  ok : A → Result A
  err : String → Result A

abbrev pub Exec {ℓ} : Type ℓ → Type ℓ → Type ℓ
Exec S A = S → Result A × S

module _ {ℓ} {S A : Type ℓ} where
  abbrev pub pure : A → Exec S A
  pure a s = (ok a, s)

  abbrev pub raise : String → Exec S A
  raise e s = (err e, s)

  abbrev pub lift : Result A → Exec S A
  lift r s = (r, s)

module _ {ℓ} {S A B : Type ℓ} where
  abbrev pub continue : Result A → (A → Exec S B) → Exec S B
  continue (ok a) f s = f a s
  continue (err e) f s = (err e, s)

  infixl 5 ◌>>=◌ ◌>>◌
  abbrev pub ◌>>=◌ : Exec S A → (A → Exec S B) → Exec S B
  ◌>>=◌ m f s = continue (m s).0 f (m s).1

  abbrev pub ◌>>◌ : Exec S A → Exec S B → Exec S B
  m >> k = m >>= λ _. k

  -- A call that returns has run both parts.
  pub >>=-eq-ok :
      (m : Exec S A) (f : A → Exec S B) (s : S) {b : B}
      → ((m >>= f) s).0 ≡ ok b
      → (a : A) × ((m s).0 ≡ ok a) × ((f a (m s).1).0 ≡ ok b) × ((m >>= f) s ≡ f a (m s).1)
  >>=-eq-ok m f s = go (m s).0 (m s).1
    where
      go :
          (r : Result A) (s' : S) {b : B}
          → (continue r f s').0 ≡ ok b
          → (a : A) × (r ≡ ok a) × ((f a s').0 ≡ ok b) × (continue r f s' ≡ f a s')
      go (ok a) s' h = (a, refl, h, refl)
      go (err c) s' h = cc

module _ {ℓ} {S A : Type ℓ} where
  -- `for _, x := range l { if err := body(x); err != nil { return err } }`
  abbrev pub for_each : (A → Exec S (Unit {ℓ})) → List A → Exec S (Unit {ℓ})
  for_each body [] = pure tt
  for_each body (x ∷ l) = let rest = for_each body l in body x >>= λ _. rest

pub Result-cases {ℓ} :
    {A : Type ℓ} (r : Result A) → ((a : A) × (r ≡ ok a)) ⊎ ((e : String) × (r ≡ err e))
Result-cases (ok a) = inl (a, refl)
Result-cases (err e) = inr (e, refl)
