-- ===== src/Hierarchy/Prune/Refers.antt =====
-- References by id from one table to another, and rows dropped from both.
use mathlib.Core.Logic.{∥∥₁_elim, ∥∥₁_map}
use mathlib.Core.HLevel.{hedberg}
use mathlib.Core.Bool.{Bool-discrete}
use cloud_cost_dashboard.Base.{
  ℕ, ◌≡◌, refl, sym, ap, ◌∙◌, inl, inr, Bool, true, false, not, ◌&&◌, List, [], ◌∷◌, Mem, Memᴰ,
  arith, ◌==◌, ==_iff, Bool-cases, if◌then◌else◌, filter, any, elem, any_ext,
}
use cloud_cost_dashboard.Hierarchy.Prune.{children}
use cloud_cost_dashboard.Hierarchy.Prune.Laws.{elem-children}

-- Each row refers to a row that is there.
abbrev pub Refers {ℓ κ} : {C : Type ℓ} {P : Type κ} → (C → ℕ) → (P → ℕ) → List C → List P → Type ℓ
Refers {C} parent key l parents = (c : C) → Mem c l → any (λ p. key p == parent c) parents ≡ true

module _ {ℓ} {A : Type ℓ} where
  mem-filterᴰ : (p : A → Bool) (l : List A) {a : A} → Memᴰ a (filter p l) → Memᴰ a l × (p a ≡ true)
  mem-filterᴰ p [] m = elim m [ ]
  mem-filterᴰ p (x ∷ l) {a} m = split (p x) refl (λ k. mem-filterᴰ p l k) m
    where
      split :
          (b : Bool)
          → p x ≡ b
          → (Memᴰ a (filter p l) → Memᴰ a l × (p a ≡ true))
          → Memᴰ a (if b then x ∷ filter p l else filter p l)
          → Memᴰ a (x ∷ l) × (p a ≡ true)
      split true kept rest (Memᴰ.head e) = (Memᴰ.head e, ap p e ∙ kept)
      split true kept rest (Memᴰ.tail k) = (Memᴰ.tail (rest k).0, (rest k).1)
      split false dropped rest k = (Memᴰ.tail (rest k).0, (rest k).1)

  mem-filter : (p : A → Bool) (l : List A) {a : A} → Mem a (filter p l) → Mem a l × (p a ≡ true)
  mem-filter p l {a} m = (
    ∥∥₁_map m (λ k. (mem-filterᴰ p l k).0),
    ∥∥₁_elim m (hedberg Bool-discrete _ _) (λ k. (mem-filterᴰ p l k).1),
  )

  any-memᴰ : (p : A → Bool) (l : List A) {a : A} → Memᴰ a l → p a ≡ true → any p l ≡ true
  any-memᴰ p [] m h = elim m [ ]
  any-memᴰ p (x ∷ l) (Memᴰ.head e) h = ground (arith, ap p e, h)
  any-memᴰ p (x ∷ l) (Memᴰ.tail m) h = ground (arith, any-memᴰ p l m h)

  any-mem : (p : A → Bool) (l : List A) {a : A} → Mem a l → p a ≡ true → any p l ≡ true
  any-mem p l m h = ∥∥₁_elim m (hedberg Bool-discrete _ _) (λ k. any-memᴰ p l k h)

  -- Of the rows that pass `k` none is dropped, so one is left.
  any-left :
      (q k : A → Bool) (l : List A)
      → any (λ a. not (q a) && k a) l ≡ false
      → any k l ≡ true
      → any k (filter q l) ≡ true
  any-left q k [] dropped h = h
  any-left q k (a ∷ l) dropped h = ground (arith, any-left q k l)

  -- No row passes an impossible test.
  any_never : (p : A → Bool) (l : List A) → ((a : A) → p a ≡ false) → any p l ≡ false
  any_never p [] h = refl
  any_never p (a ∷ l) h = ground (arith, h a, any_never p l h)

module _ {ℓ κ} {C : Type ℓ} {P : Type κ} (parent : C → ℕ) (key : P → ℕ) (l : List C)
    (parents : List P) where
  -- Fewer rows that refer.
  pub Refers-filter :
      (r : C → Bool) → Refers parent key l parents → Refers parent key (filter r l) parents
  Refers-filter r h c m = h c (mem-filter r l m).0

  -- The parents are dropped by their keys, and so are the rows that refer to these.
  pub Refers-by_parent :
      (gone : List ℕ)
      → Refers parent key l parents
      → Refers parent key
          (filter (λ c. not (elem (parent c) gone)) l)
          (filter (λ p. not (elem (key p) gone)) parents)
  Refers-by_parent gone h c m =
      let (found, kept) = mem-filter (λ c. not (elem (parent c) gone)) l m in
      any-left (λ p. not (elem (key p) gone)) (λ p. key p == parent c) parents
        (any_never _ parents (λ p. elim (Bool-cases (key p == parent c)) [
          | inl same ↦
              ground (arith, ap (λ n. elem n gone) ((==_iff (key p) (parent c)).0 same), kept)
          | inr other ↦ ground (arith, other)
        ]))
        (h c found)

  -- The same where the rows that refer are dropped by their own keys.
  pub Refers-by_key :
      (own : C → ℕ) (gone : List ℕ)
      → Refers parent key l parents
      → Refers parent key
          (filter (λ c. not (elem (own c) (children own parent gone l))) l)
          (filter (λ p. not (elem (key p) gone)) parents)
  Refers-by_key own gone h c m =
      let (found, kept) = mem-filter (λ c. not (elem (own c) (children own parent gone l))) l m in
      any-left (λ p. not (elem (key p) gone)) (λ p. key p == parent c) parents
        (any_never _ parents (λ p. elim (Bool-cases (elem (key p) gone && key p == parent c)) [
          | inl dropped ↦
              let in_gone : elem (parent c) gone ≡ true =
                ap (λ n. elem n gone)
                  (sym ((==_iff (key p) (parent c)).0 (ground (arith, dropped))))
                ∙ ground (arith, dropped) in
              let counted =
                elem-children own parent (own c) gone l
                ∙ any-mem (λ a. elem (parent a) gone && own a == own c) l found
                    (ground (arith, in_gone)) in
              ground (arith, counted, kept)
          | inr other ↦ ground (arith, other)
        ]))
        (h c found)

  -- The rows refer to rows whose parents are dropped, and are dropped with these.
  pub Refers-below :
      (above : P → ℕ) (gone : List ℕ)
      → Refers parent key l parents
      → Refers parent key
          (filter (λ c. not (elem (parent c) (children key above gone parents))) l)
          (filter (λ p. not (elem (above p) gone)) parents)
  Refers-below above gone h c m =
      let (found, kept) =
        mem-filter (λ c. not (elem (parent c) (children key above gone parents))) l m in
      any-left (λ p. not (elem (above p) gone)) (λ p. key p == parent c) parents
        (any_ext (λ p. not (not (elem (above p) gone)) && key p == parent c)
            (λ p. elem (above p) gone && key p == parent c) parents (λ p. ground arith)
          ∙ sym (elem-children key above (parent c) gone parents)
          ∙ ground (arith, kept))
        (h c found)
