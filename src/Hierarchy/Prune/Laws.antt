-- ===== src/Hierarchy/Prune/Laws.antt =====
-- Pruning by two lists of ids in turn is pruning by both, and only membership in a list counts.
use cloud_cost_dashboard.Base.{
  ℕ, ◌≡◌, refl, sym, ap, ap₂, ◌∙◌, inl, inr, Bool, true, false, not, ◌&&◌, ◌||◌, List, [], ◌∷◌,
  ◌++◌, arith, ◌==◌, ==_iff, Bool-cases, filter, any, elem, filter-filter, filter_ext, any_ext,
  any-filter, any-append, any-or, any-map,
}
use cloud_cost_dashboard.Hierarchy.Prune.{children}

-- Two lists with the same members.
abbrev pub SameMembers : List ℕ → List ℕ → Type 0
SameMembers xs ys = (n : ℕ) → elem n xs ≡ elem n ys

module _ {ℓ} {A : Type ℓ} where
  pub filter-true : (p : A → Bool) (l : List A) → ((a : A) → p a ≡ true) → filter p l ≡ l
  filter-true p [] h = refl
  filter-true p (a ∷ l) h = ground (arith, h a, filter-true p l h)

  -- Two deletions in turn.
  pub filter_twice :
      (key : A → ℕ) (xs ys : List ℕ) (l : List A)
      → filter (λ a. not (elem (key a) ys)) (filter (λ a. not (elem (key a) xs)) l)
        ≡ filter (λ a. not (elem (key a) (xs ++ ys))) l
  filter_twice key xs ys l =
      filter-filter _ _ l
      ∙ filter_ext (λ a. not (elem (key a) xs) && not (elem (key a) ys)) _ l
          (λ a. ground (arith, any-append (λ m. m == key a) xs ys))

  pub filter_same :
      (key : A → ℕ) (xs ys : List ℕ) (l : List A)
      → SameMembers xs ys
      → filter (λ a. not (elem (key a) xs)) l ≡ filter (λ a. not (elem (key a) ys)) l
  filter_same key xs ys l h = filter_ext _ _ l (λ a. ap not (h (key a)))

module _ {ℓ} {A : Type ℓ} (key parent : A → ℕ) where
  pub elem-children :
      (n : ℕ) (xs : List ℕ) (l : List A)
      → elem n (children key parent xs l) ≡ any (λ a. elem (parent a) xs && key a == n) l
  elem-children n xs l = any-map key _ (filter (λ a. elem (parent a) xs) l) ∙ any-filter _ _ l

  pub elem-children_append :
      (n : ℕ) (xs ys : List ℕ) (l : List A)
      → elem n (children key parent (xs ++ ys) l)
        ≡ elem n (children key parent xs l) || elem n (children key parent ys l)
  elem-children_append n xs ys l =
      elem-children n (xs ++ ys) l
      ∙ any_ext _ _ l (λ a. ground (arith, any-append (λ m. m == parent a) xs ys))
      ∙ any-or (λ a. elem (parent a) xs && key a == n) (λ a. elem (parent a) ys && key a == n) l
      ∙ ground (arith, elem-children n xs l, elem-children n ys l)

  pub children_nil : (l : List A) → children key parent [] l ≡ []
  children_nil [] = refl
  children_nil (a ∷ l) = children_nil l

  pub children_same :
      (xs ys : List ℕ) (l : List A)
      → SameMembers xs ys
      → SameMembers (children key parent xs l) (children key parent ys l)
  children_same xs ys l h n =
      elem-children n xs l
      ∙ any_ext _ _ l (λ a. ap (λ b. b && key a == n) (h (parent a)))
      ∙ sym (elem-children n ys l)

  -- Rows that were deleted for their key are no children that were not counted.
  elem-children_left :
      (n : ℕ) (gone ys : List ℕ) (l : List A)
      → elem n gone ≡ false
      → elem n (children key parent ys (filter (λ a. not (elem (key a) gone)) l))
        ≡ elem n (children key parent ys l)
  elem-children_left n gone ys l e =
      elem-children n ys (filter (λ a. not (elem (key a) gone)) l)
      ∙ any-filter (λ a. not (elem (key a) gone)) _ l
      ∙ any_ext (λ a. not (elem (key a) gone) && (elem (parent a) ys && key a == n)) _ l pointwise
      ∙ sym (elem-children n ys l)
    where
      pointwise :
          (a : A)
          → (not (elem (key a) gone) && (elem (parent a) ys && key a == n))
            ≡ (elem (parent a) ys && key a == n)
      pointwise a = elim (Bool-cases (key a == n)) [
        | inl same ↦ ground (arith, ap (λ k. elem k gone) ((==_iff (key a) n).0 same))
        | inr other ↦ ground arith
      ]

  -- The children of `xs`, then those of `ys` that are left once the former are deleted by their key.
  pub children_twice :
      (xs ys : List ℕ) (l : List A)
      → SameMembers
          (children key parent xs l
            ++ children key parent ys
                (filter (λ a. not (elem (key a) (children key parent xs l))) l))
          (children key parent (xs ++ ys) l)
  children_twice xs ys l n =
      let first = children key parent xs l in
      let left = children key parent ys (filter (λ a. not (elem (key a) first)) l) in
      any-append (λ m. m == n) first left ∙ elim (Bool-cases (elem n first)) [
        | inl e ↦ ground (arith, elem-children_append n xs ys l)
        | inr e ↦ ground (arith, elem-children_append n xs ys l, elem-children_left n first ys l e)
      ]

  -- The same where the former are deleted by their parent.
  pub children_twice_by_parent :
      (xs ys : List ℕ) (l : List A)
      → SameMembers
          (children key parent xs l
            ++ children key parent ys (filter (λ a. not (elem (parent a) xs)) l))
          (children key parent (xs ++ ys) l)
  children_twice_by_parent xs ys l n =
      let kept = filter (λ a. not (elem (parent a) xs)) l in
      any-append (λ m. m == n) (children key parent xs l) (children key parent ys kept)
      ∙ ap₂ ◌||◌ (elem-children n xs l)
          (elem-children n ys kept ∙ any-filter (λ a. not (elem (parent a) xs)) _ l)
      ∙ sym (
          any-or (λ a. elem (parent a) xs && key a == n)
            (λ a. not (elem (parent a) xs) && (elem (parent a) ys && key a == n)) l)
      ∙ any_ext _ (λ a. elem (parent a) (xs ++ ys) && key a == n) l
          (λ a. ground (arith, any-append (λ m. m == parent a) xs ys))
      ∙ sym (elem-children n (xs ++ ys) l)
