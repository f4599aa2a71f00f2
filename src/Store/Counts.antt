-- ===== src/Store/Counts.antt =====
-- How many rows pass a test, when rows are changed or added (internal/rawstore/store.go).
use worm.Base.{
  ◌+◌, ◌≤◌, ◌≡◌, refl, Bool, true, ◌&&◌, not, List, [], ◌∷◌, ◌++◌, none, count_where, find_where,
  update_where, count_where-append, Bool-cases, inl, inr, arith,
}

module _ {A : Type 0} where
  -- Entries that pass a test and are changed pass what the changed ones pass.
  pub count_where-update :
      (p q : A → Bool) (f : A → A) (xs : List A)
      → ((x : A) → p x ≡ true → q (f x) ≡ true)
      → 1 ≤ count_where p xs
      → 1 ≤ count_where q (update_where p f xs)
  unfolding count_where update_where
  count_where-update p q f [] h c = absurd (omega (arith, c))
  count_where-update p q f (x ∷ xs) h c = elim (Bool-cases (p x)) [
    | inl e ↦ let g = h x e in ground arith
    | inr e ↦
        let c' : 1 ≤ count_where p xs = ground arith in
        let rest = count_where-update p q f xs h c' in ground arith
  ]

  -- A change that a test does not see.
  pub count_where-unseen :
      (p q : A → Bool) (f : A → A) (xs : List A)
      → ((x : A) → q (f x) ≡ q x)
      → count_where q (update_where p f xs) ≡ count_where q xs
  unfolding count_where update_where
  count_where-unseen p q f [] h = refl
  count_where-unseen p q f (x ∷ xs) h =
      let rest = count_where-unseen p q f xs h in let here = h x in ground arith

  pub count_where-split :
      (p q : A → Bool) (xs : List A)
      → count_where p xs ≤ count_where q xs + count_where (λ x. p x && not (q x)) xs
  unfolding count_where
  count_where-split p q [] = omega arith
  count_where-split p q (x ∷ xs) = ground (arith, count_where-split p q xs)

  pub count_where-find :
      (p : A → Bool) (xs : List A) → count_where p xs ≡ 0 → find_where p xs ≡ none
  unfolding count_where find_where
  count_where-find p [] h = refl
  count_where-find p (x ∷ xs) h = ground (arith, count_where-find p xs)

module _ {A : Type 0} where
  pub count_where-last :
      (p : A → Bool) (xs : List A) (x : A) → p x ≡ true → 1 ≤ count_where p (xs ++ (x ∷ []))
  unfolding count_where
  count_where-last p xs x h = let l = count_where-append p xs (x ∷ []) in ground arith
