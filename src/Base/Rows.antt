-- ===== src/Base/Rows.antt =====
-- Which rows a query answers: what holds of the rows that are kept, ordered and cut to a limit.
use careerscope.Base.Table.{sort_by, insert_by}
use careerscope.Base.{
  Bool, true, List, [], ◌∷◌, ◌++◌, ℕ, zero, suc, any, all, keep, take, length, ◌&&◌, ◌||◌, ◌≡◌, ◌≤◌,
  ◌∙◌, refl, arith, ap,
}

module _ {ℓ} {A : Type ℓ} where
  pub all-implies :
      (p q : A → Bool) (xs : List A)
      → ((x : A) → p x ≡ true → q x ≡ true)
      → all p xs ≡ true
      → all q xs ≡ true
  all-implies p q [] h k = refl
  all-implies p q (x ∷ xs) h k = ground (arith, all-implies p q xs h, h x)

  pub any-implies :
      (p q : A → Bool) (xs : List A)
      → ((x : A) → p x ≡ true → q x ≡ true)
      → any p xs ≡ true
      → any q xs ≡ true
  any-implies p q [] h k = k
  any-implies p q (x ∷ xs) h k = ground (arith, any-implies p q xs h, h x)

  pub any-append : (p : A → Bool) (xs ys : List A) → any p (xs ++ ys) ≡ any p xs || any p ys
  any-append p [] ys = refl
  any-append p (x ∷ xs) ys = ground (arith, any-append p xs ys)

  pub any-keep : (p q : A → Bool) (xs : List A) → any p (keep q xs) ≡ any (λ x. p x && q x) xs
  any-keep p q [] = refl
  any-keep p q (x ∷ xs) = ground (arith, any-keep p q xs)

  pub any-take : (p : A → Bool) (n : ℕ) (xs : List A) → any p (take n xs) ≡ true → any p xs ≡ true
  any-take p zero xs h = ground arith
  any-take p (suc n) [] h = h
  any-take p (suc n) (x ∷ xs) h = ground (arith, any-take p n xs)

  pub take-all : (n : ℕ) (xs : List A) → length xs ≤ n → take n xs ≡ xs
  take-all zero [] h = refl
  take-all zero (x ∷ xs) h = ground arith
  take-all (suc n) [] h = refl
  take-all (suc n) (x ∷ xs) h = ap (λ ys. x ∷ ys) (take-all n xs (omega arith))

  module _ (key : A → ℕ) where
    any-insert_by :
        (p : A → Bool) (x : A) (xs : List A) → any p (insert_by key x xs) ≡ p x || any p xs
    unfolding insert_by
    any-insert_by p x [] = refl
    any-insert_by p x (y ∷ ys) = ground (arith, any-insert_by p x ys)

    pub any-sort_by : (p : A → Bool) (xs : List A) → any p (sort_by key xs) ≡ any p xs
    unfolding sort_by
    any-sort_by p [] = refl
    any-sort_by p (x ∷ xs) =
        any-insert_by p x (sort_by key xs) ∙ ap (λ b. p x || b) (any-sort_by p xs)

    length-insert_by : (x : A) (xs : List A) → length (insert_by key x xs) ≡ suc (length xs)
    unfolding insert_by
    length-insert_by x [] = refl
    length-insert_by x (y ∷ ys) = ground (arith, length-insert_by x ys)

    pub length-sort_by : (xs : List A) → length (sort_by key xs) ≡ length xs
    unfolding sort_by
    length-sort_by [] = refl
    length-sort_by (x ∷ xs) = length-insert_by x (sort_by key xs) ∙ ap suc (length-sort_by xs)
