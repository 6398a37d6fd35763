-- ===== src/Base/Table.antt =====
-- A database table as the list of its rows, and the statements that the program sends to it.
use careerscope.Base.{false}
use Prim.Native.Nat.{ℕ, suc, ◌+◌, ◌≤◌}
use mathlib.Core.Path.{◌≡◌, refl}
use mathlib.Core.Logic.{inl, inr}
use mathlib.Core.Bool.{Bool, true}
use mathlib.Core.Option.{Option, none, some}
use mathlib.Core.List.{List, [], ◌∷◌, ◌++◌}
use native.Mathlib.Omega.{arith}
use careerscope.Base.Tests.{if◌then◌else◌, leb, all, Bool-cases}

module _ {ℓ} {A : Type ℓ} where
  -- `SELECT … WHERE p` as far as `rows[0]`.
  unfoldable pub find : (A → Bool) → List A → Option A
  find p [] = none
  find p (x ∷ xs) = if p x then some x else find p xs

  -- `UPDATE … SET f WHERE p`.
  unfoldable pub update : (A → Bool) → (A → A) → List A → List A
  update p f [] = []
  update p f (x ∷ xs) = (if p x then f x else x) ∷ update p f xs

  -- `DELETE … WHERE p`.
  unfoldable pub delete : (A → Bool) → List A → List A
  delete p [] = []
  delete p (x ∷ xs) = let rest = delete p xs in if p x then rest else x ∷ rest

  -- `rowCount` of a `SELECT … WHERE p`.
  unfoldable pub count : (A → Bool) → List A → ℕ
  count p [] = 0
  count p (x ∷ xs) = let rest = count p xs in if p x then suc rest else rest

  pub count-append : (p : A → Bool) (xs ys : List A) → count p (xs ++ ys) ≡ count p xs + count p ys
  unfolding count
  count-append p [] ys = omega arith
  count-append p (x ∷ xs) ys = ground (arith, count-append p xs ys)

  pub count-delete_le : (p q : A → Bool) (xs : List A) → count p (delete q xs) ≤ count p xs
  unfolding count delete
  count-delete_le p q [] = omega arith
  count-delete_le p q (x ∷ xs) = ground (arith, count-delete_le p q xs)

  pub count-delete_self : (p : A → Bool) (xs : List A) → count p (delete p xs) ≡ 0
  unfolding count delete
  count-delete_self p [] = refl
  count-delete_self p (x ∷ xs) = ground (arith, count-delete_self p xs)

  -- A predicate that misses every row that `find` looks for finds nothing.
  pub find-none_of_count : (p : A → Bool) (xs : List A) → count p xs ≡ 0 → find p xs ≡ none
  unfolding count find
  find-none_of_count p [] h = refl
  find-none_of_count p (x ∷ xs) h = ground (arith, find-none_of_count p xs)

  pub find-holds : (p : A → Bool) (xs : List A) (x : A) → find p xs ≡ some x → p x ≡ true
  unfolding find
  find-holds p [] x h = ground arith
  find-holds p (y ∷ ys) x h = elim (Bool-cases (p y)) [
    | inl e ↦ ground arith
    | inr e ↦ find-holds p ys x (ground arith)
  ]

  -- A row rewritten with the tested columns kept is counted as before.
  pub count-update :
      (p q : A → Bool) (f : A → A) (xs : List A)
      → ((x : A) → p (f x) ≡ p x)
      → count p (update q f xs) ≡ count p xs
  unfolding count update
  count-update p q f [] h = refl
  count-update p q f (x ∷ xs) h = ground (arith, count-update p q f xs h, h x)

module _ {ℓ} {A : Type ℓ} where
  abbrev pub adjust : (A → Bool) → (A → A) → Option A → Option A
  adjust q f none = none
  adjust q f (some x) = some (if q x then f x else x)

  abbrev pub or_else : Option A → Option A → Option A
  or_else none o = o
  or_else (some x) o = some x

  pub find-update :
      (p q : A → Bool) (f : A → A) (xs : List A)
      → ((x : A) → p (f x) ≡ p x)
      → find p (update q f xs) ≡ adjust q f (find p xs)
  unfolding find update
  find-update p q f [] h = refl
  find-update p q f (x ∷ xs) h = ground (arith, find-update p q f xs h, h x)

  pub find-append :
      (p : A → Bool) (xs ys : List A) → find p (xs ++ ys) ≡ or_else (find p xs) (find p ys)
  unfolding find
  find-append p [] ys = refl
  find-append p (x ∷ xs) ys = ground (arith, find-append p xs ys)

-- `ORDER BY key`: the rows with equal keys stay in the table's order.
module _ {ℓ} {A : Type ℓ} (key : A → ℕ) where
  unfoldable pub insert_by : A → List A → List A
  insert_by x [] = x ∷ []
  insert_by x (y ∷ ys) = if leb (key x) (key y) then x ∷ y ∷ ys else y ∷ insert_by x ys

  unfoldable pub sort_by : List A → List A
  unfolding insert_by
  sort_by [] = []
  sort_by (x ∷ xs) = insert_by x (sort_by xs)

-- `ORDER BY` several columns, where the test tells that one row comes before another.
module _ {ℓ} {A : Type ℓ} (is_before : A → A → Bool) where
  unfoldable pub insert_row : A → List A → List A
  insert_row x [] = x ∷ []
  insert_row x (y ∷ ys) =
      let rest = insert_row x ys in if is_before x y then x ∷ y ∷ ys else y ∷ rest

  unfoldable pub order_rows : List A → List A
  unfolding insert_row
  order_rows [] = []
  order_rows (x ∷ xs) = insert_row x (order_rows xs)

module _ {ℓ} {A : Type ℓ} (p q : A → Bool) where
  -- What is deleted is not found.
  pub find-delete-none :
      (xs : List A) → ((x : A) → p x ≡ true → q x ≡ true) → find p (delete q xs) ≡ none
  unfolding find delete
  find-delete-none [] h = refl
  find-delete-none (x ∷ xs) h = ground (arith, find-delete-none xs h, h x)

  -- What is not deleted is found as before.
  pub find-delete-other :
      (xs : List A) → ((x : A) → p x ≡ true → q x ≡ false) → find p (delete q xs) ≡ find p xs
  unfolding find delete
  find-delete-other [] h = refl
  find-delete-other (x ∷ xs) h = ground (arith, find-delete-other xs h, h x)

  pub all-delete : (xs : List A) → all p xs ≡ true → all p (delete q xs) ≡ true
  unfolding delete
  all-delete [] h = refl
  all-delete (x ∷ xs) h = ground (arith, all-delete xs)

  pub all-update :
      (f : A → A) (xs : List A)
      → ((x : A) → p x ≡ true → p (f x) ≡ true)
      → all p xs ≡ true
      → all p (update q f xs) ≡ true
  unfolding update
  all-update f [] k h = refl
  all-update f (x ∷ xs) k h = ground (arith, all-update f xs k, k x)

  pub all-append : (xs ys : List A) → all p xs ≡ true → all p ys ≡ true → all p (xs ++ ys) ≡ true
  all-append [] ys h k = k
  all-append (x ∷ xs) ys h k = ground (arith, all-append xs ys)

  pub all-find : (xs : List A) (x : A) → all p xs ≡ true → find q xs ≡ some x → p x ≡ true
  unfolding find
  all-find [] x h k = ground arith
  all-find (y ∷ ys) x h k = elim (Bool-cases (q y)) [
    | inl e ↦ ground arith
    | inr e ↦ all-find ys x (ground arith) (ground arith)
  ]
