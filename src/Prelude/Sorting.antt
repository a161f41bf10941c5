-- ===== src/Prelude/Sorting.antt =====
-- `ORDER BY`: insertion sort by a Boolean order, stable.
use mathlib.Core.Path.{◌≡◌, refl}
use mathlib.Core.Bool.{Bool, true}
use mathlib.Core.List.{List, [], ◌∷◌, ◌++◌}
use native.Mathlib.Omega.{arith}
use django_fsspec.Prelude.Tests.{if◌then◌else◌}
use django_fsspec.Prelude.Select.{all}

module _ {ℓ} {A : Type ℓ} (le : A → A → Bool) where
  abbrev pub insert_sorted : A → List A → List A
  insert_sorted x [] = x ∷ []
  insert_sorted x (y ∷ ys) = if le x y then x ∷ y ∷ ys else y ∷ insert_sorted x ys

  abbrev pub sort : List A → List A
  sort [] = []
  sort (x ∷ xs) = insert_sorted x (sort xs)

  -- Each row may stand before all that follow it.
  abbrev pub IsSorted : List A → Type 0
  IsSorted [] = Unit
  IsSorted (x ∷ xs) = (all (le x) xs ≡ true) × IsSorted xs

module _ {ℓ} {A : Type ℓ} (le : A → A → Bool) where
  insert_sorted_first :
      (x : A) (ys : List A) → all (le x) ys ≡ true → insert_sorted le x ys ≡ x ∷ ys
  insert_sorted_first x [] h = refl
  insert_sorted_first x (y ∷ ys) h = ground arith

  insert_sorted-append :
      (x : A) (xs ys : List A)
      → all (le x) ys ≡ true
      → insert_sorted le x (xs ++ ys) ≡ insert_sorted le x xs ++ ys
  insert_sorted-append x [] ys h = insert_sorted_first x ys h
  insert_sorted-append x (z ∷ xs) ys h = ground (arith, insert_sorted-append x xs ys h)

  pub sort_of_IsSorted : (xs : List A) → IsSorted le xs → sort le xs ≡ xs
  sort_of_IsSorted [] h = refl
  sort_of_IsSorted (x ∷ xs) (h, s) =
      ground (arith, sort_of_IsSorted xs s, insert_sorted_first x xs h)

  -- Rows that come after all others stay where they are.
  pub sort-append :
      (xs ys : List A)
      → all (λ x. all (le x) ys) xs ≡ true
      → IsSorted le ys
      → sort le (xs ++ ys) ≡ sort le xs ++ ys
  sort-append [] ys h s = sort_of_IsSorted ys s
  sort-append (x ∷ xs) ys h s =
      ground (arith, sort-append xs ys, s, insert_sorted-append x (sort le xs) ys)

  all-insert_sorted :
      (q : A → Bool) (x : A) (ys : List A)
      → q x ≡ true
      → all q ys ≡ true
      → all q (insert_sorted le x ys) ≡ true
  all-insert_sorted q x [] hx h = ground arith
  all-insert_sorted q x (y ∷ ys) hx h = ground (arith, all-insert_sorted q x ys)

  pub all-sort : (q : A → Bool) (xs : List A) → all q xs ≡ true → all q (sort le xs) ≡ true
  all-sort q [] h = refl
  all-sort q (x ∷ xs) h = ground (arith, all-sort q xs, all-insert_sorted q x (sort le xs))
