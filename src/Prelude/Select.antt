-- ===== src/Prelude/Select.antt =====
-- Tables as lists of rows: the rows, the first row and the tests that a Boolean condition selects.
use mathlib.Core.Path.{◌≡◌, refl}
use mathlib.Core.Bool.{Bool, true, false, ◌&&◌, ◌||◌}
use mathlib.Core.List.{List, [], ◌∷◌, ◌++◌, map}
use mathlib.Core.Option.{Option, none, some}
use mathlib.Core.Option
use native.Mathlib.Omega.{arith}
use Prim.Native.Nat.{ℕ}
use django_fsspec.Prelude.Tests.{if◌then◌else◌, ◌==◌}

module _ {ℓ} {A : Type ℓ} where
  abbrev pub filter : (A → Bool) → List A → List A
  filter p [] = []
  filter p (x ∷ xs) = if p x then x ∷ filter p xs else filter p xs

  abbrev pub find? : (A → Bool) → List A → Option A
  find? p [] = none
  find? p (x ∷ xs) = if p x then some x else find? p xs

  abbrev pub any : (A → Bool) → List A → Bool
  any p [] = false
  any p (x ∷ xs) = p x || any p xs

  abbrev pub all : (A → Bool) → List A → Bool
  all p [] = true
  all p (x ∷ xs) = p x && all p xs

  -- `UPDATE … WHERE p`
  abbrev pub update_where : (A → Bool) → (A → A) → List A → List A
  update_where p f = map (λ x. if p x then f x else x)

-- `n in ns`
abbrev pub contains : ℕ → List ℕ → Bool
contains n = any (λ m. n == m)

module _ {ℓ} {A : Type ℓ} where
  pub filter-append :
      (p : A → Bool) (xs ys : List A) → filter p (xs ++ ys) ≡ filter p xs ++ filter p ys
  filter-append p [] ys = refl
  filter-append p (x ∷ xs) ys = ground (arith, filter-append p xs ys)

  pub any-append : (p : A → Bool) (xs ys : List A) → any p (xs ++ ys) ≡ (any p xs || any p ys)
  any-append p [] ys = refl
  any-append p (x ∷ xs) ys = ground (arith, any-append p xs ys)

  pub all-append :
      (p : A → Bool) (xs ys : List A) → all p xs ≡ true → all p ys ≡ true → all p (xs ++ ys) ≡ true
  all-append p [] ys hx hy = hy
  all-append p (x ∷ xs) ys hx hy = ground (arith, all-append p xs ys)

  pub filter_of_any : (p : A → Bool) (xs : List A) → any p xs ≡ false → filter p xs ≡ []
  filter_of_any p [] h = refl
  filter_of_any p (x ∷ xs) h = ground (arith, filter_of_any p xs)

  pub find?_of_any : (p : A → Bool) (xs : List A) → any p xs ≡ false → find? p xs ≡ none
  find?_of_any p [] h = refl
  find?_of_any p (x ∷ xs) h = ground (arith, find?_of_any p xs)

  pub find?-append_some :
      (p : A → Bool) (xs ys : List A) (a : A) → find? p xs ≡ some a → find? p (xs ++ ys) ≡ some a
  find?-append_some p [] ys a h = ground arith
  find?-append_some p (x ∷ xs) ys a h = ground (arith, find?-append_some p xs ys a)

  pub find?-append_none :
      (p : A → Bool) (xs ys : List A) → find? p xs ≡ none → find? p (xs ++ ys) ≡ find? p ys
  find?-append_none p [] ys h = refl
  find?-append_none p (x ∷ xs) ys h = ground (arith, find?-append_none p xs ys)

  -- What `find?` returns passes the test.
  pub find?_sound : (p : A → Bool) (xs : List A) (a : A) → find? p xs ≡ some a → p a ≡ true
  find?_sound p [] a h = ground arith
  find?_sound p (x ∷ xs) a h = ground (arith, find?_sound p xs a)

  -- What `find?` returns is a row, so a test that it passes is passed by some row.
  pub any_of_find? :
      (p q : A → Bool) (xs : List A) (a : A) → find? p xs ≡ some a → q a ≡ true → any q xs ≡ true
  any_of_find? p q [] a h k = ground arith
  any_of_find? p q (x ∷ xs) a h k = ground (arith, any_of_find? p q xs a)

  pub any_of_find?-none : (p : A → Bool) (xs : List A) → find? p xs ≡ none → any p xs ≡ false
  any_of_find?-none p [] h = refl
  any_of_find?-none p (x ∷ xs) h = ground (arith, any_of_find?-none p xs)

  pub all_of_find? :
      (p q : A → Bool) (xs : List A) (a : A) → find? p xs ≡ some a → all q xs ≡ true → q a ≡ true
  all_of_find? p q [] a h k = ground arith
  all_of_find? p q (x ∷ xs) a h k = ground (arith, all_of_find? p q xs a)

  pub all_imply :
      (p q : A → Bool) (xs : List A)
      → ((a : A) → p a ≡ true → q a ≡ true)
      → all p xs ≡ true
      → all q xs ≡ true
  all_imply p q [] h k = refl
  all_imply p q (x ∷ xs) h k = ground (arith, h x, all_imply p q xs)

  pub all-filter : (p q : A → Bool) (xs : List A) → all q xs ≡ true → all q (filter p xs) ≡ true
  all-filter p q [] h = refl
  all-filter p q (x ∷ xs) h = ground (arith, all-filter p q xs)

  pub filter_congr :
      (p q : A → Bool) (xs : List A) → ((a : A) → p a ≡ q a) → filter p xs ≡ filter q xs
  filter_congr p q [] h = refl
  filter_congr p q (x ∷ xs) h = ground (arith, h x, filter_congr p q xs)

-- A change of rows that a test does not see commutes with the search for it.
module _ {ℓ} {A : Type ℓ} (p : A → Bool) (f : A → A) (same : (a : A) → p (f a) ≡ p a) where
  pub find?-map : (xs : List A) → find? p (map f xs) ≡ Option.map f (find? p xs)
  find?-map [] = refl
  find?-map (x ∷ xs) = ground (arith, same x, find?-map xs)

  pub any-map : (xs : List A) → any p (map f xs) ≡ any p xs
  any-map [] = refl
  any-map (x ∷ xs) = ground (arith, same x, any-map xs)

  pub filter-map : (xs : List A) → filter p (map f xs) ≡ map f (filter p xs)
  filter-map [] = refl
  filter-map (x ∷ xs) = ground (arith, same x, filter-map xs)
