-- ===== src/Prelude/Lists.antt =====
-- Lists measured and cut by native numbers, as Python's `len` and slices do.
use Prim.Native.Nat.{ℕ, zero, suc, ◌+◌, ◌-◌, ◌≤◌, min}
use mathlib.Core.Path.{◌≡◌, refl, sym, ap, ◌∙◌}
use mathlib.Core.List.{List, [], ◌∷◌, ◌++◌, append-nil, append_assoc}
use native.Mathlib.Decide.{dec_le}
use native.Mathlib.Omega.{arith}

module _ {ℓ} {A : Type ℓ} where
  abbrev pub length : List A → ℕ
  length [] = 0
  length (x ∷ xs) = suc (length xs)

  abbrev pub drop : ℕ → List A → List A
  drop zero xs = xs
  drop (suc n) [] = []
  drop (suc n) (x ∷ xs) = drop n xs

  abbrev pub take : ℕ → List A → List A
  take zero xs = []
  take (suc n) [] = []
  take (suc n) (x ∷ xs) = x ∷ take n xs

  -- `xs[a:b]` for bounds that are not negative
  abbrev pub slice : ℕ → ℕ → List A → List A
  slice a b xs = take (b - a) (drop a xs)

  -- `b"".join(xss)`
  abbrev pub flatten : List (List A) → List A
  flatten [] = []
  flatten (x ∷ xs) = x ++ flatten xs

module _ {ℓ} {A : Type ℓ} where
  pub length-append : (xs ys : List A) → length (xs ++ ys) ≡ length xs + length ys
  length-append [] ys = omega arith
  length-append (x ∷ xs) ys = omega (arith, length-append xs ys)

  pub length-drop : (n : ℕ) (xs : List A) → length (drop n xs) ≡ length xs - n
  length-drop zero xs = omega arith
  length-drop (suc n) [] = omega arith
  length-drop (suc n) (x ∷ xs) = omega (arith, length-drop n xs)

  pub length-take : (n : ℕ) (xs : List A) → length (take n xs) ≡ min n (length xs)
  length-take zero xs = omega arith
  length-take (suc n) [] = omega arith
  length-take (suc n) (x ∷ xs) = omega (arith, length-take n xs)

  pub take-append-drop : (n : ℕ) (xs : List A) → take n xs ++ drop n xs ≡ xs
  take-append-drop zero xs = refl
  take-append-drop (suc n) [] = refl
  take-append-drop (suc n) (x ∷ xs) = ap (◌∷◌ x) (take-append-drop n xs)

  pub take_of_length-le : (n : ℕ) (xs : List A) → length xs ≤ n → take n xs ≡ xs
  take_of_length-le zero [] short = refl
  take_of_length-le (suc n) [] short = refl
  take_of_length-le zero (x ∷ xs) short = absurd (omega arith)
  take_of_length-le (suc n) (x ∷ xs) short = rw (take_of_length-le n xs (omega arith))

  pub drop_of_length-le : (n : ℕ) (xs : List A) → length xs ≤ n → drop n xs ≡ []
  drop_of_length-le zero [] h = refl
  drop_of_length-le zero (x ∷ xs) h = absurd (omega arith)
  drop_of_length-le (suc n) [] h = refl
  drop_of_length-le (suc n) (x ∷ xs) h = drop_of_length-le n xs (omega arith)

  -- The sum is a variable with an equation, since `m + n` is stuck.
  pub drop-drop : (m n k : ℕ) (xs : List A) → m + n ≡ k → drop m (drop n xs) ≡ drop k xs
  drop-drop m zero k xs e = let e' : m ≡ k = omega arith in ap (λ j. drop j xs) e'
  drop-drop zero (suc n) zero [] e = refl
  drop-drop zero (suc n) (suc k) [] e = refl
  drop-drop (suc m) (suc n) zero [] e = refl
  drop-drop (suc m) (suc n) (suc k) [] e = refl
  drop-drop m (suc n) zero (x ∷ xs) e = absurd (omega arith)
  drop-drop m (suc n) (suc k) (x ∷ xs) e = drop-drop m n k xs (omega arith)

  pub drop-append_left :
      (n : ℕ) (xs ys : List A) → n ≤ length xs → drop n (xs ++ ys) ≡ drop n xs ++ ys
  drop-append_left zero xs ys h = refl
  drop-append_left (suc n) [] ys h = absurd (omega arith)
  drop-append_left (suc n) (x ∷ xs) ys h = drop-append_left n xs ys (omega arith)

  pub drop-append_right :
      (n k : ℕ) (xs ys : List A) → n ≡ length xs + k → drop n (xs ++ ys) ≡ drop k ys
  drop-append_right n k [] ys h = let e : n ≡ k = omega arith in ap (λ j. drop j ys) e
  drop-append_right zero k (x ∷ xs) ys h = absurd (omega arith)
  drop-append_right (suc n) k (x ∷ xs) ys h = drop-append_right n k xs ys (omega arith)

  pub take-append_left : (n : ℕ) (xs ys : List A) → n ≤ length xs → take n (xs ++ ys) ≡ take n xs
  take-append_left zero xs ys h = refl
  take-append_left (suc n) [] ys h = absurd (omega arith)
  take-append_left (suc n) (x ∷ xs) ys h = ap (◌∷◌ x) (take-append_left n xs ys (omega arith))

  pub take-append_right :
      (n k : ℕ) (xs ys : List A) → n ≡ length xs + k → take n (xs ++ ys) ≡ xs ++ take k ys
  take-append_right n k [] ys h = let e : n ≡ k = omega arith in ap (λ j. take j ys) e
  take-append_right zero k (x ∷ xs) ys h = absurd (omega arith)
  take-append_right (suc n) k (x ∷ xs) ys h = ap (◌∷◌ x) (take-append_right n k xs ys (omega arith))

  pub flatten-append : (xss yss : List (List A)) → flatten (xss ++ yss) ≡ flatten xss ++ flatten yss
  flatten-append [] yss = refl
  flatten-append (xs ∷ xss) yss = rw (flatten-append xss yss, append_assoc)

module _ {ℓ} {A : Type ℓ} where
  pub slice-nil : (s t : ℕ) → slice {A = A} s t [] ≡ []
  slice-nil zero t = take_of_length-le (t - 0) [] (omega arith)
  slice-nil (suc s) t = take_of_length-le (t - suc s) [] (omega arith)

  -- A cut of a join: first past the first part, then across its end.
  pub slice-append_right :
      (s t : ℕ) (xs ys : List A)
      → length xs ≤ s
      → slice s t (xs ++ ys) ≡ slice (s - length xs) (t - length xs) ys
  slice-append_right s t xs ys h =
      let e : t - length xs - (s - length xs) ≡ t - s = omega arith in
      rw (e, drop-append_right s (s - length xs) xs ys (omega arith))

  pub slice-append :
      (s t : ℕ) (xs ys : List A)
      → s ≤ length xs
      → s ≤ t
      → slice s t (xs ++ ys) ≡ slice s (min (length xs) t) xs ++ take (t - length xs) ys
  slice-append s t xs ys hs ht = elim (dec_le t (length xs)) [
    | yes p ↦
        let e : min (length xs) t ≡ t = omega arith in
        let z : t - length xs ≡ 0 = omega arith in
        rw (e, z, append-nil, drop-append_left s xs ys hs)
          (take-append_left (t - s) (drop s xs) ys (omega (arith, length-drop s xs)))
    | no p ↦
        let e : min (length xs) t ≡ length xs = omega arith in
        rw
          (
            e,
            drop-append_left s xs ys hs,
            take_of_length-le (length xs - s) (drop s xs) (omega (arith, length-drop s xs)),
          )
          (take-append_right (t - s) (t - length xs) (drop s xs) ys
            (omega (arith, length-drop s xs)))
  ]

module _ {ℓ} {A : Type ℓ} where
  -- A slice reads only what stands before its end.
  pub slice-eq-drop-take : (s t : ℕ) (xs : List A) → slice s t xs ≡ drop s (take t xs)
  slice-eq-drop-take zero t xs = let e : t - 0 ≡ t = omega arith in rw e
  slice-eq-drop-take (suc s) zero xs = let e : 0 - suc s ≡ 0 = omega arith in rw e
  slice-eq-drop-take (suc s) (suc t) [] = slice-nil (suc s) (suc t)
  slice-eq-drop-take (suc s) (suc t) (x ∷ xs) =
      let e : suc t - suc s ≡ t - s = omega arith in rw e (slice-eq-drop-take s t xs)

  pub slice_of_take :
      (s t : ℕ) (xs ys : List A) → take t xs ≡ take t ys → slice s t xs ≡ slice s t ys
  slice_of_take s t xs ys h = rw (slice-eq-drop-take s t xs, slice-eq-drop-take s t ys, h)

  -- Bounds past the end may be moved to the end.
  pub slice-min :
      (s t : ℕ) (xs : List A) → slice (min s (length xs)) (min t (length xs)) xs ≡ slice s t xs
  slice-min s t xs = elim (dec_le s (length xs)) [
    | yes p ↦ let e : min s (length xs) ≡ s = omega arith in rw e (inside p)
    | no p ↦
        let e : min s (length xs) ≡ length xs = omega arith in
        rw (e, drop_of_length-le s xs (omega arith), drop_of_length-le (length xs) xs (omega arith))
          (take_of_length-le (min t (length xs) - length xs) [] (omega arith)
            ∙ sym (take_of_length-le (t - s) [] (omega arith)))
  ]
    where
      inside : s ≤ length xs → slice s (min t (length xs)) xs ≡ slice s t xs
      inside p = elim (dec_le t (length xs)) [
        | yes q ↦ let e : min t (length xs) ≡ t = omega arith in rw e
        | no q ↦
            let e : min t (length xs) ≡ length xs = omega arith in
            rw (e, take_of_length-le (t - s) (drop s xs) (omega (arith, length-drop s xs)))
              (take_of_length-le (length xs - s) (drop s xs) (omega (arith, length-drop s xs)))
      ]
