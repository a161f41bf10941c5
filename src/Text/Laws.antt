-- ===== src/Text/Laws.antt =====
-- Laws of the text functions.
use django_fsspec.Prelude.{
  ℕ, zero, suc, ◌+◌, ◌/◌, ◌%◌, false, ◌≡◌, refl, true, [], ◌∷◌, ◌++◌, arith,
}
use django_fsspec.Text.{
  Text, text_eq, starts_with, has_slash, is_empty, digits, show, rstrip_slash, ends_with_slash,
}

-- `==` on texts decides equality.
pub text_eq_refl : (s : Text) → (text_eq s s) ≡ true
text_eq_refl [] = refl
text_eq_refl (c ∷ s) = ground (arith, text_eq_refl s)

pub text_eq_sound : (s t : Text) → (text_eq s t) ≡ true → s ≡ t
text_eq_sound [] [] h = refl
text_eq_sound [] (d ∷ t) h = cc
text_eq_sound (c ∷ s) [] h = cc
text_eq_sound (c ∷ s) (d ∷ t) h = ground (arith, text_eq_sound s t)

pub starts_with-append : (p s : Text) → starts_with p (p ++ s) ≡ true
starts_with-append [] s = refl
starts_with-append (c ∷ p) s = ground (arith, starts_with-append p s)

pub text_eq_comm : (s t : Text) → (text_eq s t) ≡ text_eq t s
text_eq_comm [] [] = refl
text_eq_comm [] (d ∷ t) = refl
text_eq_comm (c ∷ s) [] = refl
text_eq_comm (c ∷ s) (d ∷ t) = ground (arith, text_eq_comm s t)

has_slash-digits :
    (fuel n : ℕ) (after : Text) → has_slash after ≡ false → has_slash (digits fuel n after) ≡ false
unfolding digits
has_slash-digits zero n after h = h
has_slash-digits (suc fuel) n after h =
    ground (arith, has_slash-digits fuel (n / 10) ((b'0' + n % 10) ∷ after))

is_empty-digits :
    (fuel n : ℕ) (after : Text) → is_empty after ≡ false → is_empty (digits fuel n after) ≡ false
unfolding digits
is_empty-digits zero n after h = h
is_empty-digits (suc fuel) n after h =
    ground (arith, is_empty-digits fuel (n / 10) ((b'0' + n % 10) ∷ after))

-- A number is written with a digit, and without a slash.
pub has_slash-show : (n : ℕ) → has_slash (show n) ≡ false
unfolding show
has_slash-show n = has_slash-digits (n + 1) n [] refl

pub is_empty-show : (n : ℕ) → is_empty (show n) ≡ false
unfolding show digits
is_empty-show n = ground (arith, is_empty-digits n (n / 10) ((b'0' + n % 10) ∷ []))

pub rstrip_slash-bare : (s : Text) → ends_with_slash s ≡ false → rstrip_slash s ≡ s
rstrip_slash-bare [] h = refl
rstrip_slash-bare (c ∷ []) h = ground arith
rstrip_slash-bare (c ∷ d ∷ s) h = ground (arith, rstrip_slash-bare (d ∷ s))
