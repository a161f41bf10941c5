-- ===== src/FileSystem/Url/Laws.antt =====
-- fs.py: what `_strip_protocol` and `_get_kwargs_from_urls` return.
use django_fsspec.Prelude.{
  ℕ, ◌≡◌, refl, ◌∙◌, true, false, [], ◌∷◌, ◌++◌, Option, some, ap, arith, suc,
}
use django_fsspec.Prelude.Int.{ℤ, pos}
use django_fsspec.Errors.{ok}
use django_fsspec.Text.{
  Text, text, slash, is_empty, starts_with, rstrip_slash, ends_with_slash, first_part,
  after_first_slash, has_slash, show,
}
use django_fsspec.Text.Laws.{has_slash-show, is_empty-show, rstrip_slash-bare}
use django_fsspec.Validators.{validate_path}
use django_fsspec.FileSystem.Url.{
  strip_protocol, without_protocol, get_kwargs_from_urls, positive_id, protocol, url_path,
}

ends_with_slash-rstrip : (s : Text) → ends_with_slash (rstrip_slash s) ≡ false
ends_with_slash-rstrip [] = refl
ends_with_slash-rstrip (c ∷ s) = ground (arith, ends_with_slash-rstrip s)

-- The stripped path is the root or does not end with a slash.
pub ends_with_slash-strip_protocol :
    (path : Text) → ends_with_slash (strip_protocol path) ≡ true → strip_protocol path ≡ text "/"
unfolding strip_protocol
ends_with_slash-strip_protocol path h =
    ground (arith, ends_with_slash-rstrip (without_protocol path))

-- A text that starts with a slash and ends with none is not changed.
strip_protocol-absolute :
    (t : Text) → ends_with_slash (slash ∷ t) ≡ false → strip_protocol (slash ∷ t) ≡ slash ∷ t
unfolding strip_protocol
strip_protocol-absolute t h = ground (arith, rstrip_slash-bare (slash ∷ t) h)

-- A path that the validation accepts starts with a slash, and ends with none where it is longer.
valid_head : (nfc : Text → Text) (c : ℕ) (t p : Text) → validate_path nfc (c ∷ t) ≡ ok p → c ≡ slash
unfolding validate_path
valid_head nfc c t p h = ground arith

valid_end :
    (nfc : Text → Text) (c d : ℕ) (t p : Text)
    → validate_path nfc (c ∷ d ∷ t) ≡ ok p
    → ends_with_slash (c ∷ d ∷ t) ≡ false
unfolding validate_path
valid_end nfc c d t p h = ground arith

empty_invalid : (nfc : Text → Text) (p : Text) → validate_path nfc [] ≡ ok p → ⊥
unfolding validate_path
empty_invalid nfc p h = ground arith

strip_protocol-root : strip_protocol (slash ∷ []) ≡ slash ∷ []
unfolding strip_protocol
strip_protocol-root = refl

-- A valid path is stripped to itself.
pub strip_protocol-valid :
    (nfc : Text → Text) (path p : Text) → validate_path nfc path ≡ ok p → strip_protocol path ≡ path
strip_protocol-valid nfc [] p h = absurd (empty_invalid nfc p h)
strip_protocol-valid nfc (c ∷ []) p h = rw (valid_head nfc c [] p h) strip_protocol-root
strip_protocol-valid nfc (c ∷ d ∷ t) p h =
    let e = valid_head nfc c (d ∷ t) p h in
    let bare : ends_with_slash (slash ∷ d ∷ t) ≡ false = valid_end nfc c d t p h in
    rw e (strip_protocol-absolute (d ∷ t) bare)

-- The text between the protocol and the path.
module _ (t : Text) where
  first_part-append : (s : Text) → has_slash s ≡ false → first_part (s ++ slash ∷ t) ≡ s
  first_part-append [] h = refl
  first_part-append (c ∷ s) h = ground (arith, first_part-append s)

  after_first_slash-append :
      (s : Text) → has_slash s ≡ false → after_first_slash (s ++ slash ∷ t) ≡ some t
  after_first_slash-append [] h = refl
  after_first_slash-append (c ∷ s) h = ground (arith, after_first_slash-append s)

  url_path-append :
      (s : Text) → is_empty s ≡ false → has_slash s ≡ false → url_path (s ++ slash ∷ t) ≡ slash ∷ t
  url_path-append [] e h = ground arith
  url_path-append (c ∷ s) e h = ground (arith, after_first_slash-append (c ∷ s) h)

-- The URL of a path in a namespace.
abbrev pub url : ℕ → Text → Text
url namespace path = protocol ++ show namespace ++ path

module _ (namespace : ℕ) (t : Text) where
  strip_protocol-url : strip_protocol (url namespace (slash ∷ t)) ≡ strip_protocol (slash ∷ t)
  unfolding strip_protocol
  strip_protocol-url = ground (
    arith,
    url_path-append t (show namespace) (is_empty-show namespace) (has_slash-show namespace),
  )

  not_rooted :
      (s : Text)
      → is_empty s ≡ false
      → has_slash s ≡ false
      → (is_empty (s ++ slash ∷ t) ≡ false) × (starts_with (text "/") (s ++ slash ∷ t) ≡ false)
  not_rooted [] e h = ground arith
  not_rooted (c ∷ s) e h = (refl, ground arith)

  get_kwargs_from_urls-url :
      (int : Text → Option ℤ)
      → get_kwargs_from_urls int (url namespace (slash ∷ t)) ≡ positive_id (int (show namespace))
  unfolding get_kwargs_from_urls
  get_kwargs_from_urls-url int =
      let (some_text, unrooted) =
        not_rooted (show namespace) (is_empty-show namespace) (has_slash-show namespace) in
      ground (
        arith,
        some_text,
        unrooted,
        first_part-append t (show namespace) (has_slash-show namespace),
      )

-- A URL made of the protocol, the digits of a positive namespace and a valid path is taken apart
-- into that path by `_strip_protocol` and into that namespace by `_get_kwargs_from_urls`, where
-- `int` reads the digits back.
pub strip_protocol-parts :
    (int : Text → Option ℤ) (nfc : Text → Text) (namespace : ℕ) (path p : Text)
    → int (show (suc namespace)) ≡ some (pos (suc namespace))
    → validate_path nfc path ≡ ok p
    → (strip_protocol (url (suc namespace) path) ≡ path)
      × (get_kwargs_from_urls int (url (suc namespace) path) ≡ ok (some (suc namespace)))
strip_protocol-parts int nfc namespace [] p read valid = absurd (empty_invalid nfc p valid)
strip_protocol-parts int nfc namespace (c ∷ t) p read valid =
    let head = valid_head nfc c t p valid in
    rw head (
      strip_protocol-url (suc namespace) t
          ∙ (rw head at (strip_protocol-valid nfc (c ∷ t) p valid)),
      get_kwargs_from_urls-url (suc namespace) t int ∙ ap positive_id read,
    )
