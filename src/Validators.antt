-- ===== src/Validators.antt =====
-- validators.py: `validate_path`. Unicode normalisation is a parameter (`Environment.nfc`).
use django_fsspec.Prelude.{Bool, false, ◌&&◌, ◌||◌, not, [], ◌∷◌, any, leb, ◌==◌}
use django_fsspec.Errors.{Error, Result, ok, ◌>>◌, raise_if}
use django_fsspec.Text.{
  Text, text, slash, text_eq, is_empty, starts_with, ends_with_slash, split_slash,
}

-- `_CONTROL_CHARS_RE.search(path)`: the class [\x00-\x1f]
abbrev pub has_control_chars : Text → Bool
has_control_chars = any (λ c. leb c 0x1f)

-- `_CONSECUTIVE_SLASHES_RE.search(path)`: two slashes in a row
abbrev pub has_consecutive_slashes : Text → Bool
has_consecutive_slashes [] = false
has_consecutive_slashes (c ∷ []) = false
has_consecutive_slashes (c ∷ d ∷ s) = c == slash && d == slash || has_consecutive_slashes (d ∷ s)

-- `segment in (".", "..")`
abbrev pub is_dot_segment : Text → Bool
is_dot_segment segment = text_eq segment (text ".") || text_eq segment (text "..")

-- Every check raises the same `PathValidationError`.
unfoldable pub validate_path : (Text → Text) → Text → Result Text
validate_path nfc path = do
  raise_if (is_empty path) Error.path_validation
  raise_if (not (starts_with (text "/") path)) Error.path_validation
  raise_if (has_control_chars path) Error.path_validation
  raise_if (has_consecutive_slashes path) Error.path_validation
  raise_if (not (text_eq path (text "/")) && ends_with_slash path) Error.path_validation
  raise_if (any is_dot_segment (split_slash path)) Error.path_validation
  ok (nfc path)
