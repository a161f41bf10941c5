-- ===== src/Errors.antt =====
-- exceptions.py, and the built-in and Django exceptions that the package raises or catches.
use django_fsspec.Prelude.{Bool, true, false, if◌then◌else◌}

-- An exception without its message.
pub data Error : Type 0 where
  file_conflict data_integrity path_validation file_too_large namespace_not_found : Error
  file_not_found file_exists is_a_directory not_a_directory value_error runtime_error : Error
  type_error django_integrity protected does_not_exist command_error : Error

-- `except FileNotFoundError`: `NamespaceNotFoundError` is a subclass.
abbrev pub is_file_not_found : Error → Bool
is_file_not_found Error.file_not_found = true
is_file_not_found Error.namespace_not_found = true
is_file_not_found _ = false

-- `except ValueError`: `DataIntegrityError` is a subclass.
abbrev pub is_value_error : Error → Bool
is_value_error Error.value_error = true
is_value_error Error.data_integrity = true
is_value_error _ = false

pub data Result {ℓ} (A : Type ℓ) : Type ℓ where
  ok : A → Result A
  err : Error → Result A

-- `if test: raise error`
abbrev pub raise_if : Bool → Error → Result (Unit {0})
raise_if test error = if test then err error else ok tt

module _ {ℓ} {B : Type ℓ} where
  infixl 5 ◌>>=◌ ◌>>◌
  abbrev pub ◌>>=◌ {κ} : {A : Type κ} → Result A → (A → Result B) → Result B
  err error >>= next = err error
  ok value >>= next = next value

  -- a check, and what follows it
  abbrev pub ◌>>◌ : Result (Unit {0}) → Result B → Result B
  check >> rest = check >>= λ _. rest
