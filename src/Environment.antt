-- ===== src/Environment.antt =====
-- What the package takes from outside: hashlib, unicodedata, the keys that the database hands out,
-- the clock, and settings.py of the host project.
use django_fsspec.Prelude.{ℕ, ◌≡◌, false, List, contains}
use django_fsspec.Text.{Text}

abbrev pub Bytes : Type 0
Bytes = List ℕ

-- The value of `DJANGO_FSSPEC_READ_INTEGRITY` or of an `integrity` argument; `unknown` is any other.
pub data Integrity : Type 0 where
  off metadata checksum unknown : Integrity

pub record Environment : Type 0 where
  -- `hashlib.sha256(data).hexdigest()`
  pub sha256 : Bytes → Text
  -- `unicodedata.normalize("NFC", path)`
  pub nfc : Text → Text
  -- the primary key of a new row, from the keys in use
  pub new_pk : List ℕ → ℕ
  -- the clock during one operation
  pub now : ℕ
  pub block_size : ℕ
  pub max_file_size : ℕ
  pub read_integrity : Integrity

-- A primary key identifies its row: the key of a new row is not in use.
abbrev pub HasFreshKeys : Environment → Type 0
HasFreshKeys e = (used : List ℕ) → contains (e.new_pk used) used ≡ false
