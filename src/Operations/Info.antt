-- ===== src/Operations/Info.antt =====
-- operations.py: metadata of a path, existence, and reading a whole file.
use django_fsspec.Prelude.{ℕ, Bool, Option, none, some, if◌then◌else◌}
use django_fsspec.Errors.{Error, Result, ok, err, ◌>>=◌}
use django_fsspec.Environment.{Bytes, Integrity, Environment}
use django_fsspec.Text.{Text}
use django_fsspec.Validators.{validate_path}
use django_fsspec.Models.{FileNode, Db, is_directory}
use django_fsspec.Models.Query.{child_prefix, get_node, any_below}
use django_fsspec.Operations.Content.{get_read_integrity, load_file_data}

pub data InfoType : Type 0 where
  directory file corrupt : InfoType

-- The metadata dictionaries; a key that a dictionary lacks is `none`.
pub record Info : Type 0 where
  pub id : Option ℕ
  pub name : Text
  pub size : ℕ
  pub kind : InfoType
  pub checksum : Option Text
  pub content_type : Option Text
  pub version : Option ℕ
  pub block_size : Option ℕ
  pub created : Option ℕ
  pub updated : Option ℕ

-- the dictionary of an implicit directory
abbrev pub directory_info : Text → Info
directory_info path = record {
  id = none;
  name = path;
  size = 0;
  kind = InfoType.directory;
  checksum = none;
  content_type = none;
  version = none;
  block_size = none;
  created = none;
  updated = none;
}

-- `_node_info`
unfoldable pub node_info : FileNode → Info
node_info n =
    if is_directory n.node_type
    then record (directory_info n.path) { created = some n.created_at; updated = some n.updated_at }
    else record {
      id = some n.pk;
      name = n.path;
      size = n.size;
      kind = InfoType.file;
      checksum = some n.checksum;
      content_type = some n.content_type;
      version = some n.version;
      block_size = some n.block_size;
      created = some n.created_at;
      updated = some n.updated_at;
    }

-- `get_file_info` after the validation
unfoldable pub info_at : ℕ → Text → Db → Result Info
info_at namespace path db = elim (get_node namespace path db) [
  | some n ↦ ok (node_info n)
  | none ↦
      if any_below namespace (child_prefix path) db
      then ok (directory_info path)
      else err Error.file_not_found
]

unfoldable pub get_file_info : Environment → ℕ → Text → Db → Result Info
get_file_info e namespace raw_path db = do
  path ← validate_path e.nfc raw_path
  info_at namespace path db

unfoldable pub file_exists : Environment → ℕ → Text → Db → Result Bool
file_exists e namespace raw_path db = do
  path ← validate_path e.nfc raw_path
  ok (elim (get_node namespace path db) [
    | some _ ↦ Bool.true
    | none ↦ any_below namespace (child_prefix path) db
  ])

-- `get(…)` with `DoesNotExist` turned into `FileNotFoundError`
abbrev pub found : Option FileNode → Result FileNode
found none = err Error.file_not_found
found (some n) = ok n

unfoldable pub read_file : Environment → ℕ → Text → Bool → Option Integrity → Db → Result Bytes
read_file e namespace raw_path verify_checksum integrity db = do
  path ← validate_path e.nfc raw_path
  file_node ← found (get_node namespace path db)
  policy ← get_read_integrity e integrity verify_checksum
  load_file_data e file_node policy Bool.false db
