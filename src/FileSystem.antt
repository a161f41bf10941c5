-- ===== src/FileSystem.antt =====
-- fs.py: `DjangoFileSystem`. What it inherits from fsspec, and fsspec's helpers, are parameters.
pub mod Url
pub mod Find
pub mod Moves
pub mod Transaction
use django_fsspec.Prelude.{
  ℕ, Bool, true, false, ◌||◌, not, List, [], ◌∷◌, ◌++◌, Option, none, some, map, if◌then◌else◌,
}
use django_fsspec.Errors.{Error, Result, ok, err, is_file_not_found, ◌>>=◌}
use django_fsspec.Environment.{Environment}
use django_fsspec.Text.{Text, text, text_eq, is_empty}
use django_fsspec.Models.{FileNode, Db}
use django_fsspec.Models.Query.{child_prefix}
use django_fsspec.Action.{Action, pure}
use django_fsspec.Operations.Info.{Info, InfoType, directory_info, get_file_info, file_exists}
use django_fsspec.Operations.Listing.{list_directory, list_directory_detail, is_file_kind}
use django_fsspec.Operations.Directory.{make_directory, remove_directory, delete_file}
use django_fsspec.Operations.Transfer.{copy_file}
use Url.{strip_protocol}

-- `not path or path == "/"`
abbrev pub is_root : Text → Bool
is_root path = is_empty path || text_eq path (text "/")

-- What `ls` returns, with `detail` and without.
pub data Entries : Type 0 where
  infos : List Info → Entries
  names : List Text → Entries

-- the infos of a listing, or the prefix with each name
abbrev list_entries : Environment → ℕ → Text → Text → Bool → Bool → Db → Result Entries
list_entries e namespace path prefix detail tolerant db = do
  entries ← list_directory e namespace path db
  if detail
      then (do listed ← list_directory_detail e namespace path tolerant db; ok (infos listed))
      else ok (names (map (λ name. prefix ++ name) entries))

-- the entry of a file
abbrev file_entries : Bool → Info → Entries
file_entries detail info = if detail then infos (info ∷ []) else names (info.name ∷ [])

-- `ls`
unfoldable pub ls : Environment → ℕ → Text → Bool → Bool → Db → Result Entries
ls e namespace raw_path detail tolerant db =
    let path = strip_protocol raw_path in
    let as_directory = list_entries e namespace path (child_prefix path) detail tolerant db in
    if is_root path
    then list_entries e namespace (text "/") (text "/") detail tolerant db
    else elim (get_file_info e namespace path db) [
      | ok info ↦ if is_file_kind info.kind then ok (file_entries detail info) else as_directory
      | err error ↦ if is_file_not_found error then as_directory else err error
    ]

-- `info`
unfoldable pub info : Environment → ℕ → Text → Db → Result Info
info e namespace raw_path db =
    let path = strip_protocol raw_path in
    if is_root path then ok (directory_info (text "/")) else get_file_info e namespace path db

-- `exists`
unfoldable pub exists : Environment → ℕ → Text → Db → Result Bool
exists e namespace raw_path db =
    let path = strip_protocol raw_path in
    if is_root path then ok true else file_exists e namespace path db

abbrev ignored : {A : Type 0} → Result A → Result (Unit {0})
ignored (ok _) = ok tt
ignored (err e) = err e

-- An operation whose result is not returned.
abbrev pub run : {A : Type 0} → Action A → Action (Unit {0})
run m db = let (r, db') = m db in (ignored r, db')

-- `mkdir`
unfoldable pub mkdir : Environment → ℕ → Text → Bool → Action (Unit {0})
mkdir e namespace raw_path create_parents =
    let path = strip_protocol raw_path in
    if is_root path then pure tt else run (make_directory e namespace path create_parents)

abbrev file_exists_ok : Bool → Result (Unit {0}) → Result (Unit {0})
file_exists_ok exist_ok (ok _) = ok tt
file_exists_ok exist_ok (err Error.file_exists) = if exist_ok then ok tt else err Error.file_exists
file_exists_ok exist_ok (err e) = err e

-- `makedirs`
unfoldable pub makedirs : Environment → ℕ → Text → Bool → Action (Unit {0})
makedirs e namespace raw_path exist_ok db =
    let path = strip_protocol raw_path in
    let (r, db') = run (make_directory e namespace path true) db in
    if is_root path then (ok tt, db) else (file_exists_ok exist_ok r, db')

-- `rmdir`
abbrev pub rmdir : Environment → ℕ → Text → Action (Unit {0})
rmdir e namespace path = remove_directory e namespace (strip_protocol path) false

-- `rm`, and `_rm` and `rm_file` without `recursive`
abbrev pub rm : Environment → ℕ → Text → Bool → Action (Unit {0})
rm e namespace path recursive = delete_file e namespace (strip_protocol path) recursive

abbrev pub rm_file : Environment → ℕ → Text → Action (Unit {0})
rm_file e namespace path = rm e namespace path false

-- `cp_file`
unfoldable pub cp_file : Environment → ℕ → Text → Text → Action (Unit {0})
cp_file e namespace path1 path2 =
    run (copy_file e namespace (strip_protocol path1) (strip_protocol path2) none)

-- `touch`; `write_empty` opens the path for "wb" and closes it, which fsspec does.
unfoldable pub touch :
    Environment → (Text → Action (Unit {0})) → ℕ → Text → Bool → Action (Unit {0})
touch e write_empty namespace raw_path truncate db =
    let path = strip_protocol raw_path in
    if truncate then write_empty path db else elim (exists e namespace path db) [
      | ok true ↦ (ok tt, db)
      | ok false ↦ write_empty path db
      | err error ↦ (err error, db)
    ]

abbrev or_empty : Option Text → Text
or_empty none = []
or_empty (some t) = t

-- `checksum`
abbrev pub checksum : Environment → ℕ → Text → Db → Result Text
checksum e namespace path db = do found ← info e namespace path db; ok (or_empty found.checksum)
