-- ===== src/FileSystem/Transaction.antt =====
-- fs.py: `DjangoTransaction`, the files that wait for its end inside one database transaction.
use django_fsspec.Prelude.{Bool, List, [], ◌∷◌, if◌then◌else◌}
use django_fsspec.Errors.{Error, ok, err}
use django_fsspec.Models.{Db}
use django_fsspec.Action.{Action, pure, ◌>>◌, raise_if}
use django_fsspec.Buffer.{DjangoFile, commit_file, discard_file}

-- `files`, and the state that a roll-back of `_atomic` returns to
pub record Transaction : Type 0 where
  pub files : List DjangoFile
  pub before : Db

-- `start`, where `intrans` says that one is active
unfoldable pub start_transaction : Bool → Action Transaction
start_transaction intrans = do
  raise_if intrans Error.runtime_error
  λ db. (ok (record { files = []; before = db }), db)

abbrev finish_one : (DjangoFile → Action DjangoFile) → Bool → DjangoFile → Action DjangoFile
finish_one close committed f = if committed then commit_file close f else discard_file f

-- the loop over the files
unfoldable pub finish_files :
    (DjangoFile → Action DjangoFile) → Bool → List DjangoFile → Action (Unit {0})
finish_files close committed [] = pure tt
finish_files close committed (f ∷ files) = do
  finish_one close committed f
  finish_files close committed files

-- `complete`
unfoldable pub complete : (DjangoFile → Action DjangoFile) → Bool → Transaction → Action (Unit {0})
complete close committed t db =
    let (r, db') = finish_files close committed t.files db in
    elim r [
      | ok _ ↦ (ok tt, if committed then db' else t.before)
      | err error ↦ (err error, t.before)
    ]
