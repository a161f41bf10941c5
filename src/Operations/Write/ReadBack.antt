-- ===== src/Operations/Write/ReadBack.antt =====
-- operations.py: a read that follows a write.
use django_fsspec.Prelude.{ℕ, ◌+◌, ◌≤◌, ◌<◌, ◌≡◌, false, Bool, Option, some, ◌++◌, length}
use django_fsspec.Errors.{ok}
use django_fsspec.Environment.{Bytes, Environment, HasFreshKeys, Integrity}
use django_fsspec.Text.{Text, text, text_eq}
use django_fsspec.Validators.{validate_path}
use django_fsspec.Models.{FileNode, Db}
use django_fsspec.Models.Consistent.{IsConsistent}
use django_fsspec.Operations.Content.{get_read_integrity}
use django_fsspec.Operations.Content.Intact.{IsIntact, content_of}
use django_fsspec.Operations.Info.{read_file}
use django_fsspec.Operations.Writer.Start.{Admits}
use django_fsspec.Operations.Write.{write_file, append_file}
use django_fsspec.Operations.Write.RoundTrip.{read_file-Holds, write_file-Holds, append_file-Holds}

module _ (e : Environment) (fresh : HasFreshKeys e) (namespace : ℕ) (raw path : Text)
    (content_type : Text) (db : Db) (valid : validate_path e.nfc raw ≡ ok path)
    (not_root : text_eq path (text "/") ≡ false) (c : IsConsistent db) (positive : 0 < e.block_size)
    (verify : Bool) (integrity : Option Integrity) (policy : Integrity)
    (chosen : get_read_integrity e integrity verify ≡ ok policy) where
  -- With fresh keys and a positive block size, in a consistent database, on a valid path below the
  -- root where the checks of `start` pass, `write_file` of data within the size limit returns a
  -- node, and `read_file` then returns the data, with any known integrity policy.
  pub read_file-write_file :
      (existing : Option FileNode) (added : Bytes)
      → Admits e namespace path existing db
      → length added ≤ e.max_file_size
      → (node : FileNode) × (db' : Db) × (write_file e namespace raw added content_type db
          ≡ (ok node, db'))
        × (read_file e namespace raw verify integrity db' ≡ ok added)
  read_file-write_file existing added admits fits =
      let (node, db', runs, holds) =
        write_file-Holds e fresh namespace raw path content_type db valid not_root existing added c
          positive admits fits in
      (
        node,
        db',
        runs,
        read_file-Holds e namespace raw path added db' verify integrity policy valid chosen holds,
      )

  -- With fresh keys and a positive block size, in a consistent database, on a valid path below the
  -- root where the checks of `start` pass and the file at the path is intact, `append_file` of data
  -- that fits returns a node, and `read_file` then returns the old content followed by the data,
  -- with any known integrity policy.
  pub read_file-append_file :
      (old : FileNode) (added : Bytes)
      → Admits e namespace path (some old) db
      → IsIntact e old db
      → length (content_of old db) + length added ≤ e.max_file_size
      → (node : FileNode) × (db' : Db) × (append_file e namespace raw added content_type db
          ≡ (ok node, db'))
        × (read_file e namespace raw verify integrity db' ≡ ok (content_of old db ++ added))
  read_file-append_file old added admits intact fits =
      let (node, db', runs, holds) =
        append_file-Holds e fresh namespace raw path content_type db valid not_root old added c
          positive admits intact fits in
      (
        node,
        db',
        runs,
        read_file-Holds e namespace raw path (content_of old db ++ added) db' verify integrity
            policy valid chosen holds,
      )
