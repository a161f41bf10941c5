-- ===== src/Operations/Directory/InUse.antt =====
-- operations.py: deletions and the blocks of the files that stay.
use django_fsspec.Prelude.{
  ℕ, inl, inr, Bool-cases, Bool, not, Option, none, some, List, [], ◌∷◌, ◌++◌, contains, all-filter,
  arith,
}
use django_fsspec.Errors.{Error, raise_if}
use django_fsspec.Environment.{Environment}
use django_fsspec.Text.{Text, text, text_eq}
use django_fsspec.Models.{FileNode, Db, is_file}
use django_fsspec.Models.Query.{child_prefix, get_node}
use django_fsspec.Action.Keeps.{atomic-Keeps, after_read-Keeps}
use django_fsspec.Validators.{validate_path}
use django_fsspec.Operations.Paths.{lock_namespace_for_write}
use django_fsspec.Operations.Blocks.{release_file_blocks}
use django_fsspec.Operations.Blocks.InUse.{
  HasUsedBlocks, is_used, release_file_blocks-HasUsedBlocks,
}
use django_fsspec.Operations.Directory.{
  delete_nodes, delete_tree, delete_found, delete_body, delete_file, children_of, pks, node_pks,
}

pub delete_nodes-HasUsedBlocks :
    (ids : List ℕ) (db : Db) → HasUsedBlocks db → HasUsedBlocks (delete_nodes ids db)
delete_nodes-HasUsedBlocks ids db h =
    all-filter (λ m. not (contains m.file_id ids)) (is_used db.blocks) db.file_blocks h

-- The release of the blocks of files, and the deletion of their rows.
pub deleted-HasUsedBlocks :
    (ids : List ℕ) (db : Db)
    → HasUsedBlocks db
    → HasUsedBlocks (delete_nodes ids (release_file_blocks ids db))
deleted-HasUsedBlocks ids db h =
    delete_nodes-HasUsedBlocks ids (release_file_blocks ids db)
      (release_file_blocks-HasUsedBlocks ids db h)

delete_tree-HasUsedBlocks :
    (n : Option FileNode) (children : List FileNode) (recursive : Bool) (db : Db)
    → HasUsedBlocks db
    → HasUsedBlocks (delete_tree n children recursive db).1
unfolding delete_tree
delete_tree-HasUsedBlocks n children recursive db h =
    ground (arith, deleted-HasUsedBlocks (pks children ++ node_pks n) db h)

delete_found-HasUsedBlocks :
    (namespace : ℕ) (path : Text) (recursive : Bool) (n : Option FileNode) (db : Db)
    → HasUsedBlocks db
    → HasUsedBlocks (delete_found namespace path recursive n db).1
unfolding delete_found
delete_found-HasUsedBlocks namespace path recursive none db h =
    delete_tree-HasUsedBlocks none (children_of namespace (child_prefix path) db) recursive db h
delete_found-HasUsedBlocks namespace path recursive (some n) db h =
    let tree =
      delete_tree-HasUsedBlocks (some n) (children_of namespace (child_prefix path) db) recursive db
        h in
    elim (Bool-cases (is_file n.node_type)) [
      | inl file ↦ rw file (deleted-HasUsedBlocks (n.pk ∷ []) db h)
      | inr other ↦ rw other tree
    ]

-- `delete_file` of anything, whether it raises or not, leaves no mapping of a file with a block
-- that is marked free, if there was none before.
pub delete_file-HasUsedBlocks :
    (e : Environment) (namespace : ℕ) (raw : Text) (recursive : Bool) (db : Db)
    → HasUsedBlocks db
    → HasUsedBlocks (delete_file e namespace raw recursive db).1
unfolding delete_file delete_body
delete_file-HasUsedBlocks e namespace raw recursive =
    after_read-Keeps HasUsedBlocks (λ _. validate_path e.nfc raw) _
      λ path.
        after_read-Keeps HasUsedBlocks
          (λ _. raise_if (text_eq path (text "/")) Error.is_a_directory) _
          λ _. atomic-Keeps HasUsedBlocks (delete_body namespace path recursive) (
            after_read-Keeps HasUsedBlocks (lock_namespace_for_write namespace) _ λ _ db h.
              delete_found-HasUsedBlocks namespace path recursive (get_node namespace path db) db h)
