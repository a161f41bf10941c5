-- ===== src/Operations/Transfer/InUse.antt =====
-- operations.py: moves, and the blocks of the files that stay.
use django_fsspec.Prelude.{
  ℕ, inl, inr, Bool-cases, Bool, true, false, not, Option, none, some, List, [], ◌∷◌, ◌++◌, drop,
  length, filter, arith, if◌then◌else◌,
}
use django_fsspec.Errors.{Error, ok}
use django_fsspec.Environment.{Environment}
use django_fsspec.Text.{Text, text_eq, rstrip_slash}
use django_fsspec.Validators.{validate_path}
use django_fsspec.Models.{FileNode, Db, is_directory}
use django_fsspec.Models.Query.{get_node}
use django_fsspec.Action.{Action, atomic, pure, modify, query, raise_if, ◌>>◌, ◌>>=◌}
use django_fsspec.Action.Keeps.{Keeps, atomic-Keeps, after_read-Keeps, bind-Keeps}
use django_fsspec.Operations.Paths.{
  reject_root_file_path, ensure_parent_directory, lock_namespace_for_write,
}
use django_fsspec.Operations.Blocks.InUse.{HasUsedBlocks}
use django_fsspec.Operations.Directory.{pks}
use django_fsspec.Operations.Directory.InUse.{deleted-HasUsedBlocks}
use django_fsspec.Operations.Transfer.{
  save_path, file_to_move, clear_destination, move_body, move_file, in_tree, update_paths, set_path,
  path_is_free, clear_tree, move_tree, move_directory, has_rows, is_inside, moved_path,
  source_is_file,
}

save_path-HasUsedBlocks :
    (e : Environment) (n : FileNode) (path : Text) → Keeps HasUsedBlocks (save_path e n path)
unfolding save_path
save_path-HasUsedBlocks e n path db h = ground arith

clear_destination-HasUsedBlocks :
    (namespace : ℕ) (dst : Text) (overwrite : Bool) (there : Option FileNode)
    → Keeps HasUsedBlocks (clear_destination namespace dst overwrite there)
clear_destination-HasUsedBlocks namespace dst overwrite none db h = h
clear_destination-HasUsedBlocks namespace dst overwrite (some n) db h =
    let deleted = deleted-HasUsedBlocks (n.pk ∷ []) db h in
    elim (Bool-cases overwrite) [
      | inr kept ↦ rw kept h
      | inl replaced ↦
          rw replaced
            (elim (Bool-cases (is_directory n.node_type)) [ inl d ↦ rw d h | inr d ↦ rw d deleted ])
    ]

-- `move_file`, whether it raises or not, leaves no mapping of a file with a block that is marked
-- free, if there was none before.
pub move_file-HasUsedBlocks :
    (e : Environment) (namespace : ℕ) (src dst : Text) (overwrite : Bool) (db : Db)
    → HasUsedBlocks db
    → HasUsedBlocks (move_file e namespace src dst overwrite db).1
unfolding move_file move_body
move_file-HasUsedBlocks e namespace raw_src raw_dst overwrite =
    after_read-Keeps HasUsedBlocks (λ _. validate_path e.nfc raw_src) _
      λ src.
        after_read-Keeps HasUsedBlocks (λ _. validate_path e.nfc raw_dst) _
          λ dst.
            after_read-Keeps HasUsedBlocks (λ _. reject_root_file_path src) _
              λ _.
                after_read-Keeps HasUsedBlocks (λ _. reject_root_file_path dst) _
                  λ _. moved src dst (text_eq src dst)
  where
    body : (src dst : Text) → Keeps HasUsedBlocks (move_body e namespace src dst overwrite)
    body src dst = after_read-Keeps HasUsedBlocks (lock_namespace_for_write namespace) _ λ _.
        after_read-Keeps HasUsedBlocks (ensure_parent_directory e namespace dst false) _ λ _.
          after_read-Keeps HasUsedBlocks (file_to_move namespace src) _ λ n.
            after_read-Keeps HasUsedBlocks (λ db. ok (get_node namespace dst db))
              (λ there. clear_destination namespace dst overwrite there >> save_path e n dst)
              λ there.
                bind-Keeps HasUsedBlocks (clear_destination namespace dst overwrite there)
                  (λ _. save_path e n dst)
                  (clear_destination-HasUsedBlocks namespace dst overwrite there)
                  (λ _. save_path-HasUsedBlocks e n dst)

    moved :
        (src dst : Text) (same : Bool)
        → Keeps HasUsedBlocks
            (if same then pure tt else atomic (move_body e namespace src dst overwrite))
    moved src dst true = λ db h. h
    moved src dst false =
        atomic-Keeps HasUsedBlocks (move_body e namespace src dst overwrite) (body src dst)

update_paths-HasUsedBlocks :
    (new_path : Text → Text) (rows : List FileNode)
    → Keeps HasUsedBlocks (update_paths new_path rows)
unfolding update_paths
update_paths-HasUsedBlocks new_path [] = λ db h. h
update_paths-HasUsedBlocks new_path (n ∷ rows) =
    let renamed : Db → Db = λ db. record db { nodes = set_path n.pk (new_path n.path) db.nodes } in
    after_read-Keeps HasUsedBlocks (path_is_free n.pk n.namespace_id (new_path n.path))
      (λ _. modify renamed >> update_paths new_path rows)
      λ _.
        bind-Keeps HasUsedBlocks (modify renamed) (λ _. update_paths new_path rows) (λ db h. h)
          (λ _. update_paths-HasUsedBlocks new_path rows)

clear_tree-HasUsedBlocks :
    (namespace : ℕ) (dst : Text) (overwrite : Bool)
    → Keeps HasUsedBlocks (clear_tree namespace dst overwrite)
unfolding clear_tree
clear_tree-HasUsedBlocks namespace dst overwrite db h =
    let there = filter (in_tree namespace dst) db.nodes in
    let deleted = deleted-HasUsedBlocks (pks there) db h in
    elim (Bool-cases (has_rows there)) [
      | inr nothing ↦ rw nothing h
      | inl found ↦ rw found (elim (Bool-cases overwrite) [
        | inl replaced ↦ rw replaced deleted
        | inr kept ↦ rw kept h
      ])
    ]

move_tree-HasUsedBlocks :
    (e : Environment) (temp : Text) (namespace : ℕ) (src dst : Text) (overwrite : Bool)
    → Keeps HasUsedBlocks (move_tree e temp namespace src dst overwrite)
unfolding move_tree
move_tree-HasUsedBlocks e temp namespace src dst overwrite =
    let to_temp : Text → Text = λ path. temp ++ drop (length (rstrip_slash src)) path in
    let renames : List FileNode → Action (Unit {0}) =
      λ rows. update_paths to_temp rows >> update_paths (moved_path src dst) rows in
    let rest : List FileNode → Action (Unit {0}) = λ rows.
      raise_if (not (has_rows rows)) Error.file_not_found
      >> (clear_tree namespace dst overwrite >> renames rows) in
    after_read-Keeps HasUsedBlocks (lock_namespace_for_write namespace) _ λ _.
      after_read-Keeps HasUsedBlocks (ensure_parent_directory e namespace dst false) _ λ _.
        after_read-Keeps HasUsedBlocks (source_is_file namespace src)
          (λ _. query (λ db. filter (in_tree namespace src) db.nodes) >>= rest)
          λ _.
            after_read-Keeps HasUsedBlocks (λ db. ok (filter (in_tree namespace src) db.nodes)) rest
              λ rows.
                bind-Keeps HasUsedBlocks (raise_if (not (has_rows rows)) Error.file_not_found)
                  (λ _. clear_tree namespace dst overwrite >> renames rows) (λ db h. h)
                  λ _.
                    bind-Keeps HasUsedBlocks (clear_tree namespace dst overwrite)
                      (λ _. renames rows) (clear_tree-HasUsedBlocks namespace dst overwrite)
                      λ _.
                        bind-Keeps HasUsedBlocks (update_paths to_temp rows)
                          (λ _. update_paths (moved_path src dst) rows)
                          (update_paths-HasUsedBlocks to_temp rows)
                          (λ _. update_paths-HasUsedBlocks (moved_path src dst) rows)

-- `move_directory`, whether it raises or not, leaves no mapping of a file with a block that is
-- marked free, if there was none before.
pub move_directory-HasUsedBlocks :
    (e : Environment) (temp : Text) (namespace : ℕ) (src dst : Text) (overwrite : Bool) (db : Db)
    → HasUsedBlocks db
    → HasUsedBlocks (move_directory e temp namespace src dst overwrite db).1
unfolding move_directory
move_directory-HasUsedBlocks e temp namespace raw_src raw_dst overwrite =
    after_read-Keeps HasUsedBlocks (λ _. validate_path e.nfc raw_src) _
      λ src.
        after_read-Keeps HasUsedBlocks (λ _. validate_path e.nfc raw_dst) _
          λ dst.
            after_read-Keeps HasUsedBlocks (λ _. reject_root_file_path src) _
              λ _.
                after_read-Keeps HasUsedBlocks (λ _. reject_root_file_path dst) _
                  λ _. moved src dst (text_eq src dst)
  where
    guarded : Text → Text → Action (Unit {0})
    guarded src dst =
        raise_if (is_inside src dst) Error.value_error
        >> atomic (move_tree e temp namespace src dst overwrite)

    moved :
        (src dst : Text) (same : Bool)
        → Keeps HasUsedBlocks (if same then pure tt else guarded src dst)
    moved src dst true = λ db h. h
    moved src dst false =
        bind-Keeps HasUsedBlocks (raise_if (is_inside src dst) Error.value_error)
          (λ _. atomic (move_tree e temp namespace src dst overwrite)) (λ db h. h)
          (λ _.
            atomic-Keeps HasUsedBlocks (move_tree e temp namespace src dst overwrite)
              (move_tree-HasUsedBlocks e temp namespace src dst overwrite))
