-- ===== src/Operations/Transfer.antt =====
-- operations.py: moves of a file and of a directory, and copies.
pub mod InUse
pub mod Moved
use django_fsspec.Prelude.{
  ℕ, Bool, true, false, ◌&&◌, ◌||◌, not, List, [], ◌∷◌, ◌++◌, Option, none, some, filter, any,
  update_where, length, drop, ◌==◌, if◌then◌else◌,
}
use django_fsspec.Errors.{Error, Result, ok, err}
use django_fsspec.Environment.{Environment, Integrity}
use django_fsspec.Text.{Text, text_eq, rstrip_slash, starts_with}
use django_fsspec.Validators.{validate_path}
use django_fsspec.Models.{FileNode, Db, is_file, is_directory}
use django_fsspec.Models.Query.{
  LoadedBlock, child_prefix, get_node, any_below, below_prefix, at_path,
}
use django_fsspec.Action.{
  Action, pure, lift, query, query_or_raise, modify, atomic, ◌>>=◌, ◌>>◌, raise_if,
}
use django_fsspec.Operations.Content.{
  is_checksum, is_metadata, checksum_differs, ordered_file_blocks, validate_file_node_type,
}
use django_fsspec.Operations.Info.{get_file_info, found}
use django_fsspec.Operations.Paths.{
  reject_root_file_path, ensure_parent_directory, lock_namespace_for_write,
}
use django_fsspec.Operations.Blocks.{release_file_blocks}
use django_fsspec.Operations.Writer.{Mode, Writer, new_writer, start, write_chunk, commit, node_of}
use django_fsspec.Operations.Write.{discard_on_error}
use django_fsspec.Operations.Directory.{is_directory_kind, delete_nodes, delete_one, pks}

-- `file_node.path = path; file_node.save(update_fields=["path", "updated_at"])`, under the unique
-- constraint of the table
unfoldable pub save_path : Environment → FileNode → Text → Action (Unit {0})
save_path e n path db =
    if any (λ r. at_path n.namespace_id path r && not (r.pk == n.pk)) db.nodes
    then (err Error.django_integrity, db)
    else (
      ok tt,
      record db {
        nodes =
            update_where (λ r. r.pk == n.pk) (λ r. record r { path = path; updated_at = e.now })
              db.nodes;
      },
    )

-- the row that `move_file` moves
abbrev pub file_to_move : ℕ → Text → Db → Result FileNode
file_to_move namespace src db = elim (get_node namespace src db) [
  | none ↦
      if any_below namespace (child_prefix src) db
      then err Error.is_a_directory
      else err Error.file_not_found
  | some n ↦ if is_directory n.node_type then err Error.is_a_directory else ok n
]

-- `move_file` makes room at its destination.
abbrev pub clear_destination : ℕ → Text → Bool → Option FileNode → Action (Unit {0})
clear_destination namespace dst overwrite none db =
    (if any_below namespace (child_prefix dst) db then err Error.is_a_directory else ok tt, db)
clear_destination namespace dst overwrite (some n) db =
    if not overwrite
    then (err Error.file_exists, db)
    else if is_directory n.node_type
    then (err Error.is_a_directory, db)
    else delete_one n db

-- `move_file` inside its transaction
unfoldable pub move_body : Environment → ℕ → Text → Text → Bool → Action (Unit {0})
move_body e namespace src dst overwrite = do
  query_or_raise (lock_namespace_for_write namespace)
  query_or_raise (ensure_parent_directory e namespace dst false)
  file_node ← query_or_raise (file_to_move namespace src)
  dest_node ← query (get_node namespace dst)
  clear_destination namespace dst overwrite dest_node
  save_path e file_node dst

unfoldable pub move_file : Environment → ℕ → Text → Text → Bool → Action (Unit {0})
move_file e namespace raw_src raw_dst overwrite = do
  src ← lift (validate_path e.nfc raw_src)
  dst ← lift (validate_path e.nfc raw_dst)
  lift (reject_root_file_path src)
  lift (reject_root_file_path dst)
  if text_eq src dst then pure tt else atomic (move_body e namespace src dst overwrite)

-- The new path of a row of the tree that moves.
abbrev pub moved_path : Text → Text → Text → Text
moved_path src dst path =
    if text_eq path src then dst else rstrip_slash dst ++ drop (length (rstrip_slash src)) path

-- The rows of the tree: the row of the directory, if it has one, and those below it.
abbrev pub in_tree : ℕ → Text → FileNode → Bool
in_tree namespace path n = at_path namespace path n || below_prefix namespace (child_prefix path) n

abbrev pub set_path : ℕ → Text → List FileNode → List FileNode
set_path pk path = update_where (λ n. n.pk == pk) (λ n. record n { path = path })

-- A loop of `filter(pk=node.pk).update(path=…)` over the rows; it stops where the unique constraint
-- refuses a row.
abbrev path_taken : ℕ → ℕ → Text → List FileNode → Bool
path_taken pk namespace path = any (λ n. at_path namespace path n && not (n.pk == pk))

abbrev pub path_is_free : ℕ → ℕ → Text → Db → Result (Unit {0})
path_is_free pk namespace path db =
    if path_taken pk namespace path db.nodes then err Error.django_integrity else ok tt

unfoldable pub update_paths : (Text → Text) → List FileNode → Action (Unit {0})
update_paths new_path [] = pure tt
update_paths new_path (n ∷ rows) = do
  query_or_raise (path_is_free n.pk n.namespace_id (new_path n.path))
  modify (λ db. record db { nodes = set_path n.pk (new_path n.path) db.nodes })
  update_paths new_path rows

-- `dst.startswith(src.rstrip("/") + "/")` or the same path
abbrev pub is_inside : Text → Text → Bool
is_inside src dst = text_eq dst src || starts_with (child_prefix src) dst

abbrev pub has_rows : List FileNode → Bool
has_rows [] = false
has_rows (n ∷ ns) = true

abbrev pub is_file_at : Option FileNode → Bool
is_file_at none = false
is_file_at (some n) = is_file n.node_type

-- the guard of `move_directory` against a file at its source
abbrev pub source_is_file : ℕ → Text → Db → Result (Unit {0})
source_is_file namespace src db =
    if is_file_at (get_node namespace src db) then err Error.not_a_directory else ok tt

-- what `move_directory` finds at its destination
unfoldable pub clear_tree : ℕ → Text → Bool → Action (Unit {0})
clear_tree namespace dst overwrite db =
    let there = filter (in_tree namespace dst) db.nodes in
    if has_rows there
    then if overwrite
      then (ok tt, delete_nodes (pks there) (release_file_blocks (pks there) db))
      else (err Error.file_exists, db)
    else (ok tt, db)

-- `move_directory` inside its transaction; `temp_prefix` holds a fresh random key. The order of the
-- rows is that of the table: each step changes the row of its own key.
unfoldable pub move_tree : Environment → Text → ℕ → Text → Text → Bool → Action (Unit {0})
unfolding clear_tree
move_tree e temp_prefix namespace src dst overwrite = do
  query_or_raise (lock_namespace_for_write namespace)
  query_or_raise (ensure_parent_directory e namespace dst false)
  query_or_raise (source_is_file namespace src)
  source_nodes ← query (λ db. filter (in_tree namespace src) db.nodes)
  raise_if (not (has_rows source_nodes)) Error.file_not_found
  clear_tree namespace dst overwrite
  update_paths (λ path. temp_prefix ++ drop (length (rstrip_slash src)) path) source_nodes
  update_paths (moved_path src dst) source_nodes

unfoldable pub move_directory : Environment → Text → ℕ → Text → Text → Bool → Action (Unit {0})
move_directory e temp_prefix namespace raw_src raw_dst overwrite = do
  src ← lift (validate_path e.nfc raw_src)
  dst ← lift (validate_path e.nfc raw_dst)
  lift (reject_root_file_path src)
  lift (reject_root_file_path dst)
  if text_eq src dst then pure tt else do
    raise_if (is_inside src dst) Error.value_error
    atomic (move_tree e temp_prefix namespace src dst overwrite)

-- The checks that `copy_file` makes of a block.
abbrev pub copy_check : Environment → Integrity → LoadedBlock → Result (Unit {0})
copy_check e integrity r =
    if is_checksum integrity && checksum_differs e r.block.checksum r.block.content
    then err Error.data_integrity
    else if is_metadata integrity
        && (r.block.is_free || not (r.block.size == length r.block.content))
    then err Error.data_integrity
    else ok tt

unfoldable pub copy_blocks : Environment → Integrity → Writer → List LoadedBlock → Action Writer
copy_blocks e integrity w [] = write_chunk e w [] true
copy_blocks e integrity w (r ∷ rows) = do
  lift (copy_check e integrity r)
  w' ← write_chunk e w r.block.content false
  copy_blocks e integrity w' rows

abbrev or_off : Option Integrity → Integrity
or_off none = Integrity.off
or_off (some i) = i

abbrev or_blank : Option Text → Text
or_blank none = []
or_blank (some t) = t

-- `copy_file`: the blocks of the source are read when the destination has been started.
unfoldable pub copy_file : Environment → ℕ → Text → Text → Option Integrity → Action FileNode
copy_file e namespace src dst integrity = do
  src_info ← query_or_raise (get_file_info e namespace src)
  raise_if (is_directory_kind src_info.kind) Error.is_a_directory
  src_node ← query_or_raise (λ db. found (get_node namespace src db))
  lift (validate_file_node_type src_node)
  w ← new_writer e namespace dst Mode.wb (or_blank src_info.content_type) none
  w' ← start e w
  w'' ← discard_on_error w' (do
    rows ← query (ordered_file_blocks src_node)
    written ← copy_blocks e (or_off integrity) w' rows
    commit written)
  node_of w''
