-- ===== src/Commands/Repair.antt =====
-- management/commands/fsspec_repair.py, without its output.
pub mod Renumber
pub mod Blocks
pub mod Outcome
use django_fsspec.Prelude.{
  ℕ, zero, suc, ◌+◌, Bool, true, false, ◌&&◌, ◌||◌, not, Option, none, some, List, [], ◌∷◌, ◌++◌,
  map, filter, any, update_where, contains, length, ltb, sort, ◌==◌, if◌then◌else◌,
}
use django_fsspec.Errors.{Error, Result, ok, err}
use django_fsspec.Environment.{Bytes, Environment}
use django_fsspec.Text.{Text, text, text_eq, text_le, is_empty, show}
use django_fsspec.Validators.{validate_path}
use django_fsspec.Models.{FileNode, StorageBlock, FileBlock, Db, is_file, is_directory}
use django_fsspec.Models.Query.{
  block_ids, mappings_to, LoadedBlock, at_path, child_prefix, get_block,
}
use django_fsspec.Text.{starts_with}
use django_fsspec.Action.{Action, pure, raise, lift, query, modify, atomic, ◌>>=◌, ◌>>◌, raise_if}
use django_fsspec.Operations.Content.{is_contiguous, join_content, ordered_file_blocks}
use django_fsspec.Operations.Blocks.{free_ownerless, not_of_files}
use django_fsspec.Commands.Fsck.{
  checked_blocks, distinct_keys, in_namespace, is_invalid_path, is_ownerless, leads_to_free,
  of_namespace, owner_count,
}
use django_fsspec.Commands.Repair.Renumber.{renumber}

pub record Summary : Type 0 where
  pub block_metadata : ℕ
  pub free_referenced_blocks : ℕ
  pub unreferenced_used_blocks : ℕ
  pub directory_mappings : ℕ
  pub directory_metadata : ℕ
  pub file_sequences : ℕ
  pub file_metadata : ℕ
  pub path_conflicts : ℕ
  pub moved_descendants : ℕ
  pub shared_blocks : ℕ
  pub invalid_paths : ℕ

-- `if not dry_run: …`
abbrev pub unless : Bool → (Db → Db) → Db → Db
unless dry_run change db = if dry_run then db else change db

abbrev pub count_if : Bool → ℕ
count_if b = if b then 1 else 0

-- the keys of `_repair_free_referenced_blocks`
abbrev pub free_referenced : Option ℕ → Db → List ℕ
free_referenced namespace db =
    distinct_keys
      (block_ids (filter (λ m. of_namespace namespace db m && leads_to_free db m) db.file_blocks))

abbrev pub use_blocks : List ℕ → Db → Db
use_blocks ids db = record db {
  blocks = update_where (λ b. contains b.pk ids) (λ b. record b { is_free = false }) db.blocks;
}

-- `_repair_free_referenced_blocks`
unfoldable pub repair_free_referenced_blocks : Option ℕ → Bool → Db → Db
repair_free_referenced_blocks namespace dry_run db =
    unless dry_run (use_blocks (free_referenced namespace db)) db

-- `_repair_unreferenced_used_blocks`
unfoldable pub repair_unreferenced_used_blocks : Bool → Db → Db
repair_unreferenced_used_blocks dry_run db =
    unless dry_run
      (λ d. record d {
        blocks = update_where (is_ownerless d) (λ b. record b { is_free = true }) d.blocks;
      })
      db

-- A block whose row does not describe its data; here a missing checksum counts.
abbrev pub is_misdescribed : Environment → StorageBlock → Bool
is_misdescribed e b =
    not (b.size == length b.content) || not (text_eq b.checksum (e.sha256 b.content))

abbrev pub described : Environment → StorageBlock → StorageBlock
described e b = record b { size = length b.content; checksum = e.sha256 b.content }

-- the blocks that `_repair_block_metadata` reads
abbrev pub blocks_to_describe : Option ℕ → Db → StorageBlock → Bool
blocks_to_describe none db b = not b.is_free
blocks_to_describe (some namespace) db b =
    contains b.pk (block_ids (filter (of_namespace (some namespace) db) db.file_blocks))

-- `_repair_block_metadata`
unfoldable pub repair_block_metadata : Environment → Option ℕ → Bool → Db → Db
repair_block_metadata e namespace dry_run db =
    unless dry_run
      (λ d. record d {
        blocks =
            update_where (λ b. blocks_to_describe namespace d b && is_misdescribed e b)
              (described e) d.blocks;
      })
      db

abbrev pub update_node : ℕ → (FileNode → FileNode) → Db → Db
update_node pk change db = record db { nodes = update_where (λ n. n.pk == pk) change db.nodes }

abbrev pub has_bad_metadata : FileNode → Bool
has_bad_metadata n = not (n.size == 0) || not (is_empty n.checksum)

abbrev pub drop_mappings : FileNode → Db → Db
drop_mappings n db =
    let left = not_of_files (n.pk ∷ []) db.file_blocks in
    record db {
      file_blocks = left;
      blocks = free_ownerless (block_ids (mappings_to n db)) left db.blocks;
    }

abbrev pub clear_metadata : Environment → FileNode → Db → Db
clear_metadata e n =
    update_node n.pk (λ r. record r { size = 0; checksum = []; updated_at = e.now })

-- the body of the loop in `_repair_directories`
unfoldable pub repair_directory : Environment → Bool → FileNode → Db → Db
repair_directory e dry_run n db =
    let db' = unless dry_run (drop_mappings n) db in
    if has_bad_metadata n then unless dry_run (clear_metadata e n) db' else db'

abbrev repair_each_directory : Environment → Bool → List FileNode → Db → Db
repair_each_directory e dry_run [] db = db
repair_each_directory e dry_run (n ∷ ns) db =
    repair_each_directory e dry_run ns (repair_directory e dry_run n db)

abbrev pub directories : Option ℕ → Db → List FileNode
directories namespace db =
    filter (λ n. in_namespace namespace n && is_directory n.node_type) db.nodes

-- `_repair_directories`
unfoldable pub repair_directories : Environment → Option ℕ → Bool → Db → Db
repair_directories e namespace dry_run db =
    repair_each_directory e dry_run (directories namespace db) db

abbrev pub content_differs : Environment → FileNode → Bytes → Bool
content_differs e n content =
    not (n.size == length content) || not (text_eq n.checksum (e.sha256 content))

abbrev pub describe_file : Environment → FileNode → Bytes → Db → Db
describe_file e n content = update_node n.pk (λ r. record r {
  size = length content;
  checksum = e.sha256 content;
  version = n.version + 1;
  updated_at = e.now;
})

abbrev pub mapping_keys : List LoadedBlock → List ℕ
mapping_keys = map (λ (r : LoadedBlock). r.mapping.pk)

-- the body of the loop in `_repair_file_nodes`
unfoldable pub repair_file_node : Environment → Bool → FileNode → Action (Unit {0})
repair_file_node e dry_run n = do
  rows ← query (ordered_file_blocks n)
  let changed = not (is_contiguous 0 rows)
  if changed && not dry_run then renumber (mapping_keys rows) else pure tt
  let content = join_content rows
  if changed || content_differs e n content
      then modify (unless dry_run (describe_file e n content))
      else pure tt

abbrev repair_each_file : Environment → Bool → List FileNode → Action (Unit {0})
repair_each_file e dry_run [] = pure tt
repair_each_file e dry_run (n ∷ ns) = do repair_file_node e dry_run n; repair_each_file e dry_run ns

abbrev pub file_rows : Option ℕ → Db → List FileNode
file_rows namespace db = filter (λ n. in_namespace namespace n && is_file n.node_type) db.nodes

-- `_repair_file_nodes`
unfoldable pub repair_file_nodes : Environment → Option ℕ → Bool → Action (Unit {0})
repair_file_nodes e namespace dry_run = do
  ns ← query (file_rows namespace)
  repair_each_file e dry_run ns

-- The rows that `_path_conflict_files` takes for descendants of a file: it does not compare their
-- namespaces.
abbrev pub descendants : Option ℕ → FileNode → Db → List FileNode
descendants namespace n db =
    sort (λ a b. text_le a.path b.path)
      (filter (λ r. in_namespace namespace r && starts_with (child_prefix n.path) r.path) db.nodes)

abbrev has_descendant_row : List FileNode → Bool
has_descendant_row [] = false
has_descendant_row (n ∷ ns) = true

abbrev conflicts_among : Option ℕ → Db → List FileNode → List (FileNode × List FileNode)
conflicts_among namespace db [] = []
conflicts_among namespace db (n ∷ ns) =
    let below = descendants namespace n db in
    let rest = conflicts_among namespace db ns in
    if has_descendant_row below then (n, below) ∷ rest else rest

-- `_path_conflict_files`
unfoldable pub path_conflict_files : Option ℕ → Db → List (FileNode × List FileNode)
path_conflict_files namespace db = conflicts_among namespace db (file_rows namespace db)

abbrev pub recovery_root : Text → FileNode → Text
recovery_root timestamp n =
    text "/__django_fsspec_recovered__/conflicts/" ++ show n.namespace_id ++ text "/" ++ timestamp

-- `descendant.save(update_fields=["path", "updated_at"])`, under the unique constraint
abbrev pub save_descendant_path : Environment → FileNode → Text → Action (Unit {0})
save_descendant_path e n path db =
    if any (λ r. at_path n.namespace_id path r && not (r.pk == n.pk)) db.nodes
    then (err Error.django_integrity, db)
    else (ok tt, update_node n.pk (λ r. record r { path = path; updated_at = e.now }) db)

-- the loop over the descendants of one file
abbrev pub move_descendants : Environment → Bool → Text → List FileNode → Action (Unit {0})
move_descendants e dry_run root [] = pure tt
move_descendants e dry_run root (d ∷ ds) = do
  lift (validate_path e.nfc (root ++ d.path))
  if dry_run then pure tt else save_descendant_path e d (root ++ d.path)
  move_descendants e dry_run root ds

abbrev pub move_conflicts :
    Environment → Bool → Text → List (FileNode × List FileNode) → Action (Unit {0})
move_conflicts e dry_run timestamp [] = pure tt
move_conflicts e dry_run timestamp ((n, ds) ∷ cs) = do
  move_descendants e dry_run (recovery_root timestamp n) ds
  move_conflicts e dry_run timestamp cs

abbrev pub total : List (FileNode × List FileNode) → ℕ
total [] = 0
total ((n, ds) ∷ cs) = length ds + total cs

-- what `_repair_path_conflicts` does with the conflicts
abbrev pub resolve_conflicts :
    Environment → Text → Bool → Bool → List (FileNode × List FileNode) → Action (Bool × ℕ)
resolve_conflicts e timestamp dry_run recover [] = pure (false, 0)
resolve_conflicts e timestamp dry_run false (c ∷ cs) = pure (true, 0)
resolve_conflicts e timestamp dry_run true (c ∷ cs) =
    move_conflicts e dry_run timestamp (c ∷ cs) >> pure (false, total (c ∷ cs))

-- `_repair_path_conflicts`: whether conflicts are left, and how many descendants moved
unfoldable pub repair_path_conflicts :
    Environment → Text → Option ℕ → Bool → Bool → Action (Bool × ℕ)
repair_path_conflicts e timestamp namespace dry_run recover = do
  conflicts ← query (path_conflict_files namespace)
  resolve_conflicts e timestamp dry_run recover conflicts

-- `_inspect_unresolved_damage`
abbrev pub invalid_paths : Environment → Option ℕ → Db → ℕ
invalid_paths e namespace db =
    length (filter (λ n. in_namespace namespace n && is_invalid_path e n.path) db.nodes)

abbrev pub shared_blocks : Option ℕ → Db → ℕ
shared_blocks namespace db = length (
    filter (λ k. ltb 1 (owner_count db.file_blocks k))
      (distinct_keys (block_ids (filter (of_namespace namespace db) db.file_blocks))))

-- The counts of each step, on the state that the step starts from: in a loop no row's repair changes
-- what another row is counted for.
abbrev sum_of : (FileNode → ℕ) → List FileNode → ℕ
sum_of f [] = 0
sum_of f (n ∷ ns) = f n + sum_of f ns

abbrev pub count_mappings : Option ℕ → Db → ℕ
count_mappings namespace db = sum_of (λ n. length (mappings_to n db)) (directories namespace db)

abbrev pub count_bad_directories : Option ℕ → Db → ℕ
count_bad_directories namespace db = length (filter has_bad_metadata (directories namespace db))

abbrev has_gap : Db → FileNode → Bool
has_gap db n = not (is_contiguous 0 (ordered_file_blocks n db))

abbrev pub count_gaps : Option ℕ → Db → ℕ
count_gaps namespace db = length (filter (has_gap db) (file_rows namespace db))

abbrev pub count_bad_files : Environment → Option ℕ → Db → ℕ
count_bad_files e namespace db = length (
    filter (λ n. has_gap db n || content_differs e n (join_content (ordered_file_blocks n db)))
      (file_rows namespace db))

abbrev pub count_bad_blocks : Environment → Option ℕ → Db → ℕ
count_bad_blocks e namespace db =
    length (filter (λ b. blocks_to_describe namespace db b && is_misdescribed e b) db.blocks)

abbrev pub release_unreferenced : Option ℕ → Bool → Db → Db
release_unreferenced none dry_run db = repair_unreferenced_used_blocks dry_run db
release_unreferenced (some n) dry_run db = db

abbrev pub count_unreferenced : Option ℕ → Db → ℕ
count_unreferenced (some n) db = 0
count_unreferenced none db = length (filter (is_ownerless db) db.blocks)

abbrev pub damage_report : Environment → Option ℕ → Summary → ℕ → Bool × ℕ → Action (Summary × Bool)
damage_report e namespace counts conflicts found = do
  invalid ← query (invalid_paths e namespace)
  shared ← query (shared_blocks namespace)
  pure (
    record counts {
      path_conflicts = conflicts;
      moved_descendants = found.1;
      invalid_paths = invalid;
      shared_blocks = shared;
    },
    found.0 || ltb 0 shared || ltb 0 invalid,
  )

-- The steps of `handle` from the path conflicts on, with the counts of those before.
unfoldable pub inspect_damage :
    Environment → Text → Option ℕ → Bool → Bool → Summary → Action (Summary × Bool)
inspect_damage e timestamp namespace dry_run recover counts = do
  conflicts ← query (λ db. length (path_conflict_files namespace db))
  found ← repair_path_conflicts e timestamp namespace dry_run recover
  damage_report e namespace counts conflicts found

-- The steps of `handle` from the blocks' metadata on.
abbrev pub later_steps :
    Environment → Text → Option ℕ → Bool → Bool → (ℕ → ℕ → Summary) → Action (Summary × Bool)
later_steps e timestamp namespace dry_run recover counts = do
  bad_blocks ← query (count_bad_blocks e namespace)
  modify (repair_block_metadata e namespace dry_run)
  unreferenced ← query (count_unreferenced namespace)
  modify (release_unreferenced namespace dry_run)
  inspect_damage e timestamp namespace dry_run recover (counts bad_blocks unreferenced)

abbrev pub early_counts : ℕ → ℕ → ℕ → ℕ → ℕ → ℕ → ℕ → Summary
early_counts free mappings metadata sequences bad_files bad_blocks unreferenced = record {
  block_metadata = bad_blocks;
  free_referenced_blocks = free;
  unreferenced_used_blocks = unreferenced;
  directory_mappings = mappings;
  directory_metadata = metadata;
  file_sequences = sequences;
  file_metadata = bad_files;
  path_conflicts = 0;
  moved_descendants = 0;
  shared_blocks = 0;
  invalid_paths = 0;
}

-- The steps of `handle` inside its transaction; the flag says that damage is left.
unfoldable pub repair_steps : Environment → Text → Option ℕ → Bool → Bool → Action (Summary × Bool)
repair_steps e timestamp namespace dry_run recover = do
  free ← query (λ db. length (free_referenced namespace db))
  modify (repair_free_referenced_blocks namespace dry_run)
  mappings ← query (count_mappings namespace)
  metadata ← query (count_bad_directories namespace)
  modify (repair_directories e namespace dry_run)
  sequences ← query (count_gaps namespace)
  bad_files ← query (count_bad_files e namespace)
  repair_file_nodes e namespace dry_run
  later_steps e timestamp namespace dry_run recover
      (early_counts free mappings metadata sequences bad_files)

-- `handle`: with damage left there is a `CommandError`, after the transaction.
unfoldable pub repair : Environment → Text → Option ℕ → Bool → Bool → Action (Summary × Bool)
repair e timestamp namespace dry_run recover =
    atomic (repair_steps e timestamp namespace dry_run recover)
