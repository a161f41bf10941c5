-- ===== src/Tests/Maintenance.antt =====
-- The management commands at concrete inputs.
use django_fsspec.Prelude.{
  all, ℕ, ◌==◌, if◌then◌else◌, map, ◌+◌, ◌≡◌, refl, arith, Bool, false, true, none, some, List, [],
  ◌∷◌,
}
use django_fsspec.Prelude.Int.{ℤ, negsuc}
use django_fsspec.Errors.{Error, ok, err}
use django_fsspec.Environment.{Integrity}
use django_fsspec.Text.{Text, text, show}
use django_fsspec.Models.{FileNode, Db}
use django_fsspec.Models.Query.{mappings_of, get_node_by_pk}
use django_fsspec.Validators.{validate_path}
use django_fsspec.Operations.Content.{
  chunk_data, load_file_data, ordered_file_blocks, path_has_descendants, get_read_integrity,
}
use django_fsspec.Operations.Content.Intact.{IsIntact, content_of}
use django_fsspec.Operations.Info.{read_file}
use django_fsspec.Operations.Blocks.{allocate_blocks, new_mappings, bulk_create}
use django_fsspec.Commands.Rechunk.{
  RechunkResult, Options, rechunk_file, prepare_rechunk, rewrite_file, update_rechunked, candidates,
  normalize_prefix,
}
use django_fsspec.Commands.Rechunk.Content.{rechunk_file-content}
use django_fsspec.Commands.Rechunk.Runs.{handle, process_file, process_files, dry_run-handle}
use django_fsspec.Commands.Fsck.{
  check, check_blocks, check_files, check_file_node, check_block_graph, ownerless_findings,
}
use django_fsspec.Commands.Repair.{
  Summary, repair, repair_steps, repair_free_referenced_blocks, repair_unreferenced_used_blocks,
  repair_block_metadata, repair_directory, repair_directories, repair_file_node, repair_file_nodes,
  path_conflict_files, repair_path_conflicts, inspect_damage,
}
use django_fsspec.Commands.Repair.Renumber.{
  renumber, renumber_table, renumber_rows, renumber_slots, to_slots, Slot,
}
use django_fsspec.Commands.Repair.Renumber.Positions.{has_position, renumber_rows-positions}
use django_fsspec.Commands.Repair.Outcome.{repair-clean}
use django_fsspec.Tests.Sample.{
  env, env-HasFreshKeys, db, sample_node, sample_namespace, sample_block, sample_mapping,
}

-- A gap in the sequence, a wrong size of a block and of the file, and a used block without an owner.
abbrev damaged_db : Db
damaged_db = record db {
  nodes = record sample_node { size = 9 } ∷ [];
  blocks =
      record (sample_block 1 (21 ∷ 22 ∷ []) false) { size = 7 }
      ∷ sample_block 2 (23 ∷ []) true
      ∷ sample_block 3 (9 ∷ []) false
      ∷ [];
  file_blocks = sample_mapping 1 5 1 4 ∷ sample_mapping 2 5 2 0 ∷ sample_mapping 2 5 2 6 ∷ [];
}

abbrev gap_db : Db
gap_db = record damaged_db { file_blocks = sample_mapping 1 5 1 4 ∷ sample_mapping 2 5 2 6 ∷ [] }

abbrev repaired_db : Db
repaired_db = record db { nodes = record sample_node { version = 5; updated_at = 100 } ∷ [] }

runs_repair :
    ((repair env (text "now") none false false gap_db).1 ≡ repaired_db)
    × (check env none (repair env (text "now") none false false gap_db).1 ≡ [])
unfolding repair repair_steps repair_free_referenced_blocks repair_unreferenced_used_blocks
    repair_block_metadata repair_directory repair_directories repair_file_node repair_file_nodes
    path_conflict_files repair_path_conflicts inspect_damage renumber renumber_table renumber_rows
    renumber_slots ordered_file_blocks mappings_of check check_blocks check_files check_file_node
    check_block_graph validate_path
runs_repair = (refl, refl)

-- The file /a of one namespace and the file /a/b of another: a check finds nothing, and a repair that
-- recovers conflicts moves the second file away.
abbrev two_namespaces_db : Db
two_namespaces_db = record db {
  namespaces = sample_namespace ∷ record sample_namespace { pk = 2 } ∷ [];
  nodes =
      sample_node
      ∷ record sample_node {
        pk = 6;
        namespace_id = 2;
        path = text "/a/b";
        size = 0;
        checksum = 1 ∷ [];
      }
      ∷ [];
}

second_path : List FileNode → Text
second_path (a ∷ b ∷ ns) = b.path
second_path _ = []

runs_foreign_conflict :
    (check env none two_namespaces_db ≡ [])
    × (second_path (repair env (text "now") none false true two_namespaces_db).1.nodes
        ≡ text "/__django_fsspec_recovered__/conflicts/1/now/a/b")
unfolding second_path show repair repair_steps repair_free_referenced_blocks
    repair_unreferenced_used_blocks repair_block_metadata repair_directory repair_directories
    repair_file_node repair_file_nodes path_conflict_files repair_path_conflicts inspect_damage
    renumber renumber_table renumber_rows renumber_slots ordered_file_blocks mappings_of check
    check_blocks check_files check_file_node check_block_graph validate_path
runs_foreign_conflict = (refl, refl)

abbrev options : Bool → Options
options dry_run = record {
  block_size = 1;
  namespace = none;
  prefix = some (text "/a");
  source_block_size = none;
  limit = none;
  dry_run = dry_run;
  verify = Integrity.metadata;
  abort_on_error = false;
}

runs_rechunk :
    (read_file env 1 (text "/a") true none (handle env (options false) db).after
      ≡ ok (21 ∷ 22 ∷ 23 ∷ []))
    × ((handle env (options false) db).summary.new_blocks ≡ 3)
    × ((handle env (options false) db).exit_code ≡ 0)
unfolding handle process_files process_file candidates normalize_prefix rechunk_file prepare_rechunk
    rewrite_file update_rechunked chunk_data allocate_blocks new_mappings bulk_create read_file
    validate_path get_read_integrity load_file_data ordered_file_blocks mappings_of
    path_has_descendants
runs_rechunk = (refl, refl, refl)

abbrev gap_summary : Summary
gap_summary = record {
  block_metadata = 1;
  free_referenced_blocks = 1;
  unreferenced_used_blocks = 1;
  directory_mappings = 0;
  directory_metadata = 0;
  file_sequences = 1;
  file_metadata = 1;
  path_conflicts = 0;
  moved_descendants = 0;
  shared_blocks = 0;
  invalid_paths = 0;
}

gap-repaired :
    repair env (text "now") none false false gap_db ≡ (ok (gap_summary, false), repaired_db)
unfolding repair repair_steps repair_free_referenced_blocks repair_unreferenced_used_blocks
    repair_block_metadata repair_directory repair_directories repair_file_node repair_file_nodes
    path_conflict_files repair_path_conflicts inspect_damage renumber renumber_table renumber_rows
    renumber_slots ordered_file_blocks mappings_of validate_path
gap-repaired = refl

repair-clean_example :
    (check_blocks env none repaired_db ≡ []) × (ownerless_findings none repaired_db ≡ [])
repair-clean_example =
    repair-clean env (text "now") false gap_db repaired_db (gap_summary, false) gap-repaired

-- The mappings with a gap, the first of them at a number below 0.
abbrev low_slots : List Slot
low_slots =
    map (λ (s : Slot). if s.mapping.pk == 1 then record s { sequence = negsuc 0 } else s)
      (to_slots gap_db.file_blocks)

renumber_rows-positions_example :
    (slots : List Slot) × (renumber_rows (1 ∷ 2 ∷ []) low_slots ≡ ok slots)
    × (all (has_position 5 (1 ∷ 2 ∷ [])) slots ≡ true)
renumber_rows-positions_example =
    renumber_rows-positions 5 (1 ∷ 2 ∷ []) low_slots (refl, (refl, tt)) refl refl refl

-- Numbers far enough below 0 collide with the temporary ones.
abbrev slot_at : ℕ → ℤ → Slot
slot_at pk sequence = record { mapping = sample_mapping pk 5 1 0; sequence = sequence }

runs_collision :
    renumber_rows
      (1 ∷ 2 ∷ 3 ∷ [])
      (slot_at 1 (negsuc 4) ∷ slot_at 2 (negsuc 3) ∷ slot_at 3 (negsuc 0) ∷ [])
    ≡ err Error.django_integrity
unfolding renumber_rows renumber_slots
runs_collision = refl

dry_run-handle_example : (handle env (options true) db).after ≡ db
dry_run-handle_example = dry_run-handle env (options true) db refl

loaded_sample : load_file_data env sample_node Integrity.checksum true db ≡ ok (21 ∷ 22 ∷ 23 ∷ [])
unfolding load_file_data ordered_file_blocks mappings_of path_has_descendants
loaded_sample = refl

rechunk_file-content_example :
    (r : RechunkResult) × (node : FileNode) × (db' : Db) × (rechunk_file env 5 1 Integrity.checksum
        db
      ≡ (ok r, db'))
    × (get_node_by_pk 5 db' ≡ some node)
    × IsIntact env node db'
    × (content_of node db' ≡ content_of sample_node db)
    × (node.block_size ≡ 1)
    × (node.version ≡ 4 + 1)
rechunk_file-content_example =
    rechunk_file-content env env-HasFreshKeys sample_node 1 Integrity.checksum (21 ∷ 22 ∷ 23 ∷ [])
      db refl (omega arith) (omega arith) refl loaded_sample
