-- ===== src/Tests/Runs.antt =====
-- Runs of the operations at concrete inputs.
use django_fsspec.Prelude.{◌≡◌, refl, false, true, [], ◌∷◌, none, some}
use django_fsspec.Prelude.Int.{ℤ, pos, negsuc, ◌+ℤ◌, ◌-ℤ◌}
use django_fsspec.Text.{text}
use django_fsspec.Errors.{Error, Result, ok, err}
use django_fsspec.Environment.{Bytes, Integrity}
use django_fsspec.Models.{Db, NodeType}
use django_fsspec.Models.Query.{mappings_of}
use django_fsspec.Validators.{validate_path}
use django_fsspec.Operations.Content.{
  get_read_integrity, chunk_data, path_has_descendants, ordered_file_blocks, load_file_data,
}
use django_fsspec.Operations.Info.{info_at, get_file_info, node_info, read_file}
use django_fsspec.Operations.Paths.{
  ancestor_paths, ensure_parent_directory, ensure_file_target, lock_namespace_for_write,
}
use django_fsspec.Operations.Blocks.{
  create_node, allocate_blocks, new_mappings, bulk_create, release_file_blocks,
}
use django_fsspec.Operations.Writer.{
  new_writer, update_version, truncate_target, next_sequence, resume_target, prepare_target,
  start_body, start, store_chunks, persist_chunk, finalize, add_chunk, write_chunk, commit, discard,
}
use django_fsspec.Operations.Write.{
  write_with_mode, write_file, create_file_exclusive, append_file, stream_file, write_all,
}
use django_fsspec.Operations.Ranges.{
  open_for_range, scan_blocks, collect_blocks, read_file_range_with_integrity, read_range_unchecked,
  read_file_range,
}
use django_fsspec.Operations.Directory.{
  make_directory, make_directory_within, delete_file, delete_body, remove_directory,
}
use django_fsspec.Operations.Transfer.{
  move_file, move_body, save_path, move_directory, move_tree, update_paths, copy_file, copy_blocks,
}
use django_fsspec.Tests.Sample.{env, db, empty_db, sample_node}

abbrev read_a : Db → Result Bytes
read_a = read_file env 1 (text "/a") true none

abbrev range_a : ℤ → ℤ → Integrity → Result Bytes
range_a start stop policy = read_file_range env 1 (text "/a") start stop (some policy) none none db

runs_reading : read_a db ≡ ok (21 ∷ 22 ∷ 23 ∷ [])
unfolding read_file validate_path get_read_integrity load_file_data ordered_file_blocks mappings_of
    path_has_descendants
runs_reading = refl

runs_ranges :
    (range_a (pos 1) (pos 3) Integrity.off ≡ ok (22 ∷ 23 ∷ []))
    × (range_a (pos 1) (pos 3) Integrity.checksum ≡ ok (22 ∷ 23 ∷ []))
    × (range_a (pos 2) (pos 9) Integrity.off ≡ ok (23 ∷ []))
    × (range_a (pos 0) (negsuc 0) Integrity.off ≡ ok (21 ∷ []))
    × (range_a (pos 0) (negsuc 0) Integrity.metadata ≡ ok [])
unfolding read_file_range open_for_range validate_path get_read_integrity read_range_unchecked
    scan_blocks read_file_range_with_integrity collect_blocks ordered_file_blocks mappings_of
    path_has_descendants ◌+ℤ◌ ◌-ℤ◌
runs_ranges = (refl, refl, refl, refl, refl)

runs_validation :
    (validate_path env.nfc (text "/a/../b") ≡ err Error.path_validation)
    × (validate_path env.nfc (text "/a//b") ≡ err Error.path_validation)
    × (validate_path env.nfc (text "/a/") ≡ err Error.path_validation)
    × (validate_path env.nfc (text "/a/..b") ≡ ok (text "/a/..b"))
unfolding validate_path
runs_validation = (refl, refl, refl, refl)

runs_ancestors : ancestor_paths (text "/a/b/c") ≡ text "/a" ∷ text "/a/b" ∷ []
unfolding ancestor_paths
runs_ancestors = refl

runs_writing :
    (read_a (write_file env 1 (text "/a") (1 ∷ 2 ∷ 3 ∷ 4 ∷ 5 ∷ []) [] db).1
      ≡ ok (1 ∷ 2 ∷ 3 ∷ 4 ∷ 5 ∷ []))
    × (read_a (append_file env 1 (text "/a") (1 ∷ 2 ∷ 3 ∷ []) [] db).1
        ≡ ok (21 ∷ 22 ∷ 23 ∷ 1 ∷ 2 ∷ 3 ∷ []))
    × ((create_file_exclusive env 1 (text "/a") [] [] db).0 ≡ err Error.file_exists)
    × ((write_file env 1 (text "/a/b") [] [] db).0 ≡ err Error.not_a_directory)
    × ((write_file env 2 (text "/a") [] [] db).0 ≡ err Error.namespace_not_found)
    × (read_a (stream_file env 1 (text "/a") ((7 ∷ []) ∷ (8 ∷ 9 ∷ 6 ∷ []) ∷ []) [] empty_db).1
        ≡ ok (7 ∷ 8 ∷ 9 ∷ 6 ∷ []))
unfolding read_file validate_path get_read_integrity load_file_data ordered_file_blocks mappings_of
    path_has_descendants write_file append_file create_file_exclusive stream_file write_with_mode
    write_all new_writer start start_body lock_namespace_for_write ensure_parent_directory
    ancestor_paths get_file_info info_at node_info ensure_file_target prepare_target truncate_target
    resume_target next_sequence update_version release_file_blocks create_node write_chunk add_chunk
    persist_chunk chunk_data store_chunks allocate_blocks new_mappings bulk_create finalize commit
    discard
runs_writing = (refl, refl, refl, refl, refl, refl)

abbrev tree_db : Db
tree_db = record db { nodes = record sample_node { path = text "/a/b/c" } ∷ [] }

-- A move of /a/b over its own parent /a removes the tree that it moves.
runs_moving :
    ((move_file env 1 (text "/a") (text "/b") false db).0 ≡ ok tt)
    × (read_file env 1 (text "/b") true none (move_file env 1 (text "/a") (text "/b") false db).1
        ≡ ok (21 ∷ 22 ∷ 23 ∷ []))
    × ((move_directory env (text "/tmp") 1 (text "/a/b") (text "/x") false tree_db).0 ≡ ok tt)
    × (read_file env 1
          (text "/x/c")
          true
          none
          (move_directory env (text "/tmp") 1 (text "/a/b") (text "/x") false tree_db).1
        ≡ ok (21 ∷ 22 ∷ 23 ∷ []))
    × ((move_directory env (text "/tmp") 1 (text "/a/b") (text "/a") true tree_db).0 ≡ ok tt)
    × ((move_directory env (text "/tmp") 1 (text "/a/b") (text "/a") true tree_db).1.nodes ≡ [])
    × (read_file env 1 (text "/c") true none (copy_file env 1 (text "/a") (text "/c") none db).1
        ≡ ok (21 ∷ 22 ∷ 23 ∷ []))
unfolding read_file validate_path get_read_integrity load_file_data ordered_file_blocks mappings_of
    path_has_descendants new_writer start start_body lock_namespace_for_write
    ensure_parent_directory ancestor_paths get_file_info info_at node_info ensure_file_target
    prepare_target truncate_target update_version release_file_blocks create_node write_chunk
    add_chunk persist_chunk chunk_data store_chunks allocate_blocks new_mappings bulk_create
    finalize commit discard move_file move_body save_path move_directory move_tree update_paths
    copy_file copy_blocks
runs_moving = (refl, refl, refl, refl, refl, refl, refl)

runs_directories :
    ((make_directory env 1 (text "/d/e") true db).0
      ≡ ok (record {
        pk = 7;
        namespace_id = 1;
        path = text "/d/e";
        node_type = NodeType.directory;
        size = 0;
        block_size = 32768;
        checksum = [];
        content_type = [];
        version = 1;
        created_at = 100;
        updated_at = 100;
      }))
    × ((make_directory env 1 (text "/d/e") false db).0 ≡ err Error.file_not_found)
    × ((make_directory env 1 (text "/a/e") true db).0 ≡ err Error.not_a_directory)
    × ((make_directory env 1 (text "/a") true db).0 ≡ err Error.file_exists)
    × ((delete_file env 1 (text "/a") false db).1.nodes ≡ [])
    × ((delete_file env 1 (text "/a") false tree_db).0 ≡ err Error.is_a_directory)
    × ((delete_file env 1 (text "/a") true tree_db).1.nodes ≡ [])
    × ((remove_directory env 1 (text "/a") true db).0 ≡ err Error.not_a_directory)
unfolding validate_path lock_namespace_for_write get_file_info info_at node_info create_node
    make_directory make_directory_within delete_file delete_body release_file_blocks
    remove_directory
runs_directories = (refl, refl, refl, refl, refl, refl, refl, refl)
