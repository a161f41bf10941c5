-- ===== src/Tests/Witnesses.antt =====
-- The theorems at concrete inputs: the sample environment and its database.
use django_fsspec.Prelude.{
  ◌≡◌, refl, arith, false, true, List, [], ◌∷◌, ◌++◌, none, some, slice, flatten,
}
use django_fsspec.Prelude.Int.{pos}
use django_fsspec.Errors.{Error, ok, err}
use django_fsspec.Environment.{Bytes, Integrity}
use django_fsspec.Text.{Text, text}
use django_fsspec.Models.{FileNode, Db}
use django_fsspec.Models.Query.{mappings_of}
use django_fsspec.Models.Consistent.{IsConsistent}
use django_fsspec.Validators.{validate_path}
use django_fsspec.Operations.Content.{
  chunk_data, get_read_integrity, load_file_data, ordered_file_blocks, path_has_descendants,
}
use django_fsspec.Operations.Content.Intact.{IsIntact, content_of, load_file_data-checked}
use django_fsspec.Operations.Content.Chunks.{AreFull, chunk_data_lossless}
use django_fsspec.Operations.Info.{read_file}
use django_fsspec.Operations.Paths.{
  ancestor_paths, ensure_parent_directory, ensure_file_target, lock_namespace_for_write,
}
use django_fsspec.Operations.Writer.{Mode, new_writer, start, start_body, prepare_target}
use django_fsspec.Operations.Writer.Start.{Admits}
use django_fsspec.Operations.Write.{write_with_mode, write_file, create_file_exclusive, append_file}
use django_fsspec.Operations.Write.RoundTrip.{
  Holds, create_file_exclusive-Holds, append_file_new-Holds,
}
use django_fsspec.Operations.Write.ReadBack.{read_file-write_file, read_file-append_file}
use django_fsspec.Operations.Write.Atomic.{write_with_mode-atomic}
use django_fsspec.Operations.Ranges.{open_for_range, read_file_range, read_file_streaming_range}
use django_fsspec.Operations.Ranges.Agree.{
  read_file_streaming_range-eq-slice, read_file_range-eq-slice, read_file_range-eq-slice_intact,
}
use django_fsspec.Operations.Write.{stream_file}
use django_fsspec.Operations.Write.Stream.{
  stream_file-Holds, write_file-too_large, append_file-too_large,
}
use django_fsspec.Tests.Sample.{env, env-HasFreshKeys, sample_node, db, empty_db}

abbrev pub path_a : Text
path_a = text "/a"

pub db-IsConsistent : IsConsistent db
db-IsConsistent = record { keys = (refl, tt); types = refl; files = refl; blocks = refl }

empty_db-IsConsistent : IsConsistent empty_db
empty_db-IsConsistent = record { keys = tt; types = refl; files = refl; blocks = refl }

pub node-Admits : Admits env 1 path_a (some sample_node) db
unfolding lock_namespace_for_write ensure_parent_directory ensure_file_target ancestor_paths
    path_has_descendants
node-Admits = record { locked = refl; parent = refl; target = refl }

new-Admits : Admits env 1 path_a none empty_db
unfolding lock_namespace_for_write ensure_parent_directory ensure_file_target ancestor_paths
new-Admits = record { locked = refl; parent = refl; target = refl }

pub node-IsIntact : IsIntact env sample_node db
unfolding ordered_file_blocks mappings_of path_has_descendants
node-IsIntact = record {
  typed = refl;
  childless = refl;
  contiguous = refl;
  blocks = refl;
  sized = refl;
  hashed = refl;
}

pub path_a-valid : validate_path env.nfc path_a ≡ ok path_a
unfolding validate_path
path_a-valid = refl

checked_policy : get_read_integrity env none true ≡ ok Integrity.checksum
unfolding get_read_integrity
checked_policy = refl

read_file-write_file_example :
    (node : FileNode) × (db' : Db) × (write_file env 1 path_a (1 ∷ 2 ∷ 3 ∷ 4 ∷ 5 ∷ []) [] db
      ≡ (ok node, db'))
    × (read_file env 1 path_a true none db' ≡ ok (1 ∷ 2 ∷ 3 ∷ 4 ∷ 5 ∷ []))
read_file-write_file_example =
    read_file-write_file env env-HasFreshKeys 1 path_a path_a [] db path_a-valid refl
      db-IsConsistent (omega arith) true none Integrity.checksum checked_policy (some sample_node)
      (1 ∷ 2 ∷ 3 ∷ 4 ∷ 5 ∷ []) node-Admits (omega arith)

read_file-append_file_example :
    (node : FileNode) × (db' : Db) × (append_file env 1 path_a (1 ∷ 2 ∷ []) [] db ≡ (ok node, db'))
    × (read_file env 1 path_a true none db' ≡ ok (content_of sample_node db ++ 1 ∷ 2 ∷ []))
unfolding ordered_file_blocks mappings_of
read_file-append_file_example =
    read_file-append_file env env-HasFreshKeys 1 path_a path_a [] db path_a-valid refl
      db-IsConsistent (omega arith) true none Integrity.checksum checked_policy sample_node
      (1 ∷ 2 ∷ []) node-Admits node-IsIntact (ground arith)

create_file_exclusive-Holds_example :
    (node : FileNode) × (db' : Db) × (create_file_exclusive env 1 path_a
        (1 ∷ 2 ∷ 3 ∷ [])
        []
        empty_db
      ≡ (ok node, db'))
    × Holds env 1 path_a (1 ∷ 2 ∷ 3 ∷ []) db'
create_file_exclusive-Holds_example =
    create_file_exclusive-Holds env env-HasFreshKeys 1 path_a path_a [] empty_db path_a-valid refl
      (1 ∷ 2 ∷ 3 ∷ []) empty_db-IsConsistent (omega arith) new-Admits (omega arith)

append_file_new-Holds_example :
    (node : FileNode) × (db' : Db) × (append_file env 1 path_a (1 ∷ 2 ∷ 3 ∷ []) [] empty_db
      ≡ (ok node, db'))
    × Holds env 1 path_a (1 ∷ 2 ∷ 3 ∷ []) db'
append_file_new-Holds_example =
    append_file_new-Holds env env-HasFreshKeys 1 path_a path_a [] empty_db path_a-valid refl
      (1 ∷ 2 ∷ 3 ∷ []) empty_db-IsConsistent (omega arith) new-Admits (omega arith)

refused_write : write_with_mode env Mode.xb 1 path_a (1 ∷ []) [] db ≡ (err Error.file_exists, db)
unfolding write_with_mode new_writer start start_body prepare_target validate_path
    lock_namespace_for_write ensure_parent_directory ensure_file_target ancestor_paths
    path_has_descendants
refused_write = refl

write_with_mode-atomic_example : db ≡ db
write_with_mode-atomic_example =
    write_with_mode-atomic env Mode.xb 1 path_a (1 ∷ []) [] db db Error.file_exists refused_write

chunk_data_lossless_example :
    (chunks : List Bytes) × (chunk_data (1 ∷ 2 ∷ 3 ∷ []) 2 ≡ ok chunks)
    × (flatten chunks ≡ 1 ∷ 2 ∷ 3 ∷ [])
    × AreFull 2 chunks
chunk_data_lossless_example = chunk_data_lossless (1 ∷ 2 ∷ 3 ∷ []) 2 (omega arith)

loaded_sample : load_file_data env sample_node Integrity.checksum false db ≡ ok (21 ∷ 22 ∷ 23 ∷ [])
unfolding load_file_data ordered_file_blocks mappings_of path_has_descendants
loaded_sample = refl

load_file_data-checked_example :
    IsIntact env sample_node db × (21 ∷ 22 ∷ 23 ∷ [] ≡ content_of sample_node db)
load_file_data-checked_example =
    load_file_data-checked env sample_node db (21 ∷ 22 ∷ 23 ∷ []) loaded_sample

opened_sample : open_for_range env 1 path_a none none db ≡ ok sample_node
unfolding open_for_range validate_path
opened_sample = refl

read_file_streaming_range-eq-slice_example :
    (chunks : List Bytes) × (read_file_streaming_range env 1 path_a (pos 1) (pos 3) none none db
      ≡ ok chunks)
    × (flatten chunks ≡ slice 1 3 (content_of sample_node db))
read_file_streaming_range-eq-slice_example =
    read_file_streaming_range-eq-slice env 1 path_a none none db opened_sample 1 3

off_policy : get_read_integrity env (some Integrity.off) false ≡ ok Integrity.off
unfolding get_read_integrity
off_policy = refl

metadata_policy : get_read_integrity env (some Integrity.metadata) false ≡ ok Integrity.metadata
unfolding get_read_integrity
metadata_policy = refl

read_file_range-eq-slice_example :
    read_file_range env 1 path_a (pos 1) (pos 3) (some Integrity.off) none none db
    ≡ ok (slice 1 3 (content_of sample_node db))
read_file_range-eq-slice_example =
    read_file_range-eq-slice env 1 path_a none none db opened_sample (some Integrity.off) 1 3
      off_policy (omega arith) (omega arith)

read_file_range-eq-slice_intact_example :
    read_file_range env 1 path_a (pos 1) (pos 3) (some Integrity.metadata) none none db
    ≡ ok (slice 1 3 (content_of sample_node db))
read_file_range-eq-slice_intact_example =
    read_file_range-eq-slice_intact env 1 path_a none none db opened_sample
      (some Integrity.metadata) Integrity.metadata 1 3 metadata_policy refl node-IsIntact

stream_file-Holds_example :
    (node : FileNode) × (db' : Db) × (stream_file env 1 path_a
        ((1 ∷ 2 ∷ 3 ∷ []) ∷ (4 ∷ []) ∷ [])
        []
        db
      ≡ (ok node, db'))
    × Holds env 1 path_a (1 ∷ 2 ∷ 3 ∷ 4 ∷ []) db'
stream_file-Holds_example =
    stream_file-Holds env env-HasFreshKeys 1 path_a path_a [] db path_a-valid refl db-IsConsistent
      (omega arith) (some sample_node) ((1 ∷ 2 ∷ 3 ∷ []) ∷ (4 ∷ []) ∷ []) node-Admits (omega arith)

abbrev ten_bytes : Bytes
ten_bytes = 0 ∷ 1 ∷ 2 ∷ 3 ∷ 4 ∷ 5 ∷ 6 ∷ 7 ∷ 8 ∷ 9 ∷ []

write_file-too_large_example :
    write_file env 1 path_a ten_bytes [] db ≡ (err Error.file_too_large, db)
write_file-too_large_example =
    write_file-too_large env env-HasFreshKeys 1 path_a path_a [] db path_a-valid refl
      db-IsConsistent (omega arith) (some sample_node) ten_bytes node-Admits (omega arith)

append_file-too_large_example :
    append_file env 1 path_a ten_bytes [] db ≡ (err Error.file_too_large, db)
unfolding ordered_file_blocks mappings_of
append_file-too_large_example =
    append_file-too_large env env-HasFreshKeys 1 path_a path_a [] db path_a-valid refl
      db-IsConsistent (omega arith) sample_node ten_bytes node-Admits node-IsIntact (omega arith)
      (ground arith)
