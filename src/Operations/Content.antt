-- ===== src/Operations/Content.antt =====
-- operations.py: read integrity, chunks, and the content of a stored file.
pub mod Chunks
pub mod Intact
use django_fsspec.Prelude.{
  ℕ, zero, suc, ◌+◌, Bool, true, false, ◌&&◌, not, List, [], ◌∷◌, Option, none, some, map, length,
  slice, flatten, any, ltb, ◌==◌, if◌then◌else◌,
}
use django_fsspec.Errors.{Error, Result, ok, err, ◌>>◌, raise_if}
use django_fsspec.Environment.{Bytes, Integrity, Environment}
use django_fsspec.Text.{Text, text, text_eq, is_empty}
use django_fsspec.Models.{FileNode, FileBlock, StorageBlock, Db, is_file}
use django_fsspec.Models.Query.{LoadedBlock, child_prefix, below_prefix, load_block, mappings_of}

abbrev pub is_off : Integrity → Bool
is_off Integrity.off = true
is_off _ = false

abbrev pub is_metadata : Integrity → Bool
is_metadata Integrity.metadata = true
is_metadata _ = false

abbrev pub is_checksum : Integrity → Bool
is_checksum Integrity.checksum = true
is_checksum _ = false

-- `_get_read_integrity`
abbrev known_integrity : Integrity → Result Integrity
known_integrity Integrity.unknown = err Error.value_error
known_integrity i = ok i

unfoldable pub get_read_integrity : Environment → Option Integrity → Bool → Result Integrity
get_read_integrity e integrity true = ok Integrity.checksum
get_read_integrity e (some i) false = known_integrity i
get_read_integrity e none false = known_integrity e.read_integrity

-- `range(i, stop, step)`; every step is positive, so `stop` rounds are enough.
abbrev pub range_step : ℕ → ℕ → ℕ → ℕ → List ℕ
range_step zero i stop step = []
range_step (suc fuel) i stop step =
    let rest = range_step fuel (i + step) stop step in if ltb i stop then i ∷ rest else []

-- the slices of `_chunk_data`
abbrev pub chunks_of : Bytes → ℕ → List Bytes
chunks_of content block_size =
    map (λ i. slice i (i + block_size) content)
      (range_step (length content) 0 (length content) block_size)

-- `_chunk_data`: `range` refuses the step zero.
unfoldable pub chunk_data : Bytes → ℕ → Result (List Bytes)
chunk_data content block_size =
    if block_size == 0 then err Error.value_error else ok (chunks_of content block_size)

-- `_path_has_descendants`, with the key that is left out
unfoldable pub path_has_descendants : ℕ → Text → Option ℕ → Db → Bool
path_has_descendants namespace path exclude_pk db =
    if text_eq path (text "/")
    then false
    else any
        (λ n.
          below_prefix namespace (child_prefix path) n
          && elim exclude_pk [ none ↦ true | some pk ↦ not (n.pk == pk) ])
        db.nodes

-- `_validate_file_node_type`
abbrev pub validate_file_node_type : FileNode → Result (Unit {0})
validate_file_node_type n = raise_if (not (is_file n.node_type)) Error.is_a_directory

abbrev pub load_blocks : Db → List FileBlock → List LoadedBlock
load_blocks db [] = []
load_blocks db (m ∷ ms) = elim (load_block db m) [
  | none ↦ load_blocks db ms
  | some row ↦ row ∷ load_blocks db ms
]

-- `_ordered_file_blocks`
unfoldable pub ordered_file_blocks : FileNode → Db → List LoadedBlock
ordered_file_blocks file_node db = load_blocks db (mappings_of file_node.pk db)

-- `b"".join(bytes(fb.block.data) for fb in rows)`
abbrev pub join_content : List LoadedBlock → Bytes
join_content rows = flatten (map (λ (r : LoadedBlock). r.block.content) rows)

-- `sequences == list(range(len(rows)))`, counted from `k`
abbrev pub is_contiguous : ℕ → List LoadedBlock → Bool
is_contiguous k [] = true
is_contiguous k (r ∷ rows) = r.mapping.sequence == k && is_contiguous (k + 1) rows

-- Another file has a mapping to the block.
abbrev pub is_shared : FileNode → StorageBlock → Db → Bool
is_shared file_node block db =
    any (λ m. m.block_id == block.pk && not (m.file_id == file_node.pk)) db.file_blocks

-- A stored checksum that is not empty and is not the content's.
abbrev pub checksum_differs : Environment → Text → Bytes → Bool
checksum_differs e stored content = not (is_empty stored) && not (text_eq (e.sha256 content) stored)

-- The loop over the blocks in `_load_file_data`.
check_blocks : Environment → FileNode → Integrity → Bool → Db → List LoadedBlock → Result (Unit {0})
check_blocks e file_node integrity require_unshared db [] = ok tt
check_blocks e file_node integrity require_unshared db (r ∷ rows) = do
  raise_if r.block.is_free Error.data_integrity
  raise_if (not (r.block.size == length r.block.content)) Error.data_integrity
  raise_if (require_unshared && is_shared file_node r.block db) Error.data_integrity
  raise_if (is_checksum integrity && checksum_differs e r.block.checksum r.block.content)
      Error.data_integrity
  check_blocks e file_node integrity require_unshared db rows

-- the checks that `_load_file_data` makes of the joined content
check_file :
    Environment → FileNode → Integrity → Bool → Db → List LoadedBlock → Bytes → Result Bytes
unfolding check_blocks
check_file e file_node integrity require_unshared db rows content = do
  raise_if (path_has_descendants file_node.namespace_id file_node.path (some file_node.pk) db)
      Error.data_integrity
  raise_if (not (is_contiguous 0 rows)) Error.data_integrity
  check_blocks e file_node integrity require_unshared db rows
  raise_if (not (file_node.size == length content)) Error.data_integrity
  raise_if (is_checksum integrity && checksum_differs e file_node.checksum content)
      Error.data_integrity
  ok content

-- `_load_file_data`
unfoldable pub load_file_data : Environment → FileNode → Integrity → Bool → Db → Result Bytes
unfolding check_file
load_file_data e file_node integrity require_unshared db = do
  validate_file_node_type file_node
  let rows = ordered_file_blocks file_node db
  let content = join_content rows
  if is_off integrity && not require_unshared
      then ok content
      else check_file e file_node integrity require_unshared db rows content
