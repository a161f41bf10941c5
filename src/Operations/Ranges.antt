-- ===== src/Operations/Ranges.antt =====
-- operations.py: reading a byte range, by the three readers of the source. Bounds are Python's
-- integers.
pub mod Streaming
pub mod Indexed
pub mod Checked
pub mod Agree
use django_fsspec.Prelude.{
  ℕ, zero, suc, ◌+◌, ◌-◌, max, min, Bool, true, false, ◌&&◌, ◌||◌, not, List, [], ◌∷◌, ◌++◌, Option,
  none, some, map, length, find?, take, drop, slice, flatten, leb, ltb, ◌==◌, if◌then◌else◌,
}
use django_fsspec.Prelude.Int.{ℤ, pos, negsuc, pos_part, neg_part, ◌-ℤ◌, ◌+ℤ◌, ltb_ℤ, leb_ℤ}
use django_fsspec.Errors.{Error, Result, ok, err, ◌>>=◌, ◌>>◌, raise_if}
use django_fsspec.Environment.{Bytes, Integrity, Environment}
use django_fsspec.Text.{Text}
use django_fsspec.Validators.{validate_path}
use django_fsspec.Models.{FileNode, Db, is_directory}
use django_fsspec.Models.Query.{LoadedBlock, get_node}
use django_fsspec.Operations.Content.{
  get_read_integrity, path_has_descendants, validate_file_node_type, ordered_file_blocks,
  join_content, is_contiguous, is_off, is_checksum, checksum_differs,
}
use django_fsspec.Operations.Info.{found}

-- A bound of a Python slice: a negative one counts from the end, and both stay inside.
abbrev pub slice_bound : ℕ → ℤ → ℕ
slice_bound n (pos k) = min k n
slice_bound n (negsuc k) = n - (k + 1)

-- `xs[a:b]` for any integers
abbrev pub slice_ℤ : ℤ → ℤ → Bytes → Bytes
slice_ℤ a b xs = slice (slice_bound (length xs) a) (slice_bound (length xs) b) xs

abbrev max_ℤ : ℤ → ℤ → ℤ
max_ℤ a b = if leb_ℤ a b then b else a

abbrev min_ℤ : ℤ → ℤ → ℤ
min_ℤ a b = if leb_ℤ a b then a else b

-- `block_data[max(0, start - offset) : min(block_len, end - offset)]`
abbrev pub clip_start : ℤ → ℕ → ℤ
clip_start start offset = max_ℤ (pos 0) (start -ℤ pos offset)

abbrev pub clip_end : ℤ → ℕ → ℕ → ℤ
clip_end stop block_len offset = min_ℤ (pos block_len) (stop -ℤ pos offset)

-- The loop of `read_file_streaming_range`: the chunks that it yields.
unfoldable pub stream_blocks : ℤ → ℤ → ℤ → ℕ → List Bytes → List Bytes
stream_blocks start stop emitted offset [] = []
stream_blocks start stop emitted offset (b ∷ blocks) =
    let block_len = length b in
    let skip = stream_blocks start stop emitted (offset + block_len) blocks in
    let chunk_start = clip_start start offset in
    let chunk_end = clip_end stop block_len offset in
    let emitted' = emitted +ℤ (chunk_end -ℤ chunk_start) in
    let more = stream_blocks start stop emitted' (offset + block_len) blocks in
    if leb_ℤ (pos (offset + block_len)) start
    then skip
    else if leb_ℤ stop (pos offset)
    then []
    else slice_ℤ chunk_start chunk_end b ∷ (if leb_ℤ (stop -ℤ start) emitted' then [] else more)

-- The node that a range is read from, by key or by path, with the checks that follow.
abbrev pub at_file_id : ℕ → Text → Option ℕ → Db → Option FileNode
at_file_id namespace path none db = get_node namespace path db
at_file_id namespace path (some pk) db =
    find? (λ n. n.namespace_id == namespace && n.pk == pk) db.nodes

abbrev pub changed_since : Option ℕ → FileNode → Bool
changed_since none n = false
changed_since (some version) n = not (n.version == version)

unfoldable pub open_for_range : Environment → ℕ → Text → Option ℕ → Option ℕ → Db → Result FileNode
open_for_range e namespace raw_path file_id version db = do
  path ← validate_path e.nfc raw_path
  file_node ← found (at_file_id namespace path file_id db)
  raise_if (is_directory file_node.node_type) Error.is_a_directory
  raise_if (changed_since version file_node) Error.file_conflict
  ok file_node

abbrev pub contents : List LoadedBlock → List Bytes
contents = map (λ (r : LoadedBlock). r.block.content)

-- `read_file_streaming_range`: the chunks in the order in which they are yielded
unfoldable pub read_file_streaming_range :
    Environment → ℕ → Text → ℤ → ℤ → Option ℕ → Option ℕ → Db → Result (List Bytes)
read_file_streaming_range e namespace path start stop file_id version db = do
  file_node ← open_for_range e namespace path file_id version db
  if ltb_ℤ start (pos 0) || leb_ℤ stop start
      then ok []
      else ok (stream_blocks start stop (pos 0) 0 (contents (ordered_file_blocks file_node db)))

-- The loop of `read_file_range` that finds `start_idx`, the first block that ends past `start`, and
-- `end_idx`, one past the first block that reaches `stop`, where it stops.
abbrev pub found_start : ℤ → ℕ → ℕ → Option ℕ → Option ℕ
found_start start block_end i (some k) = some k
found_start start block_end i none = if ltb_ℤ start (pos block_end) then some i else none

unfoldable pub scan_blocks : ℤ → ℤ → Option ℕ → ℕ → ℕ → List Bytes → Option ℕ × Option ℕ
scan_blocks start stop start_idx offset i [] = (start_idx, none)
scan_blocks start stop start_idx offset i (b ∷ blocks) =
    let block_end = offset + length b in
    let start_idx' = found_start start block_end i start_idx in
    let rest = scan_blocks start stop start_idx' block_end (i + 1) blocks in
    if leb_ℤ stop (pos block_end) then (start_idx', some (i + 1)) else rest

-- `sum(len(b) for b in blocks)`
abbrev pub total_length : List Bytes → ℕ
total_length [] = 0
total_length (b ∷ blocks) = length b + total_length blocks

abbrev pub trimmed : ℤ → ℤ → List Bytes → ℕ → ℕ → Bytes
trimmed start stop blocks start_idx end_idx =
    let offset_in_first = start -ℤ pos (total_length (take start_idx blocks)) in
    slice_ℤ offset_in_first (offset_in_first +ℤ (stop -ℤ start))
      (flatten (slice start_idx end_idx blocks))

abbrev pub cut_blocks : ℤ → ℤ → List Bytes → Option ℕ × Option ℕ → Bytes
cut_blocks start stop blocks (none, end_idx) = []
cut_blocks start stop blocks (some i, none) = trimmed start stop blocks i (length blocks)
cut_blocks start stop blocks (some i, some j) = trimmed start stop blocks i j

-- The loop of `_read_file_range_with_integrity`: it checks each block that it takes bytes from.
abbrev pub check_block : Environment → Integrity → LoadedBlock → Result (Unit {0})
check_block e policy r = do
  raise_if r.block.is_free Error.data_integrity
  raise_if (not (r.block.size == length r.block.content)) Error.data_integrity
  raise_if (is_checksum policy && checksum_differs e r.block.checksum r.block.content)
      Error.data_integrity

unfoldable pub collect_blocks :
    Environment → Integrity → ℤ → ℤ → ℤ → ℕ → List LoadedBlock → Result (List Bytes)
collect_blocks e policy start stop emitted offset [] = ok []
collect_blocks e policy start stop emitted offset (r ∷ rows) =
    let b = r.block.content in
    let block_len = length b in
    let skip = collect_blocks e policy start stop emitted (offset + block_len) rows in
    let chunk_start = clip_start start offset in
    let chunk_end = clip_end stop block_len offset in
    let emitted' = emitted +ℤ (chunk_end -ℤ chunk_start) in
    let more = collect_blocks e policy start stop emitted' (offset + block_len) rows in
    if leb_ℤ (pos (offset + block_len)) start
    then skip
    else if leb_ℤ stop (pos offset)
    then ok []
    else (do
      check_block e policy r
      parts ← if leb_ℤ (stop -ℤ start) emitted' then ok [] else more
      ok (slice_ℤ chunk_start chunk_end b ∷ parts))

-- `_read_file_range_with_integrity`
unfoldable pub read_file_range_with_integrity :
    Environment → FileNode → ℤ → ℤ → Integrity → Db → Result Bytes
read_file_range_with_integrity e file_node start stop policy db = do
  validate_file_node_type file_node
  raise_if (path_has_descendants file_node.namespace_id file_node.path (some file_node.pk) db)
      Error.data_integrity
  let rows = ordered_file_blocks file_node db
  if ltb_ℤ start (pos 0) || leb_ℤ stop start then ok [] else (do
    raise_if (not (is_contiguous 0 rows)) Error.data_integrity
    raise_if (not (total_length (contents rows) == file_node.size)) Error.data_integrity
    parts ← collect_blocks e policy start stop (pos 0) 0 rows
    ok (flatten parts))

-- the part of `read_file_range` without integrity checks
unfoldable pub read_range_unchecked : FileNode → ℤ → ℤ → Db → Result Bytes
read_range_unchecked file_node start stop db = do
  raise_if (leb file_node.block_size 0) Error.data_integrity
  let blocks = contents (ordered_file_blocks file_node db)
  ok (cut_blocks start stop blocks (scan_blocks start stop none 0 0 blocks))

-- `read_file_range`
unfoldable pub read_file_range :
    Environment → ℕ → Text → ℤ → ℤ → Option Integrity → Option ℕ → Option ℕ → Db → Result Bytes
read_file_range e namespace path start stop integrity file_id version db = do
  file_node ← open_for_range e namespace path file_id version db
  policy ← get_read_integrity e integrity false
  if is_off policy
      then read_range_unchecked file_node start stop db
      else read_file_range_with_integrity e file_node start stop policy db
