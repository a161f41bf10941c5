-- ===== src/Commands/Rechunk.antt =====
-- management/commands/fsspec_rechunk.py, without its output. An exit code stands for a `CommandError`.
pub mod Content
pub mod Runs
use django_fsspec.Prelude.{
  ℕ, zero, suc, ◌+◌, Bool, true, false, ◌&&◌, ◌||◌, not, Option, none, some, List, [], ◌∷◌, ◌++◌,
  map, filter, any, update_where, sort, take, length, leb, ◌==◌, if◌then◌else◌,
}
use django_fsspec.Errors.{Error, Result, ok, err, ◌>>=◌, ◌>>◌, raise_if}
use django_fsspec.Environment.{Bytes, Environment, Integrity}
use django_fsspec.Text.{Text, text, text_eq, is_empty, starts_with}
use django_fsspec.Validators.{validate_path}
use django_fsspec.Models.{FileNode, FileBlock, StorageBlock, Db, is_file}
use django_fsspec.Models.Query.{block_ids, mappings_to, get_node_by_pk, child_prefix}
use django_fsspec.Action.{Action, atomic}
use django_fsspec.Operations.Content.{chunk_data, load_file_data}
use django_fsspec.Operations.Blocks.{
  allocate_blocks, new_mappings, bulk_create, free_old, not_of_files,
}
use django_fsspec.Operations.Writer.{at_version}

pub record RechunkResult : Type 0 where
  pub bytes_rewritten : ℕ
  pub old_blocks : ℕ
  pub new_blocks : ℕ
  pub content : Bytes
  pub skipped : Bool
  pub reason : Text

abbrev pub skipped_result : Text → RechunkResult
skipped_result reason = record {
  bytes_rewritten = 0;
  old_blocks = 0;
  new_blocks = 0;
  content = [];
  skipped = true;
  reason = reason;
}

-- the part of `_prepare_rechunk` after its guards
abbrev pub prepared : FileNode → Db → Bytes → List Bytes → RechunkResult
prepared n db content chunks = record {
  bytes_rewritten = length content;
  old_blocks = length (mappings_to n db);
  new_blocks = length chunks;
  content = content;
  skipped = false;
  reason = [];
}

-- `_prepare_rechunk`
unfoldable pub prepare_rechunk : Environment → FileNode → ℕ → Integrity → Db → Result RechunkResult
prepare_rechunk e n target verify db =
    if not (is_file n.node_type)
    then ok (skipped_result (text "not a file"))
    else if n.block_size == target
    then ok (skipped_result (text "already uses target block size"))
    else if leb n.block_size 0
    then err Error.data_integrity
    else (do
      content ← load_file_data e n verify true db
      chunks ← chunk_data content target
      ok (prepared n db content chunks))

-- `FileNode.objects.get(pk=file_id)`
abbrev pub get_file : ℕ → Db → Result FileNode
get_file file_id db = elim (get_node_by_pk file_id db) [
  | none ↦ err Error.does_not_exist
  | some n ↦ ok n
]

-- `_inspect_file`
unfoldable pub inspect_file : Environment → ℕ → ℕ → Integrity → Db → Result RechunkResult
inspect_file e file_id target verify db = do
  n ← get_file file_id db
  prepare_rechunk e n target verify db

-- The row that a rechunked file gets.
abbrev pub rechunked : Environment → ℕ → Bytes → FileNode → FileNode → FileNode
rechunked e target content old n = record n {
  block_size = target;
  size = length content;
  checksum = e.sha256 content;
  version = old.version + 1;
  updated_at = e.now;
}

-- `filter(pk=…, version=…).update(…)`, with an error if no row fits
unfoldable pub update_rechunked : FileNode → (FileNode → FileNode) → Action (Unit {0})
update_rechunked old change db =
    if any (at_version old.pk old.version) db.nodes
    then (ok tt, record db { nodes = update_where (at_version old.pk old.version) change db.nodes })
    else (err Error.data_integrity, db)

-- The blocks of the new chunks, and the tables without the old mappings.
abbrev pub with_chunks : Environment → FileNode → List Bytes → Db → Db
with_chunks e n chunks db = record db {
  blocks = db.blocks ++ allocate_blocks e chunks db.blocks;
  file_blocks = not_of_files (n.pk ∷ []) db.file_blocks;
}

-- the part of `_rechunk_file` that writes
unfoldable pub rewrite_file : Environment → FileNode → ℕ → Bytes → List Bytes → Action (Unit {0})
rewrite_file e n target content chunks db =
    let new_blocks = allocate_blocks e chunks db.blocks in
    let emptied = with_chunks e n chunks db in
    let (r, db') = bulk_create (new_mappings e n.pk 0 new_blocks emptied.file_blocks) emptied in
    elim r [
      | err x ↦ (err x, db')
      | ok _ ↦
          update_rechunked n (rechunked e target content n)
            (free_old (block_ids (mappings_to n db)) db')
    ]

abbrev finish_rechunk : Environment → FileNode → ℕ → RechunkResult → Action RechunkResult
finish_rechunk e n target r db =
    if r.skipped then (ok r, db) else elim (chunk_data r.content target) [
      | err x ↦ (err x, db)
      | ok chunks ↦
          let (done, db') = rewrite_file e n target r.content chunks db in
          elim done [ ok _ ↦ (ok r, db') | err x ↦ (err x, db') ]
    ]

-- `_rechunk_file`
unfoldable pub rechunk_file : Environment → ℕ → ℕ → Integrity → Action RechunkResult
rechunk_file e file_id target verify db = elim (get_file file_id db) [
  | err x ↦ (err x, db)
  | ok n ↦ elim (prepare_rechunk e n target verify db) [
    | err x ↦ (err x, db)
    | ok r ↦ finish_rechunk e n target r db
  ]
]

pub record Options : Type 0 where
  pub block_size : ℕ
  pub namespace : Option ℕ
  pub prefix : Option Text
  pub source_block_size : Option ℕ
  pub limit : Option ℕ
  pub dry_run : Bool
  pub verify : Integrity
  pub abort_on_error : Bool

abbrev pub matches_option : Option ℕ → ℕ → Bool
matches_option none k = true
matches_option (some j) k = k == j

abbrev pub in_prefix : Option Text → Text → Bool
in_prefix none path = true
in_prefix (some prefix) path =
    if is_empty prefix || text_eq prefix (text "/")
    then true
    else text_eq path prefix || starts_with (child_prefix prefix) path

-- the conditions of `_candidate_queryset`
abbrev pub is_candidate : Options → FileNode → Bool
is_candidate o n =
    is_file n.node_type
    && not (n.block_size == o.block_size)
    && matches_option o.namespace n.namespace_id
    && in_prefix o.prefix n.path
    && matches_option o.source_block_size n.block_size

-- `_candidate_queryset`
unfoldable pub candidates : Options → Db → List FileNode
candidates o db = sort (λ a b. leb a.pk b.pk) (filter (is_candidate o) db.nodes)

abbrev pub limited : Option ℕ → List FileNode → List FileNode
limited none ns = ns
limited (some k) ns = take k ns

-- `_normalize_prefix`
unfoldable pub normalize_prefix : Environment → Option Text → Result (Option Text)
normalize_prefix e none = ok none
normalize_prefix e (some prefix) = do path ← validate_path e.nfc prefix; ok (some path)
