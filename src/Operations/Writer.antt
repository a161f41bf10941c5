-- ===== src/Operations/Writer.antt =====
-- operations.py: `StreamingFileWriter`. Its transaction is the database at its start, to which a
-- roll-back returns.
pub mod Writing
pub mod Finalize
pub mod Create
pub mod Truncate
pub mod Resume
pub mod Start
use django_fsspec.Prelude.{
  ℕ, zero, ◌+◌, max, Bool, true, false, ◌&&◌, not, List, [], ◌∷◌, ◌++◌, Option, none, some, map,
  filter, any, update_where, length, ltb, ◌==◌, if◌then◌else◌,
}
use django_fsspec.Errors.{Error, Result, ok, err}
use django_fsspec.Environment.{Bytes, Environment}
use django_fsspec.Text.{Text, is_empty}
use django_fsspec.Validators.{validate_path}
use django_fsspec.Models.{FileNode, FileBlock, StorageBlock, Db, NodeType}
use django_fsspec.Models.Query.{get_node_by_pk}
use django_fsspec.Action.{Action, pure, raise, lift, query_or_raise, modify, ◌>>=◌, ◌>>◌, raise_if}
use django_fsspec.Operations.Content.{
  chunk_data, ordered_file_blocks, join_content, validate_file_node_type,
}
use django_fsspec.Operations.Info.{found}
use django_fsspec.Operations.Paths.{
  reject_root_file_path, ensure_parent_directory, ensure_file_target, lock_namespace_for_write,
}
use django_fsspec.Operations.Blocks.{
  create_node, allocate_blocks, new_mappings, bulk_create, release_blocks,
}

-- The `mode` argument; `unsupported` is any other text.
pub data Mode : Type 0 where
  wb ab xb unsupported : Mode

pub record Writer : Type 0 where
  pub namespace : ℕ
  pub path : Text
  pub mode : Mode
  pub content_type : Text
  pub stored_block_size : ℕ
  pub max_file_size : ℕ
  pub transaction : Option Db
  pub file_node : Option FileNode
  pub size : ℕ
  pub hashed : Bytes
  pub sequence : ℕ
  pub initial_version : ℕ
  pub closed : Bool

abbrev pub is_unsupported : Mode → Bool
is_unsupported Mode.unsupported = true
is_unsupported _ = false

abbrev or_default : Option ℕ → ℕ → ℕ
or_default (some n) d = n
or_default none d = d

-- The writer that `__init__` builds for a path that passed its checks.
abbrev pub fresh_writer : Environment → ℕ → Text → Mode → Text → Option ℕ → Writer
fresh_writer e namespace path mode content_type block_size = record {
  namespace = namespace;
  path = path;
  mode = mode;
  content_type = content_type;
  stored_block_size = or_default block_size e.block_size;
  max_file_size = e.max_file_size;
  transaction = none;
  file_node = none;
  size = 0;
  hashed = [];
  sequence = 0;
  initial_version = 0;
  closed = false;
}

-- `StreamingFileWriter.__init__`
unfoldable pub new_writer : Environment → ℕ → Text → Mode → Text → Option ℕ → Action Writer
new_writer e namespace raw_path mode content_type block_size = do
  path ← lift (validate_path e.nfc raw_path)
  lift (reject_root_file_path path)
  raise_if (is_unsupported mode) Error.value_error
  pure (fresh_writer e namespace path mode content_type block_size)

-- `a if a else b` on texts
abbrev pub or_else : Text → Text → Text
or_else a b = if is_empty a then b else a

abbrev pub at_version : ℕ → ℕ → FileNode → Bool
at_version pk version n = n.pk == pk && n.version == version

-- `FileNode.objects.filter(pk=pk, version=version).update(…)`, with a conflict if no row fits
unfoldable pub update_version : ℕ → ℕ → (FileNode → FileNode) → Action (Unit {0})
update_version pk version change db =
    if any (at_version pk version) db.nodes
    then (ok tt, record db { nodes = update_where (at_version pk version) change db.nodes })
    else (err Error.file_conflict, db)

-- `refresh_from_db`
abbrev pub refresh : FileNode → Action FileNode
refresh n = query_or_raise λ db. found (get_node_by_pk n.pk db)

-- the created node in place of `self._file_node`, where each mode has no node to start from
abbrev pub with_node : Writer → FileNode → Writer
with_node w n = record w { file_node = some n; initial_version = n.version; sequence = 0 }

abbrev pub create_target : Environment → Writer → Action FileNode
create_target e w =
    create_node e w.namespace w.path NodeType.file w.stored_block_size w.content_type

-- `except IntegrityError: raise FileExistsError`
abbrev as_file_exists : {A : Type 0} → Result A → Result A
as_file_exists (ok a) = ok a
as_file_exists (err Error.django_integrity) = err Error.file_exists
as_file_exists (err e) = err e

abbrev create_exclusive_target : Environment → Writer → Action FileNode
create_exclusive_target e w db = let (r, db') = create_target e w db in (as_file_exists r, db')

-- What "wb" writes to the row that it truncates.
abbrev pub truncated : Writer → FileNode → FileNode → FileNode
truncated w old n = record n {
  size = 0;
  block_size = w.stored_block_size;
  checksum = [];
  content_type = or_else w.content_type old.content_type;
  version = old.version + 1;
}

-- "wb" on a file that exists
unfoldable pub truncate_target : Writer → FileNode → Action Writer
truncate_target w old = do
  update_version old.pk old.version (truncated w old)
  modify (release_blocks old)
  n ← refresh old
  pure (with_node w n)

-- `aggregate(Max("sequence"))`
abbrev pub max_sequence : List FileBlock → Option ℕ
max_sequence [] = none
max_sequence (m ∷ ms) = elim (max_sequence ms) [
  | none ↦ some m.sequence
  | some k ↦ some (max m.sequence k)
]

-- `_next_sequence`
unfoldable pub next_sequence : FileNode → Db → ℕ
next_sequence n db =
    elim (max_sequence (filter (λ (m : FileBlock). m.file_id == n.pk) db.file_blocks)) [
      | none ↦ 0
      | some k ↦ k + 1
    ]

-- "ab" on a file that exists, with `_hash_existing_blocks`
abbrev pub resumed : Writer → FileNode → Db → Writer
resumed w old db = record w {
  file_node = some old;
  initial_version = old.version;
  size = old.size;
  sequence = next_sequence old db;
  hashed = w.hashed ++ join_content (ordered_file_blocks old db);
}

unfoldable pub resume_target : Writer → FileNode → Action Writer
resume_target w old = do lift (validate_file_node_type old); λ db. (ok (resumed w old db), db)

-- the part of `start` that depends on the mode
unfoldable pub prepare_target : Environment → Writer → Mode → Option FileNode → Action Writer
prepare_target e w Mode.xb (some old) = raise Error.file_exists
prepare_target e w Mode.xb none = do n ← create_exclusive_target e w; pure (with_node w n)
prepare_target e w Mode.wb (some old) = truncate_target w old
prepare_target e w Mode.wb none = do n ← create_target e w; pure (with_node w n)
prepare_target e w Mode.ab (some old) = resume_target w old
prepare_target e w Mode.ab none = do n ← create_target e w; pure (with_node w n)
prepare_target e w Mode.unsupported existing = pure w

abbrev pub is_some {ℓ} : {A : Type ℓ} → Option A → Bool
is_some none = false
is_some (some _) = true

-- the body of `start` inside its transaction
unfoldable pub start_body : Environment → Writer → Action Writer
start_body e w = do
  query_or_raise (lock_namespace_for_write w.namespace)
  query_or_raise (ensure_parent_directory e w.namespace w.path false)
  existing ← query_or_raise (ensure_file_target w.namespace w.path)
  prepare_target e w w.mode existing

-- what a begun transaction makes of the result of `start_body`
abbrev pub begun : Db → Result Writer × Db → Result Writer × Db
begun before (ok w, db) = (ok (record w { transaction = some before }), db)
begun before (err e, db) = (err e, before)

-- `start`: an exception rolls back.
unfoldable pub start : Environment → Writer → Action Writer
start e w db =
    if is_some w.transaction then (err Error.runtime_error, db) else begun db (start_body e w db)

-- `self._file_node` as the code uses it: a method of `None` would raise.
abbrev pub node_of : Writer → Action FileNode
node_of w = elim w.file_node [ none ↦ raise Error.runtime_error | some n ↦ pure n ]

-- The rows for a chunk: blocks first, then their mappings.
unfoldable pub store_chunks : Environment → FileNode → ℕ → List Bytes → Action (List StorageBlock)
store_chunks e n sequence chunks db =
    let blocks = allocate_blocks e chunks db.blocks in
    let db' = record db { blocks = db.blocks ++ blocks } in
    let (r, db'') = bulk_create (new_mappings e n.pk sequence blocks db'.file_blocks) db' in
    elim r [ ok _ ↦ (ok blocks, db'') | err x ↦ (err x, db'') ]

abbrev pub advanced : Writer → Bytes → List StorageBlock → Writer
advanced w chunk blocks = record w {
  size = w.size + length chunk;
  hashed = w.hashed ++ chunk;
  sequence = w.sequence + length blocks;
}

-- the branch of `write_chunk` for a chunk that is not empty
unfoldable pub persist_chunk : Environment → Writer → Bytes → Action Writer
persist_chunk e w chunk = do
  raise_if (ltb w.max_file_size (w.size + length chunk)) Error.file_too_large
  chunks ← lift (chunk_data chunk w.stored_block_size)
  n ← node_of w
  blocks ← store_chunks e n w.sequence chunks
  pure (advanced w chunk blocks)

-- the version that `_finalize` writes
abbrev pub final_version : Writer → ℕ
final_version w = elim w.mode [ Mode.ab ↦ w.initial_version + 1 | _ ↦ w.initial_version ]

abbrev pub finalized : Environment → Writer → FileNode → FileNode → FileNode
finalized e w old n = record n {
  size = w.size;
  block_size = w.stored_block_size;
  checksum = e.sha256 w.hashed;
  content_type = or_else w.content_type old.content_type;
  version = final_version w;
}

finalize_node : Environment → Writer → FileNode → Action Writer
finalize_node e w old = do
  update_version old.pk w.initial_version (finalized e w old)
  n ← refresh old
  pure (record w { file_node = some n })

-- `_finalize`
unfoldable pub finalize : Environment → Writer → Action Writer
unfolding finalize_node
finalize e w = elim w.file_node [ none ↦ pure w | some old ↦ finalize_node e w old ]

-- the guards of `write_chunk`, and the chunk if it is not empty
unfoldable pub add_chunk : Environment → Writer → Bytes → Action Writer
add_chunk e w chunk = do
  raise_if w.closed Error.value_error
  raise_if (not (is_some w.transaction)) Error.runtime_error
  if is_empty chunk then pure w else persist_chunk e w chunk

-- `write_chunk`
unfoldable pub write_chunk : Environment → Writer → Bytes → Bool → Action Writer
write_chunk e w chunk final = do w' ← add_chunk e w chunk; if final then finalize e w' else pure w'

-- `commit`
unfoldable pub commit : Writer → Action Writer
commit w = if w.closed then pure w else pure (record w { closed = true; transaction = none })

-- `discard`: rolls back to the start of the transaction.
unfoldable pub discard : Writer → Action Writer
discard w db = if w.closed then (ok w, db) else (
  ok (record w { closed = true; transaction = none }),
  elim w.transaction [ none ↦ db | some before ↦ before ],
)
