-- ===== src/Operations/Writer/Writing.antt =====
-- The state of a writer between two calls, against the bytes that it was given so far; and that
-- `write_chunk` adds its chunk to them.
use django_fsspec.Prelude.{
  ℕ, ◌+◌, ◌≤◌, ◌<◌, ◌≡◌, refl, ap, ◌∙◌, Bool, true, false, some, List, [], ◌∷◌, ◌++◌, append-nil,
  flatten, all, all-append, length, length-append, arith,
}
use django_fsspec.Errors.{Error, ok, err}
use django_fsspec.Environment.{Bytes, Environment, HasFreshKeys}
use django_fsspec.Text.{Text}
use django_fsspec.Models.{FileNode, StorageBlock, FileBlock, Db, NodeType}
use django_fsspec.Models.Query.{get_node, get_node_by_pk, mappings_of}
use django_fsspec.Models.Consistent.{has_block}
use django_fsspec.Operations.Content.{
  chunks_of, chunk_data, path_has_descendants, load_blocks, ordered_file_blocks, join_content,
  is_contiguous,
}
use django_fsspec.Operations.Content.Chunks.{flatten-chunks_of}
use django_fsspec.Operations.Content.Intact.{is_intact}
use django_fsspec.Operations.Blocks.{allocate_blocks, new_mappings, bulk_create}
use django_fsspec.Operations.Blocks.Allocate.{
  AreStored, allocate_blocks-AreStored, allocate_blocks-content, allocate_blocks-described,
  load_blocks-new_mappings,
}
use django_fsspec.Operations.Blocks.Order.{
  AreBelow, sort-new_mappings, has_duplicate_slot-new_mappings, AreBelow-new_mappings,
}
use django_fsspec.Operations.Blocks.Extend.{
  load_blocks-extend, load_blocks-append, has_block-new_mappings, join_content-append,
  is_contiguous-append,
}
use django_fsspec.Operations.Frame.{Frame, Frame-refl}
use django_fsspec.Operations.Frame.Rows.{Frame-added}
use django_fsspec.Operations.Writer.{
  Writer, is_some, add_chunk, advanced, persist_chunk, store_chunks, write_chunk,
}

-- The rows of the file `n` are intact, numbered from 0, fewer than `k`, and hold `written`.
pub record HasRows (e : Environment) (db : Db) (n : FileNode) (k : ℕ) (written : Bytes)
    : Type 0 where
  pub below : AreBelow k n.pk db.file_blocks
  pub loaded : all (has_block db) (mappings_of n.pk db) ≡ true
  pub counted : length (ordered_file_blocks n db) ≡ k
  pub contiguous : is_contiguous 0 (ordered_file_blocks n db) ≡ true
  pub intact : all (is_intact e) (ordered_file_blocks n db) ≡ true
  pub content : join_content (ordered_file_blocks n db) ≡ written

-- The row of the file that the writer works on.
pub record HasTarget (w : Writer) (db : Db) (n : FileNode) : Type 0 where
  pub target : w.file_node ≡ some n
  pub by_key : get_node_by_pk n.pk db ≡ some n
  pub by_path : get_node w.namespace w.path db ≡ some n
  pub version : n.version ≡ w.initial_version
  pub typed : n.node_type ≡ NodeType.file
  pub childless : path_has_descendants n.namespace_id n.path (some n.pk) db ≡ false

-- A started writer that was given `written`.
pub record Writing (e : Environment) (w : Writer) (db : Db) (n : FileNode) (written : Bytes)
    : Type 0 where
  pub started : is_some w.transaction ≡ true
  pub opened : w.closed ≡ false
  pub positive : 0 < w.stored_block_size
  pub hashed : w.hashed ≡ written
  pub sized : w.size ≡ length written
  pub target : HasTarget w db n
  pub rows : HasRows e db n w.sequence written

module _ (e : Environment) (n : FileNode) (k : ℕ) (chunks : List Bytes) (db : Db) where
  abbrev pub added_blocks : List StorageBlock
  added_blocks = allocate_blocks e chunks db.blocks

  abbrev pub added_mappings : List FileBlock
  added_mappings = new_mappings e n.pk k added_blocks db.file_blocks

  -- the database with the rows for the chunks
  abbrev pub extended : Db
  extended = record db {
    blocks = db.blocks ++ added_blocks;
    file_blocks = db.file_blocks ++ added_mappings;
  }

module _ (e : Environment) (fresh : HasFreshKeys e) (n : FileNode) (k : ℕ) (chunks : List Bytes)
    (db : Db) {written : Bytes} (h : HasRows e db n k written) where
  abbrev db' : Db
  db' = extended e n k chunks db

  store_chunks-extended : store_chunks e n k chunks db ≡ (ok (added_blocks e n k chunks db), db')
  unfolding store_chunks bulk_create
  store_chunks-extended = ground (
    arith,
    has_duplicate_slot-new_mappings e n.pk k k (added_blocks e n k chunks db) db.file_blocks
        db.file_blocks (omega arith) h.below,
  )

  mappings_of-extended :
      mappings_of n.pk db' ≡ mappings_of n.pk db ++ added_mappings e n k chunks db
  unfolding mappings_of
  mappings_of-extended =
      sort-new_mappings e n.pk k (added_blocks e n k chunks db) db.file_blocks db.file_blocks
        h.below

  stored : AreStored (added_blocks e n k chunks db) db'
  stored = allocate_blocks-AreStored e fresh chunks db.blocks db' refl

  rows-extended :
      ordered_file_blocks n db'
      ≡ ordered_file_blocks n db ++ load_blocks db' (added_mappings e n k chunks db)
  unfolding ordered_file_blocks
  rows-extended = rw (
    mappings_of-extended,
    load_blocks-append db' (mappings_of n.pk db) (added_mappings e n k chunks db),
    (load_blocks-extend db db' (added_blocks e n k chunks db) refl (mappings_of n.pk db)
        h.loaded).0,
  )

  -- The chunks follow what was written.
  pub HasRows-extended : HasRows e db' n (k + length chunks) (written ++ flatten chunks)
  HasRows-extended =
      let old = ordered_file_blocks n db in
      let new = load_blocks db' (added_mappings e n k chunks db) in
      let blocks = added_blocks e n k chunks db in
      let (kept, found) = load_blocks-extend db db' blocks refl (mappings_of n.pk db) h.loaded in
      let (content, contiguous, intact, count) =
        load_blocks-new_mappings e n.pk db' k blocks db.file_blocks stored in
      let (chunk_contents, total) = allocate_blocks-content e fresh chunks db.blocks in
      let e₁ : k + length blocks ≡ k + length chunks = omega (arith, total) in
      record {
        below =
            rw e₁ at (AreBelow-new_mappings e n.pk k blocks db.file_blocks db.file_blocks h.below);
        loaded = rw mappings_of-extended (
            all-append (has_block db') (mappings_of n.pk db) (added_mappings e n k chunks db) found
              (has_block-new_mappings db' e n.pk k blocks db.file_blocks stored));
        counted = rw rows-extended (omega (arith, length-append old new, h.counted, count, total));
        contiguous =
            rw rows-extended
              (is_contiguous-append 0 k old new h.contiguous (omega (arith, h.counted)) contiguous);
        intact = rw rows-extended (
            all-append (is_intact e) old new h.intact
              (intact ∙ allocate_blocks-described e chunks db.blocks));
        content =
            rw rows-extended
              (join_content-append old new ∙ ground (arith, h.content, content, chunk_contents));
      }

-- The writer and the database after a chunk.
abbrev pub after_chunk : Environment → FileNode → Writer → Bytes → Db → Writer × Db
after_chunk e n w [] db = (w, db)
after_chunk e n w (c ∷ cs) db =
    let chunks = chunks_of (c ∷ cs) w.stored_block_size in
    (advanced w (c ∷ cs) (added_blocks e n w.sequence chunks db), extended e n w.sequence chunks db)

pub after_chunk-Frame :
    (e : Environment) (n : FileNode) (w : Writer) (chunk : Bytes) (db : Db) (namespace : ℕ)
    (path : Text)
    → Frame n.pk namespace path db (after_chunk e n w chunk db).1
after_chunk-Frame e n w [] db namespace path = Frame-refl n.pk namespace path db
after_chunk-Frame e n w (c ∷ cs) db namespace path =
    Frame-added e n.pk namespace path w.sequence
      (added_blocks e n w.sequence (chunks_of (c ∷ cs) w.stored_block_size) db) db

-- A writer that goes on from `w`: what `__init__` and `start` fixed stays.
pub record Continues (w w' : Writer) : Type 0 where
  pub namespace : w'.namespace ≡ w.namespace
  pub path : w'.path ≡ w.path
  pub mode : w'.mode ≡ w.mode
  pub content_type : w'.content_type ≡ w.content_type
  pub block_size : w'.stored_block_size ≡ w.stored_block_size
  pub limit : w'.max_file_size ≡ w.max_file_size
  pub transaction : w'.transaction ≡ w.transaction
  pub initial_version : w'.initial_version ≡ w.initial_version

pub after_chunk-Continues :
    (e : Environment) (n : FileNode) (w : Writer) (chunk : Bytes) (db : Db)
    → Continues w (after_chunk e n w chunk db).0
after_chunk-Continues e n w [] db = record {
  namespace = refl;
  path = refl;
  mode = refl;
  content_type = refl;
  block_size = refl;
  limit = refl;
  transaction = refl;
  initial_version = refl;
}
after_chunk-Continues e n w (c ∷ cs) db = record {
  namespace = refl;
  path = refl;
  mode = refl;
  content_type = refl;
  block_size = refl;
  limit = refl;
  transaction = refl;
  initial_version = refl;
}

module _ (e : Environment) (fresh : HasFreshKeys e) (n : FileNode) (w : Writer) (db : Db)
    {written : Bytes} (h : Writing e w db n written) where
  extended-HasTarget :
      (chunks : List Bytes) (chunk : Bytes)
      → HasTarget
          (advanced w chunk (added_blocks e n w.sequence chunks db))
          (extended e n w.sequence chunks db)
          n
  unfolding path_has_descendants
  extended-HasTarget chunks chunk = record {
    target = h.target.target;
    by_key = h.target.by_key;
    by_path = h.target.by_path;
    version = h.target.version;
    typed = h.target.typed;
    childless = h.target.childless;
  }

  -- A chunk within the limit is written, and the state goes on with the chunk added.
  pub after_chunk-Writing :
      (chunk : Bytes)
      → let (w', db') = after_chunk e n w chunk db in Writing e w' db' n (written ++ chunk)
  after_chunk-Writing [] = rw (append-nil written) h
  after_chunk-Writing (c ∷ cs) =
      let chunks = chunks_of (c ∷ cs) w.stored_block_size in
      let rows = HasRows-extended e fresh n w.sequence chunks db h.rows in
      record {
        started = h.started;
        opened = h.opened;
        positive = h.positive;
        hashed = ap (λ s. s ++ c ∷ cs) h.hashed;
        sized = omega (arith, h.sized, length-append written (c ∷ cs));
        target = extended-HasTarget chunks (c ∷ cs);
        rows =
            rw (allocate_blocks-content e fresh chunks db.blocks).1
              (rw (flatten-chunks_of (c ∷ cs) w.stored_block_size h.positive) at rows);
      }

  pub write_chunk-after :
      (chunk : Bytes)
      → w.size + length chunk ≤ w.max_file_size
      → let (w', db') = after_chunk e n w chunk db in write_chunk e w chunk false db ≡ (ok w', db')
  unfolding write_chunk add_chunk persist_chunk chunk_data
  write_chunk-after [] fits = ground (arith, h.opened, h.started)
  write_chunk-after (c ∷ cs) fits = ground (
    arith,
    h.opened,
    h.started,
    h.positive,
    h.target.target,
    store_chunks-extended e fresh n w.sequence (chunks_of (c ∷ cs) w.stored_block_size) db h.rows,
  )

  -- A chunk past the limit is refused before anything is stored.
  pub write_chunk-too_large :
      (chunk : Bytes) (final : Bool)
      → 0 < length chunk
      → w.max_file_size < w.size + length chunk
      → write_chunk e w chunk final db ≡ (err Error.file_too_large, db)
  unfolding write_chunk add_chunk persist_chunk
  write_chunk-too_large chunk final positive large = ground (arith, h.opened, h.started)
