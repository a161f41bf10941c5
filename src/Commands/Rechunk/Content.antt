-- ===== src/Commands/Rechunk/Content.antt =====
-- management/commands/fsspec_rechunk.py: what a rewritten file holds.
use django_fsspec.Prelude.{
  ℕ, ◌+◌, ◌<◌, ◌≡◌, refl, sym, ap, ◌∙◌, true, false, some, List, [], ◌∷◌, length, ◌==◌, arith,
}
use mathlib.Core.Option
use django_fsspec.Errors.{ok}
use django_fsspec.Environment.{Bytes, Environment, HasFreshKeys, Integrity}
use django_fsspec.Text.Laws.{text_eq_refl}
use django_fsspec.Models.{FileNode, Db, NodeType}
use django_fsspec.Models.Query.{block_ids, mappings_to, get_node_by_pk, mappings_of}
use django_fsspec.Operations.Content.{
  chunks_of, chunk_data, load_file_data, ordered_file_blocks, path_has_descendants,
}
use django_fsspec.Operations.Content.Chunks.{flatten-chunks_of}
use django_fsspec.Operations.Content.Intact.{IsIntact, content_of}
use django_fsspec.Operations.Blocks.{free_old, allocate_blocks, bulk_create, not_of_files}
use django_fsspec.Operations.Blocks.InUse.{
  load_blocks-free_old, owned-mappings_of, ordered_file_blocks-free_old,
}
use django_fsspec.Operations.Blocks.Order.{has_duplicate_slot-new_mappings}
use django_fsspec.Operations.Writer.Writing.{HasRows, HasRows-extended, extended}
use django_fsspec.Operations.Writer.Truncate.{empty-HasRows, released_gone}
use django_fsspec.Operations.Writer.Finalize.{
  updated, changed, get_node_by_pk-updated, path_has_descendants-updated, version_found,
}
use django_fsspec.Commands.Rechunk.{
  RechunkResult, prepared, prepare_rechunk, rechunked, update_rechunked, rewrite_file, rechunk_file,
}

module _ (ids : List ℕ) (db : Db) where
  pub free_old-HasRows :
      (e : Environment) (n : FileNode) (k : ℕ) {written : Bytes}
      → HasRows e db n k written
      → HasRows e (free_old ids db) n k written
  unfolding mappings_of
  free_old-HasRows e n k h =
      let same = ordered_file_blocks-free_old ids db n in
      let loaded =
        (load_blocks-free_old ids db (mappings_of n.pk db) (owned-mappings_of ids db n.pk)).1 in
      record {
        below = h.below;
        loaded = loaded ∙ h.loaded;
        counted = rw same h.counted;
        contiguous = rw same h.contiguous;
        intact = rw same h.intact;
        content = rw same h.content;
      }

module _ (e : Environment) (fresh : HasFreshKeys e) (n : FileNode) (target : ℕ) (content : Bytes)
    (db : Db) (by_key : get_node_by_pk n.pk db ≡ some n) (typed : n.node_type ≡ NodeType.file)
    (childless : path_has_descendants n.namespace_id n.path (some n.pk) db ≡ false)
    (positive : 0 < target) where
  abbrev chunks : List Bytes
  chunks = chunks_of content target

  abbrev emptied : Db
  emptied = record db { file_blocks = not_of_files (n.pk ∷ []) db.file_blocks }

  emptied-HasRows : HasRows e emptied n 0 []
  emptied-HasRows = empty-HasRows e n emptied (released_gone n.pk db.file_blocks)

  abbrev filled : Db
  filled = extended e n 0 chunks emptied

  abbrev freed : Db
  freed = free_old (block_ids (mappings_to n db)) filled

  abbrev change : FileNode → FileNode
  change = rechunked e target content n

  abbrev pub rewritten_db : Db
  rewritten_db = updated n.pk n.version change (λ _. refl) (λ _. refl) (λ _. refl) freed

  abbrev pub rewritten_node : FileNode
  rewritten_node = change n

  filled-HasRows : HasRows e freed n (0 + length chunks) content
  filled-HasRows = free_old-HasRows (block_ids (mappings_to n db)) filled e n (0 + length chunks) (
      rw (flatten-chunks_of content target positive) at
        (HasRows-extended e fresh n 0 chunks emptied emptied-HasRows))

  rewrite_file-rewritten : rewrite_file e n target content chunks db ≡ (ok tt, rewritten_db)
  unfolding rewrite_file bulk_create update_rechunked
  rewrite_file-rewritten =
      let distinct =
        has_duplicate_slot-new_mappings e n.pk 0 0 (allocate_blocks e chunks db.blocks)
          emptied.file_blocks emptied.file_blocks (omega arith) emptied-HasRows.below in
      let found =
        version_found n.pk n.version change (λ _. refl) (λ _. refl) (λ _. refl) freed n by_key
          refl in
      ground (arith, distinct, found)

  changed-n :
      changed n.pk n.version change (λ _. refl) (λ _. refl) (λ _. refl) freed n ≡ rewritten_node
  changed-n = ground arith

  key-rewritten : get_node_by_pk n.pk rewritten_db ≡ some rewritten_node
  key-rewritten =
      get_node_by_pk-updated n.pk n.version change (λ _. refl) (λ _. refl) (λ _. refl) freed n.pk
      ∙ ap (Option.map _) by_key
      ∙ ap some changed-n

  content_of-rewritten : content_of rewritten_node rewritten_db ≡ content
  unfolding ordered_file_blocks mappings_of
  content_of-rewritten = filled-HasRows.content

  childless_freed : path_has_descendants n.namespace_id n.path (some n.pk) freed ≡ false
  unfolding path_has_descendants
  childless_freed = childless

  rewritten-IsIntact : IsIntact e rewritten_node rewritten_db
  unfolding ordered_file_blocks mappings_of
  rewritten-IsIntact = record {
    typed = typed;
    childless =
        path_has_descendants-updated n.pk n.version change (λ _. refl) (λ _. refl) (λ _. refl) freed
          n.namespace_id n.path n.pk
        ∙ childless_freed;
    contiguous = filled-HasRows.contiguous;
    blocks = filled-HasRows.intact;
    sized = ground (arith, filled-HasRows.content);
    hashed = ground (arith, filled-HasRows.content, text_eq_refl (e.sha256 content));
  }

-- What a load for a rewrite says of the file.
loaded_for_rewrite :
    (e : Environment) (n : FileNode) (verify : Integrity) (db : Db) (content : Bytes)
    → load_file_data e n verify true db ≡ ok content
    → (n.node_type ≡ NodeType.file)
      × (path_has_descendants n.namespace_id n.path (some n.pk) db ≡ false)
      × (content_of n db ≡ content)
unfolding load_file_data
loaded_for_rewrite e n verify db content h = (ground arith, ground arith, ground arith)

-- With fresh keys and a positive target, a file whose block size is positive and not the target,
-- and which loads under the command's policy with no shared block, is rewritten: the run of one
-- file succeeds, and leaves the key with an intact file of the same content, the target as its
-- block size and the next version.
pub rechunk_file-content :
    (e : Environment) (fresh : HasFreshKeys e) (n : FileNode) (target : ℕ) (verify : Integrity)
    (content : Bytes) (db : Db)
    → get_node_by_pk n.pk db ≡ some n
    → 0 < target
    → 0 < n.block_size
    → (n.block_size == target) ≡ false
    → load_file_data e n verify true db ≡ ok content
    → (r : RechunkResult) × (node : FileNode) × (db' : Db) × (rechunk_file e n.pk target verify db
        ≡ (ok r, db'))
      × (get_node_by_pk n.pk db' ≡ some node)
      × IsIntact e node db'
      × (content_of node db' ≡ content_of n db)
      × (node.block_size ≡ target)
      × (node.version ≡ n.version + 1)
unfolding rechunk_file prepare_rechunk chunk_data
rechunk_file-content e fresh n target verify content db by_key positive sized other loads =
    let (typed, childless, same) = loaded_for_rewrite e n verify db content loads in
    (
      prepared n db content (chunks_of content target),
      rewritten_node e fresh n target content db by_key typed childless positive,
      rewritten_db e fresh n target content db by_key typed childless positive,
      ground (
        arith,
        by_key,
        loads,
        rewrite_file-rewritten e fresh n target content db by_key typed childless positive,
      ),
      key-rewritten e fresh n target content db by_key typed childless positive,
      rewritten-IsIntact e fresh n target content db by_key typed childless positive,
      content_of-rewritten e fresh n target content db by_key typed childless positive ∙ sym same,
      refl,
      refl,
    )
