-- ===== src/Operations/Content/Intact.antt =====
-- When a stored file passes every check of `_load_file_data`.
use django_fsspec.Prelude.{
  ◌≡◌, refl, Bool, true, false, ◌&&◌, not, List, [], ◌∷◌, some, length, all, arith, ◌==◌,
}
use django_fsspec.Errors.{ok}
use django_fsspec.Environment.{Bytes, Environment, Integrity}
use django_fsspec.Models.{FileNode, StorageBlock, Db, NodeType}
use django_fsspec.Models.Query.{LoadedBlock}
use django_fsspec.Operations.Content.{
  checksum_differs, is_contiguous, check_blocks, load_file_data, ordered_file_blocks, join_content,
  path_has_descendants,
}

-- A block whose row describes its data and that is in use.
abbrev pub is_described : Environment → StorageBlock → Bool
is_described e b =
    not b.is_free && b.size == length b.content && not (checksum_differs e b.checksum b.content)

abbrev pub is_intact : Environment → LoadedBlock → Bool
is_intact e r = is_described e r.block

-- The content of a file: the data of its blocks in order.
abbrev pub content_of : FileNode → Db → Bytes
content_of n db = join_content (ordered_file_blocks n db)

-- Every block of the file is intact, their sequence numbers count from 0, the row has the size and
-- the checksum of the content, and no path lies below the file.
pub record IsIntact (e : Environment) (n : FileNode) (db : Db) : Type 0 where
  pub typed : n.node_type ≡ NodeType.file
  pub childless : path_has_descendants n.namespace_id n.path (some n.pk) db ≡ false
  pub contiguous : is_contiguous 0 (ordered_file_blocks n db) ≡ true
  pub blocks : all (is_intact e) (ordered_file_blocks n db) ≡ true
  pub sized : n.size ≡ length (content_of n db)
  pub hashed : checksum_differs e n.checksum (content_of n db) ≡ false

module _ (e : Environment) (n : FileNode) (db : Db) where
  check_blocks-ok :
      (policy : Integrity) (rows : List LoadedBlock)
      → all (is_intact e) rows ≡ true
      → check_blocks e n policy false db rows ≡ ok tt
  unfolding check_blocks
  check_blocks-ok policy [] h = refl
  check_blocks-ok policy (r ∷ rows) h = ground (arith, check_blocks-ok policy rows)

  check_blocks-intact :
      (rows : List LoadedBlock)
      → check_blocks e n Integrity.checksum false db rows ≡ ok tt
      → all (is_intact e) rows ≡ true
  unfolding check_blocks
  check_blocks-intact [] h = refl
  check_blocks-intact (r ∷ rows) h = ground (arith, check_blocks-intact rows)

  -- An intact file is read under every policy.
  pub load_file_data-intact :
      (policy : Integrity)
      → IsIntact e n db
      → load_file_data e n policy false db ≡ ok (content_of n db)
  unfolding load_file_data
  load_file_data-intact policy h =
      ground (arith, check_blocks-ok policy (ordered_file_blocks n db) h.blocks)

  -- Where `_load_file_data` returns data under the policy "checksum", the file is intact and the
  -- data is its content.
  pub load_file_data-checked :
      (c : Bytes)
      → load_file_data e n Integrity.checksum false db ≡ ok c
      → IsIntact e n db × (c ≡ content_of n db)
  unfolding load_file_data
  load_file_data-checked c h = (
    record {
      typed = ground arith;
      childless = ground arith;
      contiguous = ground arith;
      blocks = check_blocks-intact (ordered_file_blocks n db) (ground arith);
      sized = ground arith;
      hashed = ground arith;
    },
    ground arith,
  )
