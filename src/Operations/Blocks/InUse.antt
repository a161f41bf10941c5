-- ===== src/Operations/Blocks/InUse.antt =====
-- operations.py: `_release_file_blocks` and the blocks that mappings still refer to.
use django_fsspec.Prelude.{
  ℕ, ◌≡◌, refl, Bool, true, false, not, Option, none, some, all-sort, List, [], ◌∷◌, map, filter,
  find?, any, all, contains, all_imply, all-filter, ◌==◌, arith,
}
use django_fsspec.Models.{FileNode, StorageBlock, FileBlock, Db}
use django_fsspec.Models.Query.{mappings_of, before_mapping}
use django_fsspec.Models.Consistent.{has_block}
use django_fsspec.Operations.Content.{load_blocks, ordered_file_blocks}
use django_fsspec.Operations.Blocks.{free_old, free_ownerless, not_of_files, release_file_blocks}

abbrev pub in_use : Option StorageBlock → Bool
in_use none = false
in_use (some b) = not b.is_free

-- The block of the mapping exists and is not free.
abbrev pub is_used : List StorageBlock → FileBlock → Bool
is_used blocks m = in_use (find? (λ b. b.pk == m.block_id) blocks)

-- No mapping leads to a free block.
abbrev pub HasUsedBlocks : Db → Type 0
HasUsedBlocks db = all (is_used db.blocks) db.file_blocks ≡ true

abbrev pub owns : FileBlock → FileBlock → Bool
owns m r = r.block_id == m.block_id

-- A block that a mapping is left for stays as it is.
pub find?-free_ownerless :
    (k : ℕ) (ids : List ℕ) (left : List FileBlock) (blocks : List StorageBlock)
    → any (λ (r : FileBlock). r.block_id == k) left ≡ true
    → find? (λ (b : StorageBlock). b.pk == k) (free_ownerless ids left blocks)
      ≡ find? (λ b. b.pk == k) blocks
find?-free_ownerless k ids left [] h = refl
find?-free_ownerless k ids left (b ∷ blocks) h =
    ground (arith, find?-free_ownerless k ids left blocks)

pub owned : (left : List FileBlock) → all (λ m. any (owns m) left) left ≡ true
owned [] = refl
owned (x ∷ left) = ground (
  arith,
  all_imply (λ m. any (owns m) left) (λ m. any (owns m) (x ∷ left)) left (λ m h. ground arith)
      (owned left),
)

is_used-free_ownerless :
    (ids : List ℕ) (left ms : List FileBlock) (blocks : List StorageBlock)
    → all (λ m. any (owns m) left) ms ≡ true
    → all (is_used blocks) ms ≡ true
    → all (is_used (free_ownerless ids left blocks)) ms ≡ true
is_used-free_ownerless ids left [] blocks h k = refl
is_used-free_ownerless ids left (m ∷ ms) blocks h k = ground (
  arith,
  is_used-free_ownerless ids left ms blocks,
  find?-free_ownerless m.block_id ids left blocks,
)

-- The release of the blocks of files frees no block that a mapping still leads to.
pub release_file_blocks-HasUsedBlocks :
    (file_ids : List ℕ) (db : Db)
    → HasUsedBlocks db
    → HasUsedBlocks (release_file_blocks file_ids db)
unfolding release_file_blocks
release_file_blocks-HasUsedBlocks file_ids db h =
    let left = not_of_files file_ids db.file_blocks in
    is_used-free_ownerless
      (map (λ (m : FileBlock). m.block_id)
        (filter (λ m. contains m.file_id file_ids) db.file_blocks))
      left left db.blocks (owned left)
      (all-filter (λ m. not (contains m.file_id file_ids)) (is_used db.blocks) db.file_blocks h)

-- Freeing ownerless blocks changes no block that a mapping leads to.
module _ (ids : List ℕ) (db : Db) where
  pub load_blocks-free_old :
      (ms : List FileBlock)
      → all (λ m. any (owns m) db.file_blocks) ms ≡ true
      → (load_blocks (free_old ids db) ms ≡ load_blocks db ms)
        × (all (has_block (free_old ids db)) ms ≡ all (has_block db) ms)
  load_blocks-free_old [] h = (refl, refl)
  load_blocks-free_old (m ∷ ms) h =
      let rest = load_blocks-free_old ms (ground arith) in
      ground (arith, find?-free_ownerless m.block_id ids db.file_blocks db.blocks, rest.0, rest.1)

  pub owned-mappings_of : (k : ℕ) → all (λ m. any (owns m) db.file_blocks) (mappings_of k db) ≡ true
  unfolding mappings_of
  owned-mappings_of k =
      let of_file : FileBlock → Bool = λ m. m.file_id == k in
      all-sort before_mapping (λ m. any (owns m) db.file_blocks) (filter of_file db.file_blocks)
        (all-filter of_file (λ m. any (owns m) db.file_blocks) db.file_blocks
          (owned db.file_blocks))

  pub ordered_file_blocks-free_old :
      (n : FileNode) → ordered_file_blocks n (free_old ids db) ≡ ordered_file_blocks n db
  unfolding ordered_file_blocks mappings_of
  ordered_file_blocks-free_old n =
      (load_blocks-free_old (mappings_of n.pk db) (owned-mappings_of n.pk)).0
