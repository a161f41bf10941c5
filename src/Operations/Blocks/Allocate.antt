-- ===== src/Operations/Blocks/Allocate.antt =====
-- The rows that a chunk adds: each new block is found by its key, holds its chunk, and describes it.
use django_fsspec.Prelude.{
  ℕ, suc, ◌+◌, ◌≡◌, refl, ap, ◌∙◌, true, false, ◌&&◌, List, [], ◌∷◌, ◌++◌, map, append_assoc, some,
  none, contains, find?, find?-append_none, all, length, flatten, ◌==◌, arith,
}
use django_fsspec.Environment.{Bytes, Environment, HasFreshKeys}
use django_fsspec.Text.Laws.{text_eq_refl}
use django_fsspec.Models.{StorageBlock, FileBlock, Db}
use django_fsspec.Models.Query.{get_block}
use django_fsspec.Operations.Content.{load_blocks, join_content, is_contiguous}
use django_fsspec.Operations.Content.Intact.{is_described, is_intact}
use django_fsspec.Operations.Blocks.{allocate_blocks, new_block, new_mapping, new_mappings}

-- Each block is found under its key.
abbrev pub AreStored : List StorageBlock → Db → Type 0
AreStored [] db = Unit
AreStored (b ∷ bs) db = (get_block b.pk db ≡ some b) × AreStored bs db

find?-none_of_fresh :
    (k : ℕ) (blocks : List StorageBlock)
    → contains k (map (λ (b : StorageBlock). b.pk) blocks) ≡ false
    → find? (λ b. b.pk == k) blocks ≡ none
find?-none_of_fresh k [] h = refl
find?-none_of_fresh k (b ∷ blocks) h = ground (arith, find?-none_of_fresh k blocks)

module _ (e : Environment) (fresh : HasFreshKeys e) where
  pub allocate_blocks-AreStored :
      (chunks : List Bytes) (old : List StorageBlock) (db : Db)
      → db.blocks ≡ old ++ allocate_blocks e chunks old
      → AreStored (allocate_blocks e chunks old) db
  unfolding allocate_blocks
  allocate_blocks-AreStored [] old db h = tt
  allocate_blocks-AreStored (c ∷ chunks) old db h =
      let b = new_block e c old in
      (
        rw h (
            find?-append_none (λ (x : StorageBlock). x.pk == b.pk) old _
              (find?-none_of_fresh b.pk old (fresh (map (λ (x : StorageBlock). x.pk) old)))
            ∙ ground arith),
        allocate_blocks-AreStored chunks (old ++ b ∷ []) db (h ∙ rw append_assoc),
      )

  pub allocate_blocks-content :
      (chunks : List Bytes) (old : List StorageBlock)
      → (map (λ (b : StorageBlock). b.content) (allocate_blocks e chunks old) ≡ chunks)
        × (length (allocate_blocks e chunks old) ≡ length chunks)
  unfolding allocate_blocks
  allocate_blocks-content [] old = (refl, refl)
  allocate_blocks-content (c ∷ chunks) old =
      let (contents, count) = allocate_blocks-content chunks (old ++ new_block e c old ∷ []) in
      (ap (◌∷◌ c) contents, ap suc count)

pub allocate_blocks-described :
    (e : Environment) (chunks : List Bytes) (old : List StorageBlock)
    → all (is_described e) (allocate_blocks e chunks old) ≡ true
unfolding allocate_blocks
allocate_blocks-described e [] old = refl
allocate_blocks-described e (c ∷ chunks) old = ground (
  arith,
  text_eq_refl (e.sha256 c),
  allocate_blocks-described e chunks (old ++ new_block e c old ∷ []),
)

-- The new mappings lead to the new blocks, in order, numbered from `k`.
module _ (e : Environment) (file_id : ℕ) (db : Db) where
  pub load_blocks-new_mappings :
      (k : ℕ) (bs : List StorageBlock) (ms : List FileBlock)
      → AreStored bs db
      → let rows = load_blocks db (new_mappings e file_id k bs ms) in
        (join_content rows ≡ flatten (map (λ (b : StorageBlock). b.content) bs))
        × (is_contiguous k rows ≡ true)
        × (all (is_intact e) rows ≡ all (is_described e) bs)
        × (length rows ≡ length bs)
  unfolding new_mappings
  load_blocks-new_mappings k [] ms h = (refl, refl, refl, refl)
  load_blocks-new_mappings k (b ∷ bs) ms h =
      let m = new_mapping e file_id k b ms in
      let rest = new_mappings e file_id (k + 1) bs (ms ++ m ∷ []) in
      let (content, contiguous, intact, count) =
        load_blocks-new_mappings (k + 1) bs (ms ++ m ∷ []) h.1 in
      let loaded : load_blocks db (m ∷ rest)
          ≡ record { mapping = m; block = b } ∷ load_blocks db rest =
        rw (h.0, load_blocks) in
      rw loaded (
        ap (◌++◌ b.content) content,
        ground (arith, contiguous),
        ap (λ t. is_described e b && t) intact,
        ap suc count,
      )
