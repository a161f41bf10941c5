-- ===== src/Operations/Blocks/Extend.antt =====
-- What stays of a file's rows when blocks and mappings are added.
use django_fsspec.Prelude.{
  ℕ, ◌+◌, ◌≡◌, refl, true, some, List, [], ◌∷◌, ◌++◌, find?-append_some, all, length,
  flatten-append, map, map-append, ◌==◌, arith, Option-cases, inl, inr,
}
use django_fsspec.Environment.{Environment}
use django_fsspec.Models.{StorageBlock, FileBlock, Db}
use django_fsspec.Models.Query.{LoadedBlock, get_block}
use django_fsspec.Models.Consistent.{has_block}
use django_fsspec.Operations.Content.{load_blocks, join_content, is_contiguous}
use django_fsspec.Operations.Blocks.{new_mapping, new_mappings}
use django_fsspec.Operations.Blocks.Allocate.{AreStored}

module _ (db db' : Db) (extra : List StorageBlock) (more : db'.blocks ≡ db.blocks ++ extra) where
  get_block-extend : (k : ℕ) (b : StorageBlock) → get_block k db ≡ some b → get_block k db' ≡ some b
  get_block-extend k b h =
      rw more (find?-append_some (λ (x : StorageBlock). x.pk == k) db.blocks extra b h)

  -- More blocks do not change what the mappings lead to.
  pub load_blocks-extend :
      (ms : List FileBlock)
      → all (has_block db) ms ≡ true
      → (load_blocks db' ms ≡ load_blocks db ms) × (all (has_block db') ms ≡ true)
  load_blocks-extend [] h = (refl, refl)
  load_blocks-extend (m ∷ ms) h = elim (Option-cases (get_block m.block_id db)) [
    | inl missing ↦ ground arith
    | inr (b, found) ↦
        let found' = get_block-extend m.block_id b found in
        let (same, blocks) = load_blocks-extend ms (ground arith) in
        (rw (found', found, same, load_blocks), ground (arith, blocks))
  ]

module _ (db : Db) where
  pub load_blocks-append :
      (xs ys : List FileBlock) → load_blocks db (xs ++ ys) ≡ load_blocks db xs ++ load_blocks db ys
  load_blocks-append [] ys = refl
  load_blocks-append (x ∷ xs) ys = ground (arith, load_blocks-append xs ys)

  pub has_block-new_mappings :
      (e : Environment) (pk k : ℕ) (bs : List StorageBlock) (ms : List FileBlock)
      → AreStored bs db
      → all (has_block db) (new_mappings e pk k bs ms) ≡ true
  unfolding new_mappings
  has_block-new_mappings e pk k [] ms h = refl
  has_block-new_mappings e pk k (b ∷ bs) ms h =
      ground (arith, has_block-new_mappings e pk (k + 1) bs (ms ++ new_mapping e pk k b ms ∷ []))

pub join_content-append :
    (xs ys : List LoadedBlock) → join_content (xs ++ ys) ≡ join_content xs ++ join_content ys
join_content-append xs ys = rw (map-append (λ (r : LoadedBlock). r.block.content) xs ys) (
    flatten-append (map (λ (r : LoadedBlock). r.block.content) xs)
      (map (λ (r : LoadedBlock). r.block.content) ys))

pub is_contiguous-append :
    (k n : ℕ) (xs ys : List LoadedBlock)
    → is_contiguous k xs ≡ true
    → n ≡ k + length xs
    → is_contiguous n ys ≡ true
    → is_contiguous k (xs ++ ys) ≡ true
is_contiguous-append k n [] ys hx e hy = let e' : k ≡ n = omega (arith, e) in rw e' hy
is_contiguous-append k n (x ∷ xs) ys hx e hy = ground (arith, is_contiguous-append (k + 1) n xs ys)
