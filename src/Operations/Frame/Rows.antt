-- ===== src/Operations/Frame/Rows.antt =====
-- The release of a file's blocks, and new blocks and mappings of it: the rows of other files stay.
use django_fsspec.Prelude.{
  ℕ, ◌+◌, ◌≡◌, refl, ◌∙◌, ap, false, List, [], ◌∷◌, ◌++◌, map, filter, filter-append, all, contains,
  ◌==◌, arith, append-nil,
}
use django_fsspec.Environment.{Environment}
use django_fsspec.Text.{Text}
use django_fsspec.Models.{FileNode, StorageBlock, FileBlock, Db}
use django_fsspec.Models.Query.{mappings_of}
use django_fsspec.Models.Consistent.{has_block}
use django_fsspec.Operations.Content.{load_blocks, ordered_file_blocks}
use django_fsspec.Operations.Blocks.{not_of_files, release_file_blocks, new_mappings, new_mapping}
use django_fsspec.Operations.Blocks.InUse.{load_blocks-free_old, owned-mappings_of}
use django_fsspec.Operations.Blocks.Extend.{load_blocks-extend}
use django_fsspec.Operations.Frame.{Frame, IsLoaded}

kept_mappings :
    (k j : ℕ) (ms : List FileBlock)
    → (j == k) ≡ false
    → filter (λ m. m.file_id == j) (not_of_files (k ∷ []) ms) ≡ filter (λ m. m.file_id == j) ms
kept_mappings k j [] h = refl
kept_mappings k j (m ∷ ms) h = ground (arith, kept_mappings k j ms)

module _ (k namespace : ℕ) (path : Text) (db : Db) where
  abbrev emptied : Db
  emptied = record db { file_blocks = not_of_files (k ∷ []) db.file_blocks }

  mappings_of-emptied : (j : ℕ) → (j == k) ≡ false → mappings_of j emptied ≡ mappings_of j db
  unfolding mappings_of
  mappings_of-emptied j i = rw (kept_mappings k j db.file_blocks i)

  load_blocks-emptied : (ms : List FileBlock) → load_blocks emptied ms ≡ load_blocks db ms
  load_blocks-emptied [] = refl
  load_blocks-emptied (m ∷ ms) = ground (arith, load_blocks-emptied ms)

  abbrev released : Db
  released = release_file_blocks (k ∷ []) db

  released-rows :
      (n : FileNode)
      → (n.pk == k) ≡ false
      → IsLoaded db n.pk
      → IsLoaded released n.pk × (ordered_file_blocks n released ≡ ordered_file_blocks n db)
  unfolding release_file_blocks mappings_of ordered_file_blocks
  released-rows n i l =
      let ids =
        map (λ (m : FileBlock). m.block_id)
          (filter (λ m. contains m.file_id (k ∷ [])) db.file_blocks) in
      let same = mappings_of-emptied n.pk i in
      let (rows, loaded) =
        load_blocks-free_old ids emptied (mappings_of n.pk emptied)
          (owned-mappings_of ids emptied n.pk) in
      (
        loaded ∙ ap (all (has_block db)) same ∙ l,
        rows ∙ load_blocks-emptied (mappings_of n.pk emptied) ∙ ap (load_blocks db) same,
      )

  pub Frame-released : Frame k namespace path db released
  unfolding release_file_blocks
  Frame-released = record { nodes = refl; only = λ h. h; rows = released-rows }

foreign_mappings :
    (e : Environment) (k j s : ℕ) (bs : List StorageBlock) (ms : List FileBlock)
    → (j == k) ≡ false
    → filter (λ m. m.file_id == j) (new_mappings e k s bs ms) ≡ []
unfolding new_mappings
foreign_mappings e k j s [] ms h = refl
foreign_mappings e k j s (b ∷ bs) ms h =
    ground (arith, foreign_mappings e k j (s + 1) bs (ms ++ new_mapping e k s b ms ∷ []))

-- New blocks, and mappings of the file to them.
module _ (e : Environment) (k namespace : ℕ) (path : Text) (sequence : ℕ) (bs : List StorageBlock)
    (db : Db) where
  abbrev added : Db
  added = record db {
    blocks = db.blocks ++ bs;
    file_blocks = db.file_blocks ++ new_mappings e k sequence bs db.file_blocks;
  }

  mappings_of-added : (j : ℕ) → (j == k) ≡ false → mappings_of j added ≡ mappings_of j db
  unfolding mappings_of
  mappings_of-added j i = rw (
      filter-append (λ (m : FileBlock). m.file_id == j) db.file_blocks
        (new_mappings e k sequence bs db.file_blocks)
      ∙ ap (λ ms. filter (λ (m : FileBlock). m.file_id == j) db.file_blocks ++ ms)
          (foreign_mappings e k j sequence bs db.file_blocks i)
      ∙ append-nil (filter (λ (m : FileBlock). m.file_id == j) db.file_blocks))

  added-rows :
      (n : FileNode)
      → (n.pk == k) ≡ false
      → IsLoaded db n.pk
      → IsLoaded added n.pk × (ordered_file_blocks n added ≡ ordered_file_blocks n db)
  unfolding ordered_file_blocks
  added-rows n i l =
      let same = mappings_of-added n.pk i in
      let (rows, loaded) = load_blocks-extend db added bs refl (mappings_of n.pk db) l in
      (ap (all (has_block added)) same ∙ loaded, ap (load_blocks added) same ∙ rows)

  pub Frame-added : Frame k namespace path db added
  Frame-added = record { nodes = refl; only = λ h. h; rows = added-rows }
