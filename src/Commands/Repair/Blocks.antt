-- ===== src/Commands/Repair/Blocks.antt =====
-- management/commands/fsspec_repair.py against fsspec_fsck.py: the blocks after a repair.
use django_fsspec.Prelude.{
  ◌≡◌, refl, Bool, true, false, ◌&&◌, ◌||◌, not, none, List, [], ◌∷◌, filter, any, all,
  update_where, length, ◌==◌, arith,
}
use django_fsspec.Environment.{Environment}
use django_fsspec.Text.Laws.{text_eq_refl, text_eq_comm}
use django_fsspec.Models.{StorageBlock, FileBlock, Db}
use django_fsspec.Operations.Content.{checksum_differs}
use django_fsspec.Commands.Fsck.{check_block_rows, check_blocks, is_ownerless, ownerless_findings}
use django_fsspec.Commands.Repair.{
  described, is_misdescribed, repair_block_metadata, repair_unreferenced_used_blocks,
}

-- The row passes the two tests of a check.
abbrev pub is_clean : Environment → StorageBlock → Bool
is_clean e b = not (checksum_differs e b.checksum b.content) && b.size == length b.content

-- Every used block passes.
abbrev pub HasCleanBlocks : Environment → Db → Type 0
HasCleanBlocks e db = all (λ b. b.is_free || is_clean e b) db.blocks ≡ true

-- Every used block has a mapping.
abbrev pub HasOwnedBlocks : Db → Type 0
HasOwnedBlocks db = filter (is_ownerless db) db.blocks ≡ []

check_block_rows-clean :
    (e : Environment) (blocks : List StorageBlock)
    → all (λ b. b.is_free || is_clean e b) blocks ≡ true
    → check_block_rows e (filter (λ b. not b.is_free) blocks) ≡ []
check_block_rows-clean e [] h = refl
check_block_rows-clean e (b ∷ blocks) h = ground (arith, check_block_rows-clean e blocks)

pub check_blocks-clean :
    (e : Environment) (db : Db) → HasCleanBlocks e db → check_blocks e none db ≡ []
unfolding check_blocks
check_blocks-clean e db h = check_block_rows-clean e db.blocks h

pub ownerless_findings-owned : (db : Db) → HasOwnedBlocks db → ownerless_findings none db ≡ []
ownerless_findings-owned db h = rw h

described-clean :
    (e : Environment) (blocks : List StorageBlock)
    → all
        (λ b. b.is_free || is_clean e b)
        (update_where (λ b. not b.is_free && is_misdescribed e b) (described e) blocks)
      ≡ true
described-clean e [] = refl
described-clean e (b ∷ blocks) = ground (
  arith,
  described-clean e blocks,
  text_eq_refl (e.sha256 b.content),
  text_eq_comm b.checksum (e.sha256 b.content),
)

pub repair_block_metadata-HasCleanBlocks :
    (e : Environment) (db : Db) → HasCleanBlocks e (repair_block_metadata e none false db)
unfolding repair_block_metadata
repair_block_metadata-HasCleanBlocks e db = described-clean e db.blocks

freed-clean :
    (e : Environment) (p : StorageBlock → Bool) (blocks : List StorageBlock)
    → all (λ b. b.is_free || is_clean e b) blocks ≡ true
    → all
        (λ b. b.is_free || is_clean e b)
        (update_where p (λ b. record b { is_free = true }) blocks)
      ≡ true
freed-clean e p [] h = refl
freed-clean e p (b ∷ blocks) h = ground (arith, freed-clean e p blocks)

pub repair_unreferenced_used_blocks-HasCleanBlocks :
    (e : Environment) (db : Db)
    → HasCleanBlocks e db
    → HasCleanBlocks e (repair_unreferenced_used_blocks false db)
unfolding repair_unreferenced_used_blocks
repair_unreferenced_used_blocks-HasCleanBlocks e db h = freed-clean e (is_ownerless db) db.blocks h

no_ownerless :
    (ms : List FileBlock) (blocks : List StorageBlock)
    → filter
        (λ (b : StorageBlock).
          not b.is_free && not (any (λ (m : FileBlock). m.block_id == b.pk) ms))
        (update_where
          (λ (b : StorageBlock).
            not b.is_free && not (any (λ (m : FileBlock). m.block_id == b.pk) ms))
          (λ b. record b { is_free = true })
          blocks)
      ≡ []
no_ownerless ms [] = refl
no_ownerless ms (b ∷ blocks) = ground (arith, no_ownerless ms blocks)

pub repair_unreferenced_used_blocks-HasOwnedBlocks :
    (db : Db) → HasOwnedBlocks (repair_unreferenced_used_blocks false db)
unfolding repair_unreferenced_used_blocks
repair_unreferenced_used_blocks-HasOwnedBlocks db = no_ownerless db.file_blocks db.blocks
