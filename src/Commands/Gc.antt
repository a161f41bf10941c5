-- ===== src/Commands/Gc.antt =====
-- management/commands/fsspec_gc.py
use django_fsspec.Prelude.{
  ℕ, zero, suc, ◌≡◌, refl, ap, ◌∙◌, ◌⊎◌, any, Bool, true, false, not, List, [], ◌∷◌, map, filter,
  find?, all, contains, sort, take, length, leb, ◌==◌, all-sort, all-filter, arith, if◌then◌else◌,
  inl, inr, Bool-cases,
}
use django_fsspec.Prelude.Int.{ℤ, pos, pos_part, leb_ℤ, ◌-ℤ◌}
use django_fsspec.Errors.{Error, ok, err}
use django_fsspec.Action.{Action}
use django_fsspec.Models.{FileNode, StorageBlock, FileBlock, Db}
use django_fsspec.Models.Query.{mappings_of, before_mapping}
use django_fsspec.Models.Consistent.{AreDistinct}
use django_fsspec.Operations.Content.{load_blocks, ordered_file_blocks}
use django_fsspec.Operations.Blocks.InUse.{HasUsedBlocks, is_used, in_use}

abbrev pub block_keys : List StorageBlock → List ℕ
block_keys = map (λ (b : StorageBlock). b.pk)

-- `StorageBlock.objects.filter(is_free=True).order_by("id")`
unfoldable pub free_blocks : Db → List StorageBlock
free_blocks db = sort (λ a b. leb a.pk b.pk) (filter (λ (b : StorageBlock). b.is_free) db.blocks)

-- The keys of the blocks to delete, the oldest free blocks; `keep` may be negative.
abbrev pub keys_to_delete : ℤ → Db → List ℕ
keys_to_delete keep db =
    let total_free = length (free_blocks db) in
    block_keys (take (pos_part (pos total_free -ℤ keep)) (free_blocks db))

-- A block that is to go and that a mapping refers to, which `on_delete=PROTECT` refuses.
abbrev any_protected : List ℕ → List FileBlock → Bool
any_protected ids ms = any (λ (m : FileBlock). contains m.block_id ids) ms

abbrev delete_blocks : List ℕ → Db → Db
delete_blocks ids db = record db {
  blocks = filter (λ (b : StorageBlock). not (contains b.pk ids)) db.blocks;
}

-- `handle`
unfoldable pub collect_garbage : ℤ → Bool → Action (Unit {0})
collect_garbage keep dry_run db =
    if leb_ℤ (pos (length (free_blocks db))) keep
    then (ok tt, db)
    else if dry_run
    then (ok tt, db)
    else if any_protected (keys_to_delete keep db) db.file_blocks
    then (err Error.protected, db)
    else (ok tt, delete_blocks (keys_to_delete keep db) db)

-- Another key than `k`.
abbrev other : ℕ → StorageBlock → Bool
other k b = not (k == b.pk)

other_of_not_contains :
    (k : ℕ) (blocks : List StorageBlock)
    → contains k (block_keys blocks) ≡ false
    → all (other k) (filter (λ b. b.is_free) blocks) ≡ true
other_of_not_contains k [] h = refl
other_of_not_contains k (b ∷ blocks) h = ground (arith, other_of_not_contains k blocks)

-- No free block has the key of a block in use.
other_of_in_use :
    (k : ℕ) (blocks : List StorageBlock)
    → AreDistinct (block_keys blocks)
    → in_use (find? (λ b. b.pk == k) blocks) ≡ true
    → all (other k) (filter (λ b. b.is_free) blocks) ≡ true
other_of_in_use k [] d h = refl
other_of_in_use k (b ∷ blocks) d h =
    ground (arith, other_of_in_use k blocks d.1, other_of_not_contains k blocks)

all-take :
    (p : StorageBlock → Bool) (n : ℕ) (blocks : List StorageBlock)
    → all p blocks ≡ true
    → all p (take n blocks) ≡ true
all-take p zero blocks h = refl
all-take p (suc n) [] h = refl
all-take p (suc n) (b ∷ blocks) h = ground (arith, all-take p n blocks)

not_contains_of_other :
    (k : ℕ) (blocks : List StorageBlock)
    → all (other k) blocks ≡ true
    → contains k (block_keys blocks) ≡ false
not_contains_of_other k [] h = refl
not_contains_of_other k (b ∷ blocks) h = ground (arith, not_contains_of_other k blocks)

find?-filter :
    (k : ℕ) (ids : List ℕ) (blocks : List StorageBlock)
    → contains k ids ≡ false
    → find? (λ (b : StorageBlock). b.pk == k) (filter (λ b. not (contains b.pk ids)) blocks)
      ≡ find? (λ b. b.pk == k) blocks
find?-filter k ids [] h = refl
find?-filter k ids (b ∷ blocks) h = ground (arith, find?-filter k ids blocks)

module _ (keep : ℤ) (dry_run : Bool) (db : Db) (distinct : AreDistinct (block_keys db.blocks)) where
  abbrev after : Db
  after = (collect_garbage keep dry_run db).1

  kept_key :
      (m : FileBlock)
      → is_used db.blocks m ≡ true
      → contains m.block_id (keys_to_delete keep db) ≡ false
  unfolding free_blocks
  kept_key m used =
      let free = filter (λ (b : StorageBlock). b.is_free) db.blocks in
      let sorted = sort (λ a b. leb a.pk b.pk) free in
      let n = pos_part (pos (length sorted) -ℤ keep) in
      not_contains_of_other m.block_id (take n sorted) (
        all-take (other m.block_id) n sorted (
          all-sort (λ a b. leb a.pk b.pk) (other m.block_id) free
            (other_of_in_use m.block_id db.blocks distinct used)))

  none_protected :
      (ms : List FileBlock)
      → all (is_used db.blocks) ms ≡ true
      → any_protected (keys_to_delete keep db) ms ≡ false
  none_protected [] h = refl
  none_protected (m ∷ ms) h = ground (arith, none_protected ms, kept_key m)

  -- No mapping leads to a free block.
  module _ (used : HasUsedBlocks db) where
    -- The two ways in which a collection ends.
    collected :
        (collect_garbage keep dry_run db ≡ (ok tt, db))
        ⊎ (collect_garbage keep dry_run db ≡ (ok tt, delete_blocks (keys_to_delete keep db) db))
    unfolding collect_garbage
    collected =
        let unprotected = none_protected db.file_blocks used in
        elim (Bool-cases (leb_ℤ (pos (length (free_blocks db))) keep)) [
          | inl few ↦ inl (rw few refl)
          | inr many ↦ elim (Bool-cases dry_run) [
            | inl dry ↦ inl (rw (many, dry) refl)
            | inr wet ↦ inr (rw (many, wet, unprotected) refl)
          ]
        ]

    load_blocks-kept :
        (ms : List FileBlock)
        → all (is_used db.blocks) ms ≡ true
        → load_blocks (delete_blocks (keys_to_delete keep db) db) ms ≡ load_blocks db ms
    load_blocks-kept [] h = refl
    load_blocks-kept (m ∷ ms) h = ground (
      arith,
      load_blocks-kept ms,
      find?-filter m.block_id (keys_to_delete keep db) db.blocks,
      kept_key m,
    )

    ordered_file_blocks-deleted :
        (n : FileNode)
        → ordered_file_blocks n (delete_blocks (keys_to_delete keep db) db)
          ≡ ordered_file_blocks n db
    unfolding ordered_file_blocks mappings_of
    ordered_file_blocks-deleted n =
        let of_file : FileBlock → Bool = λ m. m.file_id == n.pk in
        load_blocks-kept (mappings_of n.pk db) (
          all-sort before_mapping (is_used db.blocks) (filter of_file db.file_blocks)
            (all-filter of_file (is_used db.blocks) db.file_blocks used))

    -- Where no mapping leads to a free block and block keys are distinct, a collection raises
    -- nothing, whatever number of blocks it keeps, and leaves every file the blocks that it had, in
    -- their order.
    pub ordered_file_blocks-collect_garbage :
        ((collect_garbage keep dry_run db).0 ≡ ok tt)
        × ((n : FileNode) → ordered_file_blocks n after ≡ ordered_file_blocks n db)
    ordered_file_blocks-collect_garbage = elim collected [
      | inl same ↦ (ap (λ p. p.0) same, λ n. ap (λ p. ordered_file_blocks n p.1) same)
      | inr deleted ↦ (
        ap (λ p. p.0) deleted,
        λ n. ap (λ p. ordered_file_blocks n p.1) deleted ∙ ordered_file_blocks-deleted n,
      )
    ]
