-- ===== src/Operations/Ranges/Checked.antt =====
-- The loop of `_read_file_range_with_integrity` takes the bytes that the streaming loop yields, where
-- the blocks pass its checks.
use django_fsspec.Prelude.{
  ℕ, ◌+◌, ◌≡◌, refl, Bool, true, false, List, [], ◌∷◌, arith, length, all, if◌then◌else◌,
}
use django_fsspec.Prelude.Int.{ℤ, ◌+ℤ◌, ◌-ℤ◌}
use django_fsspec.Errors.{ok, ◌>>=◌}
use django_fsspec.Environment.{Bytes, Environment, Integrity}
use django_fsspec.Models.Query.{LoadedBlock}
use django_fsspec.Operations.Content.Intact.{is_intact}
use django_fsspec.Operations.Ranges.{
  clip_start, clip_end, check_block, collect_blocks, stream_blocks, contents,
}

pub check_block_intact :
    (e : Environment) (policy : Integrity) (r : LoadedBlock)
    → is_intact e r ≡ true
    → check_block e policy r ≡ ok tt
check_block_intact e policy r h = ground arith

-- The branches of one round, with each part already a result.
join_branches :
    (skips stops last : Bool) (chunk : Bytes) (rest more : List Bytes)
    → (if skips
        then ok rest
        else if stops
        then ok []
        else (do parts ← if last then ok [] else ok more; ok (chunk ∷ parts)))
      ≡ ok (if skips then rest else if stops then [] else chunk ∷ (if last then [] else more))
join_branches true stops last chunk rest more = refl
join_branches false true last chunk rest more = refl
join_branches false false true chunk rest more = refl
join_branches false false false chunk rest more = refl

pub collect_blocks_intact :
    (e : Environment) (policy : Integrity) (start stop emitted : ℤ) (offset : ℕ)
    (rows : List LoadedBlock)
    → all (is_intact e) rows ≡ true
    → collect_blocks e policy start stop emitted offset rows
      ≡ ok (stream_blocks start stop emitted offset (contents rows))
unfolding collect_blocks stream_blocks
collect_blocks_intact e policy start stop emitted offset [] h = refl
collect_blocks_intact e policy start stop emitted offset (r ∷ rows) h =
    let chunk_end = clip_end stop (length r.block.content) offset in
    let emitted' = emitted +ℤ (chunk_end -ℤ clip_start start offset) in
    let next = offset + length r.block.content in
    let intact : all (is_intact e) rows ≡ true = ground arith in
    rw
      (
        check_block_intact e policy r (ground arith),
        collect_blocks_intact e policy start stop emitted next rows intact,
        collect_blocks_intact e policy start stop emitted' next rows intact,
      )
      (join_branches _ _ _ _ _ _)
