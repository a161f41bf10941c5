-- ===== src/Operations/Ranges/Agree.antt =====
-- The range readers of operations.py against one specification: a slice of the file's content.
use django_fsspec.Prelude.{
  ℕ, ◌-◌, ◌≤◌, ◌<◌, ◌≡◌, sym, false, Option, List, [], arith, slice, flatten, Bool-cases, inl, inr,
}
use django_fsspec.Prelude.Int.{pos, leb_ℤ, ltb_ℤ}
use django_fsspec.Errors.{ok}
use django_fsspec.Environment.{Bytes, Environment, Integrity}
use django_fsspec.Text.{Text}
use django_fsspec.Models.{FileNode, Db}
use django_fsspec.Operations.Content.{get_read_integrity, ordered_file_blocks, is_off}
use django_fsspec.Operations.Content.Intact.{IsIntact, content_of}
use django_fsspec.Operations.Ranges.{
  contents, open_for_range, read_range_unchecked, read_file_range_with_integrity, read_file_range,
  read_file_streaming_range, stream_blocks,
}
use django_fsspec.Operations.Ranges.Streaming.{flatten-stream_blocks}
use django_fsspec.Operations.Ranges.Indexed.{cut_blocks-scan_blocks, length-flatten}
use django_fsspec.Operations.Ranges.Checked.{collect_blocks_intact}

-- the loop of the streaming reader, also where the range is empty
streamed :
    (a b : ℕ)
    → a < b
    → (blocks : List Bytes)
    → flatten (stream_blocks (pos a) (pos b) (pos 0) 0 blocks) ≡ slice a b (flatten blocks)
streamed a b h blocks =
    let f : a - 0 ≡ a = omega arith in
    let g : b - 0 ≡ b = omega arith in
    let z : 0 - a ≡ 0 = omega arith in
    rw (f, g, z) at (flatten-stream_blocks a b h blocks 0 (omega arith))

not_negative : (a : ℕ) → ltb_ℤ (pos a) (pos 0) ≡ false
not_negative a = ground arith

empty-slice : (a b : ℕ) (xs : Bytes) → b ≤ a → slice a b xs ≡ []
empty-slice a b xs h = let z : b - a ≡ 0 = omega arith in rw z

module _ (e : Environment) (namespace : ℕ) (path : Text) (file_id version : Option ℕ) (db : Db)
    {n : FileNode} (opened : open_for_range e namespace path file_id version db ≡ ok n) where
  -- For a file that opens and bounds that are not negative, the streaming reader yields chunks that
  -- join to the slice of the file's content between the bounds.
  pub read_file_streaming_range-eq-slice :
      (a b : ℕ)
      → (chunks : List Bytes) × (read_file_streaming_range e namespace path
            (pos a)
            (pos b)
            file_id
            version
            db
          ≡ ok chunks)
        × (flatten chunks ≡ slice a b (content_of n db))
  unfolding read_file_streaming_range
  read_file_streaming_range-eq-slice a b = elim (Bool-cases (leb_ℤ (pos b) (pos a))) [
    | inl nothing ↦ (
      [],
      rw (opened, not_negative a, nothing),
      sym (empty-slice a b (content_of n db) (ground arith)),
    )
    | inr some_bytes ↦
        let blocks = contents (ordered_file_blocks n db) in
        (
          stream_blocks (pos a) (pos b) (pos 0) 0 blocks,
          rw (opened, not_negative a, some_bytes),
          streamed a b (ground arith) blocks,
        )
  ]

  -- Under the policy "off", for a file that opens and has a positive block size, and bounds in
  -- order, `read_file_range` returns the slice of the file's content between the bounds.
  pub read_file_range-eq-slice :
      (integrity : Option Integrity) (a b : ℕ)
      → get_read_integrity e integrity false ≡ ok Integrity.off
      → 0 < n.block_size
      → a ≤ b
      → read_file_range e namespace path (pos a) (pos b) integrity file_id version db
        ≡ ok (slice a b (content_of n db))
  unfolding read_file_range read_range_unchecked
  read_file_range-eq-slice integrity a b policy positive ord =
      rw (opened, policy)
        (ground (arith, cut_blocks-scan_blocks a b ord (contents (ordered_file_blocks n db))))

  -- Under a policy that checks, for an intact file that opens, `read_file_range` returns the slice
  -- of the file's content between any bounds that are not negative.
  pub read_file_range-eq-slice_intact :
      (integrity : Option Integrity) (policy : Integrity) (a b : ℕ)
      → get_read_integrity e integrity false ≡ ok policy
      → is_off policy ≡ false
      → IsIntact e n db
      → read_file_range e namespace path (pos a) (pos b) integrity file_id version db
        ≡ ok (slice a b (content_of n db))
  unfolding read_file_range read_file_range_with_integrity
  read_file_range-eq-slice_intact integrity policy a b chosen checked h =
      rw (opened, chosen, checked, not_negative a)
        (elim (Bool-cases (leb_ℤ (pos b) (pos a))) [
          | inl nothing ↦ rw nothing (ground (arith, empty-slice a b (content_of n db)))
          | inr some_bytes ↦
              let rows = ordered_file_blocks n db in
              rw
                (some_bytes, collect_blocks_intact e policy (pos a) (pos b) (pos 0) 0 rows h.blocks)
                (ground (
                  arith,
                  h.sized,
                  length-flatten (contents rows),
                  streamed a b (ground arith) (contents rows),
                ))
        ])
