-- ===== src/Operations/Ranges/Streaming.antt =====
-- The loop of `read_file_streaming_range` yields the bytes of the range, and no others.
use django_fsspec.Prelude.{
  ℕ, ◌+◌, ◌-◌, ◌≤◌, ◌<◌, min, ◌≡◌, sym, true, false, List, [], ◌∷◌, arith, length, slice, flatten,
  if◌then◌else◌, slice-append_right, slice-append, slice-nil, leb, Bool-cases, inl, inr,
}
use django_fsspec.Prelude.Int.{ℤ, pos, ◌+ℤ◌, ◌-ℤ◌, leb_ℤ}
use django_fsspec.Environment.{Bytes}
use django_fsspec.Operations.Ranges.{clip_start, clip_end, slice_ℤ, stream_blocks}

pub clip_start-pos : (a o : ℕ) → clip_start (pos a) o ≡ pos (a - o)
unfolding ◌-ℤ◌
clip_start-pos a o = ground arith

pub clip_end-pos : (b len o : ℕ) → o ≤ b → clip_end (pos b) len o ≡ pos (min len (b - o))
unfolding ◌-ℤ◌
clip_end-pos b len o h = ground arith

-- The bytes emitted so far, while the block at `o` is cut.
pub emitted-pos :
    (a b o len : ℕ)
    → a < o + len
    → o < b
    → a < b
    → pos (o - a) +ℤ (pos (min len (b - o)) -ℤ pos (a - o)) ≡ pos (min (o + len) b - a)
unfolding ◌+ℤ◌ ◌-ℤ◌
emitted-pos a b o len h k l = ground arith

pub length_left-pos : (a b : ℕ) → a < b → pos b -ℤ pos a ≡ pos (b - a)
unfolding ◌-ℤ◌
length_left-pos a b h = ground arith

pub slice_ℤ-pos :
    (s t : ℕ) (xs : Bytes)
    → s ≤ length xs
    → t ≤ length xs
    → slice_ℤ (pos s) (pos t) xs ≡ slice s t xs
slice_ℤ-pos s t xs hs ht =
    let e : min s (length xs) ≡ s = omega arith in
    let f : min t (length xs) ≡ t = omega arith in rw (e, f)

module _ (a b : ℕ) (nonempty : a < b) where
  stream-skip :
      (x : Bytes) (blocks : List Bytes) (o : ℕ) (emitted : ℤ)
      → o + length x ≤ a
      → stream_blocks (pos a) (pos b) emitted o (x ∷ blocks)
        ≡ stream_blocks (pos a) (pos b) emitted (o + length x) blocks
  unfolding stream_blocks
  stream-skip x blocks o emitted h =
      let e : leb_ℤ (pos (o + length x)) (pos a) ≡ true = ground arith in rw e

  stream-take :
      (x : Bytes) (blocks : List Bytes) (o : ℕ)
      → a < o + length x
      → o < b
      → stream_blocks (pos a) (pos b) (pos (o - a)) o (x ∷ blocks)
        ≡ slice (a - o) (min (length x) (b - o)) x
          ∷ (if leb b (o + length x)
              then []
              else stream_blocks (pos a) (pos b) (pos (o + length x - a)) (o + length x) blocks)
  unfolding stream_blocks
  stream-take x blocks o h k =
      let past : leb_ℤ (pos (o + length x)) (pos a) ≡ false = ground arith in
      let inside : leb_ℤ (pos b) (pos o) ≡ false = ground arith in
      rw
        (
          past,
          inside,
          clip_start-pos a o,
          clip_end-pos b (length x) o (omega arith),
          emitted-pos a b o (length x) h k nonempty,
          length_left-pos a b nonempty,
          slice_ℤ-pos (a - o) (min (length x) (b - o)) x (omega arith) (omega arith),
        )
        (elim (Bool-cases (leb b (o + length x))) [
          | inl reached ↦
              let done : leb (b - a + 0) (min (o + length x) b - a + 0) ≡ true = ground arith in
              rw (reached, done)
          | inr short ↦
              let more : leb (b - a + 0) (min (o + length x) b - a + 0) ≡ false = ground arith in
              let e : min (o + length x) b ≡ o + length x = ground arith in rw (short, more, e)
        ])

  -- From a block that starts before the end of the range, the rest of the range is yielded.
  pub flatten-stream_blocks :
      (blocks : List Bytes) (o : ℕ)
      → o < b
      → flatten (stream_blocks (pos a) (pos b) (pos (o - a)) o blocks)
        ≡ slice (a - o) (b - o) (flatten blocks)
  unfolding stream_blocks
  flatten-stream_blocks [] o h = sym (slice-nil (a - o) (b - o))
  flatten-stream_blocks (x ∷ blocks) o h = elim (Bool-cases (leb (o + length x) a)) [
    | inl before ↦
        let le : o + length x ≤ a = ground arith in
        let e : o - a ≡ o + length x - a = omega arith in
        let f : a - o - length x ≡ a - (o + length x) = omega arith in
        let g : b - o - length x ≡ b - (o + length x) = omega arith in
        rw (
          stream-skip x blocks o (pos (o - a)) le,
          e,
          flatten-stream_blocks blocks (o + length x) (omega arith),
          slice-append_right (a - o) (b - o) x (flatten blocks) (omega arith),
          f,
          g,
        )
    | inr overlaps ↦
        rw
          (
            stream-take x blocks o (ground arith) h,
            slice-append (a - o) (b - o) x (flatten blocks) (ground arith) (omega arith),
          )
          (elim (Bool-cases (leb b (o + length x))) [
            | inl reached ↦ let e : b - o - length x ≡ 0 = ground arith in rw (reached, e)
            | inr short ↦
                let lt : o + length x < b = ground arith in
                let e : a - (o + length x) ≡ 0 = ground arith in
                let f : b - (o + length x) ≡ b - o - length x = omega arith in
                rw (short, flatten-stream_blocks blocks (o + length x) lt, e, f)
                  (let g : b - o - length x - 0 ≡ b - o - length x = omega arith in rw g)
          ])
  ]
