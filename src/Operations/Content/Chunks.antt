-- ===== src/Operations/Content/Chunks.antt =====
-- `_chunk_data` cuts without loss, into blocks of the size asked for.
use django_fsspec.Prelude.{
  ℕ, zero, suc, ◌+◌, ◌-◌, ◌≤◌, ◌<◌, ◌≡◌, refl, true, false, List, [], ◌∷◌, ◌++◌, map, arith, length,
  drop, slice, flatten, take-append-drop, drop-drop, drop_of_length-le, length-drop, length-take,
  ltb, Bool-cases, inl, inr,
}
use django_fsspec.Errors.{ok}
use django_fsspec.Environment.{Bytes}
use django_fsspec.Operations.Content.{range_step, chunks_of, chunk_data}

module _ (content : Bytes) (n : ℕ) (positive : 0 < n) where
  abbrev cut : ℕ → ℕ → List Bytes
  cut fuel i = map (λ j. slice j (j + n) content) (range_step fuel i (length content) n)

  slice-drop : (i : ℕ) → slice i (i + n) content ++ drop (i + n) content ≡ drop i content
  slice-drop i =
      let e : i + n - i ≡ n = omega arith in
      rw (e, ← drop-drop n i (i + n) content (omega arith)) (take-append-drop n (drop i content))

  flatten-cut : (fuel i : ℕ) → length content ≤ i + fuel → flatten (cut fuel i) ≡ drop i content
  flatten-cut zero i h = rw (drop_of_length-le i content (omega arith))
  flatten-cut (suc fuel) i h = elim (Bool-cases (ltb i (length content))) [
    | inl inside ↦ rw (inside, flatten-cut fuel (i + n) (omega arith)) (slice-drop i)
    | inr past ↦ rw (past, drop_of_length-le i content (ground arith))
  ]

  pub flatten-chunks_of : flatten (chunks_of content n) ≡ content
  flatten-chunks_of = flatten-cut (length content) 0 (omega arith)

-- Every chunk but the last has the full size, and the last is not empty.
abbrev pub AreFull : ℕ → List Bytes → Type 0
AreFull n [] = Unit
AreFull n (c ∷ []) = (0 < length c) × (length c ≤ n)
AreFull n (c ∷ d ∷ chunks) = (length c ≡ n) × AreFull n (d ∷ chunks)

range_step_past : (fuel i stop step : ℕ) → ltb i stop ≡ false → range_step fuel i stop step ≡ []
range_step_past zero i stop step h = refl
range_step_past (suc fuel) i stop step h = rw h

module _ (content : Bytes) (n : ℕ) (positive : 0 < n) where
  length-slice_full : (i : ℕ) → i + n ≤ length content → length (slice i (i + n) content) ≡ n
  length-slice_full i h =
      omega (arith, length-take (i + n - i) (drop i content), length-drop i content)

  length-slice_last :
      (i : ℕ)
      → i < length content
      → (0 < length (slice i (i + n) content)) × (length (slice i (i + n) content) ≤ n)
  length-slice_last i h =
      omega (arith, length-take (i + n - i) (drop i content), length-drop i content)

  -- Two rounds of the loop, so that a chunk is seen beside the next one.
  cut-AreFull : (fuel i : ℕ) → length content ≤ i + fuel → AreFull n (cut content n positive fuel i)
  cut-AreFull zero i h = tt
  cut-AreFull (suc fuel) i h = elim (Bool-cases (ltb i (length content))) [
    | inr past ↦ rw past tt
    | inl inside ↦ rw inside (elim (Bool-cases (ltb (i + n) (length content))) [
      | inr last ↦
          rw (range_step_past fuel (i + n) (length content) n last)
            (length-slice_last i (ground arith))
      | inl more ↦
          next fuel (omega arith) (ground arith) more (cut-AreFull fuel (i + n) (omega arith))
    ])
  ]
    where
      next :
          (k : ℕ)
          → length content ≤ i + suc k
          → i + n < length content
          → ltb (i + n) (length content) ≡ true
          → AreFull n (cut content n positive k (i + n))
          → AreFull n (slice i (i + n) content ∷ cut content n positive k (i + n))
      next zero hk lt more ih = absurd (omega arith)
      next (suc k) hk lt more ih = rw more (length-slice_full i (omega arith), rw more at ih)

  pub chunks_of-AreFull : AreFull n (chunks_of content n)
  chunks_of-AreFull = cut-AreFull (length content) 0 (omega arith)

-- With a positive block size `_chunk_data` returns chunks that join to the data: the last one is
-- not empty and not longer than the block size, and all before it have exactly that size.
pub chunk_data_lossless :
    (content : Bytes) (n : ℕ)
    → 0 < n
    → (chunks : List Bytes) × (chunk_data content n ≡ ok chunks)
      × (flatten chunks ≡ content)
      × AreFull n chunks
unfolding chunk_data
chunk_data_lossless content n h = (
  chunks_of content n,
  ground arith,
  flatten-chunks_of content n h,
  chunks_of-AreFull content n h,
)
