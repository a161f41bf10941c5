-- ===== src/Operations/Ranges/Indexed.antt =====
-- `read_file_range` finds the blocks of the range by their indices and cuts their join to the range.
use django_fsspec.Prelude.{
  ℕ, suc, ◌+◌, ◌-◌, ◌≤◌, ◌≡◌, refl, ap, sym, ◌∙◌, true, false, Option, none, some, List, [], ◌∷◌,
  ◌++◌, arith, length, length-append, take-append_left, take-append_right, take, drop, slice,
  flatten, slice-append_right, slice-nil, slice_of_take, slice-min, Bool-cases, inl, inr,
}
use django_fsspec.Prelude.Int.{pos, ◌+ℤ◌, ◌-ℤ◌, leb_ℤ, ltb_ℤ}
use django_fsspec.Environment.{Bytes}
use django_fsspec.Operations.Ranges.{found_start, scan_blocks, total_length, cut_blocks, trimmed}

pub length-flatten : (blocks : List Bytes) → length (flatten blocks) ≡ total_length blocks
length-flatten [] = refl
length-flatten (x ∷ blocks) = omega (arith, length-append x (flatten blocks), length-flatten blocks)

-- one past the last selected block, where the scan began at index `i`
abbrev end_index : ℕ → List Bytes → Option ℕ → ℕ
end_index i blocks none = i + length blocks
end_index i blocks (some j) = j

end_index-cons :
    (i : ℕ) (x : Bytes) (blocks : List Bytes) (e : Option ℕ)
    → end_index i (x ∷ blocks) e ≡ end_index (i + 1) blocks e
end_index-cons i x blocks none = omega arith
end_index-cons i x blocks (some j) = refl

module _ (a b : ℕ) (s : Option ℕ) (x : Bytes) (blocks : List Bytes) (o i : ℕ) where
  scan-reached :
      leb_ℤ (pos b) (pos (o + length x)) ≡ true
      → scan_blocks (pos a) (pos b) s o i (x ∷ blocks)
        ≡ (found_start (pos a) (o + length x) i s, some (i + 1))
  unfolding scan_blocks
  scan-reached h = rw h

  scan-short :
      leb_ℤ (pos b) (pos (o + length x)) ≡ false
      → scan_blocks (pos a) (pos b) s o i (x ∷ blocks)
        ≡ scan_blocks
            (pos a)
            (pos b)
            (found_start (pos a) (o + length x) i s)
            (o + length x)
            (i + 1)
            blocks
  unfolding scan_blocks
  scan-short h = rw h

module _ (a b : ℕ) where
  abbrev scan : Option ℕ → ℕ → ℕ → List Bytes → Option ℕ × Option ℕ
  scan = scan_blocks (pos a) (pos b)

  -- Once the start is known, the blocks up to the end index hold the range's bytes.
  scan-end :
      (k : ℕ) (blocks : List Bytes) (o i : ℕ)
      → (m : ℕ) × ((scan (some k) o i blocks).0 ≡ some k)
        × (end_index i blocks (scan (some k) o i blocks).1 ≡ i + m)
        × (take (b - o) (flatten (take m blocks)) ≡ take (b - o) (flatten blocks))
  unfolding scan_blocks
  scan-end k [] o i = (0, refl, refl, refl)
  scan-end k (x ∷ blocks) o i = elim (Bool-cases (leb_ℤ (pos b) (pos (o + length x)))) [
    | inl reached ↦
        let le : b - o ≤ length x = ground arith in
        let step = scan-reached a b (some k) x blocks o i reached in
        (
          1,
          rw step,
          rw step,
          take-append_left (b - o) x [] le ∙ sym (take-append_left (b - o) x (flatten blocks) le),
        )
    | inr short ↦
        let (m, start, index, same) = scan-end k blocks (o + length x) (i + 1) in
        let e : b - o ≡ length x + (b - (o + length x)) = ground arith in
        let step = scan-short a b (some k) x blocks o i short in
        (
          suc m,
          rw step start,
          rw step (
              end_index-cons i x blocks (scan (some k) (o + length x) (i + 1) blocks).1
              ∙ index
              ∙ omega arith),
          take-append_right (b - o) (b - (o + length x)) x (flatten (take m blocks)) e
              ∙ ap (◌++◌ x) same
              ∙ sym (take-append_right (b - o) (b - (o + length x)) x (flatten blocks) e),
        )
  ]

  -- What the two indices mean for the blocks from offset `o` on.
  data Scanned (blocks : List Bytes) (o i : ℕ) : Option ℕ × Option ℕ → Type 0 where
    nothing :
        (e : Option ℕ) → slice (a - o) (b - o) (flatten blocks) ≡ [] → Scanned blocks o i (none, e)
    range :
        (p m t j : ℕ) (e : Option ℕ)
        → j ≡ i + p
        → end_index i blocks e ≡ j + m
        → t ≡ total_length (take p blocks)
        → o + t ≤ a
        → slice (a - (o + t)) (b - (o + t)) (flatten (take m (drop p blocks)))
          ≡ slice (a - o) (b - o) (flatten blocks)
        → Scanned blocks o i (some j, e)

  from_first :
      (m : ℕ) (blocks : List Bytes) (o i : ℕ) (s e : Option ℕ)
      → o ≤ a
      → s ≡ some i
      → end_index i blocks e ≡ i + m
      → take (b - o) (flatten (take m blocks)) ≡ take (b - o) (flatten blocks)
      → Scanned blocks o i (s, e)
  from_first m blocks o i none e h start index same = cc
  from_first m blocks o i (some j) e h start index same =
      let ji : j ≡ i = ground arith in
      let oo : o + 0 ≡ o = omega arith in
      range 0 m 0 j e (omega (arith, ji)) (omega (arith, index, ji)) refl (omega arith)
        (rw oo (slice_of_take (a - o) (b - o) (flatten (take m blocks)) (flatten blocks) same))

  from_later :
      (x : Bytes) (blocks : List Bytes) (o i : ℕ) {r : Option ℕ × Option ℕ}
      → o + length x ≤ a
      → Scanned blocks (o + length x) (i + 1) r
      → Scanned (x ∷ blocks) o i r
  from_later x blocks o i h (nothing e empty) =
      nothing e (slice-append_right (a - o) (b - o) x (flatten blocks) (omega arith) ∙ shifted)
    where
      shifted : slice (a - o - length x) (b - o - length x) (flatten blocks) ≡ []
      shifted =
          let f : a - o - length x ≡ a - (o + length x) = omega arith in
          let g : b - o - length x ≡ b - (o + length x) = omega arith in rw (f, g) empty
  from_later x blocks o i h (range p m t j e first index total le same) =
      range (suc p) m (length x + t) j e (omega (arith, first))
        (end_index-cons i x blocks e ∙ index) (ap (λ n. length x + n) total) (omega arith) shifted
    where
      shifted :
          slice
            (a - (o + (length x + t)))
            (b - (o + (length x + t)))
            (flatten (take m (drop p blocks)))
          ≡ slice (a - o) (b - o) (x ++ flatten blocks)
      shifted =
          let f : a - o - length x ≡ a - (o + length x) = omega arith in
          let g : b - o - length x ≡ b - (o + length x) = omega arith in
          let k : o + (length x + t) ≡ o + length x + t = omega arith in
          rw (k, slice-append_right (a - o) (b - o) x (flatten blocks) (omega arith), f, g) same

  scan-start : (blocks : List Bytes) (o i : ℕ) → o ≤ a → Scanned blocks o i (scan none o i blocks)
  unfolding scan_blocks
  scan-start [] o i h = nothing none (slice-nil (a - o) (b - o))
  scan-start (x ∷ blocks) o i h = elim (Bool-cases (ltb_ℤ (pos a) (pos (o + length x)))) [
    | inl starts ↦
        let same : scan none o i (x ∷ blocks) ≡ scan (some i) o i (x ∷ blocks) = rw starts in
        let (m, start, index, kept) = scan-end i (x ∷ blocks) o i in
        rw same (from_first m (x ∷ blocks) o i _ _ h start index kept)
    | inr later ↦ elim (Bool-cases (leb_ℤ (pos b) (pos (o + length x)))) [
      | inl reached ↦
          rw (scan-reached a b none x blocks o i reached, later)
            (nothing (some (i + 1)) (let z : b - o - (a - o) ≡ 0 = ground arith in rw z))
      | inr short ↦
          rw (scan-short a b none x blocks o i short, later)
            (from_later x blocks o i (ground arith)
              (scan-start blocks (o + length x) (i + 1) (ground arith)))
    ]
  ]

pub start_offset : (a t : ℕ) → t ≤ a → pos a -ℤ pos t ≡ pos (a - t)
unfolding ◌-ℤ◌
start_offset a t h = ground arith

pub end_offset : (a b t : ℕ) → t ≤ a → a ≤ b → pos (a - t) +ℤ (pos b -ℤ pos a) ≡ pos (b - t)
unfolding ◌+ℤ◌ ◌-ℤ◌
end_offset a b t h k = ground arith

trimmed_lem :
    (a b p j t : ℕ) (blocks : List Bytes)
    → t ≡ total_length (take p blocks)
    → t ≤ a
    → a ≤ b
    → trimmed (pos a) (pos b) blocks p j ≡ slice (a - t) (b - t) (flatten (slice p j blocks))
trimmed_lem a b p j t blocks total le ord =
    rw (← total, start_offset a t le, end_offset a b t le ord)
      (slice-min (a - t) (b - t) (flatten (slice p j blocks)))

module _ (a b : ℕ) (ord : a ≤ b) (blocks : List Bytes) where
  trimmed-range :
      (p m t j k : ℕ)
      → j ≡ 0 + p
      → k ≡ j + m
      → t ≡ total_length (take p blocks)
      → 0 + t ≤ a
      → slice (a - (0 + t)) (b - (0 + t)) (flatten (take m (drop p blocks)))
        ≡ slice (a - 0) (b - 0) (flatten blocks)
      → trimmed (pos a) (pos b) blocks j k ≡ slice a b (flatten blocks)
  trimmed-range p m t j k first index total le same =
      let f : 0 + t ≡ t = omega arith in
      let g : a - 0 ≡ a = omega arith in
      let h : b - 0 ≡ b = omega arith in
      let jp : j ≡ p = omega (arith, first) in
      let km : k - p ≡ m = omega (arith, first, index) in
      rw (jp, trimmed_lem a b p k t blocks total (omega arith) ord, km) (rw (f, g, h) at same)

  cut-Scanned :
      {r : Option ℕ × Option ℕ}
      → Scanned a b blocks 0 0 r
      → cut_blocks (pos a) (pos b) blocks r ≡ slice a b (flatten blocks)
  cut-Scanned (nothing e empty) =
      let f : a - 0 ≡ a = omega arith in let g : b - 0 ≡ b = omega arith in sym (rw (f, g) at empty)
  cut-Scanned (range p m t j none first index total le same) =
      trimmed-range p m t j (length blocks) first (omega (arith, index)) total le same
  cut-Scanned (range p m t j (some k) first index total le same) =
      trimmed-range p m t j k first index total le same

  -- The bytes of the selected blocks, trimmed, are the range of the whole content.
  pub cut_blocks-scan_blocks :
      cut_blocks (pos a) (pos b) blocks (scan_blocks (pos a) (pos b) none 0 0 blocks)
      ≡ slice a b (flatten blocks)
  cut_blocks-scan_blocks = cut-Scanned (scan-start a b blocks 0 0 (omega arith))
