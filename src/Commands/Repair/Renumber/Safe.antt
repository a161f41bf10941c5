-- ===== src/Commands/Repair/Renumber/Safe.antt =====
-- management/commands/fsspec_repair.py: when `_renumber_file_blocks` meets no unique constraint.
use django_fsspec.Prelude.{
  ℕ, ◌+◌, ◌≡◌, refl, ◌∙◌, Bool, true, false, ◌||◌, not, List, [], ◌∷◌, any, all, all_imply,
  contains, ltb, ◌==◌, arith,
}
use django_fsspec.Prelude.Int.{ℤ, pos, negsuc, ltb_ℤ}
use django_fsspec.Errors.{ok}
use django_fsspec.Commands.Repair.Renumber.{
  Slot, is_taken, eq_ℤ, set_sequence, file_of, renumber_slots, renumber_rows, temporary, max_key,
}

-- the slots after a loop that meets no constraint
abbrev pub assigned : (ℕ → ℤ) → ℕ → List ℕ → List Slot → List Slot
assigned number offset [] slots = slots
assigned number offset (pk ∷ pks) slots =
    assigned number (offset + 1) pks (set_sequence pk (number offset) slots)

abbrev is_negative : ℤ → Bool
is_negative (pos n) = false
is_negative (negsuc n) = true

abbrev negative : Slot → Bool
negative s = is_negative s.sequence

abbrev below : ℕ → ℤ → Bool
below c (pos n) = true
below c (negsuc n) = ltb n c

abbrev low : ℕ → ℤ → Bool
low c (pos n) = ltb n c
low c (negsuc n) = true

abbrev low_in : ℕ → ℕ → Slot → Bool
low_in file c s = not (s.mapping.file_id == file) || low c s.sequence

-- A new temporary number is lower than all before it.
untaken_temporary :
    (file pk c : ℕ) (slots : List Slot)
    → all (λ s. below c s.sequence) slots ≡ true
    → any (is_taken file pk (negsuc c)) slots ≡ false
untaken_temporary file pk c [] h = refl
untaken_temporary file pk c (s ∷ slots) h =
    ground (arith, untaken_temporary file pk c slots, eq_below c s.sequence)
  where
    eq_below : (c : ℕ) (z : ℤ) → below c z ≡ true → eq_ℤ z (negsuc c) ≡ false
    eq_below c (pos n) h = refl
    eq_below c (negsuc n) h = ground arith

below-set_sequence :
    (pk c : ℕ) (slots : List Slot)
    → all (λ s. below c s.sequence) slots ≡ true
    → all (λ s. below (c + 1) s.sequence) (set_sequence pk (negsuc c) slots) ≡ true
below-set_sequence pk c [] h = refl
below-set_sequence pk c (s ∷ slots) h =
    ground (arith, below-set_sequence pk c slots, below_more s.sequence)
  where
    below_more : (z : ℤ) → below c z ≡ true → below (c + 1) z ≡ true
    below_more (pos n) h = refl
    below_more (negsuc n) h = ground arith

first_loop :
    (base offset : ℕ) (pks : List ℕ) (slots : List Slot)
    → all (λ s. below (base + offset) s.sequence) slots ≡ true
    → renumber_slots (λ i. negsuc (base + i)) offset pks slots
      ≡ ok (assigned (λ i. negsuc (base + i)) offset pks slots)
unfolding renumber_slots
first_loop base offset [] slots h = refl
first_loop base offset (pk ∷ pks) slots h =
    let next : all (λ s. below (base + (offset + 1)) s.sequence)
          (set_sequence pk (negsuc (base + offset)) slots)
        ≡ true =
      let more : base + (offset + 1) ≡ base + offset + 1 = omega arith in
      rw more (below-set_sequence pk (base + offset) slots h) in
    rw (renumber_slots, untaken_temporary (file_of pk slots) pk (base + offset) slots h)
      (first_loop base (offset + 1) pks (set_sequence pk (negsuc (base + offset)) slots) next)

file_of-set_sequence :
    (k pk : ℕ) (z : ℤ) (slots : List Slot) → file_of k (set_sequence pk z slots) ≡ file_of k slots
file_of-set_sequence k pk z [] = refl
file_of-set_sequence k pk z (s ∷ slots) = ground (arith, file_of-set_sequence k pk z slots)

untaken_final :
    (file pk c : ℕ) (slots : List Slot)
    → all (low_in file c) slots ≡ true
    → any (is_taken file pk (pos c)) slots ≡ false
untaken_final file pk c [] h = refl
untaken_final file pk c (s ∷ slots) h =
    ground (arith, untaken_final file pk c slots, eq_low s.sequence)
  where
    eq_low : (z : ℤ) → low c z ≡ true → eq_ℤ z (pos c) ≡ false
    eq_low (pos n) h = ground arith
    eq_low (negsuc n) h = refl

low-set_sequence :
    (file pk c : ℕ) (slots : List Slot)
    → all (low_in file c) slots ≡ true
    → all (low_in file (c + 1)) (set_sequence pk (pos c) slots) ≡ true
low-set_sequence file pk c [] h = refl
low-set_sequence file pk c (s ∷ slots) h =
    ground (arith, low-set_sequence file pk c slots, low_more s.sequence)
  where
    low_more : (z : ℤ) → low c z ≡ true → low (c + 1) z ≡ true
    low_more (pos n) h = ground arith
    low_more (negsuc n) h = refl

second_loop :
    (file offset : ℕ) (pks : List ℕ) (slots : List Slot)
    → all (λ k. file_of k slots == file) pks ≡ true
    → all (low_in file offset) slots ≡ true
    → renumber_slots pos offset pks slots ≡ ok (assigned pos offset pks slots)
unfolding renumber_slots
second_loop file offset [] slots owners h = refl
second_loop file offset (pk ∷ pks) slots owners h =
    let same : file_of pk slots ≡ file = ground arith in
    let slots' = set_sequence pk (pos offset) slots in
    let kept =
      all_imply (λ k. file_of k slots == file) (λ k. file_of k slots' == file) pks
        (λ k i. ground (arith, file_of-set_sequence k pk (pos offset) slots)) (ground arith) in
    let free : any (is_taken (file_of pk slots) pk (pos offset)) slots ≡ false =
      rw same (untaken_final file pk offset slots h) in
    rw (renumber_slots, free)
      (second_loop file (offset + 1) pks slots' kept (low-set_sequence file pk offset slots h))

-- Slots of the file that are not negative have keys among those to come.
abbrev pending : ℕ → List ℕ → Slot → Bool
pending file pks s = not (s.mapping.file_id == file) || negative s || contains s.mapping.pk pks

pending-set_sequence :
    (file pk c : ℕ) (pks : List ℕ) (slots : List Slot)
    → all (pending file (pk ∷ pks)) slots ≡ true
    → all (pending file pks) (set_sequence pk (negsuc c) slots) ≡ true
pending-set_sequence file pk c pks [] h = refl
pending-set_sequence file pk c pks (s ∷ slots) h =
    ground (arith, pending-set_sequence file pk c pks slots)

all_negative :
    (file base offset : ℕ) (pks : List ℕ) (slots : List Slot)
    → all (pending file pks) slots ≡ true
    → all (low_in file 0) (assigned (λ i. negsuc (base + i)) offset pks slots) ≡ true
all_negative file base offset [] slots h =
    all_imply (pending file []) (low_in file 0) slots
      (λ s i. weaken s.sequence (not (s.mapping.file_id == file)) i) h
  where
    weaken : (z : ℤ) → (b : Bool) → (b || is_negative z || false) ≡ true → (b || low 0 z) ≡ true
    weaken (pos n) b i = ground arith
    weaken (negsuc n) b i = ground arith
all_negative file base offset (pk ∷ pks) slots h =
    all_negative file base (offset + 1) pks (set_sequence pk (negsuc (base + offset)) slots)
      (pending-set_sequence file pk (base + offset) pks slots h)

file_of-assigned :
    (k : ℕ) (number : ℕ → ℤ) (offset : ℕ) (pks : List ℕ) (slots : List Slot)
    → file_of k (assigned number offset pks slots) ≡ file_of k slots
file_of-assigned k number offset [] slots = refl
file_of-assigned k number offset (pk ∷ pks) slots =
    file_of-assigned k number (offset + 1) pks (set_sequence pk (number offset) slots)
    ∙ file_of-set_sequence k pk (number offset) slots

-- A number above the temporary base is above the first temporary number.
below_of_above : (base : ℕ) (z : ℤ) → ltb_ℤ (negsuc (base + 0)) z ≡ true → below (base + 0) z ≡ true
below_of_above base (pos n) h = refl
below_of_above base (negsuc n) h = ground arith

-- A row of the file is one of those renumbered.
abbrev pub is_renumbered : ℕ → List ℕ → Slot → Bool
is_renumbered file pks s = not (s.mapping.file_id == file) || contains s.mapping.pk pks

-- Neither loop meets the constraint.
pub renumber_rows-succeeds :
    (file : ℕ) (pks : List ℕ) (slots : List Slot)
    → all (λ k. file_of k slots == file) pks ≡ true
    → all (is_renumbered file pks) slots ≡ true
    → all (λ (s : Slot). ltb_ℤ (temporary pks 0) s.sequence) slots ≡ true
    → renumber_rows pks slots ≡ ok (assigned pos 0 pks (assigned (temporary pks) 0 pks slots))
unfolding renumber_rows
renumber_rows-succeeds file pks slots owners complete above =
    let middle = assigned (temporary pks) 0 pks slots in
    let kept =
      all_imply (λ k. file_of k slots == file) (λ k. file_of k middle == file) pks
        (λ k i. ground (arith, file_of-assigned k (temporary pks) 0 pks slots)) owners in
    let high : all (λ (s : Slot). below (max_key pks + 0) s.sequence) slots ≡ true =
      all_imply (λ (s : Slot). ltb_ℤ (temporary pks 0) s.sequence)
        (λ s. below (max_key pks + 0) s.sequence) slots
        (λ s i. below_of_above (max_key pks) s.sequence i) above in
    let waiting : all (pending file pks) slots ≡ true =
      all_imply (is_renumbered file pks) (pending file pks) slots (λ s i. ground (arith, i))
        complete in
    let one : renumber_slots (temporary pks) 0 pks slots ≡ ok middle =
      first_loop (max_key pks) 0 pks slots high in
    let two =
      second_loop file 0 pks middle kept (all_negative file (max_key pks) 0 pks slots waiting) in
    rw (renumber_rows, one, two)
