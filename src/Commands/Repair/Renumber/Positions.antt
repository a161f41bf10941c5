-- ===== src/Commands/Repair/Renumber/Positions.antt =====
-- management/commands/fsspec_repair.py: the numbers that `_renumber_file_blocks` leaves.
use django_fsspec.Prelude.{
  ℕ, ◌+◌, ◌≡◌, refl, Bool, true, ◌||◌, not, List, [], ◌∷◌, all, all_imply, contains, ◌==◌, arith,
  if◌then◌else◌,
}
use django_fsspec.Prelude.Int.{ℤ, pos, ltb_ℤ}
use django_fsspec.Errors.{ok}
use django_fsspec.Models.Consistent.{AreDistinct}
use django_fsspec.Commands.Repair.Renumber.{
  Slot, eq_ℤ, set_sequence, file_of, renumber_rows, temporary,
}
use django_fsspec.Commands.Repair.Renumber.Safe.{assigned, is_renumbered, renumber_rows-succeeds}

-- The position of a key among the keys, from 0.
abbrev pub position : ℕ → List ℕ → ℕ
position k [] = 0
position k (p ∷ pks) = let rest = position k pks in if k == p then 0 else rest + 1

-- A row of the file has the position of its key as its number.
abbrev pub has_position : ℕ → List ℕ → Slot → Bool
has_position file pks s =
    not (s.mapping.file_id == file) || eq_ℤ s.sequence (pos (position s.mapping.pk pks))

-- The numbers from the offset on are those that the function gives the keys.
abbrev Gives : (ℕ → ℕ) → ℕ → List ℕ → Type 0
Gives f offset [] = Unit {0}
Gives f offset (p ∷ pks) = (f p ≡ offset) × Gives f (offset + 1) pks

abbrev is_numbered : ℕ → (ℕ → ℕ) → List ℕ → Slot → Bool
is_numbered file f pks s =
    not (s.mapping.file_id == file)
    || contains s.mapping.pk pks
    || eq_ℤ s.sequence (pos (f s.mapping.pk))

numbered-set_sequence :
    (file : ℕ) (f : ℕ → ℕ) (offset p : ℕ) (pks : List ℕ) (slots : List Slot)
    → f p ≡ offset
    → all (is_numbered file f (p ∷ pks)) slots ≡ true
    → all (is_numbered file f pks) (set_sequence p (pos offset) slots) ≡ true
numbered-set_sequence file f offset p pks [] given h = refl
numbered-set_sequence file f offset p pks (s ∷ slots) given h =
    ground (arith, numbered-set_sequence file f offset p pks slots given)

numbered-assigned :
    (file : ℕ) (f : ℕ → ℕ) (offset : ℕ) (pks : List ℕ) (slots : List Slot)
    → Gives f offset pks
    → all (is_numbered file f pks) slots ≡ true
    → all (is_numbered file f []) (assigned pos offset pks slots) ≡ true
numbered-assigned file f offset [] slots given h = h
numbered-assigned file f offset (p ∷ pks) slots given h =
    numbered-assigned file f (offset + 1) pks (set_sequence p (pos offset) slots) given.1
      (numbered-set_sequence file f offset p pks slots given.0 h)

-- The positions, from an offset, of keys after others that they differ from.
position-Gives :
    (f : ℕ → ℕ) (offset : ℕ) (pks : List ℕ)
    → AreDistinct pks
    → ((k : ℕ) → contains k pks ≡ true → f k ≡ offset + position k pks)
    → Gives f offset pks
position-Gives f offset [] d h = tt
position-Gives f offset (p ∷ pks) d h = (
  ground (arith, h p),
  position-Gives f (offset + 1) pks d.1 (λ k i. ground (arith, i, h k, d.0)),
)

-- Keys that are to be renumbered stay so while other numbers are set.
renumbered-assigned :
    (file : ℕ) (keys : List ℕ) (number : ℕ → ℤ) (offset : ℕ) (pks : List ℕ) (slots : List Slot)
    → all (is_renumbered file keys) slots ≡ true
    → all (is_renumbered file keys) (assigned number offset pks slots) ≡ true
renumbered-assigned file keys number offset [] slots h = h
renumbered-assigned file keys number offset (p ∷ pks) slots h =
    renumbered-assigned file keys number (offset + 1) pks (set_sequence p (number offset) slots)
      (kept slots h)
  where
    kept :
        (slots : List Slot)
        → all (is_renumbered file keys) slots ≡ true
        → all (is_renumbered file keys) (set_sequence p (number offset) slots) ≡ true
    kept [] h = refl
    kept (s ∷ slots) h = ground (arith, kept slots)

-- For any rows of mappings, whose numbers may be negative: where the keys are distinct and those of
-- one file's mappings, and all of them, and every number in the table is above the temporary base,
-- which is below the negative of each key, the renumbering meets no unique constraint and leaves
-- each row of the file with the position of its key as its number.
pub renumber_rows-positions :
    (file : ℕ) (pks : List ℕ) (slots : List Slot)
    → AreDistinct pks
    → all (λ k. file_of k slots == file) pks ≡ true
    → all (is_renumbered file pks) slots ≡ true
    → all (λ (s : Slot). ltb_ℤ (temporary pks 0) s.sequence) slots ≡ true
    → (slots' : List Slot) × (renumber_rows pks slots ≡ ok slots')
      × (all (has_position file pks) slots' ≡ true)
renumber_rows-positions file pks slots distinct owners complete above =
    let f : ℕ → ℕ = λ k. position k pks in
    let middle = assigned (temporary pks) 0 pks slots in
    let waiting : all (is_numbered file f pks) middle ≡ true =
      all_imply (is_renumbered file pks) (is_numbered file f pks) middle (λ s i. ground (arith, i))
        (renumbered-assigned file pks (temporary pks) 0 pks slots complete) in
    let numbered =
      numbered-assigned file f 0 pks middle (position-Gives f 0 pks distinct (λ k i. omega arith))
        waiting in
    (
      assigned pos 0 pks middle,
      renumber_rows-succeeds file pks slots owners complete above,
      all_imply (is_numbered file f []) (has_position file pks) (assigned pos 0 pks middle)
          (λ s i. ground (arith, i)) numbered,
    )
