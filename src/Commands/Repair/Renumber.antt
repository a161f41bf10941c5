-- ===== src/Commands/Repair/Renumber.antt =====
-- management/commands/fsspec_repair.py: `_renumber_file_blocks`. Its first loop moves the mappings of
-- a file to negative sequence numbers. The column is a signed integer, so the two loops are given for
-- rows with any integer as their number; the tables of the other commands hold natural numbers.
pub mod Positions
pub mod Safe
use django_fsspec.Prelude.{
  ℕ, zero, suc, ◌+◌, ◌≤◌, ◌<◌, ◌≡◌, refl, ap, ◌∙◌, Bool, true, false, ◌&&◌, ◌||◌, not, max, Option,
  none, some, List, [], ◌∷◌, map, any, all, update_where, contains, ltb, ◌==◌, arith, if◌then◌else◌,
}
use django_fsspec.Prelude.Int.{ℤ, pos, negsuc}
use django_fsspec.Errors.{Error, Result, ok, err}
use django_fsspec.Models.{FileBlock, Db}
use django_fsspec.Action.{Action}

pub record Slot : Type 0 where
  pub mapping : FileBlock
  pub sequence : ℤ

abbrev pub eq_ℤ : ℤ → ℤ → Bool
eq_ℤ (pos a) (pos b) = a == b
eq_ℤ (pos a) (negsuc b) = false
eq_ℤ (negsuc a) (pos b) = false
eq_ℤ (negsuc a) (negsuc b) = a == b

abbrev pub to_slots : List FileBlock → List Slot
to_slots = map (λ (m : FileBlock). record { mapping = m; sequence = pos m.sequence })

-- The number as it is stored; at the end of the two loops none is negative.
abbrev pub stored_sequence : ℤ → ℕ
stored_sequence (pos n) = n
stored_sequence (negsuc n) = 0

abbrev pub of_slots : List Slot → List FileBlock
of_slots = map (λ (s : Slot). record s.mapping { sequence = stored_sequence s.sequence })

abbrev pub is_key : ℕ → Slot → Bool
is_key pk s = s.mapping.pk == pk

-- Another row of the same file has the number.
abbrev pub is_taken : ℕ → ℕ → ℤ → Slot → Bool
is_taken file_id pk sequence s =
    s.mapping.file_id == file_id && eq_ℤ s.sequence sequence && not (s.mapping.pk == pk)

abbrev pub set_sequence : ℕ → ℤ → List Slot → List Slot
set_sequence pk sequence = update_where (is_key pk) (λ s. record s { sequence = sequence })

-- The file of a row.
abbrev pub file_of : ℕ → List Slot → ℕ
file_of pk [] = 0
file_of pk (s ∷ slots) = if is_key pk s then s.mapping.file_id else file_of pk slots

-- `filter(pk=pk).update(sequence=sequence)`, under the unique constraint
abbrev pub update_sequence : ℕ → ℤ → List Slot → Result (List Slot)
update_sequence pk sequence slots =
    if any (is_taken (file_of pk slots) pk sequence) slots
    then err Error.django_integrity
    else ok (set_sequence pk sequence slots)

-- A loop over the rows' keys, with the number for each offset.
unfoldable pub renumber_slots : (ℕ → ℤ) → ℕ → List ℕ → List Slot → Result (List Slot)
renumber_slots number offset [] slots = ok slots
renumber_slots number offset (pk ∷ pks) slots = elim (update_sequence pk (number offset) slots) [
  | ok slots' ↦ renumber_slots number (offset + 1) pks slots'
  | err x ↦ err x
]

abbrev pub max_key : List ℕ → ℕ
max_key [] = 0
max_key (k ∷ ks) = max k (max_key ks)

-- `temp_base - offset`
abbrev pub temporary : List ℕ → ℕ → ℤ
temporary pks offset = negsuc (max_key pks + offset)

-- the two loops
unfoldable pub renumber_rows : List ℕ → List Slot → Result (List Slot)
renumber_rows pks slots = elim (renumber_slots (temporary pks) 0 pks slots) [
  | ok slots' ↦ renumber_slots pos 0 pks slots'
  | err x ↦ err x
]

unfoldable pub renumber_table : List ℕ → List FileBlock → Result (List FileBlock)
renumber_table pks ms = elim (renumber_rows pks (to_slots ms)) [
  | ok slots ↦ ok (of_slots slots)
  | err x ↦ err x
]

-- `_renumber_file_blocks`, on the keys of the file's mappings in order
unfoldable pub renumber : List ℕ → Action (Unit {0})
renumber pks db = elim (renumber_table pks db.file_blocks) [
  | ok ms ↦ (ok tt, record db { file_blocks = ms })
  | err x ↦ (err x, db)
]
