-- ===== src/Operations/Writer/Resume.antt =====
-- "ab" on a file that exists: the next sequence number is the number of its blocks, and the writer
-- goes on from its content.
use django_fsspec.Prelude.{
  ℕ, suc, ◌+◌, ◌≤◌, max, ◌≡◌, refl, sym, ap, ◌∙◌, true, Option, none, some, List, [], ◌∷◌, filter,
  all, length, sort, insert_sorted, all-sort, all-filter, ltb, ◌==◌, arith, if◌then◌else◌,
  Bool-cases, Option-cases, inl, inr,
}
use django_fsspec.Errors.{ok}
use django_fsspec.Environment.{Environment}
use django_fsspec.Models.{FileNode, FileBlock, Db}
use django_fsspec.Models.Query.{get_node, get_node_by_pk, get_block, mappings_of, before_mapping}
use django_fsspec.Models.Consistent.{IsConsistent, has_block}
use django_fsspec.Operations.Content.{load_blocks, ordered_file_blocks, is_contiguous}
use django_fsspec.Operations.Content.Intact.{IsIntact, content_of}
use django_fsspec.Operations.Blocks.Order.{of_file}
use django_fsspec.Operations.Writer.{Writer, max_sequence, next_sequence, resumed, resume_target}
use django_fsspec.Operations.Writer.Writing.{HasTarget, HasRows}

-- one more than the largest sequence number
abbrev next_of : Option ℕ → ℕ
next_of none = 0
next_of (some k) = k + 1

max_sequence-cons :
    (m : FileBlock) (ms : List FileBlock)
    → next_of (max_sequence (m ∷ ms)) ≡ max (m.sequence + 1) (next_of (max_sequence ms))
max_sequence-cons m ms = elim (Option-cases (max_sequence ms)) [
  | inl e ↦ rw (e, max_sequence) (omega arith)
  | inr (k, e) ↦ rw (e, max_sequence) (omega arith)
]

next_of-insert :
    (m : FileBlock) (ms : List FileBlock)
    → next_of (max_sequence (insert_sorted before_mapping m ms)) ≡ next_of (max_sequence (m ∷ ms))
next_of-insert m [] = refl
next_of-insert m (x ∷ ms) = elim (Bool-cases (before_mapping m x)) [
  | inl first ↦ rw first
  | inr later ↦ rw later (
      omega (
        arith,
        max_sequence-cons x (insert_sorted before_mapping m ms),
        next_of-insert m ms,
        max_sequence-cons m ms,
        max_sequence-cons m (x ∷ ms),
        max_sequence-cons x ms,
      ))
]

-- The order of the rows does not matter to `Max`.
next_of-sort :
    (ms : List FileBlock)
    → next_of (max_sequence (sort before_mapping ms)) ≡ next_of (max_sequence ms)
next_of-sort [] = refl
next_of-sort (m ∷ ms) = omega (
  arith,
  next_of-insert m (sort before_mapping ms),
  next_of-sort ms,
  max_sequence-cons m (sort before_mapping ms),
  max_sequence-cons m ms,
)

-- Loaded mappings that count from `k` end before the number of them later.
next_of-contiguous :
    (db : Db) (k : ℕ) (ms : List FileBlock)
    → all (has_block db) ms ≡ true
    → is_contiguous k (load_blocks db ms) ≡ true
    → (length (load_blocks db ms) ≡ length ms)
      × (next_of (max_sequence ms) ≡ (if length ms == 0 then 0 else k + length ms))
next_of-contiguous db k [] h c = (refl, refl)
next_of-contiguous db k (m ∷ ms) h c = elim (Option-cases (get_block m.block_id db)) [
  | inl missing ↦ ground arith
  | inr (b, found) ↦
      let c' = rw (found, load_blocks) at c in
      let (count, next) = next_of-contiguous db (k + 1) ms (ground arith) (ground arith) in
      (rw (found, load_blocks) (ap suc count), max_sequence-cons m ms ∙ ground (arith, next, c'))
]

below_next :
    (ms : List FileBlock) (n : ℕ)
    → next_of (max_sequence ms) ≤ n
    → all (λ m. ltb m.sequence n) ms ≡ true
below_next [] n h = refl
below_next (m ∷ ms) n h =
    ground (arith, below_next ms n (omega (arith, max_sequence-cons m ms)), max_sequence-cons m ms)

-- In a consistent database the mappings of every file have their blocks.
pub mappings_of-loaded :
    (n : FileNode) (db : Db) → IsConsistent db → all (has_block db) (mappings_of n.pk db) ≡ true
unfolding mappings_of
mappings_of-loaded n db c =
    all-sort before_mapping (has_block db) (filter (of_file n.pk) db.file_blocks)
      (all-filter (of_file n.pk) (has_block db) db.file_blocks c.blocks)

module _ (e : Environment) (w : Writer) (old : FileNode) (db : Db) (c : IsConsistent db)
    (by_key : get_node_by_pk old.pk db ≡ some old)
    (by_path : get_node w.namespace w.path db ≡ some old) (intact : IsIntact e old db) where
  next_sequence-next_of :
      next_sequence old db ≡ next_of (max_sequence (filter (of_file old.pk) db.file_blocks))
  unfolding next_sequence
  next_sequence-next_of = ground arith

  -- The next sequence number is the number of the file's blocks.
  next_sequence-length : next_sequence old db ≡ length (ordered_file_blocks old db)
  unfolding ordered_file_blocks mappings_of
  next_sequence-length =
      let (count, next) =
        next_of-contiguous db 0 (mappings_of old.pk db) (mappings_of-loaded old db c)
          intact.contiguous in
      next_sequence-next_of
      ∙ sym (next_of-sort (filter (of_file old.pk) db.file_blocks))
      ∙ ground (arith, next, count)

  pub resumed-HasTarget : HasTarget (resumed w old db) db old
  resumed-HasTarget = record {
    target = refl;
    by_key = by_key;
    by_path = by_path;
    version = refl;
    typed = intact.typed;
    childless = intact.childless;
  }

  pub resumed-HasRows : HasRows e db old (next_sequence old db) (content_of old db)
  resumed-HasRows = record {
    below =
        below_next (filter (of_file old.pk) db.file_blocks) (next_sequence old db)
          (omega (arith, next_sequence-next_of));
    loaded = mappings_of-loaded old db c;
    counted = sym next_sequence-length;
    contiguous = intact.contiguous;
    intact = intact.blocks;
    content = refl;
  }

  pub resume_target-resumed : resume_target w old db ≡ (ok (resumed w old db), db)
  unfolding resume_target
  resume_target-resumed = ground (arith, intact.typed)
