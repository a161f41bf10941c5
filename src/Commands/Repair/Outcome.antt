-- ===== src/Commands/Repair/Outcome.antt =====
-- management/commands/fsspec_repair.py as a whole: what a check of blocks finds after a repair.
use mathlib.Core.Path.{subst}
use django_fsspec.Prelude.{
  ℕ, ◌≡◌, ap, Bool, true, false, not, Option, none, List, [], ◌∷◌, ◌++◌, length, any, ◌&&◌, ◌==◌,
  if◌then◌else◌, inl, inr, Bool-cases,
}
use django_fsspec.Errors.{ok}
use django_fsspec.Environment.{Environment}
use django_fsspec.Text.{Text}
use django_fsspec.Validators.{validate_path}
use django_fsspec.Models.{FileNode, Db}
use django_fsspec.Models.Query.{at_path}
use django_fsspec.Action.{Action, pure, query, modify, ◌>>=◌, ◌>>◌}
use django_fsspec.Action.Keeps.{Keeps, bind-Keeps, after_read-Keeps}
use django_fsspec.Action.Laws.{bind-ok}
use django_fsspec.Action.Reaches.{Reaches, atomic-Reaches}
use django_fsspec.Commands.Fsck.{check_blocks, ownerless_findings}
use django_fsspec.Commands.Repair.{
  Summary, repair, repair_steps, inspect_damage, release_unreferenced, repair_path_conflicts,
  save_descendant_path, move_conflicts, move_descendants, path_conflict_files,
  repair_block_metadata, repair_file_nodes, repair_directories, repair_free_referenced_blocks,
  repair_unreferenced_used_blocks, recovery_root, resolve_conflicts, total, damage_report,
  later_steps, early_counts, free_referenced, count_mappings, count_bad_directories, count_gaps,
  count_bad_files, count_bad_blocks, update_node, count_unreferenced,
}
use django_fsspec.Commands.Repair.Blocks.{
  HasCleanBlocks, HasOwnedBlocks, check_blocks-clean, ownerless_findings-owned,
  repair_block_metadata-HasCleanBlocks, repair_unreferenced_used_blocks-HasCleanBlocks,
  repair_unreferenced_used_blocks-HasOwnedBlocks,
}

-- The steps from the path conflicts on change rows of file_rows only.
module _ (P : Db → Type 0)
    (renamed : (db : Db) (pk : ℕ) (change : FileNode → FileNode)
      → P db
      → P (update_node pk change db))
    (e : Environment) where
  save_descendant_path-Keeps :
      (n : FileNode) (path : Text) → Keeps P (save_descendant_path e n path)
  save_descendant_path-Keeps n path db h =
      let taken = any (λ r. at_path n.namespace_id path r && not (r.pk == n.pk)) db.nodes in
      let saved = renamed db n.pk (λ r. record r { path = path; updated_at = e.now }) h in
      elim (Bool-cases taken) [ inl refused ↦ rw refused h | inr free ↦ rw free saved ]

  move_descendants-Keeps :
      (dry_run : Bool) (root : Text) (ds : List FileNode)
      → Keeps P (move_descendants e dry_run root ds)
  move_descendants-Keeps dry_run root [] = λ db h. h
  move_descendants-Keeps dry_run root (d ∷ ds) =
      after_read-Keeps P (λ _. validate_path e.nfc (root ++ d.path))
        (λ _.
          (if dry_run then pure tt else save_descendant_path e d (root ++ d.path))
          >> move_descendants e dry_run root ds)
        λ _.
          bind-Keeps P (if dry_run then pure tt else save_descendant_path e d (root ++ d.path))
            (λ _. move_descendants e dry_run root ds) (moved dry_run)
            (λ _. move_descendants-Keeps dry_run root ds)
    where
      moved :
          (b : Bool) → Keeps P (if b then pure tt else save_descendant_path e d (root ++ d.path))
      moved true = λ db h. h
      moved false = save_descendant_path-Keeps d (root ++ d.path)

  move_conflicts-Keeps :
      (dry_run : Bool) (timestamp : Text) (cs : List (FileNode × List FileNode))
      → Keeps P (move_conflicts e dry_run timestamp cs)
  move_conflicts-Keeps dry_run timestamp [] = λ db h. h
  move_conflicts-Keeps dry_run timestamp ((n, ds) ∷ cs) =
      bind-Keeps P (move_descendants e dry_run (recovery_root timestamp n) ds)
        (λ _. move_conflicts e dry_run timestamp cs)
        (move_descendants-Keeps dry_run (recovery_root timestamp n) ds)
        (λ _. move_conflicts-Keeps dry_run timestamp cs)

  resolve_conflicts-Keeps :
      (timestamp : Text) (dry_run recover : Bool) (cs : List (FileNode × List FileNode))
      → Keeps P (resolve_conflicts e timestamp dry_run recover cs)
  resolve_conflicts-Keeps timestamp dry_run recover [] = λ db h. h
  resolve_conflicts-Keeps timestamp dry_run false (c ∷ cs) = λ db h. h
  resolve_conflicts-Keeps timestamp dry_run true (c ∷ cs) =
      bind-Keeps P (move_conflicts e dry_run timestamp (c ∷ cs)) (λ _. pure (false, total (c ∷ cs)))
        (move_conflicts-Keeps dry_run timestamp (c ∷ cs)) (λ _ db h. h)

  repair_path_conflicts-Keeps :
      (timestamp : Text) (namespace : Option ℕ) (dry_run recover : Bool)
      → Keeps P (repair_path_conflicts e timestamp namespace dry_run recover)
  unfolding repair_path_conflicts
  repair_path_conflicts-Keeps timestamp namespace dry_run recover =
      after_read-Keeps P (λ db. ok (path_conflict_files namespace db))
        (resolve_conflicts e timestamp dry_run recover)
        (resolve_conflicts-Keeps timestamp dry_run recover)

  inspect_damage-Keeps :
      (timestamp : Text) (namespace : Option ℕ) (dry_run recover : Bool) (counts : Summary)
      → Keeps P (inspect_damage e timestamp namespace dry_run recover counts)
  unfolding inspect_damage
  inspect_damage-Keeps timestamp namespace dry_run recover counts =
      let conflicts = repair_path_conflicts e timestamp namespace dry_run recover in
      after_read-Keeps P (λ db. ok (length (path_conflict_files namespace db)))
        (λ k. conflicts >>= damage_report e namespace counts k)
        λ k.
          bind-Keeps P conflicts (damage_report e namespace counts k)
            (repair_path_conflicts-Keeps timestamp namespace dry_run recover) (λ _ db h. h)

  -- the steps from the release of unreferenced blocks on
  abbrev tail_steps : Text → Option ℕ → Bool → Bool → (ℕ → Summary) → Action (Summary × Bool)
  tail_steps timestamp namespace dry_run recover counts =
      query (count_unreferenced namespace) >>= λ u.
      modify (release_unreferenced namespace dry_run)
      >> inspect_damage e timestamp namespace dry_run recover (counts u)

  tail_steps-Keeps :
      (timestamp : Text) (namespace : Option ℕ) (dry_run recover : Bool) (counts : ℕ → Summary)
      → ((db : Db) → P db → P (release_unreferenced namespace dry_run db))
      → Keeps P (tail_steps timestamp namespace dry_run recover counts)
  tail_steps-Keeps timestamp namespace dry_run recover counts released db h =
      inspect_damage-Keeps timestamp namespace dry_run recover
        (counts (count_unreferenced namespace db)) (release_unreferenced namespace dry_run db)
        (released db h)

-- the state that the repair of file_rows starts from
abbrev after_directories : Environment → Option ℕ → Bool → Db → Db
after_directories e namespace dry_run db =
    repair_directories e namespace dry_run (repair_free_referenced_blocks namespace dry_run db)

abbrev counts_before : Environment → Option ℕ → Bool → Db → ℕ → ℕ → Summary
counts_before e namespace dry_run db =
    let db₁ = repair_free_referenced_blocks namespace dry_run db in
    let db₂ = after_directories e namespace dry_run db in
    early_counts (length (free_referenced namespace db)) (count_mappings namespace db₁)
      (count_bad_directories namespace db₁) (count_gaps namespace db₂)
      (count_bad_files e namespace db₂)

module _ (e : Environment) (timestamp : Text) (recover : Bool) where
  repair_steps-returns :
      (db db' : Db) (a : Summary × Bool)
      → repair_steps e timestamp none false recover db ≡ (ok a, db')
      → (d : Db) × (later_steps e timestamp none false recover (counts_before e none false db) d
          ≡ (ok a, db'))
  unfolding repair_steps
  repair_steps-returns db db' a h =
      let (_, d, ran, rest) =
        bind-ok (repair_file_nodes e none false)
          (λ _. later_steps e timestamp none false recover (counts_before e none false db))
          (after_directories e none false db) db' h in
      (d, rest)

  repair_steps-HasCleanBlocks :
      Reaches (HasCleanBlocks e) (repair_steps e timestamp none false recover)
  repair_steps-HasCleanBlocks db db' a h =
      let (d, rest) = repair_steps-returns db db' a h in
      let described = repair_block_metadata e none false d in
      subst (HasCleanBlocks e) (ap (λ p. p.1) rest) (
        tail_steps-Keeps (HasCleanBlocks e) (λ db pk change h. h) e timestamp none false recover
          (counts_before e none false db (count_bad_blocks e none d))
          (repair_unreferenced_used_blocks-HasCleanBlocks e) described
          (repair_block_metadata-HasCleanBlocks e d))

  repair_steps-HasOwnedBlocks : Reaches HasOwnedBlocks (repair_steps e timestamp none false recover)
  repair_steps-HasOwnedBlocks db db' a h =
      let (d, rest) = repair_steps-returns db db' a h in
      let described = repair_block_metadata e none false d in
      let counts =
        counts_before e none false db (count_bad_blocks e none d)
          (count_unreferenced none described) in
      subst HasOwnedBlocks (ap (λ p. p.1) rest) (
        inspect_damage-Keeps HasOwnedBlocks (λ db pk change h. h) e timestamp none false recover
          counts (repair_unreferenced_used_blocks false described)
          (repair_unreferenced_used_blocks-HasOwnedBlocks described))

  -- Where a repair of all namespaces that is not a dry run returns, a check of the repaired
  -- database finds no block whose size or checksum is wrong, and no used block without an owner.
  pub repair-clean :
      (db db' : Db) (a : Summary × Bool)
      → repair e timestamp none false recover db ≡ (ok a, db')
      → (check_blocks e none db' ≡ []) × (ownerless_findings none db' ≡ [])
  unfolding repair
  repair-clean db db' a h =
      let steps = repair_steps e timestamp none false recover in
      (
        check_blocks-clean e db'
            (atomic-Reaches (HasCleanBlocks e) steps repair_steps-HasCleanBlocks db db' a h),
        ownerless_findings-owned db'
            (atomic-Reaches HasOwnedBlocks steps repair_steps-HasOwnedBlocks db db' a h),
      )
