-- ===== src/Operations/Writer/Truncate.antt =====
-- "wb" on a file that exists: its row is emptied, its mappings go, and the writer stands on it.
use django_fsspec.Prelude.{ℕ, ◌≡◌, refl, ap, ◌∙◌, false, some, List, [], ◌∷◌, filter, ◌==◌, arith}
use mathlib.Core.Option
use django_fsspec.Errors.{ok}
use django_fsspec.Environment.{Environment}
use django_fsspec.Models.{FileNode, FileBlock, Db, NodeType}
use django_fsspec.Models.Query.{get_node, get_node_by_pk, mappings_of}
use django_fsspec.Operations.Content.{path_has_descendants, ordered_file_blocks}
use django_fsspec.Operations.Blocks.{release_file_blocks, not_of_files}
use django_fsspec.Operations.Frame.{Frame, Frame-trans}
use django_fsspec.Operations.Frame.Rows.{Frame-released}
use django_fsspec.Operations.Writer.{Writer, truncated, truncate_target, with_node}
use django_fsspec.Operations.Writer.Writing.{HasTarget, HasRows}
use django_fsspec.Operations.Writer.Finalize.{
  updated, changed, get_node_by_pk-updated, get_node-updated, path_has_descendants-updated,
  update_version-updated, updated-Frame,
}

pub released_gone :
    (k : ℕ) (ms : List FileBlock) → filter (λ m. m.file_id == k) (not_of_files (k ∷ []) ms) ≡ []
released_gone k [] = refl
released_gone k (m ∷ ms) = ground (arith, released_gone k ms)

no_mappings_left :
    (k : ℕ) (db : Db) → filter (λ m. m.file_id == k) db.file_blocks ≡ [] → mappings_of k db ≡ []
unfolding mappings_of
no_mappings_left k db gone = rw gone

no_rows_left :
    (n : FileNode) (db : Db)
    → filter (λ m. m.file_id == n.pk) db.file_blocks ≡ []
    → ordered_file_blocks n db ≡ []
unfolding ordered_file_blocks
no_rows_left n db gone = rw (no_mappings_left n.pk db gone)

-- A file that no mapping is left of has no rows.
pub empty-HasRows :
    (e : Environment) (n : FileNode) (db : Db)
    → filter (λ m. m.file_id == n.pk) db.file_blocks ≡ []
    → HasRows e db n 0 []
empty-HasRows e n db gone =
    let no_mappings = no_mappings_left n.pk db gone in
    let no_rows = no_rows_left n db gone in
    record {
      below = rw gone;
      loaded = rw no_mappings;
      counted = rw no_rows;
      contiguous = rw no_rows;
      intact = rw no_rows;
      content = rw no_rows;
    }

module _ (e : Environment) (w : Writer) (old : FileNode) (db : Db)
    (by_key : get_node_by_pk old.pk db ≡ some old)
    (by_path : get_node w.namespace w.path db ≡ some old) (typed : old.node_type ≡ NodeType.file)
    (childless : path_has_descendants old.namespace_id old.path (some old.pk) db ≡ false) where
  abbrev change : FileNode → FileNode
  change = truncated w old

  abbrev emptied : Db
  emptied = updated old.pk old.version change (λ _. refl) (λ _. refl) (λ _. refl) db

  abbrev pub truncated_node : FileNode
  truncated_node = truncated w old old

  abbrev pub truncated_db : Db
  truncated_db = release_file_blocks (old.pk ∷ []) emptied

  changed-old :
      changed old.pk old.version change (λ _. refl) (λ _. refl) (λ _. refl) db old ≡ truncated_node
  changed-old = ground arith

  key-truncated : get_node_by_pk old.pk truncated_db ≡ some truncated_node
  unfolding release_file_blocks
  key-truncated =
      get_node_by_pk-updated old.pk old.version change (λ _. refl) (λ _. refl) (λ _. refl) db old.pk
      ∙ ap (Option.map _) by_key
      ∙ ap some changed-old

  path-truncated : get_node w.namespace w.path truncated_db ≡ some truncated_node
  unfolding release_file_blocks
  path-truncated =
      get_node-updated old.pk old.version change (λ _. refl) (λ _. refl) (λ _. refl) db w.namespace
        w.path
      ∙ ap (Option.map _) by_path
      ∙ ap some changed-old

  pub truncate_target-truncated :
      truncate_target w old db ≡ (ok (with_node w truncated_node), truncated_db)
  unfolding truncate_target
  truncate_target-truncated = ground (
    arith,
    key-truncated,
    update_version-updated old.pk old.version change (λ _. refl) (λ _. refl) (λ _. refl) db old
        by_key refl,
  )

  childless-truncated :
      path_has_descendants old.namespace_id old.path (some old.pk) truncated_db ≡ false
  unfolding release_file_blocks path_has_descendants
  childless-truncated =
      path_has_descendants-updated old.pk old.version change (λ _. refl) (λ _. refl) (λ _. refl) db
        old.namespace_id old.path old.pk
      ∙ childless

  pub truncated-HasTarget : HasTarget (with_node w truncated_node) truncated_db truncated_node
  truncated-HasTarget = record {
    target = refl;
    by_key = key-truncated;
    by_path = path-truncated;
    version = refl;
    typed = typed;
    childless = childless-truncated;
  }

  pub truncated-HasRows : HasRows e truncated_db truncated_node 0 []
  unfolding release_file_blocks
  truncated-HasRows =
      empty-HasRows e truncated_node truncated_db (released_gone old.pk db.file_blocks)

  pub truncated-Frame : Frame old.pk w.namespace w.path db truncated_db
  truncated-Frame =
      Frame-trans old.pk w.namespace w.path
        (updated-Frame old.pk old.version change (λ _. refl) (λ _. refl) (λ _. refl) db w.namespace
          w.path)
        (Frame-released old.pk w.namespace w.path emptied)
