-- ===== src/Operations/Transfer/Moved.antt =====
-- operations.py: what `move_file` of a file to a path where nothing is leaves at that path.
use django_fsspec.Prelude.{
  ℕ, ◌≡◌, refl, Bool, false, ◌&&◌, not, none, some, List, [], ◌∷◌, any, find?, update_where,
  find?_sound, ◌==◌, arith,
}
use django_fsspec.Errors.{ok}
use django_fsspec.Environment.{Environment}
use django_fsspec.Text.{Text, text, text_eq}
use django_fsspec.Text.Laws.{text_eq_refl}
use django_fsspec.Validators.{validate_path}
use django_fsspec.Models.{FileNode, Db, is_directory}
use django_fsspec.Models.Query.{at_path, get_node, any_below, child_prefix, mappings_of}
use django_fsspec.Models.Consistent.{get_node_by_pk_of_find?, IsConsistent}
use django_fsspec.Operations.Content.{ordered_file_blocks}
use django_fsspec.Operations.Content.Intact.{content_of}
use django_fsspec.Operations.Paths.{ensure_parent_directory, lock_namespace_for_write}
use django_fsspec.Operations.Transfer.{save_path, move_body, move_file}

-- the row at its new path
abbrev pub moved : Environment → Text → FileNode → FileNode
moved e path n = record n { path = path; updated_at = e.now }

abbrev renamed : Environment → ℕ → Text → List FileNode → List FileNode
renamed e pk path = update_where (λ n. n.pk == pk) (moved e path)

find?-renamed :
    (e : Environment) (namespace : ℕ) (dst : Text) (n : FileNode) (nodes : List FileNode)
    → n.namespace_id ≡ namespace
    → find? (at_path namespace dst) nodes ≡ none
    → find? (λ r. r.pk == n.pk) nodes ≡ some n
    → find? (at_path namespace dst) (renamed e n.pk dst nodes) ≡ some (moved e dst n)
find?-renamed e namespace dst n [] same absent found = ground arith
find?-renamed e namespace dst n (x ∷ nodes) same absent found =
    ground (arith, text_eq_refl dst, find?-renamed e namespace dst n nodes same)

not_taken :
    (namespace pk : ℕ) (dst : Text) (nodes : List FileNode)
    → find? (at_path namespace dst) nodes ≡ none
    → any (λ r. at_path namespace dst r && not (r.pk == pk)) nodes ≡ false
not_taken namespace pk dst [] h = refl
not_taken namespace pk dst (x ∷ nodes) h = ground (arith, not_taken namespace pk dst nodes)

module _ (e : Environment) (namespace : ℕ) (raw_src raw_dst src dst : Text) (overwrite : Bool)
    (db : Db) (from : validate_path e.nfc raw_src ≡ ok src)
    (to : validate_path e.nfc raw_dst ≡ ok dst) (src_not_root : text_eq src (text "/") ≡ false)
    (dst_not_root : text_eq dst (text "/") ≡ false) (different : text_eq src dst ≡ false)
    (c : IsConsistent db) (locked : lock_namespace_for_write namespace db ≡ ok tt)
    (parent : ensure_parent_directory e namespace dst false db ≡ ok tt) where
  -- In a consistent database, a file moved from one valid path below the root to another where
  -- nothing is, with the checks of the namespace and the parent passed, stands at that path with
  -- its key, its content and the time of the move.
  pub move_file-moved :
      (n : FileNode)
      → get_node namespace src db ≡ some n
      → is_directory n.node_type ≡ false
      → get_node namespace dst db ≡ none
      → any_below namespace (child_prefix dst) db ≡ false
      → (db' : Db) × (move_file e namespace raw_src raw_dst overwrite db ≡ (ok tt, db'))
        × (get_node namespace dst db' ≡ some (moved e dst n))
        × (content_of (moved e dst n) db' ≡ content_of n db)
  unfolding move_file move_body save_path ordered_file_blocks mappings_of
  move_file-moved n found typed absent childless =
      let same : n.namespace_id ≡ namespace =
        ground (arith, find?_sound (at_path namespace src) db.nodes n found) in
      let by_key = get_node_by_pk_of_find? (at_path namespace src) db.nodes n c.keys found in
      (
        record db { nodes = renamed e n.pk dst db.nodes },
        ground (arith, not_taken n.namespace_id n.pk dst db.nodes (rw same absent)),
        find?-renamed e namespace dst n db.nodes same absent by_key,
        refl,
      )
