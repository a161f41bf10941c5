-- ===== src/Operations/Writer/Finalize.antt =====
-- `_finalize` makes the row describe what was written, so that the file passes every read check.
use django_fsspec.Prelude.{
  ℕ, ◌≡◌, refl, ap, ◌∙◌, Bool, true, any, false, not, ◌&&◌, some, find?-map, find?_sound,
  any_of_find?, any-map, update_where, ◌==◌, arith, if◌then◌else◌,
}
use mathlib.Core.Option
use django_fsspec.Errors.{ok}
use django_fsspec.Environment.{Bytes, Environment}
use django_fsspec.Text.{Text, text, text_eq}
use django_fsspec.Text.Laws.{text_eq_refl}
use django_fsspec.Models.{FileNode, Db}
use django_fsspec.Models.Query.{
  get_node, get_node_by_pk, at_path, below_prefix, child_prefix, mappings_of,
}
use django_fsspec.Operations.Content.{path_has_descendants, ordered_file_blocks}
use django_fsspec.Operations.Content.Intact.{IsIntact, content_of}
use django_fsspec.Operations.Frame.{Frame, Frame-updated}
use django_fsspec.Operations.Writer.{Writer, at_version, update_version, finalized, finalize}
use django_fsspec.Operations.Writer.Writing.{Writing}

-- A change of the rows with one key and version that keeps key, namespace and path.
module _ (pk version : ℕ) (change : FileNode → FileNode)
    (same_key : (n : FileNode) → (change n).pk ≡ n.pk)
    (same_namespace : (n : FileNode) → (change n).namespace_id ≡ n.namespace_id)
    (same_path : (n : FileNode) → (change n).path ≡ n.path) (db : Db) where
  abbrev pub changed : FileNode → FileNode
  changed n = if at_version pk version n then change n else n

  abbrev pub updated : Db
  updated = record db { nodes = update_where (at_version pk version) change db.nodes }

  changed_key : (n : FileNode) → (changed n).pk ≡ n.pk
  changed_key n = ground (arith, same_key n)

  pub get_node_by_pk-updated :
      (k : ℕ) → get_node_by_pk k updated ≡ Option.map changed (get_node_by_pk k db)
  get_node_by_pk-updated k =
      find?-map (λ n. n.pk == k) changed (λ n. ap (λ j. j == k) (changed_key n)) db.nodes

  pub get_node-updated :
      (namespace : ℕ) (path : Text)
      → get_node namespace path updated ≡ Option.map changed (get_node namespace path db)
  get_node-updated namespace path =
      find?-map (at_path namespace path) changed
        (λ n. ground (arith, same_namespace n, same_path n)) db.nodes

  pub path_has_descendants-updated :
      (namespace : ℕ) (path : Text) (k : ℕ)
      → path_has_descendants namespace path (some k) updated
        ≡ path_has_descendants namespace path (some k) db
  unfolding path_has_descendants
  path_has_descendants-updated namespace path k =
      let below : FileNode → Bool =
        λ n. below_prefix namespace (child_prefix path) n && not (n.pk == k) in
      ap (λ b. if text_eq path (text "/") then false else b)
        (any-map below changed (λ n. ground (arith, same_key n, same_namespace n, same_path n))
          db.nodes)

  -- A row that is found by its key has its version.
  pub version_found :
      (n : FileNode)
      → get_node_by_pk pk db ≡ some n
      → n.version ≡ version
      → any (at_version pk version) db.nodes ≡ true
  version_found n found v =
      let key = find?_sound (λ (r : FileNode). r.pk == pk) db.nodes n found in
      any_of_find? (λ (r : FileNode). r.pk == pk) (at_version pk version) db.nodes n found
        (ground arith)

  -- Where a row has the key and version, the update is made.
  pub update_version-updated :
      (n : FileNode)
      → get_node_by_pk pk db ≡ some n
      → n.version ≡ version
      → update_version pk version change db ≡ (ok tt, updated)
  unfolding update_version
  update_version-updated n found v = rw (version_found n found v)

  pub updated-Frame : (namespace : ℕ) (path : Text) → Frame pk namespace path db updated
  updated-Frame namespace path =
      Frame-updated pk namespace path (at_version pk version) change (λ n h. ground arith) same_key
        same_namespace same_path db

module _ (e : Environment) (n : FileNode) (w : Writer) (db : Db) {written : Bytes}
    (h : Writing e w db n written) where
  -- the row and the database that `_finalize` leaves
  abbrev pub final_node : FileNode
  final_node = finalized e w n n

  abbrev pub final_db : Db
  final_db = updated n.pk w.initial_version (finalized e w n) (λ _. refl) (λ _. refl) (λ _. refl) db

  changed-target :
      changed n.pk w.initial_version (finalized e w n) (λ _. refl) (λ _. refl) (λ _. refl) db n
      ≡ final_node
  changed-target = ground (arith, h.target.version)

  pub get_node_by_pk-final : get_node_by_pk n.pk final_db ≡ some final_node
  get_node_by_pk-final =
      get_node_by_pk-updated n.pk w.initial_version (finalized e w n) (λ _. refl) (λ _. refl)
        (λ _. refl) db n.pk
      ∙ ap (Option.map _) h.target.by_key
      ∙ ap some changed-target

  pub get_node-final : get_node w.namespace w.path final_db ≡ some final_node
  get_node-final =
      get_node-updated n.pk w.initial_version (finalized e w n) (λ _. refl) (λ _. refl) (λ _. refl)
        db w.namespace w.path
      ∙ ap (Option.map _) h.target.by_path
      ∙ ap some changed-target

  -- `_finalize` finds the row at the version it was started from.
  pub finalize-final : finalize e w db ≡ (ok (record w { file_node = some final_node }), final_db)
  unfolding finalize
  finalize-final = ground (
    arith,
    h.target.target,
    get_node_by_pk-final,
    update_version-updated n.pk w.initial_version (finalized e w n) (λ _. refl) (λ _. refl)
        (λ _. refl) db n h.target.by_key h.target.version,
  )

  pub content_of-final : content_of final_node final_db ≡ written
  unfolding ordered_file_blocks mappings_of
  content_of-final = h.rows.content

  -- The finished file passes every check of the readers.
  pub final_node-IsIntact : IsIntact e final_node final_db
  unfolding ordered_file_blocks mappings_of
  final_node-IsIntact = record {
    typed = h.target.typed;
    childless =
        path_has_descendants-updated n.pk w.initial_version (finalized e w n) (λ _. refl)
          (λ _. refl) (λ _. refl) db n.namespace_id n.path n.pk
        ∙ h.target.childless;
    contiguous = h.rows.contiguous;
    blocks = h.rows.intact;
    sized = ground (arith, h.sized, h.rows.content);
    hashed = ground (arith, h.hashed, h.rows.content, text_eq_refl (e.sha256 written));
  }

  pub final-Frame : (namespace : ℕ) (path : Text) → Frame n.pk namespace path db final_db
  final-Frame =
      updated-Frame n.pk w.initial_version (finalized e w n) (λ _. refl) (λ _. refl) (λ _. refl) db
