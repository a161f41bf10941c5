-- ===== src/Operations/Writer/Start.antt =====
-- `start`, where its checks pass: the writer stands on its row with the content that its mode keeps.
use django_fsspec.Prelude.{
  ℕ, ◌<◌, ◌≡◌, refl, ◌≢◌, false, ◌||◌, Option, none, some, [], length, find?_sound, all_of_find?,
  arith, all, true,
}
use django_fsspec.Errors.{ok}
use django_fsspec.Environment.{Bytes, Environment, HasFreshKeys}
use django_fsspec.Text.{Text}
use django_fsspec.Text.Laws.{text_eq_sound}
use django_fsspec.Models.{FileNode, Db, NodeType, is_file, is_directory}
use django_fsspec.Models.Query.{get_node, get_node_by_pk, any_below, at_path, child_prefix}
use django_fsspec.Models.Consistent.{IsConsistent, node_keys, get_node_by_pk_of_find?}
use django_fsspec.Operations.Content.{path_has_descendants}
use django_fsspec.Operations.Content.Intact.{IsIntact, content_of}
use django_fsspec.Operations.Frame.{Frame, Frame-refl, only_at, only_at-fresh, only_at-found}
use django_fsspec.Operations.Paths.{
  ensure_parent_directory, ensure_file_target, lock_namespace_for_write,
}
use django_fsspec.Operations.Writer.{
  Mode, Writer, fresh_writer, create_target, prepare_target, start, start_body, with_node, resumed,
}
use django_fsspec.Operations.Writer.Writing.{Writing, HasTarget, HasRows}
use django_fsspec.Operations.Writer.Create.{
  created, created_db, create_target-created, created-HasTarget, created-HasRows, created-Frame,
}
use django_fsspec.Operations.Writer.Truncate.{
  truncated_node, truncated_db, truncate_target-truncated, truncated-HasTarget, truncated-HasRows,
  truncated-Frame,
}
use django_fsspec.Operations.Writer.Resume.{
  resumed-HasTarget, resumed-HasRows, resume_target-resumed,
}

-- What `_ensure_file_target` says of the row that it returns.
module _ (namespace : ℕ) (path : Text) (db : Db) where
  pub target_absent :
      ensure_file_target namespace path db ≡ ok none
      → (get_node namespace path db ≡ none) × (any_below namespace (child_prefix path) db ≡ false)
  unfolding ensure_file_target
  target_absent h = ground arith

  pub target_present :
      (old : FileNode)
      → IsConsistent db
      → ensure_file_target namespace path db ≡ ok (some old)
      → (get_node namespace path db ≡ some old)
        × (get_node_by_pk old.pk db ≡ some old)
        × (old.node_type ≡ NodeType.file)
        × (old.namespace_id ≡ namespace)
        × (old.path ≡ path)
        × (path_has_descendants namespace path (some old.pk) db ≡ false)
  unfolding ensure_file_target
  target_present old c h =
      let found : get_node namespace path db ≡ some old = ground arith in
      let sound = find?_sound (at_path namespace path) db.nodes old found in
      let typed =
        all_of_find? (at_path namespace path) (λ n. is_file n.node_type || is_directory n.node_type)
          db.nodes old found c.types in
      (
        found,
        get_node_by_pk_of_find? (at_path namespace path) db.nodes old c.keys found,
        ground arith,
        ground arith,
        text_eq_sound old.path path (ground arith),
        ground arith,
      )

-- A writer that goes on from `w` inside the transaction that began at `before`.
pub record Follows (w : Writer) (before : Db) (w' : Writer) : Type 0 where
  pub namespace : w'.namespace ≡ w.namespace
  pub path : w'.path ≡ w.path
  pub mode : w'.mode ≡ w.mode
  pub content_type : w'.content_type ≡ w.content_type
  pub block_size : w'.stored_block_size ≡ w.stored_block_size
  pub limit : w'.max_file_size ≡ w.max_file_size
  pub transaction : w'.transaction ≡ some before

-- `start` succeeds with a writer that holds `content`, and changes no other file.
pub record Starts (e : Environment) (w : Writer) (db : Db) (content : Bytes) : Type 0 where
  pub writer : Writer
  pub after : Db
  pub node : FileNode
  pub runs : start e w db ≡ (ok writer, after)
  pub writing : Writing e writer after node content
  pub follows : Follows w db writer
  pub only : all (only_at node.pk w.namespace w.path) db.nodes ≡ true
  pub frame : Frame node.pk w.namespace w.path db after

-- The checks of `start` pass.
pub record Admits (e : Environment) (namespace : ℕ) (path : Text) (existing : Option FileNode)
    (db : Db) : Type 0 where
  pub locked : lock_namespace_for_write namespace db ≡ ok tt
  pub parent : ensure_parent_directory e namespace path false db ≡ ok tt
  pub target : ensure_file_target namespace path db ≡ ok existing

module _ (e : Environment) (namespace : ℕ) (path : Text) (mode : Mode) (content_type : Text)
    (block_size : Option ℕ) (db : Db) (existing : Option FileNode)
    (admits : Admits e namespace path existing db) where
  abbrev w₀ : Writer
  w₀ = fresh_writer e namespace path mode content_type block_size

  start-prepared :
      (w : Writer) (after : Db)
      → prepare_target e w₀ mode existing db ≡ (ok w, after)
      → start e w₀ db ≡ (ok (record w { transaction = some db }), after)
  unfolding start start_body
  start-prepared w after h = ground (arith, h, admits.locked, admits.parent, admits.target)

  -- The writer that `prepare_target` leaves, with its row and its content.
  starts :
      (w : Writer) (after : Db) (n : FileNode) (content : Bytes)
      → prepare_target e w₀ mode existing db ≡ (ok w, after)
      → 0 < w.stored_block_size
      → w.closed ≡ false
      → w.hashed ≡ content
      → w.size ≡ length content
      → HasTarget w after n
      → HasRows e after n w.sequence content
      → Follows w₀ db (record w { transaction = some db })
      → all (only_at n.pk namespace path) db.nodes ≡ true
      → Frame n.pk namespace path db after
      → Starts e w₀ db content
  starts w after n content h positive opened hashed sized target rows follows only frame = record {
    writer = record w { transaction = some db };
    after = after;
    node = n;
    runs = start-prepared w after h;
    writing = record {
      started = refl;
      opened = opened;
      positive = positive;
      hashed = hashed;
      sized = sized;
      target = record {
        target = target.target;
        by_key = target.by_key;
        by_path = target.by_path;
        version = target.version;
        typed = target.typed;
        childless = target.childless;
      };
      rows = rows;
    };
    follows = follows;
    only = only;
    frame = frame;
  }

prepare_target-created :
    (e : Environment) (w : Writer) (mode : Mode) (n : FileNode) (db after : Db)
    → mode ≢ Mode.unsupported
    → create_target e w db ≡ (ok n, after)
    → prepare_target e w mode none db ≡ (ok (with_node w n), after)
unfolding prepare_target
prepare_target-created e w Mode.wb n db after h made = ground (arith, made)
prepare_target-created e w Mode.ab n db after h made = ground (arith, made)
prepare_target-created e w Mode.xb n db after h made = ground (arith, made)
prepare_target-created e w Mode.unsupported n db after h made = absurd (h refl)

module _ (e : Environment) (fresh : HasFreshKeys e) (namespace : ℕ) (path : Text)
    (content_type : Text) (block_size : Option ℕ) (db : Db) (c : IsConsistent db)
    (positive : 0
      < (fresh_writer e namespace path Mode.wb content_type block_size).stored_block_size) where
  -- On a path where nothing is, each mode starts with an empty file.
  pub Starts-created :
      (mode : Mode)
      → mode ≢ Mode.unsupported
      → Admits e namespace path none db
      → Starts e (fresh_writer e namespace path mode content_type block_size) db []
  Starts-created mode supported admits =
      let w = fresh_writer e namespace path mode content_type block_size in
      let (absent, childless) = target_absent namespace path db admits.target in
      let n = created e fresh w db c absent childless in
      let after = created_db e fresh w db c absent childless in
      starts e namespace path mode content_type block_size db none admits (with_node w n) after n []
        (prepare_target-created e w mode n db after supported
          (create_target-created e fresh w db c absent childless))
        positive refl refl refl (created-HasTarget e fresh w db c absent childless)
        (created-HasRows e fresh w db c absent childless)
        (record {
          namespace = refl;
          path = refl;
          mode = refl;
          content_type = refl;
          block_size = refl;
          limit = refl;
          transaction = refl;
        })
        (only_at-fresh n.pk namespace path db.nodes (fresh (node_keys db.nodes)))
        (created-Frame e fresh w db c absent childless)

  module _ (old : FileNode) (admits : Admits e namespace path (some old) db) where
    abbrev ChildlessOld : Type 0
    ChildlessOld = path_has_descendants old.namespace_id old.path (some old.pk) db ≡ false

    only_at_target :
        get_node namespace path db ≡ some old
        → get_node_by_pk old.pk db ≡ some old
        → all (only_at old.pk namespace path) db.nodes ≡ true
    only_at_target found key =
        only_at-found old.pk namespace path old db.nodes c.keys key
          (find?_sound (at_path namespace path) db.nodes old found)

    -- "wb" starts a file that exists with no content.
    pub Starts-truncated :
        Starts e (fresh_writer e namespace path Mode.wb content_type block_size) db []
    unfolding prepare_target
    Starts-truncated =
        let w = fresh_writer e namespace path Mode.wb content_type block_size in
        let (found, key, typed, ns, p, childless) =
          target_present namespace path db old c admits.target in
        let none_below : ChildlessOld = rw (ns, p) childless in
        let n = truncated_node e w old db key found typed none_below in
        let after = truncated_db e w old db key found typed none_below in
        starts e namespace path Mode.wb content_type block_size db (some old) admits (with_node w n)
          after n [] (truncate_target-truncated e w old db key found typed none_below) positive refl
          refl refl (truncated-HasTarget e w old db key found typed none_below)
          (truncated-HasRows e w old db key found typed none_below)
          (record {
            namespace = refl;
            path = refl;
            mode = refl;
            content_type = refl;
            block_size = refl;
            limit = refl;
            transaction = refl;
          })
          (only_at_target found key) (truncated-Frame e w old db key found typed none_below)

    -- "ab" starts an intact file that exists with the content that it has.
    pub Starts-resumed :
        IsIntact e old db
        → Starts e
            (fresh_writer e namespace path Mode.ab content_type block_size)
            db
            (content_of old db)
    unfolding prepare_target
    Starts-resumed intact =
        let w = fresh_writer e namespace path Mode.ab content_type block_size in
        let (found, key, typed, ns, p, childless) =
          target_present namespace path db old c admits.target in
        starts e namespace path Mode.ab content_type block_size db (some old) admits
          (resumed w old db) db old (content_of old db)
          (resume_target-resumed e w old db c key found intact) positive refl refl intact.sized
          (resumed-HasTarget e w old db c key found intact)
          (resumed-HasRows e w old db c key found intact)
          (record {
            namespace = refl;
            path = refl;
            mode = refl;
            content_type = refl;
            block_size = refl;
            limit = refl;
            transaction = refl;
          })
          (only_at_target found key) (Frame-refl old.pk namespace path db)
