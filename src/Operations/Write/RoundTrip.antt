-- ===== src/Operations/Write/RoundTrip.antt =====
-- What is written is read back: `write_file`, `create_file_exclusive` and `append_file` against
-- `read_file` under every integrity policy.
use django_fsspec.Prelude.{
  ℕ, all, ◌+◌, ◌≤◌, ◌<◌, ◌≡◌, refl, ◌∙◌, Bool, true, false, Option, none, some, [], ◌++◌, length,
  arith,
}
use django_fsspec.Errors.{ok}
use django_fsspec.Environment.{Bytes, Environment, HasFreshKeys, Integrity}
use django_fsspec.Text.{Text, text, text_eq}
use django_fsspec.Validators.{validate_path}
use django_fsspec.Models.{FileNode, Db}
use django_fsspec.Models.Query.{get_node}
use django_fsspec.Models.Consistent.{IsConsistent}
use django_fsspec.Action.{Action}
use django_fsspec.Operations.Content.{get_read_integrity}
use django_fsspec.Operations.Content.Intact.{IsIntact, content_of, load_file_data-intact}
use django_fsspec.Operations.Info.{read_file}
use django_fsspec.Operations.Frame.{Frame, Frame-trans, only_at}
use django_fsspec.Operations.Writer.{
  Mode, Writer, is_unsupported, new_writer, fresh_writer, write_chunk, finalize, commit,
}
use django_fsspec.Operations.Writer.Writing.{
  Writing, after_chunk, after_chunk-Continues, after_chunk-Writing, write_chunk-after,
  after_chunk-Frame,
}
use django_fsspec.Operations.Writer.Finalize.{
  final_node, final_db, get_node-final, finalize-final, content_of-final, final_node-IsIntact,
  final-Frame,
}
use django_fsspec.Operations.Writer.Start.{
  Starts, Admits, Starts-created, Starts-truncated, Starts-resumed,
}
use django_fsspec.Operations.Write.{write_with_mode, write_file, create_file_exclusive, append_file}

-- A closing chunk is the chunk and then `_finalize`.
pub write_chunk-final :
    (e : Environment) (w w' : Writer) (chunk : Bytes) (db db' : Db)
    → write_chunk e w chunk false db ≡ (ok w', db')
    → write_chunk e w chunk true db ≡ finalize e w' db'
unfolding write_chunk
write_chunk-final e w w' chunk db db' h = ground (arith, h)

-- The path holds an intact file with this content.
pub record Holds (e : Environment) (namespace : ℕ) (path : Text) (bytes : Bytes) (db : Db)
    : Type 0 where
  pub node : FileNode
  pub stored : get_node namespace path db ≡ some node
  pub intact : IsIntact e node db
  pub content : content_of node db ≡ bytes

module _ (e : Environment) (n : FileNode) (w : Writer) (db : Db) {written : Bytes}
    (h : Writing e w db n written) where
  -- The finished file stands at the writer's path.
  pub finalized-Holds : Holds e w.namespace w.path written (final_db e n w db h)
  finalized-Holds = record {
    node = final_node e n w db h;
    stored = get_node-final e n w db h;
    intact = final_node-IsIntact e n w db h;
    content = content_of-final e n w db h;
  }

-- An intact file at a valid path is read whole, with any policy.
pub read_file-Holds :
    (e : Environment) (namespace : ℕ) (raw path : Text) (content : Bytes) (db : Db) (verify : Bool)
    (integrity : Option Integrity) (policy : Integrity)
    → validate_path e.nfc raw ≡ ok path
    → get_read_integrity e integrity verify ≡ ok policy
    → Holds e namespace path content db
    → read_file e namespace raw verify integrity db ≡ ok content
unfolding read_file
read_file-Holds e namespace raw path content db verify integrity policy valid chosen h =
    ground
      (arith, valid, chosen, h.stored, load_file_data-intact e h.node db policy h.intact, h.content)

-- A write returns a node, leaves the path with this content, and changes only the row that stands
-- there.
pub record Writes (e : Environment) (namespace : ℕ) (path : Text) (content : Bytes)
    (run : Action FileNode) (db : Db) : Type 0 where
  pub node : FileNode
  pub after : Db
  pub runs : run db ≡ (ok node, after)
  pub holds : Holds e namespace path content after
  pub stored : get_node namespace path after ≡ some node
  pub intact : IsIntact e node after
  pub content_there : content_of node after ≡ content
  pub key : ℕ
  pub only : all (only_at key namespace path) db.nodes ≡ true
  pub frame : Frame key namespace path db after

abbrev result :
    {e : Environment} {namespace : ℕ} {path : Text} {content : Bytes} {run : Action FileNode}
    {db : Db}
    → Writes e namespace path content run db
    → (node : FileNode) × (db' : Db) × (run db ≡ (ok node, db'))
      × Holds e namespace path content db'
result w = (w.node, w.after, w.runs, w.holds)

module _ (e : Environment) (fresh : HasFreshKeys e) (namespace : ℕ) (raw path : Text)
    (content_type : Text) (db : Db) (valid : validate_path e.nfc raw ≡ ok path)
    (not_root : text_eq path (text "/") ≡ false) where
  -- A started writer, given data within the limit, leaves its content with the data at the end.
  written :
      (mode : Mode) (before added : Bytes)
      → is_unsupported mode ≡ false
      → Starts e (fresh_writer e namespace path mode content_type none) db before
      → length before + length added ≤ e.max_file_size
      → Writes e namespace path
          (before ++ added)
          (write_with_mode e mode namespace raw added content_type)
          db
  unfolding write_with_mode new_writer commit
  written mode before added supported s fits =
      let n = s.node in
      let (w, middle) = after_chunk e n s.writer added s.after in
      let same = after_chunk-Continues e n s.writer added s.after in
      let writing = after_chunk-Writing e fresh n s.writer s.after s.writing added in
      let chunk =
        write_chunk-after e fresh n s.writer s.after s.writing added
          (omega (arith, s.writing.sized, s.follows.limit)) in
      let last = write_chunk-final e s.writer w added s.after middle chunk in
      let done = finalize-final e n w middle writing in
      record {
        node = final_node e n w middle writing;
        after = final_db e n w middle writing;
        runs = ground (arith, valid, not_root, supported, s.runs, last, done, writing.opened);
        holds =
            rw (same.namespace ∙ s.follows.namespace, same.path ∙ s.follows.path) at
              (finalized-Holds e n w middle writing);
        stored =
            rw (same.namespace ∙ s.follows.namespace, same.path ∙ s.follows.path) at
              (get_node-final e n w middle writing);
        intact = final_node-IsIntact e n w middle writing;
        content_there = content_of-final e n w middle writing;
        key = n.pk;
        only = s.only;
        frame = Frame-trans n.pk namespace path s.frame (
            Frame-trans n.pk namespace path
              (after_chunk-Frame e n s.writer added s.after namespace path)
              (final-Frame e n w middle writing namespace path));
      }

  pub write_file-Writes :
      (existing : Option FileNode) (added : Bytes)
      → IsConsistent db
      → 0 < e.block_size
      → Admits e namespace path existing db
      → length added ≤ e.max_file_size
      → Writes e namespace path added (write_file e namespace raw added content_type) db
  unfolding write_file
  write_file-Writes none added c positive admits fits =
      written Mode.wb [] added refl
        (Starts-created e fresh namespace path content_type none db c positive Mode.wb (λ p. cc)
          admits)
        (omega arith)
  write_file-Writes (some old) added c positive admits fits =
      written Mode.wb [] added refl
        (Starts-truncated e fresh namespace path content_type none db c positive old admits)
        (omega arith)

  -- `write_file` on a path where its checks pass, with data within the limit, returns a node and
  -- leaves the path with an intact file whose content is the data.
  pub write_file-Holds :
      (existing : Option FileNode) (added : Bytes)
      → IsConsistent db
      → 0 < e.block_size
      → Admits e namespace path existing db
      → length added ≤ e.max_file_size
      → (node : FileNode) × (db' : Db) × (write_file e namespace raw added content_type db
          ≡ (ok node, db'))
        × Holds e namespace path added db'
  write_file-Holds existing added c positive admits fits =
      result (write_file-Writes existing added c positive admits fits)

  -- With fresh keys and a positive block size, in a consistent database, on a valid path below the
  -- root where nothing is and the checks of `start` pass, `create_file_exclusive` of data within
  -- the limit returns a node and leaves the path with an intact file whose content is the data.
  pub create_file_exclusive-Holds :
      (added : Bytes)
      → IsConsistent db
      → 0 < e.block_size
      → Admits e namespace path none db
      → length added ≤ e.max_file_size
      → (node : FileNode) × (db' : Db) × (create_file_exclusive e namespace raw added content_type
            db
          ≡ (ok node, db'))
        × Holds e namespace path added db'
  unfolding create_file_exclusive
  create_file_exclusive-Holds added c positive admits fits = result (
      written Mode.xb [] added refl
        (Starts-created e fresh namespace path content_type none db c positive Mode.xb (λ p. cc)
          admits)
        (omega arith))

  pub append_file-Writes :
      (old : FileNode) (added : Bytes)
      → IsConsistent db
      → 0 < e.block_size
      → Admits e namespace path (some old) db
      → IsIntact e old db
      → length (content_of old db) + length added ≤ e.max_file_size
      → Writes e namespace path
          (content_of old db ++ added)
          (append_file e namespace raw added content_type)
          db
  unfolding append_file
  append_file-Writes old added c positive admits intact fits =
      written Mode.ab (content_of old db) added refl
        (Starts-resumed e fresh namespace path content_type none db c positive old admits intact)
        fits

  -- `append_file` on an intact file leaves its content followed by the data, where both together
  -- are within the limit.
  pub append_file-Holds :
      (old : FileNode) (added : Bytes)
      → IsConsistent db
      → 0 < e.block_size
      → Admits e namespace path (some old) db
      → IsIntact e old db
      → length (content_of old db) + length added ≤ e.max_file_size
      → (node : FileNode) × (db' : Db) × (append_file e namespace raw added content_type db
          ≡ (ok node, db'))
        × Holds e namespace path (content_of old db ++ added) db'
  append_file-Holds old added c positive admits intact fits =
      result (append_file-Writes old added c positive admits intact fits)

  -- With fresh keys and a positive block size, in a consistent database, on a valid path below the
  -- root where nothing is and the checks of `start` pass, `append_file` of data within the limit
  -- returns a node and leaves the path with an intact file whose content is the data.
  pub append_file_new-Holds :
      (added : Bytes)
      → IsConsistent db
      → 0 < e.block_size
      → Admits e namespace path none db
      → length added ≤ e.max_file_size
      → (node : FileNode) × (db' : Db) × (append_file e namespace raw added content_type db
          ≡ (ok node, db'))
        × Holds e namespace path added db'
  unfolding append_file
  append_file_new-Holds added c positive admits fits = result (
      written Mode.ab [] added refl
        (Starts-created e fresh namespace path content_type none db c positive Mode.ab (λ p. cc)
          admits)
        (omega arith))
