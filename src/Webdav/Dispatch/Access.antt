-- ===== src/Webdav/Dispatch/Access.antt =====
-- webdav/views.py: what `dispatch` lets a request change, and learn.
use django_fsspec.Prelude.{
  ℕ, ◌≡◌, refl, ◌∙◌, ◌⊎◌, inl, inr, Bool, true, false, ◌&&◌, Option, none, some, List, arith,
  Bool-cases,
}
use django_fsspec.Errors.{Error, Result, ok, err}
use django_fsspec.Environment.{Environment}
use django_fsspec.Text.{Text}
use django_fsspec.Models.{FileNode, StorageBlock, FileBlock, Db}
use django_fsspec.Webdav.Permissions.{User, has_namespace_perm, has_namespace_perm-write_read}
use django_fsspec.Webdav.Requests.{Http, Request}
use django_fsspec.Webdav.Dispatch.{
  Method, is_write_method, handle_method, dispatch, dispatch_at, normalize_webdav_path, answered,
  Answer,
}

-- A method that is not among the writing ones changes nothing.
read_only :
    (e : Environment) (http : Http) (r : Request) (m : Method) (namespace : ℕ) (path : Text)
    (db : Db)
    → is_write_method m ≡ false
    → (handle_method e http r m namespace path db).1 ≡ db
unfolding handle_method
read_only e http r Method.get namespace path db h = refl
read_only e http r Method.head namespace path db h = refl
read_only e http r Method.put namespace path db h = ground arith
read_only e http r Method.delete namespace path db h = ground arith
read_only e http r Method.options namespace path db h = refl
read_only e http r Method.propfind namespace path db h = refl
read_only e http r Method.proppatch namespace path db h = refl
read_only e http r Method.mkcol namespace path db h = ground arith
read_only e http r Method.copy namespace path db h = ground arith
read_only e http r Method.move namespace path db h = ground arith
read_only e http r Method.unknown namespace path db h = refl

answered-db : (p : Result Answer × Db) → (answered p).1 ≡ p.1
answered-db (ok a, db) = refl
answered-db (err x, db) = refl

Result-cases : (r : Result Text) → ((x : Error) × (r ≡ err x)) ⊎ ((t : Text) × (r ≡ ok t))
Result-cases (ok t) = inr (t, refl)
Result-cases (err x) = inl (x, refl)

-- The permissions depend on the namespaces alone.
has_namespace_perm-tables :
    (user : Option User) (namespace : ℕ) (require_write : Bool) (db : Db) (nodes : List FileNode)
    (blocks : List StorageBlock) (file_blocks : List FileBlock)
    → has_namespace_perm user namespace require_write
        (record db { nodes = nodes; blocks = blocks; file_blocks = file_blocks })
      ≡ has_namespace_perm user namespace require_write db
unfolding has_namespace_perm
has_namespace_perm-tables none namespace require_write db nodes blocks file_blocks = refl
has_namespace_perm-tables (some user) namespace require_write db nodes blocks file_blocks = refl

-- Who may not read may do nothing.
no_perm :
    (user : Option User) (namespace : ℕ) (require_write : Bool) (db : Db)
    → has_namespace_perm user namespace false db ≡ false
    → has_namespace_perm user namespace require_write db ≡ false
no_perm user namespace false db no_read = no_read
no_perm user namespace true db no_read =
    ground (arith, no_read, has_namespace_perm-write_read user namespace db)

module _ (e : Environment) (http : Http) (r : Request) (user : Option User) (basic_auth : Bool)
    (m : Method) (namespace : ℕ) (db : Db) where
  dispatch_at-guarded :
      (path : Text)
      → ((dispatch_at e http r user basic_auth m namespace path db).1 ≡ db)
        ⊎ ((basic_auth ≡ true) × (has_namespace_perm user namespace true db ≡ true))
  unfolding dispatch_at
  dispatch_at-guarded path = elim (Bool-cases (is_write_method m)) [
    | inl writes ↦ elim (Bool-cases (basic_auth && has_namespace_perm user namespace true db)) [
      | inl may ↦ inr (ground (arith, may), ground (arith, may))
      | inr may_not ↦ inl (ground (arith, writes, may_not))
    ]
    | inr reads ↦
        let kept =
          answered-db (handle_method e http r m namespace path db)
          ∙ read_only e http r m namespace path db reads in
        inl (ground (arith, reads, kept))
  ]

  -- Whatever its method, its user and its path, a request changes the database only where it came
  -- through Basic authentication and its user may write the namespace.
  pub dispatch-guarded :
      (webdav_path : Text)
      → ((dispatch e http r user basic_auth m namespace webdav_path db).1 ≡ db)
        ⊎ ((basic_auth ≡ true) × (has_namespace_perm user namespace true db ≡ true))
  unfolding dispatch
  dispatch-guarded webdav_path = elim (Result-cases (normalize_webdav_path e webdav_path)) [
    | inl (x, refused) ↦ inl (rw (refused, dispatch) refl)
    | inr (path, normal) ↦ rw (normal, dispatch) (dispatch_at-guarded path)
  ]

  module _ (nodes : List FileNode) (blocks : List StorageBlock) (file_blocks : List FileBlock)
      (no_read : has_namespace_perm user namespace false db ≡ false) where
    abbrev others : Db
    others = record db { nodes = nodes; blocks = blocks; file_blocks = file_blocks }

    dispatch_at-secret :
        (path : Text)
        → (dispatch_at e http r user basic_auth m namespace path others).0
          ≡ (dispatch_at e http r user basic_auth m namespace path db).0
    unfolding dispatch_at
    dispatch_at-secret path =
        let denied = no_perm user namespace (is_write_method m) db no_read in
        let same =
          has_namespace_perm-tables user namespace (is_write_method m) db nodes blocks
            file_blocks in
        ground (arith, denied, same)

    -- Whatever its method and its path, a request of a user who may not read the namespace is
    -- answered in the same way whatever the tables of nodes, blocks and mappings hold.
    pub dispatch-secret :
        (webdav_path : Text)
        → (dispatch e http r user basic_auth m namespace webdav_path
            (record db { nodes = nodes; blocks = blocks; file_blocks = file_blocks })).0
          ≡ (dispatch e http r user basic_auth m namespace webdav_path db).0
    unfolding dispatch
    dispatch-secret webdav_path = elim (Result-cases (normalize_webdav_path e webdav_path)) [
      | inl (x, refused) ↦ rw (refused, dispatch) refl
      | inr (path, normal) ↦ rw (normal, dispatch) (dispatch_at-secret path)
    ]
