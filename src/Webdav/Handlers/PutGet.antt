-- ===== src/Webdav/Handlers/PutGet.antt =====
-- webdav/views.py: a GET that follows a PUT.
use django_fsspec.Prelude.{
  ℕ, ◌≤◌, ◌<◌, ◌≡◌, Bool, false, ◌&&◌, Option, none, List, [], length, flatten, arith, Option-cases,
  inl, inr,
}
use django_fsspec.Errors.{ok}
use django_fsspec.Environment.{Bytes, Environment, HasFreshKeys}
use django_fsspec.Text.{Text, text, text_eq}
use django_fsspec.Validators.{validate_path}
use django_fsspec.Models.{FileNode, Db}
use django_fsspec.Models.Consistent.{IsConsistent}
use django_fsspec.Action.{Action, ◌>>=◌}
use django_fsspec.Action.Laws.{bind-ok}
use django_fsspec.Operations.Info.{file_exists}
use django_fsspec.Operations.Writer.{Mode, Writer, new_writer, start, commit, node_of}
use django_fsspec.Operations.Writer.Start.{Admits}
use django_fsspec.Operations.Write.{stream_file, write_all, discard_on_error}
use django_fsspec.Operations.Write.Stream.{stream_file-Holds}
use django_fsspec.Webdav.Requests.{Http, Request, resolve_content_type, header_or}
use django_fsspec.Webdav.Handlers.{
  Response, get, put, put_body, is_star, replaced_status, translated,
}
use django_fsspec.Webdav.Handlers.Reading.{Delivers, get-Delivers}

translated-ok :
    {A : Type 0}
    → (m : Action A) (db : Db) (a : A) (db' : Db) → m db ≡ (ok a, db')
    → translated m db ≡ (ok a, db')
translated-ok m db a db' h = ground (arith, h)

module _ (e : Environment) (body : List Bytes) where
  -- the part of a write that the discard guards
  abbrev write_body : Writer → Action Writer
  write_body w = discard_on_error w (write_all e w body >>= λ written. commit written)

  node_of-ok : (w : Writer) (db db' : Db) (n : FileNode) → node_of w db ≡ (ok n, db') → db ≡ db'
  node_of-ok w db db' n h = elim (Option-cases w.file_node) [
    | inl none_there ↦ ground (arith, h)
    | inr (m, there) ↦ ground (arith, h)
  ]

  -- Where the loop of `put` succeeds, so does its body.
  put_body-stream_file :
      (namespace : ℕ) (path content_type : Text) (db db' : Db) (node : FileNode)
      → stream_file e namespace path body content_type db ≡ (ok node, db')
      → put_body e namespace path content_type body db ≡ (ok tt, db')
  unfolding stream_file put_body
  put_body-stream_file namespace path content_type db db' node h =
      let (w, db₁, made, h₁) =
        bind-ok (new_writer e namespace path Mode.wb content_type none)
          (λ w. start e w >>= λ w'. write_body w' >>= node_of) db db' h in
      let (w', db₂, begun, h₂) = bind-ok (start e w) (λ w'. write_body w' >>= node_of) db₁ db' h₁ in
      let (w'', db₃, wrote, h₃) = bind-ok (write_body w') node_of db₂ db' h₂ in
      let same = node_of-ok w'' db₃ db' node h₃ in ground (arith, made, begun, wrote, same)

module _ (e : Environment) (fresh : HasFreshKeys e) (http : Http) (namespace : ℕ) (path : Text)
    (db : Db) (valid : validate_path e.nfc path ≡ ok path)
    (not_root : text_eq path (text "/") ≡ false) (c : IsConsistent db) (positive : 0 < e.block_size)
    (existing : Option FileNode) (admits : Admits e namespace path existing db) where
  put-answers :
      (r : Request) (existed : Bool) (db' : Db)
      → file_exists e namespace path db ≡ ok existed
      → (is_star r.if_none_match && existed) ≡ false
      → put_body e namespace path
          (resolve_content_type http path (header_or [] r.content_type))
          r.body
          db
        ≡ (ok tt, db')
      → put e http r namespace path db ≡ (ok (replaced_status existed), db')
  unfolding put
  put-answers r existed db' asked wanted done = ground (arith, not_root, asked, wanted, done)

  -- With fresh keys and a positive block size, in a consistent database, for a valid normalised
  -- path below the root where the checks of `start` pass and a request whose If-None-Match lets it,
  -- a PUT of a body within the limit answers 204 or 201, and a GET without a Range header that
  -- follows answers 200, streams the body and gives its length.
  pub get-put :
      (r r' : Request) (existed : Bool)
      → file_exists e namespace path db ≡ ok existed
      → (is_star r.if_none_match && existed) ≡ false
      → length (flatten r.body) ≤ e.max_file_size
      → r'.range ≡ none
      → (db' : Db) × (put e http r namespace path db ≡ (ok (replaced_status existed), db'))
        × (response : Response) × (get e http r' namespace path db' ≡ ok response)
        × Delivers response 200 (flatten r.body)
  get-put r r' existed asked wanted fits no_range =
      let content_type = resolve_content_type http path (header_or [] r.content_type) in
      let (node, db', runs, holds) =
        stream_file-Holds e fresh namespace path path content_type db valid not_root c positive
          existing r.body admits fits in
      let (response, answered, delivers) =
        get-Delivers e http r' namespace path db' (flatten r.body) valid holds no_range in
      (
        db',
        put-answers r existed db' asked wanted
            (put_body-stream_file e r.body namespace path content_type db db' node runs),
        response,
        answered,
        delivers,
      )
