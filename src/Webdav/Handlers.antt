-- ===== src/Webdav/Handlers.antt =====
-- webdav/views.py: the handlers of the methods. A handler that writes returns the status of its
-- response; `get` also returns what its response holds, with the chunks that its stream yields.
pub mod Reading
pub mod PutGet
use django_fsspec.Prelude.{
  ℕ, ◌-◌, Bool, true, false, ◌&&◌, ◌||◌, not, List, [], ◌∷◌, Option, none, some, if◌then◌else◌,
}
use django_fsspec.Prelude.Int.{ℤ, pos}
use django_fsspec.Errors.{Error, Result, ok, err, is_file_not_found}
use django_fsspec.Environment.{Bytes, Environment}
use django_fsspec.Text.{Text, text, text_eq, is_empty}
use django_fsspec.Models.{Db}
use django_fsspec.Action.{Action, pure, lift, query_or_raise, ◌>>=◌, ◌>>◌}
use django_fsspec.Operations.Info.{Info, get_file_info, file_exists}
use django_fsspec.Operations.Directory.{is_directory_kind, delete_file}
use django_fsspec.Operations.Ranges.{read_file_streaming_range}
use django_fsspec.Operations.Transfer.{copy_file, move_file}
use django_fsspec.Operations.Writer.{Mode, Writer, new_writer, start, commit}
use django_fsspec.Operations.Write.{discard_on_error, write_all}
use django_fsspec.FileSystem.{mkdir, run}
use django_fsspec.Webdav.Requests.{
  Http, Request, header_or, parse_range_header, parse_destination, resolve_content_type, make_etag,
}

-- What `get` and `head` answer. Headers that are not set are `none`; the body is what the stream
-- yields or raises.
pub record Response : Type 0 where
  pub status : ℕ
  pub content_length : Option ℕ
  pub content_range : Option (ℕ × ℕ)
  pub etag : Text
  pub content_type : Text
  pub body : Result (List Bytes)

-- a response with an error status, and 416 with its size
abbrev pub plain_status : ℕ → Response
plain_status status = record {
  status = status;
  content_length = none;
  content_range = none;
  etag = [];
  content_type = [];
  body = ok [];
}

abbrev or_octets : Option Text → Text
or_octets none = text "application/octet-stream"
or_octets (some t) = if is_empty t then text "application/octet-stream" else t

-- the headers that `head` and `get` give a file
abbrev pub described_by : Info → Result (List Bytes) → Response
described_by info body = record {
  status = 200;
  content_length = some info.size;
  content_range = none;
  etag = make_etag (header_or [] info.checksum);
  content_type = or_octets info.content_type;
  body = body;
}

-- the Range header, unless `If-Range` names another content
abbrev effective_range : Request → Text → Text
effective_range r etag = elim r.if_range [
  | none ↦ header_or [] r.range
  | some tag ↦ if text_eq tag etag then header_or [] r.range else []
]

-- The answer to a request for a file.
abbrev get_of_file : Environment → Http → Request → ℕ → Text → Info → Db → Response
get_of_file e http r namespace path info db =
    let header = effective_range r (make_etag (header_or [] info.checksum)) in
    let streamed =
      λ (s : ℕ) (t : ℕ). read_file_streaming_range e namespace path (pos s) (pos t) none none db in
    if is_empty header
    then described_by info (streamed 0 info.size)
    else elim (parse_range_header http header info.size) [
      | none ↦ plain_status 416
      | some (s, t) ↦ record (described_by info (streamed s t)) {
        status = 206;
        content_length = some (t - s);
        content_range = some (s, t);
      }
    ]

-- what `get` and `head` do with the metadata of the path
abbrev answer_file : Result Info → (Info → Response) → Result Response
answer_file (ok info) answer =
    ok (if is_directory_kind info.kind then plain_status 404 else answer info)
answer_file (err error) answer =
    if is_file_not_found error then ok (plain_status 404) else err error

-- `get`
unfoldable pub get : Environment → Http → Request → ℕ → Text → Db → Result Response
get e http r namespace path db =
    answer_file (get_file_info e namespace path db)
      (λ info. get_of_file e http r namespace path info db)

-- `head`
unfoldable pub head : Environment → ℕ → Text → Db → Result Response
head e namespace path db =
    answer_file (get_file_info e namespace path db) (λ info. described_by info (ok []))

-- The errors that `put` lets through; any other becomes a ValueError.
abbrev as_put_error : Error → Error
as_put_error Error.runtime_error = Error.value_error
as_put_error Error.type_error = Error.value_error
as_put_error Error.django_integrity = Error.value_error
as_put_error Error.protected = Error.value_error
as_put_error Error.does_not_exist = Error.value_error
as_put_error error = error

abbrev translated : {A : Type 0} → Action A → Action A
translated m db =
    let (r, db') = m db in
    elim r [ ok a ↦ (ok a, db') | err error ↦ (err (as_put_error error), db') ]

-- the writer of `put` and its loop over the body
unfoldable pub put_body : Environment → ℕ → Text → Text → List Bytes → Action (Unit {0})
put_body e namespace path content_type body = do
  w ← new_writer e namespace path Mode.wb content_type none
  w' ← start e w
  translated (discard_on_error w' (do written ← write_all e w' body; commit written))
  pure tt

abbrev is_star : Option Text → Bool
is_star none = false
is_star (some t) = text_eq t (text "*")

-- 204 where something was replaced, and 201 where it is new
abbrev replaced_status : Bool → ℕ
replaced_status existed = if existed then 204 else 201

abbrev put_unless : Bool → Environment → Http → Request → ℕ → Text → Action ℕ
put_unless existed e http r namespace path =
    if is_star r.if_none_match && existed then pure 412 else do
      put_body e namespace path (resolve_content_type http path (header_or [] r.content_type))
          r.body
      pure (replaced_status existed)

-- `put`
unfoldable pub put : Environment → Http → Request → ℕ → Text → Action ℕ
put e http r namespace path = if text_eq path (text "/") then pure 405 else do
  existed ← query_or_raise (file_exists e namespace path)
  put_unless existed e http r namespace path

-- `delete`
unfoldable pub delete : Environment → ℕ → Text → Action ℕ
delete e namespace path =
    if text_eq path (text "/") then pure 405 else do delete_file e namespace path true; pure 204

-- `mkcol`
unfoldable pub mkcol : Environment → ℕ → Text → Action ℕ
mkcol e namespace path = if text_eq path (text "/") then pure 405 else do
  there ← query_or_raise (file_exists e namespace path)
  if there then pure 405 else (do mkdir e namespace path false; pure 201)

abbrev copy_or_move_file : Environment → Bool → Bool → ℕ → Text → Text → Action (Unit {0})
copy_or_move_file e is_copy overwrite namespace path dest =
    if is_copy
    then run (copy_file e namespace path dest none)
    else move_file e namespace path dest overwrite

-- where the metadata of the source are a file's
abbrev onto : Environment → Bool → Bool → ℕ → Text → Text → Action ℕ
onto e is_copy overwrite namespace path dest = do
  there ← query_or_raise (file_exists e namespace dest)
  if there && not overwrite then pure 412 else do
    copy_or_move_file e is_copy overwrite namespace path dest
    pure (replaced_status there)

abbrev from_source : Environment → Bool → Bool → ℕ → Text → Text → Action ℕ
from_source e is_copy overwrite namespace path dest db = elim (get_file_info e namespace path db) [
  | err error ↦ (if is_file_not_found error then ok 404 else err error, db)
  | ok info ↦
      if is_directory_kind info.kind
      then (ok 409, db)
      else onto e is_copy overwrite namespace path dest db
]

-- An error of `parse_destination` that is a ValueError answers 400.
abbrev bad_destination : Error → Result ℕ
bad_destination Error.value_error = ok 400
bad_destination Error.data_integrity = ok 400
bad_destination error = err error

-- `_copy_or_move`
unfoldable pub copy_or_move : Environment → Http → Request → Bool → ℕ → Text → Action ℕ
copy_or_move e http r is_copy namespace path db =
    let overwrite = not (text_eq (http.upper (header_or (text "T") r.overwrite)) (text "F")) in
    elim (parse_destination e http r path) [
      | err error ↦ (bad_destination error, db)
      | ok dest ↦
          if text_eq dest path
          then (ok 204, db)
          else if text_eq path (text "/") || text_eq dest (text "/")
          then (ok 405, db)
          else from_source e is_copy overwrite namespace path dest db
    ]
