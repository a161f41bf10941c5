-- ===== src/Webdav/Dispatch.antt =====
-- webdav/views.py: `dispatch`, its choice of a handler by the method, its checks before it, and the
-- status that it gives to what a handler raises; webdav/utils.py: the normalisation of a path from a
-- URL.
pub mod Access
use django_fsspec.Prelude.{
  ℕ, ◌≡◌, Bool, true, false, ◌&&◌, not, List, Option, none, some, ◌++◌, arith, if◌then◌else◌,
}
use django_fsspec.Errors.{Error, Result, ok, err}
use django_fsspec.Environment.{Environment}
use django_fsspec.Text.{Text, text, is_empty, strip_slash}
use django_fsspec.Validators.{validate_path}
use django_fsspec.Models.{Db}
use django_fsspec.Models.Query.{get_namespace}
use django_fsspec.Action.{Action}
use django_fsspec.Webdav.Permissions.{User, has_namespace_perm}
use django_fsspec.Webdav.Requests.{Http, Request, header_or}
use django_fsspec.Webdav.Handlers
use django_fsspec.Webdav.Handlers.{Response}
use django_fsspec.Webdav.Propfind
use django_fsspec.Webdav.Propfind.{Item, Propfound}

unfoldable pub normalize_webdav_path : Environment → Text → Result Text
normalize_webdav_path e webdav_path =
    if is_empty webdav_path
    then ok (text "/")
    else validate_path e.nfc (text "/" ++ strip_slash webdav_path)

-- The status of an error that a handler raises; what no clause catches is raised again.
abbrev pub status_of : Error → Result ℕ
status_of Error.file_not_found = ok 404
status_of Error.namespace_not_found = ok 404
status_of Error.file_exists = ok 409
status_of Error.is_a_directory = ok 409
status_of Error.not_a_directory = ok 409
status_of Error.path_validation = ok 400
status_of Error.file_too_large = ok 413
status_of Error.file_conflict = ok 409
status_of Error.data_integrity = ok 409
status_of Error.value_error = ok 400
status_of error = err error

-- What is sent back: a bare status, a file with its headers, or the items of a 207.
pub data Answer : Type 0 where
  plain : ℕ → Answer
  of_file : Response → Answer
  multistatus : List Item → Answer

abbrev as_plain : Result ℕ → Result Answer
as_plain (ok status) = ok (plain status)
as_plain (err error) = err error

-- the `except` clauses around the handler
abbrev pub answered : Result Answer × Db → Result Answer × Db
answered (ok answer, db) = (ok answer, db)
answered (err error, db) = (as_plain (status_of error), db)

-- `request.method.upper()`; `unknown` is any name that the view has no attribute of.
pub data Method : Type 0 where
  get head put delete options propfind proppatch mkcol copy move unknown : Method

-- `request.method.upper() in _WRITE_METHODS`
abbrev pub is_write_method : Method → Bool
is_write_method Method.put = true
is_write_method Method.delete = true
is_write_method Method.copy = true
is_write_method Method.move = true
is_write_method Method.mkcol = true
is_write_method Method.proppatch = true
is_write_method _ = false

abbrev of_response : Result Response → Result Answer
of_response (ok response) = ok (of_file response)
of_response (err error) = err error

abbrev of_propfound : Result Propfound → Result Answer
of_propfound (ok (Propfound.refused status)) = ok (plain status)
of_propfound (ok (Propfound.multistatus items)) = ok (multistatus items)
of_propfound (err error) = err error

abbrev with_status : Action ℕ → Action Answer
with_status m db = let (r, db') = m db in (as_plain r, db')

abbrev depth_of : Http → Request → Text
depth_of http r = http.lower (http.strip (header_or (text "1") r.depth))

-- The handler that `dispatch` takes for the method, or `http_method_not_allowed`.
unfoldable pub handle_method : Environment → Http → Request → Method → ℕ → Text → Action Answer
handle_method e http r Method.get namespace path db =
    (of_response (Handlers.get e http r namespace path db), db)
handle_method e http r Method.head namespace path db =
    (of_response (Handlers.head e namespace path db), db)
handle_method e http r Method.put namespace path db =
    with_status (Handlers.put e http r namespace path) db
handle_method e http r Method.delete namespace path db =
    with_status (Handlers.delete e namespace path) db
handle_method e http r Method.options namespace path db = (ok (plain 204), db)
handle_method e http r Method.propfind namespace path db = (
  of_propfound (Propfind.propfind e http.quote (depth_of http r) r.path_info namespace path db),
  db,
)
handle_method e http r Method.proppatch namespace path db = (ok (plain 405), db)
handle_method e http r Method.mkcol namespace path db =
    with_status (Handlers.mkcol e namespace path) db
handle_method e http r Method.copy namespace path db =
    with_status (Handlers.copy_or_move e http r true namespace path) db
handle_method e http r Method.move namespace path db =
    with_status (Handlers.copy_or_move e http r false namespace path) db
handle_method e http r Method.unknown namespace path db = (ok (plain 405), db)

abbrev is_logged_in : Option User → Bool
is_logged_in none = false
is_logged_in (some user) = user.is_authenticated

abbrev is_missing_namespace : ℕ → Db → Bool
is_missing_namespace namespace_id db = elim (get_namespace namespace_id db) [
  | none ↦ true
  | some _ ↦ false
]

-- `dispatch` once the path is normalised
unfoldable pub dispatch_at :
    Environment → Http → Request → Option User → Bool → Method → ℕ → Text → Action Answer
dispatch_at e http r user basic_auth method namespace_id path db =
    if is_missing_namespace namespace_id db
    then (ok (plain 404), db)
    else if is_write_method method && not basic_auth
    then (ok (plain 401), db)
    else if not (has_namespace_perm user namespace_id (is_write_method method) db)
    then (ok (plain (if is_logged_in user then 403 else 401)), db)
    else answered (handle_method e http r method namespace_id path db)

-- `dispatch`; `basic_auth` says that the request came through the Basic middleware.
unfoldable pub dispatch :
    Environment → Http → Request → Option User → Bool → Method → ℕ → Text → Action Answer
dispatch e http r user basic_auth method namespace_id webdav_path db =
    elim (normalize_webdav_path e webdav_path) [
      | err error ↦ (as_plain (status_of error), db)
      | ok path ↦ dispatch_at e http r user basic_auth method namespace_id path db
    ]
