-- ===== src/Tests/Web.antt =====
-- The theorems on WebDAV requests at concrete inputs.
use django_fsspec.Prelude.{
  ◌≡◌, refl, true, false, ◌⊎◌, [], ◌∷◌, some, none, slice, arith, if◌then◌else◌,
}
use django_fsspec.Prelude.Int.{pos, ◌+ℤ◌}
use django_fsspec.Errors.{ok}
use django_fsspec.Text.{text, text_eq}
use django_fsspec.Models.{Db}
use django_fsspec.Models.Query.{mappings_of}
use django_fsspec.Validators.{validate_path}
use django_fsspec.Operations.Content.{ordered_file_blocks}
use django_fsspec.Operations.Info.{file_exists, get_file_info, info_at}
use django_fsspec.Operations.Write.RoundTrip.{Holds}
use django_fsspec.Webdav.Requests.{
  Http, Request, parse_range_header, parse_destination, webdav_prefix,
}
use django_fsspec.Webdav.Requests.Bounds.{AreWithin, parse_range_header-AreWithin}
use django_fsspec.Webdav.Handlers.{Response, get, put}
use django_fsspec.Webdav.Handlers.Reading.{Delivers, get-Delivers_range}
use django_fsspec.Webdav.Handlers.PutGet.{get-put}
use django_fsspec.Webdav.Propfind.{Propfound, propfind}
use django_fsspec.Webdav.Permissions.{has_namespace_perm}
use django_fsspec.Webdav.Dispatch.{Method, dispatch}
use django_fsspec.Webdav.Dispatch.Access.{dispatch-guarded, dispatch-secret}
use django_fsspec.Tests.Clients.{sample_user}
use django_fsspec.Tests.Sample.{env, env-HasFreshKeys, sample_node, db, empty_db}
use django_fsspec.Tests.Witnesses.{
  path_a, path_a-valid, db-IsConsistent, node-Admits, node-IsIntact,
}

-- `int()` on the two texts that the tests read, and URLs of a path alone.
abbrev http : Http
http = record {
  strip = λ t. t;
  int = λ t.
      if text_eq t (text "1")
      then some (pos 1)
      else if text_eq t (text "2")
      then some (pos 2)
      else none;
  upper = λ t. t;
  lower = λ t. t;
  quote = λ t. t;
  netloc = λ t. [];
  url_path = λ t. t;
  guess_type = λ t. none;
  decode_basic = λ t. none;
  authenticate = λ name password. none;
}

abbrev request : Request
request = record {
  path_info = text "/webdav/1/a";
  host = text "host";
  depth = none;
  range = none;
  if_range = none;
  if_none_match = none;
  overwrite = none;
  destination = some (text "/webdav/1/b/");
  content_type = none;
  authorization = none;
  body = (1 ∷ 2 ∷ 3 ∷ []) ∷ (4 ∷ []) ∷ [];
}

abbrev ranged : Request
ranged = record request { range = some (text "bytes=1-2") }

a_Holds : Holds env 1 path_a (21 ∷ 22 ∷ 23 ∷ []) db
unfolding ordered_file_blocks mappings_of
a_Holds = record { node = sample_node; stored = refl; intact = node-IsIntact; content = refl }

a_exists : file_exists env 1 path_a db ≡ ok true
unfolding file_exists validate_path
a_exists = refl

bounds_read : parse_range_header http (text "bytes=1-2") 3 ≡ some (1, 3)
unfolding parse_range_header ◌+ℤ◌
bounds_read = refl

parse_range_header-AreWithin_example : AreWithin 3 1 3
parse_range_header-AreWithin_example =
    parse_range_header-AreWithin http (text "bytes=1-2") 3 1 3 bounds_read

get-Delivers_range_example :
    (response : Response) × (get env http ranged 1 path_a db ≡ ok response)
    × Delivers response 206 (slice 1 3 (21 ∷ 22 ∷ 23 ∷ []))
get-Delivers_range_example =
    get-Delivers_range env http ranged 1 path_a db (21 ∷ 22 ∷ 23 ∷ []) path_a-valid a_Holds
      (text "bytes=1-2") 1 3 refl refl refl bounds_read

get-put_example :
    (db' : Db) × (put env http request 1 path_a db ≡ (ok 204, db'))
    × (response : Response) × (get env http request 1 path_a db' ≡ ok response)
    × Delivers response 200 (1 ∷ 2 ∷ 3 ∷ 4 ∷ [])
get-put_example =
    get-put env env-HasFreshKeys http 1 path_a db path_a-valid refl db-IsConsistent (omega arith)
      (some sample_node) node-Admits request request true a_exists refl (omega arith) refl

runs_destination : parse_destination env http request path_a ≡ ok (text "/b")
unfolding parse_destination webdav_prefix validate_path
runs_destination = refl

-- The root of a namespace without files is not found.
runs_propfind_empty :
    propfind env (λ t. t) (text "1") (text "/webdav/1/") 1 (text "/") empty_db
    ≡ ok (Propfound.refused 404)
unfolding propfind get_file_info info_at validate_path
runs_propfind_empty = refl

dispatch-guarded_example :
    ((dispatch env http request (some (sample_user (7 ∷ []))) true Method.move 1 (text "a") db).1
      ≡ db)
    ⊎ ((true ≡ true) × (has_namespace_perm (some (sample_user (7 ∷ []))) 1 true db ≡ true))
dispatch-guarded_example =
    dispatch-guarded env http request (some (sample_user (7 ∷ []))) true Method.move 1 db (text "a")

stranger_may_not_read : has_namespace_perm (some (sample_user (3 ∷ []))) 1 false db ≡ false
unfolding has_namespace_perm
stranger_may_not_read = refl

dispatch-secret_example :
    (dispatch env http request
      (some (sample_user (3 ∷ [])))
      true
      Method.get
      1
      (text "a")
      (record db { nodes = []; blocks = []; file_blocks = [] })).0
    ≡ (dispatch env http request (some (sample_user (3 ∷ []))) true Method.get 1 (text "a") db).0
dispatch-secret_example =
    dispatch-secret env http request (some (sample_user (3 ∷ []))) true Method.get 1 db [] [] []
      stranger_may_not_read (text "a")
