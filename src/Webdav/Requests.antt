-- ===== src/Webdav/Requests.antt =====
-- webdav/views.py, webdav/utils.py and webdav/auth.py: what is read from a request. Python's text and
-- URL functions are parameters.
pub mod Bounds
use django_fsspec.Prelude.{
  ℕ, ◌+◌, ◌-◌, min, Bool, true, false, ◌&&◌, ◌||◌, not, List, [], ◌∷◌, ◌++◌, Option, none, some,
  length, drop, take, contains, leb, ltb, ◌==◌, if◌then◌else◌,
}
use django_fsspec.Prelude.Int.{ℤ, pos, negsuc, ◌+ℤ◌}
use django_fsspec.Errors.{Error, Result, ok, err}
use django_fsspec.Environment.{Bytes, Environment}
use django_fsspec.Text.{Text, text, text_eq, is_empty, starts_with, ends_with_slash, strip_slash}
use django_fsspec.Validators.{validate_path}
use django_fsspec.Webdav.Permissions.{User}

-- What the code takes from Python and Django.
pub record Http : Type 0 where
  -- `s.strip()`, `int(s)` with `none` for ValueError, `s.upper()`, `s.lower()`
  pub strip : Text → Text
  pub int : Text → Option ℤ
  pub upper : Text → Text
  pub lower : Text → Text
  -- `urllib.parse.quote`
  pub quote : Text → Text
  -- `urlparse(s).netloc`, and `unquote(urlparse(s).path)`
  pub netloc : Text → Text
  pub url_path : Text → Text
  -- `mimetypes.guess_type(path)[0]`
  pub guess_type : Text → Option Text
  -- `base64.b64decode(s).decode("utf-8")`, `none` for its errors
  pub decode_basic : Text → Option Text
  -- `authenticate`
  pub authenticate : Text → Text → Option User

-- Headers that a request lacks are `none`.
pub record Request : Type 0 where
  pub path_info : Text
  pub host : Text
  pub depth : Option Text
  pub range : Option Text
  pub if_range : Option Text
  pub if_none_match : Option Text
  pub overwrite : Option Text
  pub destination : Option Text
  pub content_type : Option Text
  pub authorization : Option Text
  -- the reads of the body, up to the first that is empty
  pub body : List Bytes

-- `headers.get(…, d)`
abbrev pub header_or : Text → Option Text → Text
header_or d none = d
header_or d (some t) = t

-- what stands after the first of a character, if there is one
abbrev pub after_first : ℕ → Text → Option Text
after_first d [] = none
after_first d (c ∷ s) = let rest = after_first d s in if c == d then some s else rest

-- what stands before the first of a character
abbrev pub before_first : ℕ → Text → Text
before_first d [] = []
before_first d (c ∷ s) = let rest = before_first d s in if c == d then [] else c ∷ rest

abbrev byte_unit : Text
byte_unit = text "bytes="

-- the bounds, with the end that the request names excluded
abbrev pub bounds_within : ℕ → ℤ → ℤ → Option (ℕ × ℕ)
bounds_within size (negsuc s) stop = none
bounds_within size (pos s) (negsuc t) = none
bounds_within size (pos s) (pos t) = if leb t s || leb size s then none else some (s, min t size)

-- `end = file_size`, or `int(end_str) + 1`
abbrev range_end : Http → ℕ → Text → Option ℤ
range_end http size end_str =
    if is_empty end_str
    then some (pos size)
    else elim (http.int end_str) [ none ↦ none | some t ↦ some (t +ℤ pos 1) ]

abbrev range_bounds : Http → ℕ → Text → Text → Option (ℕ × ℕ)
range_bounds http size start_str end_str = elim (http.int start_str) [
  | none ↦ none
  | some s ↦ elim (range_end http size end_str) [ none ↦ none | some t ↦ bounds_within size s t ]
]

-- The range after the unit and the strip, cut at its first dash.
abbrev parse_spec : Http → ℕ → Text → Option (ℕ × ℕ)
parse_spec http size spec = if contains b',' spec then none else elim (after_first b'-' spec) [
  | none ↦ none
  | some end_str ↦
      let start_str = before_first b'-' spec in
      if is_empty start_str then none else range_bounds http size start_str end_str
]

-- `_parse_range_header`
unfoldable pub parse_range_header : Http → Text → ℕ → Option (ℕ × ℕ)
parse_range_header http header size =
    if not (starts_with byte_unit header)
    then none
    else parse_spec http size (http.strip (drop (length byte_unit) header))

-- `s.endswith(suffix)`, and `s[:-len(suffix)]` for it
abbrev pub ends_with : Text → Text → Bool
ends_with suffix s =
    leb (length suffix) (length s) && text_eq (drop (length s - length suffix) s) suffix

abbrev without_end : Text → Text → Text
without_end suffix s = take (length s - length suffix) s

abbrev with_slash : Text → Text
with_slash s = if ends_with_slash s then s else s ++ text "/"

-- `_webdav_prefix`
unfoldable pub webdav_prefix : Text → Text → Result Text
webdav_prefix path_info source_path =
    if text_eq source_path (text "/")
    then ok (with_slash path_info)
    else if ends_with source_path path_info
    then ok (with_slash (without_end source_path path_info))
    else err Error.value_error

abbrev inside_prefix : Environment → Text → Text → Result Text
inside_prefix e dest_path prefix =
    if starts_with prefix dest_path
    then validate_path e.nfc (text "/" ++ strip_slash (drop (length prefix) dest_path))
    else err Error.value_error

abbrev on_host : Http → Request → Text → Bool
on_host http r destination =
    is_empty (http.netloc destination) || text_eq (http.netloc destination) r.host

-- `parse_destination`
unfoldable pub parse_destination : Environment → Http → Request → Text → Result Text
parse_destination e http r source_path =
    let destination = header_or [] r.destination in
    if is_empty destination
    then err Error.value_error
    else if not (on_host http r destination)
    then err Error.value_error
    else elim (webdav_prefix r.path_info source_path) [
      | err error ↦ err error
      | ok prefix ↦ inside_prefix e (http.url_path destination) prefix
    ]

-- `resolve_content_type`
unfoldable pub resolve_content_type : Http → Text → Text → Text
resolve_content_type http path provided =
    if not (is_empty provided) then provided else elim (http.guess_type path) [
      | none ↦ text "application/octet-stream"
      | some guessed ↦ if is_empty guessed then text "application/octet-stream" else guessed
    ]

-- `make_etag`
abbrev pub make_etag : Text → Text
make_etag checksum = b'"' ∷ checksum ++ b'"' ∷ []

abbrev credentials : Http → Option Text → Option User
credentials http none = none
credentials http (some decoded) = elim (after_first b':' decoded) [
  | none ↦ none
  | some password ↦ http.authenticate (before_first b':' decoded) password
]

-- `BasicAuthMiddleware._authenticate`
unfoldable pub authenticate_basic : Http → Request → Option User
authenticate_basic http r =
    let header = header_or [] r.authorization in
    if not (starts_with (text "Basic ") header)
    then none
    else credentials http (http.decode_basic (http.strip (drop 6 header)))

-- What `BasicAuthMiddleware.__call__` does with a request: on with the user that it has, on with a
-- user that it authenticated, or a 401.
pub data Verdict : Type 0 where
  passed unauthorized : Verdict
  as_user : User → Verdict

-- `BasicAuthMiddleware.__call__`
unfoldable pub authenticate_request : Http → Text → Request → Verdict
authenticate_request http path_prefix r =
    if not (starts_with (with_slash path_prefix) r.path_info)
    then Verdict.passed
    else elim (authenticate_basic http r) [
      | none ↦ Verdict.unauthorized
      | some user ↦ Verdict.as_user user
    ]
