-- ===== src/Webdav/Handlers/Reading.antt =====
-- webdav/views.py: what GET streams of an intact file.
use django_fsspec.Prelude.{
  ℕ, ◌-◌, ◌≤◌, ◌≡◌, refl, ap, sym, ◌∙◌, false, none, some, List, length, slice, flatten, drop,
  arith, length-drop, take_of_length-le, length-take,
}
use django_fsspec.Errors.{ok}
use django_fsspec.Environment.{Bytes, Environment}
use django_fsspec.Text.{Text, is_empty}
use django_fsspec.Validators.{validate_path}
use django_fsspec.Models.{Db}
use django_fsspec.Operations.Info.{node_info, info_at, get_file_info}
use django_fsspec.Operations.Ranges.{open_for_range}
use django_fsspec.Operations.Ranges.Agree.{read_file_streaming_range-eq-slice}
use django_fsspec.Operations.Write.RoundTrip.{Holds}
use django_fsspec.Webdav.Requests.{Http, Request, parse_range_header}
use django_fsspec.Webdav.Requests.Bounds.{parse_range_header-AreWithin}
use django_fsspec.Webdav.Handlers.{Response, get, described_by, get_of_file}

length-slice :
    {A : Type 0} → (s t : ℕ) (xs : List A) → t ≤ length xs → length (slice s t xs) ≡ t - s
length-slice s t xs h = omega (arith, length-take (t - s) (drop s xs), length-drop s xs)

-- A response whose stream yields the bytes, and whose Content-Length counts them.
pub record Delivers (response : Response) (status : ℕ) (bytes : Bytes) : Type 0 where
  pub answered : response.status ≡ status
  pub chunks : List Bytes
  pub streams : response.body ≡ ok chunks
  pub joined : flatten chunks ≡ bytes
  pub counted : response.content_length ≡ some (length bytes)

module _ (e : Environment) (http : Http) (r : Request) (namespace : ℕ) (path : Text) (db : Db)
    (bytes : Bytes) (valid : validate_path e.nfc path ≡ ok path)
    (h : Holds e namespace path bytes db) where
  opens : open_for_range e namespace path none none db ≡ ok h.node
  unfolding open_for_range
  opens = ground (arith, valid, h.stored, h.intact.typed)

  answers :
      get e http r namespace path db
      ≡ ok (get_of_file e http r namespace path (node_info h.node) db)
  unfolding get get_file_info info_at node_info
  answers = ground (arith, valid, h.stored, h.intact.typed)

  info_size : (node_info h.node).size ≡ length bytes
  unfolding node_info
  info_size = ground (arith, h.intact.typed, h.intact.sized, h.content)

  -- Without a Range header a GET streams the whole of an intact file.
  pub get-Delivers :
      r.range ≡ none
      → (response : Response) × (get e http r namespace path db ≡ ok response)
        × Delivers response 200 bytes
  get-Delivers no_range =
      let n = h.node in
      let (chunks, runs, joined) =
        read_file_streaming_range-eq-slice e namespace path none none db opens 0
          (node_info n).size in
      (
        described_by (node_info n) (ok chunks),
        answers ∙ ground (arith, no_range, runs),
        record {
          answered = refl;
          chunks = chunks;
          streams = refl;
          joined =
              joined
              ∙ rw (info_size, h.content)
                  (take_of_length-le (length bytes - 0) bytes (omega arith));
          counted = ap some info_size;
        },
      )

  -- For an intact file at a valid normalised path and a request without If-Range whose Range header
  -- gives bounds, GET answers 206, streams the bytes of the file between the bounds, and gives
  -- their number as its length.
  pub get-Delivers_range :
      (header : Text) (s t : ℕ)
      → r.range ≡ some header
      → r.if_range ≡ none
      → is_empty header ≡ false
      → parse_range_header http header (length bytes) ≡ some (s, t)
      → (response : Response) × (get e http r namespace path db ≡ ok response)
        × Delivers response 206 (slice s t bytes)
  get-Delivers_range header s t ranged always some_header parsed =
      let n = h.node in
      let (starts_before, ends_within) =
        parse_range_header-AreWithin http header (length bytes) s t parsed in
      let (chunks, runs, joined) =
        read_file_streaming_range-eq-slice e namespace path none none db opens s t in
      (
        record (described_by (node_info n) (ok chunks)) {
          status = 206;
          content_length = some (t - s);
          content_range = some (s, t);
        },
        answers ∙ ground (arith, ranged, always, some_header, info_size, parsed, runs),
        record {
          answered = refl;
          chunks = chunks;
          streams = refl;
          joined = joined ∙ ap (slice s t) h.content;
          counted = ap some (sym (length-slice s t bytes ends_within));
        },
      )
