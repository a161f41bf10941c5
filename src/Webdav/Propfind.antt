-- ===== src/Webdav/Propfind.antt =====
-- webdav/views.py and webdav/responses.py: what PROPFIND answers, before it is written as XML.
use django_fsspec.Prelude.{
  ℕ, ◌-◌, Bool, true, false, not, List, [], ◌∷◌, ◌++◌, Option, none, some, map, length, take,
  if◌then◌else◌,
}
use django_fsspec.Errors.{Result, ok, err, is_file_not_found, ◌>>=◌}
use django_fsspec.Environment.{Environment}
use django_fsspec.Text.{
  Text, text, text_eq, is_empty, ends_with_slash, lstrip_slash, rstrip_slash, after_last_slash,
}
use django_fsspec.Models.{Db}
use django_fsspec.Operations.Info.{Info, get_file_info}
use django_fsspec.Operations.Directory.{is_directory_kind}
use django_fsspec.Operations.Listing.{list_directory_detail}
use django_fsspec.Webdav.Requests.{header_or, make_etag}

-- One `response` element. What an element lacks is `none`; times stay as they are stored.
pub record Item : Type 0 where
  pub href : Text
  pub display_name : Text
  pub is_collection : Bool
  pub content_length : Option ℕ
  pub etag : Option Text
  pub content_type : Option Text
  pub last_modified : Option ℕ
  pub created : Option ℕ

-- `_build_href`, for `urllib.parse.quote`
abbrev pub build_href : (Text → Text) → Text → Text → Bool → Text
build_href quote href_prefix path is_dir =
    let href = href_prefix ++ quote (lstrip_slash path) in
    if not is_dir then href else if ends_with_slash href then href else href ++ text "/"

-- `_display_name`
abbrev pub display_name_of : Text → Text
display_name_of path = if text_eq path (text "/") then [] else after_last_slash (rstrip_slash path)

abbrev octets_if_empty : Text → Text
octets_if_empty t = if is_empty t then text "application/octet-stream" else t

abbrev pub item_of : (Text → Text) → Text → Text → Info → Item
item_of quote href_prefix path info =
    let is_dir = is_directory_kind info.kind in
    let bare : Item = record {
      href = build_href quote href_prefix path is_dir;
      display_name = display_name_of path;
      is_collection = is_dir;
      content_length = none;
      etag = none;
      content_type = none;
      last_modified = none;
      created = none;
    } in
    if is_dir then bare else record bare {
      content_length = some info.size;
      etag = some (make_etag (header_or [] info.checksum));
      content_type = some (octets_if_empty (header_or [] info.content_type));
      last_modified = info.updated;
      created = info.created;
    }

-- `_append_item`: a path that is gone adds nothing.
unfoldable pub append_item : Environment → (Text → Text) → ℕ → Text → Text → Db → Result (List Item)
append_item e quote namespace href_prefix path db = elim (get_file_info e namespace path db) [
  | ok info ↦ ok (item_of quote href_prefix path info ∷ [])
  | err error ↦ if is_file_not_found error then ok [] else err error
]

abbrev append_items : Environment → (Text → Text) → ℕ → Text → List Text → Db → Result (List Item)
append_items e quote namespace href_prefix [] db = ok []
append_items e quote namespace href_prefix (path ∷ paths) db = do
  first ← append_item e quote namespace href_prefix path db
  others ← append_items e quote namespace href_prefix paths db
  ok (first ++ others)

abbrev names_of_children : Result (List Info) → Result (List Text)
names_of_children (ok children) = ok (map (λ (i : Info). i.name) children)
names_of_children (err error) = if is_file_not_found error then ok [] else err error

-- The paths that are answered for.
abbrev pub answered_paths : Environment → ℕ → Text → Bool → Db → Result (List Text)
answered_paths e namespace path with_children db = if not with_children then ok (path ∷ []) else (do
  children ← names_of_children (list_directory_detail e namespace path false db)
  ok (path ∷ children))

-- `propfind_response`
unfoldable pub propfind_response :
    Environment → (Text → Text) → ℕ → Text → Bool → Text → Db → Result (List Item)
propfind_response e quote namespace path with_children href_prefix db = do
  paths ← answered_paths e namespace path with_children db
  append_items e quote namespace href_prefix paths db

-- `_href_prefix`
unfoldable pub href_prefix_of : Text → Text → Text
href_prefix_of path_info path =
    let prefix =
      if text_eq path (text "/")
      then path_info
      else take (length path_info - length path) path_info in
    if ends_with_slash prefix then prefix else prefix ++ text "/"

-- The status of an answer without items, or the items of a 207.
pub data Propfound : Type 0 where
  refused : ℕ → Propfound
  multistatus : List Item → Propfound

abbrev propfound : Result (List Item) → Result Propfound
propfound (ok items) = ok (multistatus items)
propfound (err error) = err error

-- `propfind` after its header
abbrev propfind_at : Environment → (Text → Text) → Text → ℕ → Text → Bool → Db → Result Propfound
propfind_at e quote path_info namespace path with_children db =
    elim (get_file_info e namespace path db) [
      | err error ↦ if is_file_not_found error then ok (refused 404) else err error
      | ok _ ↦ propfound (
          propfind_response e quote namespace path with_children (href_prefix_of path_info path) db)
    ]

-- `propfind`; `depth` is the Depth header, "1" without one, stripped and in lower case.
unfoldable pub propfind :
    Environment → (Text → Text) → Text → Text → ℕ → Text → Db → Result Propfound
propfind e quote depth path_info namespace path db =
    if text_eq depth (text "0")
    then propfind_at e quote path_info namespace path false db
    else if text_eq depth (text "1")
    then propfind_at e quote path_info namespace path true db
    else ok (refused (if text_eq depth (text "infinity") then 403 else 400))
