-- ===== src/Operations/Paths.antt =====
-- operations.py: what a path must fit before something is written to it.
use django_fsspec.Prelude.{
  ℕ, Bool, ◌&&◌, List, [], ◌∷◌, ◌++◌, Option, none, some, any, ◌==◌, if◌then◌else◌,
}
use django_fsspec.Errors.{Error, Result, ok, err, is_file_not_found, ◌>>◌, raise_if}
use django_fsspec.Environment.{Environment}
use django_fsspec.Text.{
  Text, text, text_eq, is_empty, strip_slash, split_slash, join_slash, before_last_slash,
}
use django_fsspec.Models.{FileNode, Db, is_file, is_directory}
use django_fsspec.Models.Query.{child_prefix, get_node, any_below, get_namespace}
use django_fsspec.Operations.Content.{path_has_descendants}
use django_fsspec.Operations.Info.{Info, InfoType, get_file_info}

-- `_reject_root_file_path`
abbrev pub reject_root_file_path : Text → Result (Unit {0})
reject_root_file_path path = raise_if (text_eq path (text "/")) Error.is_a_directory

-- `"/" + "/".join(parts[:i])` for each `i` from `length done` up to the last but one part
ancestors_from : List Text → List Text → List Text
ancestors_from before [] = []
ancestors_from before (p ∷ []) = []
ancestors_from before (p ∷ q ∷ parts) =
    let next = before ++ p ∷ [] in (text "/" ++ join_slash next) ∷ ancestors_from next (q ∷ parts)

-- `_ancestor_paths`
unfoldable pub ancestor_paths : Text → List Text
unfolding ancestors_from
ancestor_paths path = ancestors_from [] (split_slash (strip_slash path))

-- `path.rsplit("/", 1)[0] or "/"`
abbrev pub parent_path : Text → Text
parent_path path =
    let before = before_last_slash path in if is_empty before then text "/" else before

-- A file at one of the paths.
abbrev pub blocking_file : ℕ → List Text → Db → Bool
blocking_file namespace paths db =
    any (λ n. n.namespace_id == namespace && any (text_eq n.path) paths && is_file n.node_type)
      db.nodes

abbrev is_directory_info : Info → Bool
is_directory_info i = elim i.kind [ InfoType.directory ↦ Bool.true | _ ↦ Bool.false ]

-- the `try` around `get_file_info` and what follows it
parent_result : Bool → Result Info → Result (Unit {0})
parent_result require_exists (ok info) =
    if is_directory_info info then ok tt else err Error.not_a_directory
parent_result require_exists (err e) =
    if is_file_not_found e
    then if require_exists then err Error.file_not_found else ok tt
    else err e

-- `_ensure_parent_directory`
unfoldable pub ensure_parent_directory : Environment → ℕ → Text → Bool → Db → Result (Unit {0})
unfolding parent_result
ensure_parent_directory e namespace path require_exists db = do
  raise_if (blocking_file namespace (ancestor_paths path) db) Error.not_a_directory
  if text_eq (parent_path path) (text "/")
      then ok tt
      else parent_result require_exists (get_file_info e namespace (parent_path path) db)

-- `_ensure_file_target`
unfoldable pub ensure_file_target : ℕ → Text → Db → Result (Option FileNode)
ensure_file_target namespace path db = elim (get_node namespace path db) [
  | none ↦ if any_below namespace (child_prefix path) db then err Error.is_a_directory else ok none
  | some n ↦
      if is_directory n.node_type
      then err Error.is_a_directory
      else if path_has_descendants namespace path (some n.pk) db
      then err Error.data_integrity
      else ok (some n)
]

-- `_lock_namespace_for_write`: the row lock orders the writers of one namespace.
unfoldable pub lock_namespace_for_write : ℕ → Db → Result (Unit {0})
lock_namespace_for_write namespace db = elim (get_namespace namespace db) [
  | none ↦ err Error.namespace_not_found
  | some _ ↦ ok tt
]
