-- ===== src/FileSystem/Find.antt =====
-- fs.py: `find`, the rows below a path by their prefix.
pub mod Implied
pub mod Shows
use django_fsspec.Prelude.{
  ℕ, Bool, true, false, ◌&&◌, ◌||◌, not, List, [], ◌∷◌, ◌++◌, Option, none, some, map, filter, any,
  length, drop, sort, ltb, if◌then◌else◌,
}
use django_fsspec.Errors.{Error, Result, ok, err, is_file_not_found}
use django_fsspec.Environment.{Environment}
use django_fsspec.Text.{Text, text, text_eq, text_le, split_slash, join_slash, count_slashes}
use django_fsspec.Models.{FileNode, Db, NodeType, is_directory}
use django_fsspec.Models.Query.{child_prefix, below_prefix}
use django_fsspec.Operations.Info.{Info, get_file_info}
use django_fsspec.Operations.Listing.{distinct, is_file_kind}
use django_fsspec.FileSystem.{is_root}
use django_fsspec.FileSystem.Url.{strip_protocol}

-- An entry of `results`.
pub record Found : Type 0 where
  pub name : Text
  pub size : ℕ
  pub kind : NodeType

-- What `find` returns: with `detail` the dictionary, by its values, and without it the sorted names.
pub data FindResult : Type 0 where
  of_file : Text → Info → FindResult
  entries : List Found → FindResult
  names : List Text → FindResult

-- `within_maxdepth`
abbrev pub within_maxdepth : Option ℕ → Text → Text → Bool
within_maxdepth none prefix path = true
within_maxdepth (some maxdepth) prefix path =
    ltb (count_slashes (drop (length prefix) path)) maxdepth

abbrev pub found_node : FileNode → Found
found_node n = record {
  name = n.path;
  size = if is_directory n.node_type then 0 else n.size;
  kind = n.node_type;
}

-- `results[entry["name"]] = entry`
abbrev pub set_entry : Found → List Found → List Found
set_entry x [] = x ∷ []
set_entry x (y ∷ ys) =
    let rest = set_entry x ys in if text_eq x.name y.name then x ∷ ys else y ∷ rest

-- The rows that the loop keeps.
abbrev pub is_kept : Option ℕ → Bool → Text → FileNode → Bool
is_kept maxdepth withdirs prefix n =
    within_maxdepth maxdepth prefix n.path && (withdirs || not (is_directory n.node_type))

-- the loop over the rows
abbrev pub add_nodes : Option ℕ → Bool → Text → List FileNode → List Found → List Found
add_nodes maxdepth withdirs prefix [] results = results
add_nodes maxdepth withdirs prefix (n ∷ nodes) results =
    add_nodes maxdepth withdirs prefix nodes
      (if is_kept maxdepth withdirs prefix n then set_entry (found_node n) results else results)

-- `parts[:i + 1]` for each `i` below `len(parts) - 1`
abbrev pub proper_prefixes : List Text → List (List Text)
proper_prefixes [] = []
proper_prefixes (p ∷ []) = []
proper_prefixes (p ∷ q ∷ ps) = (p ∷ []) ∷ map (λ qs. p ∷ qs) (proper_prefixes (q ∷ ps))

-- The directories that the path of one row implies.
abbrev pub dirs_of : Option ℕ → Text → FileNode → List Text
dirs_of maxdepth prefix n = filter (within_maxdepth maxdepth prefix) (
    map (λ parts. prefix ++ join_slash parts)
      (proper_prefixes (split_slash (drop (length prefix) n.path))))

abbrev pub implicit_dirs : Option ℕ → Text → List FileNode → List Text
implicit_dirs maxdepth prefix [] = []
implicit_dirs maxdepth prefix (n ∷ nodes) =
    dirs_of maxdepth prefix n ++ implicit_dirs maxdepth prefix nodes

abbrev pub implicit_entry : Text → Found
implicit_entry d = record { name = d; size = 0; kind = NodeType.directory }

-- `if d not in results`
abbrev pub add_dirs : List Text → List Found → List Found
add_dirs [] results = results
add_dirs (d ∷ dirs) results = add_dirs dirs (
    if any (λ (r : Found). text_eq d r.name) results
    then results
    else set_entry (implicit_entry d) results)

-- the dictionary `results`
unfoldable pub results_below : ℕ → Text → Option ℕ → Bool → Db → List Found
results_below namespace prefix maxdepth withdirs db =
    let all_nodes = filter (below_prefix namespace prefix) db.nodes in
    let results = add_nodes maxdepth withdirs prefix all_nodes [] in
    if withdirs
    then add_dirs (distinct (implicit_dirs maxdepth prefix all_nodes)) results
    else results

abbrev pub names_of : List Found → List Text
names_of = map (λ (r : Found). r.name)

abbrev found_below : ℕ → Text → Option ℕ → Bool → Bool → Db → FindResult
found_below namespace prefix maxdepth withdirs detail db =
    let results = results_below namespace prefix maxdepth withdirs db in
    if detail then entries results else names (sort text_le (names_of results))

abbrev found_file : Bool → Text → Info → FindResult
found_file detail path info = if detail then of_file path info else names (path ∷ [])

-- `find`
unfoldable pub find : Environment → ℕ → Text → Option ℕ → Bool → Bool → Db → Result FindResult
find e namespace raw_path maxdepth withdirs detail db =
    let path = strip_protocol raw_path in
    let below = found_below namespace (child_prefix path) maxdepth withdirs detail db in
    if is_root path
    then ok (found_below namespace (text "/") maxdepth withdirs detail db)
    else elim (get_file_info e namespace path db) [
      | ok info ↦ if is_file_kind info.kind then ok (found_file detail path info) else ok below
      | err error ↦ if is_file_not_found error then ok below else err error
    ]
