-- ===== src/Operations/Directory.antt =====
-- operations.py: durable directories, deletion, and listings.
pub mod InUse
pub mod Fuel
use django_fsspec.Prelude.{
  ℕ, zero, suc, ◌+◌, Bool, true, false, ◌&&◌, not, List, [], ◌∷◌, ◌++◌, Option, none, some, map,
  filter, contains, length, if◌then◌else◌,
}
use django_fsspec.Errors.{Error, Result, ok, err, is_file_not_found}
use django_fsspec.Environment.{Environment}
use django_fsspec.Text.{Text, text, text_eq}
use django_fsspec.Validators.{validate_path}
use django_fsspec.Models.{FileNode, Db, NodeType, is_file, is_directory}
use django_fsspec.Models.Query.{child_prefix, get_node, any_below, below_prefix}
use django_fsspec.Action.{
  Action, pure, raise, lift, query_or_raise, modify, atomic, ◌>>=◌, ◌>>◌, raise_if,
}
use django_fsspec.Operations.Info.{Info, InfoType, get_file_info}
use django_fsspec.Operations.Paths.{parent_path, lock_namespace_for_write}
use django_fsspec.Operations.Blocks.{create_node, release_file_blocks, release_blocks}

-- the default of the model's field
abbrev pub default_block_size : ℕ
default_block_size = 32768

abbrev pub is_directory_kind : InfoType → Bool
is_directory_kind InfoType.directory = true
is_directory_kind _ = false

-- What `make_directory` does with the metadata of the parent; `make_parent` is the call on it.
unfoldable parent_step : Bool → Action (Unit {0}) → Result Info → Action (Unit {0})
parent_step create_parents make_parent (ok info) =
    raise_if (not (is_directory_kind info.kind)) Error.not_a_directory
parent_step create_parents make_parent (err e) =
    if is_file_not_found e
    then if create_parents then make_parent else raise Error.file_not_found
    else raise e

-- the branch for a parent below the root
unfoldable ensure_made_parent :
    Environment → ℕ → Text → Bool → Action (Unit {0}) → Action (Unit {0})
unfolding parent_step
ensure_made_parent e namespace parent create_parents make_parent db =
    if text_eq parent (text "/")
    then (ok tt, db)
    else parent_step create_parents make_parent (get_file_info e namespace parent db) db

-- the body of `make_directory` inside its transaction
unfoldable directory_body : Environment → ℕ → Text → Bool → Action (Unit {0}) → Action FileNode
unfolding ensure_made_parent
directory_body e namespace path create_parents make_parent = do
  query_or_raise (lock_namespace_for_write namespace)
  λ db. (elim (get_node namespace path db) [ none ↦ ok tt | some _ ↦ err Error.file_exists ], db)
  λ db. (if any_below namespace (child_prefix path) db then err Error.file_exists else ok tt, db)
  ensure_made_parent e namespace (parent_path path) create_parents make_parent
  create_node e namespace path NodeType.directory default_block_size []

-- `make_directory`: each recursive call is on a shorter path, so that the length of the normalised
-- path and one more is enough fuel.
unfoldable pub make_directory_within : ℕ → Environment → ℕ → Text → Bool → Action FileNode
unfolding directory_body
make_directory_within zero e namespace raw_path create_parents = raise Error.runtime_error
make_directory_within (suc fuel) e namespace raw_path create_parents = do
  path ← lift (validate_path e.nfc raw_path)
  raise_if (text_eq path (text "/")) Error.file_exists
  atomic (
      directory_body e namespace path create_parents
        (do make_directory_within fuel e namespace (parent_path path) true; pure tt))

unfoldable pub make_directory : Environment → ℕ → Text → Bool → Action FileNode
make_directory e namespace raw_path =
    make_directory_within (length (e.nfc raw_path) + 1) e namespace raw_path

-- `FileNode.objects.filter(pk__in=ids).delete()`: the mappings of the rows go with them.
abbrev pub delete_nodes : List ℕ → Db → Db
delete_nodes ids db = record db {
  nodes = filter (λ (n : FileNode). not (contains n.pk ids)) db.nodes;
  file_blocks = filter (λ m. not (contains m.file_id ids)) db.file_blocks;
}

abbrev pub children_of : ℕ → Text → Db → List FileNode
children_of namespace prefix db = filter (below_prefix namespace prefix) db.nodes

abbrev pub pks : List FileNode → List ℕ
pks = map (λ (n : FileNode). n.pk)

abbrev pub node_pks : Option FileNode → List ℕ
node_pks none = []
node_pks (some n) = n.pk ∷ []

abbrev has_any : List FileNode → Bool
has_any [] = false
has_any (n ∷ ns) = true

abbrev is_none : Option FileNode → Bool
is_none none = true
is_none (some n) = false

-- `delete_file` for a path that has no file row
unfoldable delete_tree : Option FileNode → List FileNode → Bool → Action (Unit {0})
delete_tree file_node children recursive = do
  raise_if (is_none file_node && not (has_any children)) Error.file_not_found
  raise_if (has_any children && not recursive) Error.is_a_directory
  let node_ids = pks children ++ node_pks file_node
  modify (release_file_blocks node_ids)
  modify (delete_nodes node_ids)

abbrev is_file_row : Option FileNode → Bool
is_file_row none = false
is_file_row (some n) = is_file n.node_type

abbrev pub delete_one : FileNode → Action (Unit {0})
delete_one n = do modify (release_blocks n); modify (delete_nodes (n.pk ∷ []))

-- what `delete_file` does with the row at the path, if there is one
unfoldable delete_found : ℕ → Text → Bool → Option FileNode → Action (Unit {0})
unfolding delete_tree
delete_found namespace path recursive none db =
    delete_tree none (children_of namespace (child_prefix path) db) recursive db
delete_found namespace path recursive (some n) db =
    if is_file n.node_type
    then delete_one n db
    else delete_tree (some n) (children_of namespace (child_prefix path) db) recursive db

-- `delete_file` after the checks of its path
unfoldable pub delete_body : ℕ → Text → Bool → Action (Unit {0})
unfolding delete_found
delete_body namespace path recursive = do
  query_or_raise (lock_namespace_for_write namespace)
  λ db. delete_found namespace path recursive (get_node namespace path db) db

unfoldable pub delete_file : Environment → ℕ → Text → Bool → Action (Unit {0})
delete_file e namespace raw_path recursive = do
  path ← lift (validate_path e.nfc raw_path)
  raise_if (text_eq path (text "/")) Error.is_a_directory
  atomic (delete_body namespace path recursive)

abbrev is_other_row : Option FileNode → Bool
is_other_row none = false
is_other_row (some n) = not (is_directory n.node_type)

unfoldable pub remove_directory : Environment → ℕ → Text → Bool → Action (Unit {0})
remove_directory e namespace raw_path recursive = do
  path ← lift (validate_path e.nfc raw_path)
  raise_if (text_eq path (text "/")) Error.is_a_directory
  λ db. (if is_other_row (get_node namespace path db) then err Error.not_a_directory else ok tt, db)
  delete_file e namespace path recursive
