-- ===== src/Commands/Namespaces.antt =====
-- management/commands/fsspec_namespace.py: the subcommands that change namespaces. The groups of
-- Django and `full_clean` are parameters.
pub mod Homes
use django_fsspec.Prelude.{
  ℕ, Bool, true, false, ◌&&◌, ◌||◌, not, List, [], ◌∷◌, ◌++◌, Option, none, some, map, filter,
  find?, any, all, update_where, ◌==◌, if◌then◌else◌,
}
use django_fsspec.Errors.{Error, Result, ok, err}
use django_fsspec.Environment.{Environment}
use django_fsspec.Text.{Text, text_eq}
use django_fsspec.Models.{Namespace, Db}
use django_fsspec.Action.{Action, pure, lift, query_or_raise, modify, atomic, raise_if, ◌>>=◌, ◌>>◌}

pub record Group : Type 0 where
  pub pk : ℕ
  pub name : Text

-- The tables of Django's groups, and whether `full_clean` accepts a namespace.
pub record Host : Type 0 where
  pub groups : List Group
  pub is_clean : Namespace → Db → Bool

abbrev is_named : Text → Group → Bool
is_named name g = text_eq g.name name

-- `set(group_names) - found`
abbrev any_missing : List Group → List Text → Bool
any_missing groups names = any (λ name. not (any (is_named name) groups)) names

-- `_resolve_groups`: the keys of the groups
abbrev pub resolve_groups : Host → List Text → Result (List ℕ)
resolve_groups host names =
    if any_missing host.groups names
    then err Error.command_error
    else ok
        (map (λ (g : Group). g.pk) (filter (λ (g : Group). any (text_eq g.name) names) host.groups))

abbrev has_name : Text → Namespace → Bool
has_name name n = text_eq n.name name

-- `_get_namespace_by_name`
abbrev pub get_namespace_by_name : Text → Db → Result Namespace
get_namespace_by_name name db = elim (find? (has_name name) db.namespaces) [
  | none ↦ err Error.command_error
  | some n ↦ ok n
]

-- `_validate_namespace`
abbrev pub validate_namespace : Host → Namespace → Db → Result (Unit {0})
validate_namespace host n db = if host.is_clean n db then ok tt else err Error.command_error

abbrev pub name_taken : Text → Db → Result (Unit {0})
name_taken name db = if any (has_name name) db.namespaces then err Error.command_error else ok tt

-- the row of a new namespace, with its groups
abbrev pub new_namespace : Environment → Text → Text → List ℕ → List ℕ → Db → Namespace
new_namespace e name description read_groups write_groups db = record {
  pk = e.new_pk (map (λ (n : Namespace). n.pk) db.namespaces);
  name = name;
  description = description;
  read_groups = read_groups;
  write_groups = write_groups;
  created_at = e.now;
}

abbrev pub add_namespace : Namespace → Db → Db
add_namespace n db = record db { namespaces = db.namespaces ++ n ∷ [] }

-- the transaction of `_handle_create`
unfoldable pub create_body :
    Environment → Host → Text → Text → List Text → List Text → Action (Unit {0})
create_body e host name description read_names write_names = do
  read_groups ← lift (resolve_groups host read_names)
  write_groups ← lift (resolve_groups host write_names)
  query_or_raise (λ db. validate_namespace host (new_namespace e name description [] [] db) db)
  modify (λ db. add_namespace (new_namespace e name description read_groups write_groups db) db)

-- `_handle_create`
unfoldable pub create_namespace :
    Environment → Host → Text → Text → List Text → List Text → Action (Unit {0})
create_namespace e host name description read_names write_names = do
  query_or_raise (name_taken name)
  atomic (create_body e host name description read_names write_names)

-- The options of `update`; a group list that is not given is empty.
pub record Update : Type 0 where
  pub description : Option Text
  pub read_names : List Text
  pub write_names : List Text
  pub clear_read_groups : Bool
  pub clear_write_groups : Bool

abbrev pub has_any : List Text → Bool
has_any [] = false
has_any (n ∷ ns) = true

abbrev is_given : Option Text → Bool
is_given none = false
is_given (some t) = true

abbrev pub has_changes : Update → Bool
has_changes u =
    is_given u.description
    || has_any u.read_names
    || has_any u.write_names
    || u.clear_read_groups
    || u.clear_write_groups

abbrev pub set_namespace : ℕ → (Namespace → Namespace) → Db → Db
set_namespace pk change db = record db {
  namespaces = update_where (λ n. n.pk == pk) change db.namespaces;
}

abbrev pub with_description : Text → Namespace → Namespace
with_description t n = record n { description = t }

abbrev pub with_read_groups : List ℕ → Namespace → Namespace
with_read_groups groups n = record n { read_groups = groups }

abbrev pub with_write_groups : List ℕ → Namespace → Namespace
with_write_groups groups n = record n { write_groups = groups }

unfoldable pub update_description : Host → Namespace → Option Text → Action (Unit {0})
update_description host n none = pure tt
update_description host n (some t) = do
  query_or_raise (validate_namespace host (with_description t n))
  modify (set_namespace n.pk (with_description t))

-- `set(…)` for groups that are named, else `clear()` where that is asked
unfoldable pub update_groups :
    Host → ℕ → (List ℕ → Namespace → Namespace) → List Text → Bool → Action (Unit {0})
update_groups host pk put_groups names cleared =
    if has_any names
    then (do
      groups ← lift (resolve_groups host names)
      modify (set_namespace pk (put_groups groups)))
    else if cleared
    then modify (set_namespace pk (put_groups []))
    else pure tt

-- the transaction of `_handle_update`
unfoldable pub update_body : Host → Update → Namespace → Action (Unit {0})
update_body host u n = do
  update_description host n u.description
  update_groups host n.pk with_read_groups u.read_names u.clear_read_groups
  update_groups host n.pk with_write_groups u.write_names u.clear_write_groups

-- `_handle_update`
unfoldable pub update_namespace : Host → Text → Update → Action (Unit {0})
update_namespace host name u = do
  raise_if (has_any u.read_names && u.clear_read_groups) Error.command_error
  raise_if (has_any u.write_names && u.clear_write_groups) Error.command_error
  raise_if (not (has_changes u)) Error.command_error
  n ← query_or_raise (get_namespace_by_name name)
  atomic (update_body host u n)

abbrev pub has_files : ℕ → Db → Bool
has_files pk db = any (λ n. n.namespace_id == pk) db.nodes

abbrev has_no_files : ℕ → Db → Result (Unit {0})
has_no_files pk db = if has_files pk db then err Error.command_error else ok tt

abbrev pub remove_namespace : ℕ → Db → Db
remove_namespace pk db = record db { namespaces = filter (λ n. not (n.pk == pk)) db.namespaces }

-- `_handle_delete`
unfoldable pub delete_namespace : Text → Action (Unit {0})
delete_namespace name = do
  n ← query_or_raise (get_namespace_by_name name)
  raise_if (n.pk == 1) Error.command_error
  query_or_raise (has_no_files n.pk)
  modify (remove_namespace n.pk)

-- The subcommands that write; `list` and `show` only print.
pub data Subcommand : Type 0 where
  create : Text → Text → List Text → List Text → Subcommand
  update : Text → Update → Subcommand
  delete : Text → Subcommand

-- `handle`
abbrev pub handle : Environment → Host → Subcommand → Action (Unit {0})
handle e host (create name description read_names write_names) =
    create_namespace e host name description read_names write_names
handle e host (update name u) = update_namespace host name u
handle e host (delete name) = delete_namespace name
