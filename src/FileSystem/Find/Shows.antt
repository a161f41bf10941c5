-- ===== src/FileSystem/Find/Shows.antt =====
-- fs.py: which names `find` returns.
use django_fsspec.Prelude.{
  ℕ, ◌≡◌, refl, ◌∙◌, Bool, true, false, ◌&&◌, ◌||◌, not, List, [], ◌∷◌, ◌++◌, Option, filter, any,
  sort, arith, ap, length, drop, ◌==◌, inl, inr, Bool-cases,
}
use django_fsspec.Text.{Text, text, text_eq, text_le, starts_with}
use django_fsspec.Text.Laws.{text_eq_sound, text_eq_comm}
use django_fsspec.Errors.{ok}
use django_fsspec.Environment.{Environment}
use django_fsspec.Validators.{validate_path}
use django_fsspec.Models.{FileNode, Db, is_directory}
use django_fsspec.Models.Query.{child_prefix, below_prefix}
use django_fsspec.Operations.Info.{Info, get_file_info}
use django_fsspec.FileSystem.{is_root}
use django_fsspec.FileSystem.Url.Laws.{strip_protocol-valid}
use django_fsspec.Operations.Listing.{is_file_kind, any-sort, distinct, any-distinct}
use django_fsspec.FileSystem.Find.{
  Found, FindResult, set_entry, found_node, is_kept, add_nodes, names_of, results_below, add_dirs,
  implicit_entry, implicit_dirs, find, within_maxdepth,
}
use django_fsspec.FileSystem.Find.Implied.{is_within, goes_below, within-parts, any-implicit_dirs}
use django_fsspec.Operations.Listing.Shown.{child_prefix-below}

any-set_entry :
    (name : Text) (x : Found) (xs : List Found)
    → any (text_eq name) (names_of (set_entry x xs))
      ≡ (text_eq name x.name || any (text_eq name) (names_of xs))
any-set_entry name x [] = refl
any-set_entry name x (y ∷ ys) = ground (arith, text_eq_sound x.name y.name, any-set_entry name x ys)

-- A row that makes `find` show the name.
abbrev is_found_as : ℕ → Option ℕ → Bool → Text → Text → FileNode → Bool
is_found_as namespace maxdepth withdirs prefix name n =
    below_prefix namespace prefix n && is_kept maxdepth withdirs prefix n && text_eq name n.path

any-add_nodes :
    (namespace : ℕ) (maxdepth : Option ℕ) (withdirs : Bool) (prefix name : Text)
    (nodes : List FileNode) (results : List Found)
    → any (text_eq name) (
        names_of (
          add_nodes maxdepth withdirs prefix
            (filter (below_prefix namespace prefix) nodes)
            results))
      ≡ (any (is_found_as namespace maxdepth withdirs prefix name) nodes
          || any (text_eq name) (names_of results))
any-add_nodes namespace maxdepth withdirs prefix name [] results = refl
any-add_nodes namespace maxdepth withdirs prefix name (n ∷ nodes) results = ground (
  arith,
  any-add_nodes namespace maxdepth withdirs prefix name nodes results,
  any-add_nodes namespace maxdepth withdirs prefix name nodes (set_entry (found_node n) results),
  any-set_entry name (found_node n) results,
)

any_of_named :
    (name d : Text) (results : List Found)
    → any (λ (r : Found). text_eq d r.name) results ≡ true
    → text_eq name d ≡ true
    → any (text_eq name) (names_of results) ≡ true
any_of_named name d [] h same = ground arith
any_of_named name d (r ∷ results) h same =
    let e = text_eq_sound name d same in
    ground (arith, ap (λ t. text_eq t r.name) e, any_of_named name d results)

any-add_dirs :
    (name : Text) (dirs : List Text) (results : List Found)
    → any (text_eq name) (names_of (add_dirs dirs results))
      ≡ (any (text_eq name) dirs || any (text_eq name) (names_of results))
any-add_dirs name [] results = refl
any-add_dirs name (d ∷ dirs) results = ground (
  arith,
  any-add_dirs name dirs results,
  any-add_dirs name dirs (set_entry (implicit_entry d) results),
  any-set_entry name (implicit_entry d) results,
  any_of_named name d results,
)

any-results_below :
    (namespace : ℕ) (prefix name : Text) (maxdepth : Option ℕ) (withdirs : Bool) (db : Db)
    → any (text_eq name) (names_of (results_below namespace prefix maxdepth withdirs db)) ≡ (
        any (is_found_as namespace maxdepth withdirs prefix name) db.nodes
        || withdirs
          && any
              (text_eq name)
              (implicit_dirs maxdepth prefix (filter (below_prefix namespace prefix) db.nodes)))
unfolding results_below
any-results_below namespace prefix name maxdepth withdirs db =
    let all_nodes = filter (below_prefix namespace prefix) db.nodes in
    let dirs = implicit_dirs maxdepth prefix all_nodes in
    ground (
      arith,
      any-add_nodes namespace maxdepth withdirs prefix name db.nodes [],
      any-add_dirs name (distinct dirs) (add_nodes maxdepth withdirs prefix all_nodes []),
      any-distinct name dirs,
    )

-- A row of the namespace that makes `find` show the name, where the name is below the path and within
-- the depth.
abbrev pub is_found_at : ℕ → Bool → Text → FileNode → Bool
is_found_at namespace withdirs name n =
    n.namespace_id == namespace
    && ((text_eq n.path name && (withdirs || not (is_directory n.node_type)))
        || (withdirs && starts_with (name ++ text "/") n.path))

-- A row of the namespace with the name as its path, wanted by its kind.
abbrev is_own_row : ℕ → Bool → Text → FileNode → Bool
is_own_row namespace withdirs name n =
    n.namespace_id == namespace
    && text_eq n.path name
    && (withdirs || not (is_directory n.node_type))

own_row :
    (namespace : ℕ) (maxdepth : Option ℕ) (withdirs : Bool) (prefix name : Text) (n : FileNode)
    → is_found_as namespace maxdepth withdirs prefix name n ≡ (
        is_within maxdepth (drop (length prefix) name)
        && starts_with prefix name
        && is_own_row namespace withdirs name n)
own_row namespace maxdepth withdirs prefix name n = elim (Bool-cases (text_eq name n.path)) [
  | inl same ↦
      let e = text_eq_sound name n.path same in
      let back : text_eq n.path name ≡ true = text_eq_comm n.path name ∙ same in
      ground (
        arith,
        same,
        back,
        within-parts maxdepth prefix name,
        ap (within_maxdepth maxdepth prefix) e,
        ap (starts_with prefix) e,
      )
  | inr other ↦
      let back : text_eq n.path name ≡ false = text_eq_comm n.path name ∙ other in
      ground (arith, other, back)
]

any-found :
    (namespace : ℕ) (maxdepth : Option ℕ) (withdirs : Bool) (prefix name : Text)
    (nodes : List FileNode)
    → any (is_found_as namespace maxdepth withdirs prefix name) nodes ≡ (
        is_within maxdepth (drop (length prefix) name)
        && starts_with prefix name
        && any (is_own_row namespace withdirs name) nodes)
any-found namespace maxdepth withdirs prefix name [] = ground arith
any-found namespace maxdepth withdirs prefix name (n ∷ nodes) = ground (
  arith,
  own_row namespace maxdepth withdirs prefix name n,
  any-found namespace maxdepth withdirs prefix name nodes,
)

any-found_at :
    (namespace : ℕ) (withdirs : Bool) (name : Text) (nodes : List FileNode)
    → any (is_found_at namespace withdirs name) nodes ≡ (
        any (is_own_row namespace withdirs name) nodes
        || withdirs && any (goes_below namespace name) nodes)
any-found_at namespace withdirs name [] = ground arith
any-found_at namespace withdirs name (n ∷ nodes) =
    ground (arith, any-found_at namespace withdirs name nodes)

any-shown :
    (namespace : ℕ) (prefix name : Text) (maxdepth : Option ℕ) (withdirs : Bool) (db : Db)
    → any (text_eq name) (names_of (results_below namespace prefix maxdepth withdirs db)) ≡ (
        starts_with prefix name
        && is_within maxdepth (drop (length prefix) name)
        && any (is_found_at namespace withdirs name) db.nodes)
any-shown namespace prefix name maxdepth withdirs db = ground (
  arith,
  any-results_below namespace prefix name maxdepth withdirs db,
  any-found namespace maxdepth withdirs prefix name db.nodes,
  any-implicit_dirs namespace maxdepth prefix name db.nodes,
  any-found_at namespace withdirs name db.nodes,
)

-- For a valid path below the root whose metadata are not a file's, `find` without detail returns
-- names, and a name is among them exactly where it starts with the path and a slash, has at most
-- `maxdepth` parts after them where a depth is given, and a row of the namespace has it as its path
-- and is no directory unless directories are wanted, or directories are wanted and the path of a
-- row starts with the name and a slash.
pub find-shows :
    (e : Environment) (namespace : ℕ) (path p : Text) (info : Info) (maxdepth : Option ℕ)
    (withdirs : Bool) (db : Db)
    → validate_path e.nfc path ≡ ok p
    → is_root path ≡ false
    → get_file_info e namespace path db ≡ ok info
    → is_file_kind info.kind ≡ false
    → (shown : List Text) × (find e namespace path maxdepth withdirs false db
        ≡ ok (FindResult.names shown))
      × ((name : Text)
          → any (text_eq name) shown ≡ (
              starts_with (path ++ text "/") name
              && is_within maxdepth (drop (length (path ++ text "/")) name)
              && any (is_found_at namespace withdirs name) db.nodes))
unfolding find
find-shows e namespace path p info maxdepth withdirs db valid below found directory =
    let results = results_below namespace (child_prefix path) maxdepth withdirs db in
    (
      sort text_le (names_of results),
      ground (arith, strip_protocol-valid e.nfc path p valid, below, found, directory),
      λ name.
          any-sort (text_eq name) (names_of results)
          ∙ ap (λ q. any (text_eq name) (names_of (results_below namespace q maxdepth withdirs db)))
              (child_prefix-below e path p valid (ground (arith, below)))
          ∙ any-shown namespace (path ++ text "/") name maxdepth withdirs db,
    )
