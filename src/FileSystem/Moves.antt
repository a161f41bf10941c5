-- ===== src/FileSystem/Moves.antt =====
-- fs.py: `mv`, and `copy` of a tree. fsspec's helpers are parameters.
pub mod Trailing
use django_fsspec.Prelude.{
  ℕ, Bool, true, false, ◌&&◌, ◌||◌, not, List, [], ◌∷◌, ◌++◌, Option, none, some, if◌then◌else◌,
}
use django_fsspec.Errors.{Error, Result, ok, err, is_file_not_found}
use django_fsspec.Environment.{Environment}
use django_fsspec.Text.{Text, text, slash, text_eq, rstrip_slash, after_last_slash}
use django_fsspec.Models.{Db}
use django_fsspec.Action.{Action, pure, raise, query, query_or_raise, lift, ◌>>=◌, ◌>>◌}
use django_fsspec.Operations.Transfer.{move_file, move_directory}
use django_fsspec.FileSystem.{makedirs, cp_file}
use django_fsspec.FileSystem.Url.{strip_protocol}
use django_fsspec.FileSystem.Find.{FindResult, find}

-- What the class takes from fsspec: `trailing_sep`, `isdir` and `isfile` of the file system, and
-- `other_paths` with `flatten=False`.
pub record Inherited : Type 0 where
  pub trailing_sep : Text → Bool
  pub is_dir : Text → Db → Bool
  pub is_file : Text → Db → Bool
  pub other_paths : List Text → Text → Bool → List Text

-- `path2.rstrip("/") + "/" + path1.rstrip("/").rsplit("/", 1)[-1]`
abbrev pub inside : Text → Text → Text
inside path2 path1 = rstrip_slash path2 ++ slash ∷ after_last_slash (rstrip_slash path1)

-- the destination of a move, for the stripped paths
abbrev pub destination : Inherited → Text → Text → Db → Text
destination i path1 path2 db =
    if i.trailing_sep path2 || i.is_dir path2 db then inside path2 path1 else path2

-- The same for a file, whose name is taken without the first `rstrip`.
abbrev pub file_destination : Inherited → Text → Text → Db → Text
file_destination i path1 path2 db =
    if i.trailing_sep path2 || i.is_dir path2 db
    then rstrip_slash path2 ++ slash ∷ after_last_slash path1
    else path2

abbrev move_stripped :
    Environment → Inherited → Text → ℕ → Text → Text → Bool → Bool → Action (Unit {0})
move_stripped e i temp_prefix namespace path1 path2 recursive overwrite db =
    if text_eq path1 path2
    then (ok tt, db)
    else if recursive || i.is_dir path1 db
    then move_directory e temp_prefix namespace path1 (destination i path1 path2 db) overwrite db
    else move_file e namespace path1 (file_destination i path1 path2 db) overwrite db

-- `mv`
unfoldable pub mv :
    Environment → Inherited → Text → ℕ → Text → Text → Bool → Bool → Action (Unit {0})
mv e i temp_prefix namespace path1 path2 =
    move_stripped e i temp_prefix namespace (strip_protocol path1) (strip_protocol path2)

-- What `find(…, withdirs=True)` returns without `detail`.
abbrev found_names : FindResult → List Text
found_names (FindResult.names ns) = ns
found_names _ = []

-- An error that `on_error="ignore"` passes over.
abbrev tolerate : Bool → Action (Unit {0}) → Action (Unit {0})
tolerate ignore m db =
    let (r, db') = m db in
    elim r [
      | ok _ ↦ (ok tt, db')
      | err error ↦ if ignore && is_file_not_found error then (ok tt, db') else (err error, db')
    ]

module _ (e : Environment) (i : Inherited) (namespace : ℕ) (ignore : Bool) where
  abbrev copy_one : Text → Text → Action (Unit {0})
  copy_one src dst db =
      if i.is_dir src db then makedirs e namespace dst true db else cp_file e namespace src dst db

  -- the loop over `zip(sources, destinations)`
  abbrev copy_each : List Text → List Text → Action (Unit {0})
  copy_each [] destinations = pure tt
  copy_each (src ∷ sources) [] = pure tt
  copy_each (src ∷ sources) (dst ∷ destinations) = do
    tolerate ignore (copy_one src dst)
    copy_each sources destinations

  -- the branch without sources: an empty directory, or nothing
  abbrev copy_empty : Text → Text → Action (Unit {0})
  copy_empty source path2 db =
      if not (i.is_dir source db)
      then (if ignore then ok tt else err Error.file_not_found, db)
      else makedirs e namespace
          (if i.trailing_sep path2 || i.is_dir path2 db
            then inside (strip_protocol path2) source
            else rstrip_slash (strip_protocol path2))
          true db

  abbrev copy_sources : List Text → Text → Text → Text → Action (Unit {0})
  copy_sources [] source path1 path2 db = copy_empty source path2 db
  copy_sources (s ∷ sources) source path1 path2 db =
      let dest_is_dir = i.trailing_sep path2 || i.is_dir path2 db in
      copy_each (s ∷ sources)
        (i.other_paths (s ∷ sources) path2 (dest_is_dir && not (i.trailing_sep path1))) db

  abbrev or_file : Text → List Text → Db → List Text
  or_file source [] db = if i.is_file source db then source ∷ [] else []
  or_file source (s ∷ sources) db = s ∷ sources

  -- `copy` with `recursive`, for paths that are texts
  unfoldable pub copy_recursive : Text → Text → Option ℕ → Action (Unit {0})
  copy_recursive path1 path2 maxdepth = do
    let source = strip_protocol path1
    found ← query_or_raise (find e namespace source maxdepth true false)
    sources ← query (or_file source (found_names found))
    copy_sources sources source path1 path2
