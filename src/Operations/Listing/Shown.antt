-- ===== src/Operations/Listing/Shown.antt =====
-- operations.py: which names `list_directory` returns, in terms of the rows' paths.
use django_fsspec.Prelude.{
  ℕ, ◌≡◌, refl, ap, ◌∙◌, Bool, true, false, ◌&&◌, ◌||◌, not, List, [], ◌∷◌, ◌++◌, length, drop, any,
  ◌==◌, arith,
}
use django_fsspec.Errors.{ok}
use django_fsspec.Environment.{Environment}
use django_fsspec.Text.{
  Text, text, text_eq, is_empty, has_slash, starts_with, ends_with_slash, first_part,
}
use django_fsspec.Text.Laws.{text_eq_sound, rstrip_slash-bare}
use django_fsspec.Validators.{validate_path}
use django_fsspec.Models.{FileNode, Db}
use django_fsspec.Models.Query.{child_prefix}
use django_fsspec.Operations.Info.{Info, get_file_info}
use django_fsspec.Operations.Directory.{is_directory_kind}
use django_fsspec.Operations.Listing.{list_directory, list_directory-rows, shows}

-- A name of one part.
abbrev pub is_part : Text → Bool
is_part name = not (is_empty name) && not (has_slash name)

-- A row of the namespace at the path, or at a path that goes on with a slash after it.
abbrev pub stands_at : ℕ → Text → FileNode → Bool
stands_at namespace path n =
    n.namespace_id == namespace && (text_eq n.path path || starts_with (path ++ text "/") n.path)

first_part-eq :
    (name s : Text)
    → text_eq name (first_part s)
      ≡ (not (has_slash name) && (text_eq s name || starts_with (name ++ text "/") s))
first_part-eq [] [] = refl
first_part-eq [] (c ∷ s) = ground arith
first_part-eq (d ∷ name) [] = ground arith
first_part-eq (d ∷ name) (c ∷ s) = ground (arith, first_part-eq name s)

-- The first part is the name, and there is one.
part-eq :
    (name s : Text)
    → (not (is_empty (first_part s)) && text_eq name (first_part s))
      ≡ (is_part name && (text_eq s name || starts_with (name ++ text "/") s))
part-eq name s = ground (
  arith,
  first_part-eq name s,
  λ (h : text_eq name (first_part s) ≡ true). ap is_empty (text_eq_sound name (first_part s) h),
)

-- The same after a prefix.
part_after :
    (prefix name s : Text)
    → (starts_with prefix s
        && (not (is_empty (first_part (drop (length prefix) s)))
            && text_eq name (first_part (drop (length prefix) s))))
      ≡ (is_part name && (text_eq s (prefix ++ name) || starts_with (prefix ++ name ++ text "/") s))
part_after [] name s = part-eq name s
part_after (c ∷ prefix) name [] = ground arith
part_after (c ∷ prefix) name (d ∷ s) = ground (arith, part_after prefix name s)

-- What stands below a directory is not its own row.
not_own : (path s : Text) → starts_with (path ++ text "/") s ≡ true → text_eq s path ≡ false
not_own [] [] h = ground arith
not_own [] (c ∷ s) h = refl
not_own (d ∷ path) [] h = refl
not_own (d ∷ path) (c ∷ s) h = ground (arith, not_own path s)

any-shows :
    (namespace : ℕ) (path name : Text) (nodes : List FileNode)
    → any (shows namespace (path ++ text "/") path name) nodes
      ≡ (is_part name && any (stands_at namespace (path ++ text "/" ++ name)) nodes)
any-shows namespace path name [] = ground arith
any-shows namespace path name (n ∷ nodes) = ground (
  arith,
  any-shows namespace path name nodes,
  part_after (path ++ text "/") name n.path,
  not_own path n.path,
)

bare :
    (e : Environment) (path p : Text)
    → validate_path e.nfc path ≡ ok p
    → text_eq path (text "/") ≡ false
    → ends_with_slash path ≡ false
unfolding validate_path
bare e path p valid below = ground (arith, valid, below)

pub child_prefix-below :
    (e : Environment) (path p : Text)
    → validate_path e.nfc path ≡ ok p
    → text_eq path (text "/") ≡ false
    → child_prefix path ≡ path ++ text "/"
child_prefix-below e path p valid below =
    ap (λ t. t ++ text "/") (rstrip_slash-bare path (bare e path p valid below))

-- For a valid, normalised path below the root whose metadata are a directory's, `list_directory`
-- returns names, and a name is among them exactly where it is one part, not empty and without a
-- slash, and a row of the namespace stands at the directory's path, a slash and the name, or at a
-- path that goes on below that with a slash.
pub list_directory-shows :
    (e : Environment) (namespace : ℕ) (path : Text) (info : Info) (db : Db)
    → validate_path e.nfc path ≡ ok path
    → text_eq path (text "/") ≡ false
    → get_file_info e namespace path db ≡ ok info
    → is_directory_kind info.kind ≡ true
    → (names : List Text) × (list_directory e namespace path db ≡ ok names)
      × ((name : Text)
          → any (text_eq name) names
            ≡ (is_part name && any (stands_at namespace (path ++ text "/" ++ name)) db.nodes))
list_directory-shows e namespace path info db valid below found kind =
    let (names, runs, shown) =
      list_directory-rows e namespace path info db valid below found kind in
    (
      names,
      runs,
      λ name.
          shown name
          ∙ ap (λ q. any (shows namespace q path name) db.nodes)
              (child_prefix-below e path path valid below)
          ∙ any-shows namespace path name db.nodes,
    )
