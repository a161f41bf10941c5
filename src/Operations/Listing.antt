-- ===== src/Operations/Listing.antt =====
-- operations.py: the immediate children of a directory.
pub mod Existing
pub mod Shown
use django_fsspec.Prelude.{
  ℕ, ◌≡◌, refl, ◌∙◌, Bool, true, false, ◌&&◌, ◌||◌, not, List, [], ◌∷◌, ◌++◌, none, some, map,
  filter, any, length, drop, sort, insert_sorted, arith, if◌then◌else◌,
}
use django_fsspec.Errors.{Error, Result, ok, err, is_file_not_found, raise_if, ◌>>=◌, ◌>>◌}
use django_fsspec.Environment.{Environment, Integrity}
use django_fsspec.Text.{Text, text, text_eq, text_le, is_empty, first_part}
use django_fsspec.Text.Laws.{text_eq_sound}
use django_fsspec.Validators.{validate_path}
use django_fsspec.Models.{FileNode, Db}
use django_fsspec.Models.Query.{child_prefix, below_prefix, get_node}
use django_fsspec.Operations.Content.{load_file_data}
use django_fsspec.Operations.Info.{Info, InfoType, directory_info, get_file_info}
use django_fsspec.Operations.Directory.{is_directory_kind}

-- the annotation `next_part`
abbrev pub next_part : Text → FileNode → Text
next_part prefix n = first_part (drop (length prefix) n.path)

-- `distinct()`
abbrev pub distinct : List Text → List Text
distinct [] = []
distinct (x ∷ xs) = let rest = distinct xs in if any (text_eq x) xs then rest else x ∷ rest

-- A row below the prefix, other than the directory's own, with a part to show.
abbrev pub is_listed : ℕ → Text → Text → FileNode → Bool
is_listed namespace prefix own n =
    below_prefix namespace prefix n
    && not (text_eq n.path own)
    && not (is_empty (next_part prefix n))

-- the query of `list_directory`
unfoldable pub child_names : ℕ → Text → Text → Db → List Text
child_names namespace prefix own db =
    sort text_le
      (distinct (map (next_part prefix) (filter (is_listed namespace prefix own) db.nodes)))

unfoldable pub list_directory : Environment → ℕ → Text → Db → Result (List Text)
list_directory e namespace raw_path db =
    if text_eq raw_path (text "/") then ok (child_names namespace (text "/") [] db) else (do
      path ← validate_path e.nfc raw_path
      info ← get_file_info e namespace path db
      raise_if (not (is_directory_kind info.kind)) Error.not_a_directory
      ok (child_names namespace (child_prefix path) path db))

-- `_corrupt_child_info`, without the message
abbrev pub corrupt_child_info : Text → Info
corrupt_child_info child_path = record (directory_info child_path) { kind = InfoType.corrupt }

-- What a tolerant listing makes of an error on a child.
abbrev pub tolerated : Text → Error → Result Info
tolerated child_path Error.data_integrity = ok (corrupt_child_info child_path)
tolerated child_path e = if is_file_not_found e then ok (corrupt_child_info child_path) else err e

abbrev pub is_file_kind : InfoType → Bool
is_file_kind InfoType.file = true
is_file_kind _ = false

-- the check of a file's row in a tolerant listing
abbrev pub checked_info : Environment → ℕ → Text → Info → Db → Result Info
checked_info e namespace child_path info db = elim (get_node namespace child_path db) [
  | none ↦ ok (corrupt_child_info child_path)
  | some n ↦ elim (load_file_data e n Integrity.metadata false db) [
    | ok _ ↦ ok info
    | err error ↦ tolerated child_path error
  ]
]

-- the body of the loop of `list_directory_detail`
unfoldable pub child_info : Environment → ℕ → Bool → Text → Db → Result Info
child_info e namespace tolerant child_path db = elim (get_file_info e namespace child_path db) [
  | ok info ↦
      if tolerant && is_file_kind info.kind
      then checked_info e namespace child_path info db
      else ok info
  | err error ↦
      if is_file_not_found error
      then ok (if tolerant then corrupt_child_info child_path else directory_info child_path)
      else err error
]

abbrev pub child_infos : Environment → ℕ → Bool → Text → List Text → Db → Result (List Info)
child_infos e namespace tolerant prefix [] db = ok []
child_infos e namespace tolerant prefix (name ∷ names) db = do
  info ← child_info e namespace tolerant (prefix ++ name) db
  infos ← child_infos e namespace tolerant prefix names db
  ok (info ∷ infos)

unfoldable pub list_directory_detail : Environment → ℕ → Text → Bool → Db → Result (List Info)
list_directory_detail e namespace path tolerant db = do
  children ← list_directory e namespace path db
  let prefix = if text_eq path (text "/") then text "/" else child_prefix path
  child_infos e namespace tolerant prefix children db

any-insert_sorted :
    (q : Text → Bool) (x : Text) (xs : List Text)
    → any q (insert_sorted text_le x xs) ≡ (q x || any q xs)
any-insert_sorted q x [] = refl
any-insert_sorted q x (y ∷ xs) = ground (arith, any-insert_sorted q x xs)

pub any-sort : (q : Text → Bool) (xs : List Text) → any q (sort text_le xs) ≡ any q xs
any-sort q [] = refl
any-sort q (x ∷ xs) = ground (arith, any-sort q xs, any-insert_sorted q x (sort text_le xs))

any_of_equal :
    (name x : Text) (xs : List Text)
    → any (text_eq x) xs ≡ true
    → text_eq name x ≡ true
    → any (text_eq name) xs ≡ true
any_of_equal name x xs h same = rw (text_eq_sound name x same) h

pub any-distinct :
    (name : Text) (xs : List Text) → any (text_eq name) (distinct xs) ≡ any (text_eq name) xs
any-distinct name [] = refl
any-distinct name (x ∷ xs) = ground (arith, any-distinct name xs, any_of_equal name x xs)

-- A row that makes the listing show the name.
abbrev pub shows : ℕ → Text → Text → Text → FileNode → Bool
shows namespace prefix own name n =
    is_listed namespace prefix own n && text_eq name (next_part prefix n)

any-next_part :
    (namespace : ℕ) (prefix own name : Text) (nodes : List FileNode)
    → any (text_eq name) (map (next_part prefix) (filter (is_listed namespace prefix own) nodes))
      ≡ any (shows namespace prefix own name) nodes
any-next_part namespace prefix own name [] = refl
any-next_part namespace prefix own name (n ∷ nodes) =
    ground (arith, any-next_part namespace prefix own name nodes)

-- The names of a listing are the next parts of the rows that the query selects.
pub list_directory-rows :
    (e : Environment) (namespace : ℕ) (path : Text) (info : Info) (db : Db)
    → validate_path e.nfc path ≡ ok path
    → text_eq path (text "/") ≡ false
    → get_file_info e namespace path db ≡ ok info
    → is_directory_kind info.kind ≡ true
    → (names : List Text) × (list_directory e namespace path db ≡ ok names)
      × ((name : Text)
          → any (text_eq name) names ≡ any (shows namespace (child_prefix path) path name) db.nodes)
unfolding list_directory child_names
list_directory-rows e namespace path info db valid below found kind =
    let parts =
      map (next_part (child_prefix path))
        (filter (is_listed namespace (child_prefix path) path) db.nodes) in
    (
      child_names namespace (child_prefix path) path db,
      ground (arith, valid, below, found, kind),
      λ name.
          any-sort (text_eq name) (distinct parts)
          ∙ any-distinct name parts
          ∙ any-next_part namespace (child_prefix path) path name db.nodes,
    )
