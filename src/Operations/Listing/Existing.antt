-- ===== src/Operations/Listing/Existing.antt =====
-- operations.py: a name that `list_directory` returns is found by `get_file_info`.
use django_fsspec.Prelude.{
  ℕ, ◌≡◌, refl, ap, sym, ◌∙◌, ◌⊎◌, inl, inr, Bool, true, false, ◌||◌, List, [], ◌∷◌, ◌++◌, length,
  drop, any, ◌==◌, arith, append_assoc, any_of_find?-none, Option-cases, Bool-cases,
}
use django_fsspec.Errors.{ok}
use django_fsspec.Environment.{Environment}
use django_fsspec.Text.{
  Text, text, text_eq, slash, is_empty, has_slash, starts_with, rstrip_slash, first_part,
}
use django_fsspec.Text.Laws.{text_eq_refl, text_eq_sound, starts_with-append}
use django_fsspec.Validators.{validate_path}
use django_fsspec.Models.{FileNode, Db}
use django_fsspec.Models.Query.{child_prefix, at_path, below_prefix, get_node}
use django_fsspec.Operations.Info.{Info, info_at, get_file_info, directory_info, node_info}
use django_fsspec.Operations.Directory.{is_directory_kind}
use django_fsspec.Operations.Listing.{list_directory, list_directory-rows, shows}

starts_with-drop : (p s : Text) → starts_with p s ≡ true → s ≡ p ++ drop (length p) s
starts_with-drop [] s h = refl
starts_with-drop (c ∷ p) [] h = ground arith
starts_with-drop (c ∷ p) (d ∷ s) h = ground (arith, starts_with-drop p s)

-- A text is its first part, or goes on with a slash after it.
first_part-splits : (s : Text) → (s ≡ first_part s) ⊎ ((t : Text) × (s ≡ first_part s ++ slash ∷ t))
first_part-splits [] = inl refl
first_part-splits (c ∷ s) = elim (Bool-cases (c == slash)) [
  | inl here ↦ inr (s, ground (arith, here))
  | inr later ↦ elim (first_part-splits s) [
    | inl whole ↦ inl (rw later (ap (λ r. c ∷ r) whole))
    | inr (t, more) ↦ inr (t, rw later (ap (λ r. c ∷ r) more))
  ]
]

has_slash-first_part : (s : Text) → has_slash (first_part s) ≡ false
has_slash-first_part [] = refl
has_slash-first_part (c ∷ s) = ground (arith, has_slash-first_part s)

rstrip_slash-plain : (s : Text) → has_slash s ≡ false → rstrip_slash s ≡ s
rstrip_slash-plain [] h = refl
rstrip_slash-plain (c ∷ s) h = ground (arith, rstrip_slash-plain s)

rstrip_slash-name :
    (a s : Text) → is_empty s ≡ false → has_slash s ≡ false → rstrip_slash (a ++ s) ≡ a ++ s
rstrip_slash-name [] s e h = rstrip_slash-plain s h
rstrip_slash-name (c ∷ []) s e h = ground (arith, rstrip_slash-name [] s e h)
rstrip_slash-name (c ∷ d ∷ a) s e h = ground (arith, rstrip_slash-name (d ∷ a) s e h)

-- The row stands at the path or below it.
abbrev at_or_below : ℕ → Text → FileNode → Bool
at_or_below namespace path n =
    at_path namespace path n || below_prefix namespace (child_prefix path) n

path_cases :
    (prefix name : Text) (path : Text)
    → starts_with prefix path ≡ true
    → text_eq name (first_part (drop (length prefix) path)) ≡ true
    → is_empty (first_part (drop (length prefix) path)) ≡ false
    → (text_eq path (prefix ++ name) || starts_with (child_prefix (prefix ++ name)) path) ≡ true
path_cases prefix name path below named some_name =
    let rest = drop (length prefix) path in
    let same : name ≡ first_part rest = text_eq_sound name (first_part rest) named in
    let whole : path ≡ prefix ++ rest = starts_with-drop prefix path below in
    elim (first_part-splits rest) [
      | inl last ↦
          let e : path ≡ prefix ++ name = whole ∙ ap (λ r. prefix ++ r) (last ∙ sym same) in
          let t : text_eq path (prefix ++ name) ≡ true =
            ap (λ q. text_eq path q) (sym e) ∙ text_eq_refl path in
          ground (arith, t)
      | inr (t, more) ↦
          let bare : rstrip_slash (prefix ++ name) ≡ prefix ++ name =
            rstrip_slash-name prefix name (ap is_empty same ∙ some_name)
              (ap has_slash same ∙ has_slash-first_part rest) in
          let e : path ≡ child_prefix (prefix ++ name) ++ t = rw bare (
            whole
            ∙ ap (λ r. prefix ++ r) (more ∙ ap (λ f. f ++ slash ∷ t) (sym same))
            ∙ sym (append_assoc prefix name (slash ∷ t))
            ∙ sym (append_assoc (prefix ++ name) (text "/") t)) in
          let s : starts_with (child_prefix (prefix ++ name)) path ≡ true =
            ap (starts_with (child_prefix (prefix ++ name))) e
            ∙ starts_with-append (child_prefix (prefix ++ name)) t in
          ground (arith, s)
    ]

-- A row that makes a listing show a name stands at the path of the name or below it.
any-at_or_below :
    (namespace : ℕ) (prefix own name : Text) (nodes : List FileNode)
    → any (shows namespace prefix own name) nodes ≡ true
    → any (at_or_below namespace (prefix ++ name)) nodes ≡ true
any-at_or_below namespace prefix own name [] h = ground arith
any-at_or_below namespace prefix own name (n ∷ nodes) h =
    ground (arith, any-at_or_below namespace prefix own name nodes, path_cases prefix name n.path)

any_below-existing :
    (namespace : ℕ) (path : Text) (nodes : List FileNode)
    → any (at_or_below namespace path) nodes ≡ true
    → any (at_path namespace path) nodes ≡ false
    → any (below_prefix namespace (child_prefix path)) nodes ≡ true
any_below-existing namespace path [] h absent = ground arith
any_below-existing namespace path (n ∷ nodes) h absent =
    ground (arith, any_below-existing namespace path nodes)

info_at-existing :
    (namespace : ℕ) (path : Text) (db : Db)
    → any (at_or_below namespace path) db.nodes ≡ true
    → (info : Info) × (info_at namespace path db ≡ ok info)
unfolding info_at
info_at-existing namespace path db h = elim (Option-cases (get_node namespace path db)) [
  | inl absent ↦
      let below =
        any_below-existing namespace path db.nodes h
          (any_of_find?-none (at_path namespace path) db.nodes absent) in
      (directory_info path, ground (arith, absent, below))
  | inr (n, found) ↦ (node_info n, ground (arith, found))
]

-- For a valid, normalised path below the root whose metadata are a directory's, `list_directory`
-- returns names, and each of them, put after the prefix of the directory, is a path that the lookup
-- of `get_file_info` finds.
pub list_directory-Existing :
    (e : Environment) (namespace : ℕ) (path : Text) (info : Info) (db : Db)
    → validate_path e.nfc path ≡ ok path
    → text_eq path (text "/") ≡ false
    → get_file_info e namespace path db ≡ ok info
    → is_directory_kind info.kind ≡ true
    → (names : List Text) × (list_directory e namespace path db ≡ ok names)
      × ((name : Text)
          → any (text_eq name) names ≡ true
          → (child : Info) × (info_at namespace (child_prefix path ++ name) db ≡ ok child))
list_directory-Existing e namespace path info db valid below found kind =
    let (names, runs, shown) =
      list_directory-rows e namespace path info db valid below found kind in
    (
      names,
      runs,
      λ name listed. info_at-existing namespace (child_prefix path ++ name) db (
          any-at_or_below namespace (child_prefix path) path name db.nodes
            (sym (shown name) ∙ listed)),
    )
