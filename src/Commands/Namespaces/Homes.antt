-- ===== src/Commands/Namespaces/Homes.antt =====
-- fsspec_namespace.py: no subcommand takes the namespace of a file away.
use django_fsspec.Prelude.{
  ℕ, ◌≡◌, refl, Bool, true, false, ◌&&◌, not, List, [], ◌∷◌, ◌++◌, Option, none, some, filter,
  find?, any, all, all_imply, update_where, ◌==◌, arith, Bool-cases, inl, inr, if◌then◌else◌,
}
use django_fsspec.Errors.{Error, ok, err}
use django_fsspec.Environment.{Environment}
use django_fsspec.Text.{Text}
use django_fsspec.Models.{Namespace, FileNode, Db}
use django_fsspec.Models.Query.{get_namespace}
use django_fsspec.Models.Consistent.{is_found}
use django_fsspec.Action.{Action, modify, query_or_raise, raise_if, atomic, ◌>>=◌, ◌>>◌}
use django_fsspec.Action.Keeps.{Keeps, bind-Keeps, atomic-Keeps, after_read-Keeps}
use django_fsspec.Commands.Namespaces.{
  Host, Update, Subcommand, handle, add_namespace, set_namespace, remove_namespace, has_files,
  has_no_files, create_namespace, create_body, update_namespace, update_body, update_description,
  update_groups, delete_namespace, resolve_groups, new_namespace, get_namespace_by_name,
  validate_namespace, with_description, with_read_groups, with_write_groups, name_taken, has_any,
  has_changes,
}

abbrev has_home : Db → FileNode → Bool
has_home db n = is_found (get_namespace n.namespace_id db)

-- Every row of a file or a directory is in a namespace that exists.
abbrev pub HasHomes : Db → Type 0
HasHomes db = all (has_home db) db.nodes ≡ true

found-append :
    (j : ℕ) (xs ys : List Namespace)
    → is_found (find? (λ n. n.pk == j) xs) ≡ true
    → is_found (find? (λ n. n.pk == j) (xs ++ ys)) ≡ true
found-append j [] ys h = ground arith
found-append j (x ∷ xs) ys h = ground (arith, found-append j xs ys)

found-update_where :
    (j k : ℕ) (change : Namespace → Namespace)
    → ((n : Namespace) → (change n).pk ≡ n.pk)
    → (xs : List Namespace) → is_found (find? (λ n. n.pk == j) xs) ≡ true
    → is_found (find? (λ n. n.pk == j) (update_where (λ n. n.pk == k) change xs)) ≡ true
found-update_where j k change same [] h = h
found-update_where j k change same (x ∷ xs) h =
    ground (arith, same x, found-update_where j k change same xs)

found-filter :
    (j k : ℕ) (xs : List Namespace)
    → (j == k) ≡ false
    → is_found (find? (λ n. n.pk == j) xs) ≡ true
    → is_found (find? (λ n. n.pk == j) (filter (λ n. not (n.pk == k)) xs)) ≡ true
found-filter j k [] apart h = h
found-filter j k (x ∷ xs) apart h = ground (arith, found-filter j k xs)

add_namespace-HasHomes : (n : Namespace) (db : Db) → HasHomes db → HasHomes (add_namespace n db)
add_namespace-HasHomes n db h =
    all_imply (has_home db) (has_home (add_namespace n db)) db.nodes
      (λ r. found-append r.namespace_id db.namespaces (n ∷ [])) h

set_namespace-HasHomes :
    (pk : ℕ) (change : Namespace → Namespace)
    → ((n : Namespace) → (change n).pk ≡ n.pk)
    → Keeps HasHomes (modify (set_namespace pk change))
set_namespace-HasHomes pk change same db h =
    all_imply (has_home db) (has_home (set_namespace pk change db)) db.nodes
      (λ r. found-update_where r.namespace_id pk change same db.namespaces) h

-- The nodes one by one: none of them is in the namespace that goes.
homes_left :
    (pk : ℕ) (db : Db) (nodes : List FileNode)
    → any (λ n. n.namespace_id == pk) nodes ≡ false
    → all (has_home db) nodes ≡ true
    → all (has_home (remove_namespace pk db)) nodes ≡ true
homes_left pk db [] apart h = refl
homes_left pk db (n ∷ nodes) apart h =
    ground (arith, homes_left pk db nodes, found-filter n.namespace_id pk db.namespaces)

remove_unused-HasHomes :
    (pk : ℕ)
    → Keeps HasHomes (query_or_raise (has_no_files pk) >>= λ _. modify (remove_namespace pk))
remove_unused-HasHomes pk db h = elim (Bool-cases (has_files pk db)) [
  | inl used ↦ ground (arith, used, h)
  | inr unused ↦ ground (arith, unused, homes_left pk db db.nodes unused h)
]

-- A check of the options, and what follows it.
guard-HasHomes :
    (c : Bool) (x : Error) (m : Action (Unit {0}))
    → Keeps HasHomes m
    → Keeps HasHomes (raise_if c x >> m)
guard-HasHomes c x m keeps =
    after_read-Keeps HasHomes (λ _. if c then err x else ok tt) (λ _. m) (λ _. keeps)

delete_namespace-HasHomes : (name : Text) → Keeps HasHomes (delete_namespace name)
unfolding delete_namespace
delete_namespace-HasHomes name =
    after_read-Keeps HasHomes (get_namespace_by_name name) _
      λ n. guard-HasHomes (n.pk == 1) Error.command_error _ (remove_unused-HasHomes n.pk)

create_body-HasHomes :
    (e : Environment) (host : Host) (name description : Text) (read_names write_names : List Text)
    → Keeps HasHomes (create_body e host name description read_names write_names)
unfolding create_body
create_body-HasHomes e host name description read_names write_names =
    after_read-Keeps HasHomes (λ _. resolve_groups host read_names) _
      λ read_groups.
        after_read-Keeps HasHomes (λ _. resolve_groups host write_names) _
          λ write_groups.
            after_read-Keeps HasHomes
              (λ db. validate_namespace host (new_namespace e name description [] [] db) db) _
              λ _ db.
                add_namespace-HasHomes
                  (new_namespace e name description read_groups write_groups db) db

update_description-HasHomes :
    (host : Host) (n : Namespace) (t : Option Text) → Keeps HasHomes (update_description host n t)
unfolding update_description
update_description-HasHomes host n none = λ db h. h
update_description-HasHomes host n (some t) =
    after_read-Keeps HasHomes (validate_namespace host (with_description t n)) _
      λ _. set_namespace-HasHomes n.pk (with_description t) (λ _. refl)

update_groups-HasHomes :
    (host : Host) (pk : ℕ) (put_groups : List ℕ → Namespace → Namespace) (names : List Text)
    (cleared : Bool)
    → ((groups : List ℕ) (n : Namespace) → (put_groups groups n).pk ≡ n.pk)
    → Keeps HasHomes (update_groups host pk put_groups names cleared)
unfolding update_groups
update_groups-HasHomes host pk put_groups (name ∷ names) cleared same =
    after_read-Keeps HasHomes (λ _. resolve_groups host (name ∷ names)) _
      λ groups. set_namespace-HasHomes pk (put_groups groups) (same groups)
update_groups-HasHomes host pk put_groups [] true same =
    set_namespace-HasHomes pk (put_groups []) (same [])
update_groups-HasHomes host pk put_groups [] false same = λ db h. h

update_body-HasHomes :
    (host : Host) (u : Update) (n : Namespace) → Keeps HasHomes (update_body host u n)
unfolding update_body
update_body-HasHomes host u n =
    let writes = update_groups host n.pk with_write_groups u.write_names u.clear_write_groups in
    let reads = update_groups host n.pk with_read_groups u.read_names u.clear_read_groups in
    bind-Keeps HasHomes (update_description host n u.description) (λ _. reads >> writes)
      (update_description-HasHomes host n u.description)
      λ _.
        bind-Keeps HasHomes reads (λ _. writes)
          (update_groups-HasHomes host n.pk with_read_groups u.read_names u.clear_read_groups
            (λ _ _. refl))
          λ _.
            update_groups-HasHomes host n.pk with_write_groups u.write_names u.clear_write_groups
              (λ _ _. refl)

-- The namespace command, whether it raises or not, leaves every row of a file or a directory in a
-- namespace that exists, if each was in one before.
pub handle-HasHomes :
    (e : Environment) (host : Host) (c : Subcommand) (db : Db)
    → HasHomes db
    → HasHomes (handle e host c db).1
unfolding create_namespace update_namespace
handle-HasHomes e host (Subcommand.create name description read_names write_names) =
    after_read-Keeps HasHomes (name_taken name) _ λ _.
      atomic-Keeps HasHomes (create_body e host name description read_names write_names)
        (create_body-HasHomes e host name description read_names write_names)
handle-HasHomes e host (Subcommand.update name u) =
    guard-HasHomes (has_any u.read_names && u.clear_read_groups) Error.command_error _ (
      guard-HasHomes (has_any u.write_names && u.clear_write_groups) Error.command_error _ (
        guard-HasHomes (not (has_changes u)) Error.command_error
          (query_or_raise (get_namespace_by_name name) >>= λ n. atomic (update_body host u n))
          (after_read-Keeps HasHomes (get_namespace_by_name name)
            (λ n. atomic (update_body host u n))
            λ n. atomic-Keeps HasHomes (update_body host u n) (update_body-HasHomes host u n))))
handle-HasHomes e host (Subcommand.delete name) = delete_namespace-HasHomes name
