-- ===== src/Operations/Directory/Fuel.antt =====
-- operations.py: `make_directory` ends, since each of its calls is on a shorter path.
use django_fsspec.Prelude.{
  ℕ, zero, suc, ◌+◌, ◌<◌, ◌≡◌, ◌≢◌, ap, sym, Bool, true, false, [], ◌∷◌, none, some, length, arith,
  if◌then◌else◌, Bool-cases, inl, inr,
}
use django_fsspec.Errors.{Error, Result, ok, err, is_file_not_found}
use django_fsspec.Environment.{Environment}
use django_fsspec.Text.{Text, text, text_eq, has_slash, starts_with, before_last_slash}
use django_fsspec.Validators.{validate_path}
use django_fsspec.Models.{Db, NodeType}
use django_fsspec.Models.Query.{get_node, any_below, child_prefix}
use django_fsspec.Action.{Action, pure}
use django_fsspec.Action.Avoids.{
  Avoids, bind-Avoids, lift-Avoids, query-Avoids, guard-Avoids, atomic-Avoids,
}
use django_fsspec.Operations.Info.{Info, info_at, get_file_info}
use django_fsspec.Operations.Paths.{parent_path, lock_namespace_for_write}
use django_fsspec.Operations.Blocks.{create_node}
use django_fsspec.Operations.Directory.{
  default_block_size, make_directory, make_directory_within, directory_body, ensure_made_parent,
  parent_step,
}

length-before_last_slash : (s : Text) → has_slash s ≡ true → length (before_last_slash s) < length s
length-before_last_slash [] h = ground arith
length-before_last_slash (c ∷ s) h = ground (arith, length-before_last_slash s)

-- The parent of an absolute path other than the root is shorter.
length-parent_path :
    (p : Text)
    → starts_with (text "/") p ≡ true
    → text_eq p (text "/") ≡ false
    → length (parent_path p) < length p
length-parent_path [] h below = ground arith
length-parent_path (c ∷ []) h below = ground arith
length-parent_path (c ∷ d ∷ s) h below = ground (arith, length-before_last_slash (c ∷ d ∷ s))

abbrev timeout : Error
timeout = Error.runtime_error

validate_path-avoids : (nfc : Text → Text) (path : Text) → validate_path nfc path ≢ err timeout
unfolding validate_path
validate_path-avoids nfc path h = ground arith

lock-avoids : (namespace : ℕ) (db : Db) → lock_namespace_for_write namespace db ≢ err timeout
unfolding lock_namespace_for_write
lock-avoids namespace db h = ground arith

get_file_info-avoids :
    (e : Environment) (namespace : ℕ) (path : Text) (db : Db)
    → get_file_info e namespace path db ≢ err timeout
unfolding get_file_info info_at
get_file_info-avoids e namespace path db h = ground (arith, validate_path-avoids e.nfc path)

create_node-Avoids :
    (e : Environment) (namespace : ℕ) (path : Text)
    → Avoids timeout (create_node e namespace path NodeType.directory default_block_size [])
unfolding create_node
create_node-Avoids e namespace path db db' h = ground arith

module _ (e : Environment) (namespace : ℕ) where
  parent_step-Avoids :
      (create_parents : Bool) (make_parent : Action (Unit {0})) (r : Result Info)
      → r ≢ err timeout
      → Avoids timeout make_parent
      → Avoids timeout (parent_step create_parents make_parent r)
  unfolding parent_step
  parent_step-Avoids create_parents make_parent (ok info) known makes db db' h = ground (arith, h)
  parent_step-Avoids true make_parent (err y) known makes db db' h =
      elim (Bool-cases (is_file_not_found y)) [
        | inl missing ↦ makes db db' (ground (arith, h, missing))
        | inr other ↦ known (ground (arith, h, other))
      ]
  parent_step-Avoids false make_parent (err y) known makes db db' h =
      elim (Bool-cases (is_file_not_found y)) [
        | inl missing ↦ ground (arith, h, missing)
        | inr other ↦ known (ground (arith, h, other))
      ]

  ensure_made_parent-Avoids :
      (parent : Text) (create_parents : Bool) (make_parent : Action (Unit {0}))
      → Avoids timeout make_parent
      → Avoids timeout (ensure_made_parent e namespace parent create_parents make_parent)
  unfolding ensure_made_parent
  ensure_made_parent-Avoids parent create_parents make_parent makes db db' h =
      elim (Bool-cases (text_eq parent (text "/"))) [
        | inl root ↦ ground (arith, h, root)
        | inr below ↦
            parent_step-Avoids create_parents make_parent (get_file_info e namespace parent db)
              (get_file_info-avoids e namespace parent db) makes db db' (ground (arith, h, below))
      ]

  directory_body-Avoids :
      (path : Text) (create_parents : Bool) (make_parent : Action (Unit {0}))
      → Avoids timeout make_parent
      → Avoids timeout (directory_body e namespace path create_parents make_parent)
  unfolding directory_body
  directory_body-Avoids path create_parents make_parent makes =
      query-Avoids timeout (lock_namespace_for_write namespace) _ (lock-avoids namespace) (λ _.
        query-Avoids timeout
          (λ db. elim (get_node namespace path db) [
            | none ↦ ok tt
            | some _ ↦ err Error.file_exists
          ])
          _ (λ db h. ground (arith, h))
          (λ _.
            query-Avoids timeout
              (λ db.
                if any_below namespace (child_prefix path) db then err Error.file_exists else ok tt)
              _ (λ db h. ground (arith, h))
              (λ _.
                bind-Avoids timeout
                  (ensure_made_parent e namespace (parent_path path) create_parents make_parent) _
                  (ensure_made_parent-Avoids (parent_path path) create_parents make_parent makes)
                  (λ _. create_node-Avoids e namespace path))))

-- What NFC does to paths: an absolute path stays absolute, and the parent of a normalised path is
-- normalised.
pub record KeepsPaths (nfc : Text → Text) : Type 0 where
  pub rooted : (s : Text) → starts_with (text "/") s ≡ true → starts_with (text "/") (nfc s) ≡ true
  pub parents : (s : Text) → nfc (parent_path (nfc s)) ≡ parent_path (nfc s)

validate_path-path :
    (nfc : Text → Text) (raw path : Text)
    → validate_path nfc raw ≡ ok path
    → (path ≡ nfc raw) × (starts_with (text "/") raw ≡ true)
unfolding validate_path
validate_path-path nfc raw path h = (ground (arith, h), ground (arith, h))

module _ (e : Environment) (keeps : KeepsPaths e.nfc) (namespace : ℕ) where
  make_directory_within-Avoids :
      (fuel : ℕ) (raw : Text) (create_parents : Bool)
      → length (e.nfc raw) < fuel
      → Avoids timeout (make_directory_within fuel e namespace raw create_parents)
  unfolding make_directory_within
  make_directory_within-Avoids zero raw create_parents enough = absurd (omega arith)
  make_directory_within-Avoids (suc fuel) raw create_parents enough =
      lift-Avoids timeout (validate_path e.nfc raw) _ (validate_path-avoids e.nfc raw)
        (λ path valid.
          guard-Avoids timeout (text_eq path (text "/")) Error.file_exists _
            (λ h. ground (arith, h))
            (λ below.
              let (same, absolute) = validate_path-path e.nfc raw path valid in
              let rooted = rw (sym same) at (keeps.rooted raw absolute) in
              let shorter = length-parent_path path rooted below in
              let normal : e.nfc (parent_path path) ≡ parent_path path =
                rw same (keeps.parents raw) in
              atomic-Avoids timeout _ (
                directory_body-Avoids e namespace path create_parents _ (
                  bind-Avoids timeout
                    (make_directory_within fuel e namespace (parent_path path) true) (λ _. pure tt)
                    (make_directory_within-Avoids fuel (parent_path path) true
                      (omega (arith, ap length normal, ap length same)))
                    (λ n db db' h. ground (arith, h))))))

  -- Where NFC keeps absolute paths absolute and leaves the parent of a normalised path as it is,
  -- `make_directory` never raises the error that stands for the end of the fuel, which nothing else
  -- in it raises: its recursive calls end.
  pub make_directory-ends :
      (raw : Text) (create_parents : Bool) (db db' : Db)
      → make_directory e namespace raw create_parents db ≢ (err Error.runtime_error, db')
  unfolding make_directory
  make_directory-ends raw create_parents =
      make_directory_within-Avoids (length (e.nfc raw) + 1) raw create_parents (omega arith)
