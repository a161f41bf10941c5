-- ===== src/Commands/Fsck.antt =====
-- management/commands/fsspec_fsck.py: the findings of a check, without their messages.
use django_fsspec.Prelude.{
  ℕ, Bool, true, false, ◌&&◌, ◌||◌, not, Option, none, some, List, [], ◌∷◌, ◌++◌, map, filter, any,
  contains, length, ltb, ◌==◌, if◌then◌else◌,
}
use django_fsspec.Errors.{ok, err}
use django_fsspec.Environment.{Environment}
use django_fsspec.Text.{Text, is_empty}
use django_fsspec.Validators.{validate_path}
use django_fsspec.Models.{FileNode, StorageBlock, FileBlock, Db, is_file, is_directory}
use django_fsspec.Models.Query.{LoadedBlock, below_prefix, child_prefix, get_block, get_node_by_pk}
use django_fsspec.Operations.Content.{
  checksum_differs, is_contiguous, join_content, ordered_file_blocks,
}

pub data Severity : Type 0 where
  recoverable unresolved critical : Severity

pub data Code : Type 0 where
  block_checksum_mismatch block_size_mismatch invalid_path invalid_node_type path_conflict : Code
  directory_has_blocks directory_size_mismatch directory_checksum_mismatch : Code
  file_references_free_block file_size_mismatch file_checksum_mismatch : Code
  non_contiguous_sequences file_blocks_to_free_storage shared_storage_block : Code
  used_block_without_owner : Code

pub record Finding : Type 0 where
  pub severity : Severity
  pub code : Code
  pub file_id : Option ℕ
  pub block_id : Option ℕ
  pub count : Option ℕ

abbrev pub about_block : Severity → Code → StorageBlock → Finding
about_block severity code b = record {
  severity = severity;
  code = code;
  file_id = none;
  block_id = some b.pk;
  count = none;
}

abbrev pub about_file : Severity → Code → FileNode → Finding
about_file severity code n = record {
  severity = severity;
  code = code;
  file_id = some n.pk;
  block_id = none;
  count = none;
}

abbrev pub about_count : Code → ℕ → Finding
about_count code k = record {
  severity = Severity.recoverable;
  code = code;
  file_id = none;
  block_id = none;
  count = some k;
}

-- `if test: add(…)`
abbrev pub add_if : Bool → Finding → List Finding
add_if test finding = if test then finding ∷ [] else []

-- The mapping's file is in the namespace; without one, every mapping counts.
abbrev pub of_namespace : Option ℕ → Db → FileBlock → Bool
of_namespace none db m = true
of_namespace (some namespace) db m = elim (get_node_by_pk m.file_id db) [
  | none ↦ false
  | some n ↦ n.namespace_id == namespace
]

abbrev pub leads_to_free : Db → FileBlock → Bool
leads_to_free db m = elim (get_block m.block_id db) [ none ↦ false | some b ↦ b.is_free ]

abbrev pub leads_to_used : Db → FileBlock → Bool
leads_to_used db m = elim (get_block m.block_id db) [ none ↦ false | some b ↦ not b.is_free ]

-- the blocks that `_check_blocks` reads
abbrev pub checked_blocks : Option ℕ → Db → List StorageBlock
checked_blocks none db = filter (λ b. not b.is_free) db.blocks
checked_blocks (some namespace) db =
    let used =
      filter (λ m. of_namespace (some namespace) db m && leads_to_used db m) db.file_blocks in
    filter (λ (b : StorageBlock). contains b.pk (map (λ (m : FileBlock). m.block_id) used))
      db.blocks

-- the body of the loop in `_check_blocks`
abbrev pub check_block_row : Environment → StorageBlock → List Finding
check_block_row e b =
    add_if (checksum_differs e b.checksum b.content)
      (about_block Severity.recoverable Code.block_checksum_mismatch b)
    ++ add_if (not (b.size == length b.content))
        (about_block Severity.recoverable Code.block_size_mismatch b)

abbrev pub check_block_rows : Environment → List StorageBlock → List Finding
check_block_rows e [] = []
check_block_rows e (b ∷ bs) = check_block_row e b ++ check_block_rows e bs

-- `_check_blocks`
unfoldable pub check_blocks : Environment → Option ℕ → Db → List Finding
check_blocks e namespace db = check_block_rows e (checked_blocks namespace db)

abbrev pub is_invalid_path : Environment → Text → Bool
is_invalid_path e path = elim (validate_path e.nfc path) [ ok _ ↦ false | err _ ↦ true ]

abbrev pub has_descendants : FileNode → Db → Bool
has_descendants n db = any (below_prefix n.namespace_id (child_prefix n.path)) db.nodes

-- the checks of `_check_file_node` on every row
abbrev pub check_node : Environment → FileNode → Db → List Finding
check_node e n db =
    add_if (is_invalid_path e n.path) (about_file Severity.unresolved Code.invalid_path n)
    ++ add_if (not (is_file n.node_type || is_directory n.node_type))
        (about_file Severity.critical Code.invalid_node_type n)
    ++ add_if (is_file n.node_type && has_descendants n db)
        (about_file Severity.unresolved Code.path_conflict n)

abbrev pub has_file_blocks : List LoadedBlock → Bool
has_file_blocks [] = false
has_file_blocks (r ∷ rs) = true

abbrev pub check_directory : FileNode → List LoadedBlock → List Finding
check_directory n rows =
    add_if (has_file_blocks rows) (about_file Severity.recoverable Code.directory_has_blocks n)
    ++ add_if (not (n.size == 0)) (about_file Severity.recoverable Code.directory_size_mismatch n)
    ++ add_if (not (is_empty n.checksum))
        (about_file Severity.recoverable Code.directory_checksum_mismatch n)

abbrev pub free_findings : FileNode → List LoadedBlock → List Finding
free_findings n [] = []
free_findings n (r ∷ rs) =
    add_if r.block.is_free
      (record (about_file Severity.recoverable Code.file_references_free_block n) {
        block_id = some r.block.pk;
      })
    ++ free_findings n rs

abbrev pub check_content : Environment → FileNode → List LoadedBlock → List Finding
check_content e n rows =
    free_findings n rows
    ++ add_if (not (n.size == length (join_content rows)))
        (about_file Severity.recoverable Code.file_size_mismatch n)
    ++ add_if (checksum_differs e n.checksum (join_content rows))
        (about_file Severity.recoverable Code.file_checksum_mismatch n)
    ++ add_if (not (is_contiguous 0 rows))
        (about_file Severity.recoverable Code.non_contiguous_sequences n)

-- `_check_file_node`
unfoldable pub check_file_node : Environment → Db → FileNode → List Finding
check_file_node e db n =
    check_node e n db
    ++ (if is_directory n.node_type
        then check_directory n (ordered_file_blocks n db)
        else check_content e n (ordered_file_blocks n db))

abbrev pub check_file_nodes : Environment → Db → List FileNode → List Finding
check_file_nodes e db [] = []
check_file_nodes e db (n ∷ ns) = check_file_node e db n ++ check_file_nodes e db ns

abbrev pub in_namespace : Option ℕ → FileNode → Bool
in_namespace none n = true
in_namespace (some namespace) n = n.namespace_id == namespace

-- `_check_files`
unfoldable pub check_files : Environment → Option ℕ → Db → List Finding
check_files e namespace db = check_file_nodes e db (filter (in_namespace namespace) db.nodes)

-- Each number once, where it stands last.
abbrev pub distinct_keys : List ℕ → List ℕ
distinct_keys [] = []
distinct_keys (k ∷ ks) = let rest = distinct_keys ks in if contains k ks then rest else k ∷ rest

abbrev pub owner_count : List FileBlock → ℕ → ℕ
owner_count ms block_id =
    length
      (distinct_keys (map (λ (m : FileBlock). m.file_id) (filter (λ m. m.block_id == block_id) ms)))

abbrev pub shared_findings : List FileBlock → List ℕ → List Finding
shared_findings ms [] = []
shared_findings ms (k ∷ ks) =
    add_if (ltb 1 (owner_count ms k)) (record {
      severity = Severity.critical;
      code = Code.shared_storage_block;
      file_id = none;
      block_id = some k;
      count = some (owner_count ms k);
    })
    ++ shared_findings ms ks

-- used blocks that no mapping leads to
abbrev pub is_ownerless : Db → StorageBlock → Bool
is_ownerless db b =
    not b.is_free && not (any (λ (m : FileBlock). m.block_id == b.pk) db.file_blocks)

abbrev count_finding : Code → ℕ → List Finding
count_finding code k = add_if (ltb 0 k) (about_count code k)

abbrev pub ownerless_findings : Option ℕ → Db → List Finding
ownerless_findings (some namespace) db = []
ownerless_findings none db =
    count_finding Code.used_block_without_owner (length (filter (is_ownerless db) db.blocks))

-- `_check_block_graph`
unfoldable pub check_block_graph : Option ℕ → Db → List Finding
check_block_graph namespace db =
    let ms = filter (of_namespace namespace db) db.file_blocks in
    count_finding Code.file_blocks_to_free_storage (length (filter (leads_to_free db) ms))
    ++ shared_findings ms (distinct_keys (map (λ (m : FileBlock). m.block_id) ms))
    ++ ownerless_findings namespace db

-- `handle`: the findings; there is a `CommandError` where there is one.
unfoldable pub check : Environment → Option ℕ → Db → List Finding
check e namespace db =
    check_blocks e namespace db ++ check_files e namespace db ++ check_block_graph namespace db

abbrev pub exit_code_of_findings : List Finding → ℕ
exit_code_of_findings [] = 0
exit_code_of_findings (f ∷ fs) = 1
