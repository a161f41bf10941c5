-- ===== src/Commands/Rechunk/Runs.antt =====
-- management/commands/fsspec_rechunk.py: the loop of `handle` over the selected files.
use django_fsspec.Prelude.{
  ℕ, ◌+◌, ◌≡◌, inl, inr, Bool-cases, refl, true, ◌&&◌, Option, none, some, List, [], ◌∷◌, ◌++◌, map,
  length, ◌==◌, if◌then◌else◌,
}
use django_fsspec.Errors.{Error, Result, ok, err}
use django_fsspec.Environment.{Environment}
use django_fsspec.Text.{Text}
use django_fsspec.Models.{FileNode, Db}
use django_fsspec.Action.{Action, atomic}
use django_fsspec.Commands.Rechunk.{
  RechunkResult, Options, inspect_file, rechunk_file, candidates, limited, normalize_prefix,
}

pub record Summary : Type 0 where
  pub files_matching : ℕ
  pub files_selected : ℕ
  pub files_rechunked : ℕ
  pub files_skipped : ℕ
  pub errors : ℕ
  pub bytes_rewritten : ℕ
  pub old_blocks : ℕ
  pub new_blocks : ℕ

-- A file that was passed over: its key, with the exception if there was one.
pub record Skipped : Type 0 where
  pub file_id : ℕ
  pub error : Option Error
  pub reason : Text

-- How a run ends: the exit code, what it reports, and the database.
pub record Outcome : Type 0 where
  pub exit_code : ℕ
  pub summary : Summary
  pub skipped : List Skipped
  pub after : Db

-- the `try` of the loop: a rewrite is a transaction of its own
unfoldable pub process_file : Environment → Options → ℕ → Action RechunkResult
process_file e o file_id db =
    if o.dry_run
    then (inspect_file e file_id o.block_size o.verify db, db)
    else atomic (rechunk_file e file_id o.block_size o.verify) db

abbrev pub count_error : Summary → Summary
count_error s = record s { files_skipped = s.files_skipped + 1; errors = s.errors + 1 }

abbrev pub count_result : RechunkResult → Summary → Summary
count_result r s =
    if r.skipped then record s { files_skipped = s.files_skipped + 1 } else record s {
      files_rechunked = s.files_rechunked + 1;
      bytes_rewritten = s.bytes_rewritten + r.bytes_rewritten;
      old_blocks = s.old_blocks + r.old_blocks;
      new_blocks = s.new_blocks + r.new_blocks;
    }

abbrev pub note_result : ℕ → RechunkResult → List Skipped → List Skipped
note_result file_id r skipped =
    if r.skipped
    then skipped ++ record { file_id = file_id; error = none; reason = r.reason } ∷ []
    else skipped

abbrev pub note_error : ℕ → Error → List Skipped → List Skipped
note_error file_id x skipped =
    skipped ++ record { file_id = file_id; error = some x; reason = [] } ∷ []

abbrev pub exit_code_of : Summary → ℕ
exit_code_of s = if s.files_skipped == 0 && s.errors == 0 then 0 else 1

-- What the loop does with the result of one file.
abbrev after_file :
    Options
    → ℕ
    → (Summary → List Skipped → Db → Outcome)
    → Summary
    → List Skipped
    → Result RechunkResult × Db
    → Outcome
after_file o file_id rest s skipped (ok result, db) =
    rest (count_result result s) (note_result file_id result skipped) db
after_file o file_id rest s skipped (err x, db) =
    if o.abort_on_error
    then record {
      exit_code = 2;
      summary = count_error s;
      skipped = note_error file_id x skipped;
      after = db;
    }
    else rest (count_error s) (note_error file_id x skipped) db

-- the loop over `file_ids`
unfoldable pub process_files :
    Environment → Options → List ℕ → Summary → List Skipped → Db → Outcome
process_files e o [] s skipped db = record {
  exit_code = exit_code_of s;
  summary = s;
  skipped = skipped;
  after = db;
}
process_files e o (file_id ∷ ids) s skipped db =
    after_file o file_id (process_files e o ids) s skipped (process_file e o file_id db)

abbrev pub start_summary : ℕ → ℕ → Summary
start_summary matching selected = record {
  files_matching = matching;
  files_selected = selected;
  files_rechunked = 0;
  files_skipped = 0;
  errors = 0;
  bytes_rewritten = 0;
  old_blocks = 0;
  new_blocks = 0;
}

abbrev run_with : Environment → Options → Db → Outcome
run_with e o db =
    let found = candidates o db in
    let ids = map (λ (n : FileNode). n.pk) (limited o.limit found) in
    process_files e o ids (start_summary (length found) (length ids)) [] db

abbrev run_prefixed : Environment → Options → Db → Result (Option Text) → Outcome
run_prefixed e o db (err _) = record {
  exit_code = 2;
  summary = start_summary 0 0;
  skipped = [];
  after = db;
}
run_prefixed e o db (ok prefix) = run_with e (record o { prefix = prefix }) db

-- `handle`; an invalid prefix is refused before anything is read.
unfoldable pub handle : Environment → Options → Db → Outcome
handle e o db = run_prefixed e o db (normalize_prefix e o.prefix)

-- What every file of a run keeps, the run keeps.
module _ (P : Db → Type 0) (e : Environment) (o : Options)
    (step : (file_id : ℕ) (db : Db) → P db → P (process_file e o file_id db).1) where
  after_file-keeps :
      (file_id : ℕ) (rest : Summary → List Skipped → Db → Outcome) (s : Summary)
      (skipped : List Skipped)
      → ((t : Summary) (k : List Skipped) (d : Db) → P d → P (rest t k d).after)
      → (p : Result RechunkResult × Db) → P p.1
      → P (after_file o file_id rest s skipped p).after
  after_file-keeps file_id rest s skipped next (ok result, db) h =
      next (count_result result s) (note_result file_id result skipped) db h
  after_file-keeps file_id rest s skipped next (err x, db) h = elim (Bool-cases o.abort_on_error) [
    | inl stop ↦ rw stop h
    | inr on ↦ rw on (next (count_error s) (note_error file_id x skipped) db h)
  ]

  pub process_files-keeps :
      (ids : List ℕ) (s : Summary) (skipped : List Skipped) (db : Db)
      → P db
      → P (process_files e o ids s skipped db).after
  unfolding process_files
  process_files-keeps [] s skipped db h = h
  process_files-keeps (i ∷ ids) s skipped db h =
      after_file-keeps i (process_files e o ids) s skipped (process_files-keeps ids)
        (process_file e o i db) (step i db h)

dry_step :
    (e : Environment) (o : Options) (before : Db)
    → o.dry_run ≡ true
    → (file_id : ℕ) (db : Db) → db ≡ before
    → (process_file e o file_id db).1 ≡ before
unfolding process_file
dry_step e o before dry file_id db same = rw dry same

dry_run_prefixed :
    (e : Environment) (o : Options) (db : Db)
    → o.dry_run ≡ true
    → (prefix : Result (Option Text)) → (run_prefixed e o db prefix).after ≡ db
dry_run_prefixed e o db dry (err _) = refl
dry_run_prefixed e o db dry (ok prefix) =
    let o' = record o { prefix = prefix } in
    let found = candidates o' db in
    let ids = map (λ (n : FileNode). n.pk) (limited o'.limit found) in
    process_files-keeps (λ d. d ≡ db) e o' (dry_step e o' db dry) ids
      (start_summary (length found) (length ids)) [] db refl

-- A dry run of the rechunk command changes nothing.
pub dry_run-handle :
    (e : Environment) (o : Options) (db : Db) → o.dry_run ≡ true → (handle e o db).after ≡ db
unfolding handle
dry_run-handle e o db dry = dry_run_prefixed e o db dry (normalize_prefix e o.prefix)
