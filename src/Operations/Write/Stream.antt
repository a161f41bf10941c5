-- ===== src/Operations/Write/Stream.antt =====
-- views.py: a request body written chunk by chunk, and operations.py: data past the size limit.
use django_fsspec.Prelude.{
  ℕ, ◌+◌, ◌≤◌, ◌<◌, ◌≡◌, refl, ◌∙◌, true, false, Option, none, some, List, [], ◌∷◌, ◌++◌,
  append-nil, append_assoc, flatten, length, length-append, arith,
}
use django_fsspec.Errors.{Error, ok, err}
use django_fsspec.Environment.{Bytes, Environment, HasFreshKeys}
use django_fsspec.Text.{Text, text, text_eq}
use django_fsspec.Validators.{validate_path}
use django_fsspec.Models.{FileNode, Db}
use django_fsspec.Models.Consistent.{IsConsistent}
use django_fsspec.Operations.Content.Intact.{IsIntact, content_of}
use django_fsspec.Operations.Writer.{
  Mode, Writer, is_unsupported, new_writer, fresh_writer, write_chunk, commit, discard,
}
use django_fsspec.Operations.Writer.Writing.{
  Writing, after_chunk, after_chunk-Continues, after_chunk-Writing, write_chunk-after,
  write_chunk-too_large,
}
use django_fsspec.Operations.Writer.Finalize.{final_node, final_db, finalize-final}
use django_fsspec.Operations.Writer.Start.{
  Starts, Admits, Starts-created, Starts-truncated, Starts-resumed,
}
use django_fsspec.Operations.Write.{
  write_with_mode, write_file, append_file, write_all, stream_file,
}
use django_fsspec.Operations.Write.RoundTrip.{Holds, write_chunk-final, finalized-Holds}

-- A writer that took all of a stream.
record Wrote (e : Environment) (w : Writer) (db : Db) (chunks : List Bytes) (content : Bytes)
    : Type 0 where
  writer : Writer
  after : Db
  node : FileNode
  runs : write_all e w chunks db ≡ (ok writer, after)
  opened : writer.closed ≡ false
  target : writer.file_node ≡ some node
  holds : Holds e w.namespace w.path content after

write_all-step :
    (e : Environment) (w w' : Writer) (chunk : Bytes) (chunks : List Bytes) (db db' : Db)
    → write_chunk e w chunk false db ≡ (ok w', db')
    → write_all e w (chunk ∷ chunks) db ≡ write_all e w' chunks db'
unfolding write_all
write_all-step e w w' chunk chunks db db' h = ground (arith, h)

module _ (e : Environment) (fresh : HasFreshKeys e) (n : FileNode) where
  write_all-Wrote :
      (chunks : List Bytes) (w : Writer) (db : Db) (written : Bytes)
      → Writing e w db n written
      → length written + length (flatten chunks) ≤ w.max_file_size
      → Wrote e w db chunks (written ++ flatten chunks)
  unfolding write_all
  write_all-Wrote [] w db written h fits =
      let kept = write_chunk-after e fresh n w db h [] (omega (arith, h.sized)) in
      record {
        writer = record w { file_node = some (final_node e n w db h) };
        after = final_db e n w db h;
        node = final_node e n w db h;
        runs = write_chunk-final e w w [] db db kept ∙ finalize-final e n w db h;
        opened = h.opened;
        target = refl;
        holds = rw (append-nil written) (finalized-Holds e n w db h);
      }
  write_all-Wrote (c ∷ chunks) w db written h fits =
      let (w₁, db₁) = after_chunk e n w c db in
      let same = after_chunk-Continues e n w c db in
      let step =
        write_chunk-after e fresh n w db h c
          (omega (arith, h.sized, length-append c (flatten chunks))) in
      let rest =
        write_all-Wrote chunks w₁ db₁ (written ++ c) (after_chunk-Writing e fresh n w db h c)
          (omega (arith, length-append c (flatten chunks), length-append written c, same.limit)) in
      record {
        writer = rest.writer;
        after = rest.after;
        node = rest.node;
        runs = write_all-step e w w₁ c chunks db db₁ step ∙ rest.runs;
        opened = rest.opened;
        target = rest.target;
        holds =
            rw (same.namespace, same.path, append_assoc written c (flatten chunks)) at rest.holds;
      }

module _ (e : Environment) (fresh : HasFreshKeys e) (namespace : ℕ) (raw path : Text)
    (content_type : Text) (db : Db) (valid : validate_path e.nfc raw ≡ ok path)
    (not_root : text_eq path (text "/") ≡ false) (c : IsConsistent db)
    (positive : 0 < e.block_size) where
  streamed :
      (chunks : List Bytes)
      → Starts e (fresh_writer e namespace path Mode.wb content_type none) db []
      → length (flatten chunks) ≤ e.max_file_size
      → (node : FileNode) × (db' : Db) × (stream_file e namespace raw chunks content_type db
          ≡ (ok node, db'))
        × Holds e namespace path (flatten chunks) db'
  unfolding stream_file new_writer commit
  streamed chunks s fits =
      let all =
        write_all-Wrote e fresh s.node chunks s.writer s.after [] s.writing
          (omega (arith, s.follows.limit)) in
      (
        all.node,
        all.after,
        ground (arith, valid, not_root, s.runs, all.runs, all.opened, all.target),
        rw (s.follows.namespace, s.follows.path) at all.holds,
      )

  -- With fresh keys and a positive block size, in a consistent database, on a valid path below the
  -- root where the checks of `start` pass, the loop of PUT over chunks that are within the limit
  -- together returns a node and leaves the path with an intact file whose content is the chunks
  -- joined.
  pub stream_file-Holds :
      (existing : Option FileNode) (chunks : List Bytes)
      → Admits e namespace path existing db
      → length (flatten chunks) ≤ e.max_file_size
      → (node : FileNode) × (db' : Db) × (stream_file e namespace raw chunks content_type db
          ≡ (ok node, db'))
        × Holds e namespace path (flatten chunks) db'
  stream_file-Holds none chunks admits fits =
      streamed chunks
        (Starts-created e fresh namespace path content_type none db c positive Mode.wb (λ p. cc)
          admits)
        fits
  stream_file-Holds (some old) chunks admits fits =
      streamed chunks
        (Starts-truncated e fresh namespace path content_type none db c positive old admits) fits

  too_large :
      (mode : Mode) (before added : Bytes)
      → is_unsupported mode ≡ false
      → Starts e (fresh_writer e namespace path mode content_type none) db before
      → 0 < length added
      → e.max_file_size < length before + length added
      → write_with_mode e mode namespace raw added content_type db ≡ (err Error.file_too_large, db)
  unfolding write_with_mode new_writer discard
  too_large mode before added supported s some_data large =
      let refused =
        write_chunk-too_large e fresh s.node s.writer s.after s.writing added true some_data
          (omega (arith, s.writing.sized, s.follows.limit)) in
      ground (
        arith, valid, not_root, supported, s.runs, refused, s.writing.opened, s.follows.transaction,
      )

  -- With fresh keys and a positive block size, in a consistent database, on a valid path below the
  -- root where the checks of `start` pass, `write_file` of data past the limit raises
  -- FileTooLargeError and leaves the database as it was.
  pub write_file-too_large :
      (existing : Option FileNode) (added : Bytes)
      → Admits e namespace path existing db
      → e.max_file_size < length added
      → write_file e namespace raw added content_type db ≡ (err Error.file_too_large, db)
  unfolding write_file
  write_file-too_large none added admits large =
      too_large Mode.wb [] added refl
        (Starts-created e fresh namespace path content_type none db c positive Mode.wb (λ p. cc)
          admits)
        (omega arith) (omega arith)
  write_file-too_large (some old) added admits large =
      too_large Mode.wb [] added refl
        (Starts-truncated e fresh namespace path content_type none db c positive old admits)
        (omega arith) (omega arith)

  -- With fresh keys and a positive block size, in a consistent database, on a valid path below the
  -- root where the checks of `start` pass and the file at the path is intact, `append_file` of data
  -- that is not empty and does not fit after its content raises FileTooLargeError and leaves the
  -- database as it was.
  pub append_file-too_large :
      (old : FileNode) (added : Bytes)
      → Admits e namespace path (some old) db
      → IsIntact e old db
      → 0 < length added
      → e.max_file_size < length (content_of old db) + length added
      → append_file e namespace raw added content_type db ≡ (err Error.file_too_large, db)
  unfolding append_file
  append_file-too_large old added admits intact some_data large =
      too_large Mode.ab (content_of old db) added refl
        (Starts-resumed e fresh namespace path content_type none db c positive old admits intact)
        some_data large
