-- ===== src/Buffer/Upload.antt =====
-- buffer.py: an upload as fsspec drives it: `_initiate_upload` once, then one `_upload_chunk` for
-- each full buffer and a last one from `close`.
use django_fsspec.Prelude.{
  ℕ, ◌+◌, ◌≤◌, ◌<◌, ◌≡◌, refl, sym, ◌∙◌, true, false, Option, none, some, List, [], ◌∷◌, ◌++◌,
  append_assoc, flatten, length, length-append, arith,
}
use django_fsspec.Errors.{ok}
use django_fsspec.Environment.{Bytes, Environment, HasFreshKeys}
use django_fsspec.Text.{Text, text, text_eq}
use django_fsspec.Validators.{validate_path}
use django_fsspec.Models.{FileNode, Db}
use django_fsspec.Models.Consistent.{IsConsistent}
use django_fsspec.Action.{Action, ◌>>=◌}
use django_fsspec.Operations.Writer.{Mode, Writer, new_writer, fresh_writer, commit, write_chunk}
use django_fsspec.Operations.Writer.Writing.{
  Writing, after_chunk, after_chunk-Continues, after_chunk-Writing, write_chunk-after,
}
use django_fsspec.Operations.Writer.Finalize.{final_db, finalize-final}
use django_fsspec.Operations.Writer.Start.{Starts, Admits, Starts-created, Starts-truncated}
use django_fsspec.Operations.Write.RoundTrip.{Holds, write_chunk-final, finalized-Holds}
use django_fsspec.Buffer.{DjangoFile, OpenMode, opened, initiate_upload, upload_chunk}

-- the file with its buffer filled
abbrev with_buffer : Bytes → DjangoFile → DjangoFile
with_buffer chunk f = record f { buffer = some chunk }

-- The full buffers, and what is left in the last one.
unfoldable pub upload_all : Environment → DjangoFile → List Bytes → Bytes → Action DjangoFile
upload_all e f [] last = upload_chunk e (with_buffer last f) true
upload_all e f (c ∷ chunks) last =
    upload_chunk e (with_buffer c f) false >>= λ f'. upload_all e f' chunks last

-- `_initiate_upload` and the chunks
abbrev pub upload : Environment → DjangoFile → List Bytes → Bytes → Action DjangoFile
upload e f chunks last = initiate_upload e f >>= λ f'. upload_all e f' chunks last

upload_chunk-more :
    (e : Environment) (f : DjangoFile) (w w' : Writer) (chunk : Bytes) (db db' : Db)
    → f.writer ≡ some w
    → write_chunk e w chunk false db ≡ (ok w', db')
    → upload_chunk e (with_buffer chunk f) false db
      ≡ (ok (record f { buffer = some []; writer = some w' }), db')
unfolding upload_chunk
upload_chunk-more e f w w' chunk db db' held step = ground (arith, held, step)

upload_chunk-last :
    (e : Environment) (f : DjangoFile) (w w' : Writer) (chunk : Bytes) (db db' : Db)
    → f.writer ≡ some w
    → f.autocommit ≡ true
    → w'.closed ≡ false
    → write_chunk e w chunk true db ≡ (ok w', db')
    → upload_chunk e (with_buffer chunk f) true db
      ≡ (ok (record f { buffer = some []; writer = none }), db')
unfolding upload_chunk commit
upload_chunk-last e f w w' chunk db db' held auto open_still step =
    ground (arith, held, auto, open_still, step)

upload_all-step :
    (e : Environment) (f f' : DjangoFile) (c : Bytes) (chunks : List Bytes) (last : Bytes)
    (db db' : Db)
    → upload_chunk e (with_buffer c f) false db ≡ (ok f', db')
    → upload_all e f (c ∷ chunks) last db ≡ upload_all e f' chunks last db'
unfolding upload_all
upload_all-step e f f' c chunks last db db' h = ground (arith, h)

module _ (e : Environment) (fresh : HasFreshKeys e) (n : FileNode) where
  uploaded :
      (chunks : List Bytes) (last : Bytes) (f : DjangoFile) (w : Writer) (db : Db) (written : Bytes)
      → f.writer ≡ some w
      → f.autocommit ≡ true
      → Writing e w db n written
      → length written + length (flatten chunks) + length last ≤ w.max_file_size
      → (f' : DjangoFile) × (db' : Db) × (upload_all e f chunks last db ≡ (ok f', db'))
        × Holds e w.namespace w.path (written ++ (flatten chunks ++ last)) db'
  unfolding upload_all
  uploaded [] last f w db written held auto h fits =
      let (w₁, db₁) = after_chunk e n w last db in
      let same = after_chunk-Continues e n w last db in
      let writing = after_chunk-Writing e fresh n w db h last in
      let kept = write_chunk-after e fresh n w db h last (omega (arith, h.sized)) in
      let done = write_chunk-final e w w₁ last db db₁ kept ∙ finalize-final e n w₁ db₁ writing in
      (
        record f { buffer = some []; writer = none },
        final_db e n w₁ db₁ writing,
        upload_chunk-last e f w _ last db _ held auto writing.opened done,
        rw (same.namespace, same.path) at (finalized-Holds e n w₁ db₁ writing),
      )
  uploaded (c ∷ chunks) last f w db written held auto h fits =
      let (w₁, db₁) = after_chunk e n w c db in
      let same = after_chunk-Continues e n w c db in
      let more = length-append c (flatten chunks) in
      let step = write_chunk-after e fresh n w db h c (omega (arith, h.sized, more)) in
      let f₁ = record f { buffer = some []; writer = some w₁ } in
      let (f', db', runs, holds) =
        uploaded chunks last f₁ w₁ db₁ (written ++ c) refl auto
          (after_chunk-Writing e fresh n w db h c)
          (omega (arith, more, length-append written c, same.limit)) in
      (
        f',
        db',
        upload_all-step e f f₁ c chunks last db db₁ (upload_chunk-more e f w w₁ c db db₁ held step)
            ∙ runs,
        rw
            (
              same.namespace,
              same.path,
              append_assoc written c (flatten chunks ++ last),
              sym (append_assoc c (flatten chunks) last),
            )
            at holds,
      )

-- The handle that `_open` builds for "wb".
abbrev pub handle : Environment → ℕ → Text → Text → ℕ → DjangoFile
handle e namespace path content_type block_size =
    opened e namespace path (OpenMode.writing Mode.wb) (some block_size) true content_type

module _ (e : Environment) (fresh : HasFreshKeys e) (namespace : ℕ) (raw path : Text)
    (content_type : Text) (block_size : ℕ) (db : Db) (valid : validate_path e.nfc raw ≡ ok path)
    (not_root : text_eq path (text "/") ≡ false) (c : IsConsistent db) (positive : 0 < block_size)
    (chunks : List Bytes) (last : Bytes) where
  started :
      Starts e (fresh_writer e namespace path Mode.wb content_type (some block_size)) db []
      → length (flatten chunks) + length last ≤ e.max_file_size
      → (f' : DjangoFile) × (db' : Db) × (upload e
            (handle e namespace raw content_type block_size)
            chunks
            last
            db
          ≡ (ok f', db'))
        × Holds e namespace path (flatten chunks ++ last) db'
  unfolding initiate_upload new_writer
  started s fits =
      let f = record (handle e namespace raw content_type block_size) {
        writer = some s.writer;
        content_type = [];
      } in
      let (f', db', runs, holds) =
        uploaded e fresh s.node chunks last f s.writer s.after [] refl refl s.writing
          (omega (arith, s.follows.limit)) in
      (
        f',
        db',
        ground (arith, valid, not_root, s.runs, runs),
        rw (s.follows.namespace, s.follows.path) at holds,
      )

  -- With fresh keys and a positive block size, in a consistent database, on a valid path below the
  -- root where the checks of `start` pass, a handle opened for "wb" whose upload is initiated and
  -- whose full buffers and last buffer are uploaded, within the limit together, returns and leaves
  -- the path with an intact file whose content is the buffers joined.
  pub upload-Holds :
      (existing : Option FileNode)
      → Admits e namespace path existing db
      → length (flatten chunks) + length last ≤ e.max_file_size
      → (f' : DjangoFile) × (db' : Db) × (upload e
            (handle e namespace raw content_type block_size)
            chunks
            last
            db
          ≡ (ok f', db'))
        × Holds e namespace path (flatten chunks ++ last) db'
  upload-Holds none admits fits =
      started
        (Starts-created e fresh namespace path content_type (some block_size) db c positive Mode.wb
          (λ p. cc) admits)
        fits
  upload-Holds (some old) admits fits =
      started
        (Starts-truncated e fresh namespace path content_type (some block_size) db c positive old
          admits)
        fits
