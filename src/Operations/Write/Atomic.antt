-- ===== src/Operations/Write/Atomic.antt =====
-- A write that raises leaves the database as it was, whatever the database held.
use django_fsspec.Prelude.{ℕ, ◌≡◌, ◌≢◌, inl, inr, refl, ◌∙◌, true, false, Option, none, some, arith}
use django_fsspec.Errors.{Error, Result, ok, err}
use django_fsspec.Environment.{Bytes, Environment}
use django_fsspec.Text.{Text}
use django_fsspec.Models.{FileNode, Db}
use django_fsspec.Action.{Action, ◌>>=◌, query_or_raise}
use django_fsspec.Action.Laws.{bind-ok, bind-err}
use django_fsspec.Operations.Blocks.{create_node}
use django_fsspec.Operations.Paths.{
  ensure_parent_directory, ensure_file_target, lock_namespace_for_write,
}
use django_fsspec.Operations.Writer.{
  Mode, Writer, is_unsupported, is_some, new_writer, prepare_target, truncate_target, resume_target,
  start_body, start, persist_chunk, add_chunk, finalize, write_chunk, commit, discard, node_of,
}
use django_fsspec.Operations.Write.{discard_on_error, write_with_mode}

-- A writer inside the transaction that began at `before`, with its node.
record IsOpen (before : Db) (w : Writer) : Type 0 where
  begun : w.transaction ≡ some before
  opened : w.closed ≡ false
  targeted : is_some w.file_node ≡ true

module _ (e : Environment) (w w' : Writer) (db db' : Db) where
  prepare_target-shape :
      (mode : Mode) (existing : Option FileNode)
      → is_unsupported mode ≡ false
      → prepare_target e w mode existing db ≡ (ok w', db')
      → (w'.closed ≡ w.closed) × (is_some w'.file_node ≡ true)
  unfolding prepare_target truncate_target resume_target create_node
  prepare_target-shape Mode.wb (some old) s h = ground arith
  prepare_target-shape Mode.wb none s h = ground arith
  prepare_target-shape Mode.ab (some old) s h = ground arith
  prepare_target-shape Mode.ab none s h = ground arith
  prepare_target-shape Mode.xb (some old) s h = cc
  prepare_target-shape Mode.xb none s h = ground arith
  prepare_target-shape Mode.unsupported existing s h = cc

  persist_chunk-shape :
      (chunk : Bytes)
      → persist_chunk e w chunk db ≡ (ok w', db')
      → (w'.closed ≡ w.closed) × (w'.transaction ≡ w.transaction) × (w'.file_node ≡ w.file_node)
  unfolding persist_chunk
  persist_chunk-shape chunk h = ground arith

  add_chunk-shape :
      (chunk : Bytes)
      → add_chunk e w chunk db ≡ (ok w', db')
      → (w'.closed ≡ w.closed) × (w'.transaction ≡ w.transaction) × (w'.file_node ≡ w.file_node)
  unfolding add_chunk
  add_chunk-shape chunk h = ground (arith, persist_chunk-shape chunk)

  finalize-shape :
      finalize e w db ≡ (ok w', db')
      → is_some w.file_node ≡ true
      → (w'.closed ≡ w.closed) × (w'.transaction ≡ w.transaction) × (is_some w'.file_node ≡ true)
  unfolding finalize
  finalize-shape h s = ground arith

module _ (e : Environment) (w : Writer) (mode_ok : is_unsupported w.mode ≡ false) (db : Db) where
  start_body-shape :
      (w' : Writer) (db' : Db)
      → start_body e w db ≡ (ok w', db')
      → (w'.closed ≡ w.closed) × (is_some w'.file_node ≡ true)
  unfolding start_body
  start_body-shape w' db' h =
      let lock = query_or_raise (lock_namespace_for_write w.namespace) in
      let parent = query_or_raise (ensure_parent_directory e w.namespace w.path false) in
      let target = query_or_raise (ensure_file_target w.namespace w.path) in
      let last : Option FileNode → Action Writer = prepare_target e w w.mode in
      let (_, d₁, h₁, k₁) = bind-ok lock (λ _. parent >>= λ _. target >>= last) db db' h in
      let (_, d₂, h₂, k₂) = bind-ok parent (λ _. target >>= last) d₁ db' k₁ in
      let (existing, d₃, h₃, k₃) = bind-ok target last d₂ db' k₂ in
      prepare_target-shape e w w' d₃ db' w.mode existing mode_ok k₃

  start-IsOpen :
      (w' : Writer) (db' : Db) → w.closed ≡ false → start e w db ≡ (ok w', db') → IsOpen db w'
  unfolding start
  start-IsOpen w' db' opened h = go (start_body e w db) refl
    where
      go : (p : Result Writer × Db) → start_body e w db ≡ p → IsOpen db w'
      go (ok v, d) s =
          let (closed, file_node) = start_body-shape v d s in
          record {
            begun = ground (arith, s, h);
            opened = ground (arith, s, h);
            targeted = ground (arith, s, h, file_node);
          }
      go (err x, d) s = absurd (ground (arith, s, h))

start-error :
    (e : Environment) (w : Writer) (db db' : Db) (x : Error)
    → start e w db ≡ (err x, db')
    → db' ≡ db
unfolding start
start-error e w db db' x h = ground arith

-- the result of a body whose errors discard the writer
discard_on_error-error :
    {A : Type 0} (w : Writer) (m : Action A) (before db db' : Db) (x : Error)
    → IsOpen before w
    → discard_on_error w m db ≡ (err x, db')
    → db' ≡ before
unfolding discard
discard_on_error-error w m before db db' x o h = ground (arith, o.begun, o.opened)

discard_on_error-ok :
    {A : Type 0} (w : Writer) (m : Action A) (db db' : Db) (a : A)
    → discard_on_error w m db ≡ (ok a, db')
    → m db ≡ (ok a, db')
discard_on_error-ok w m db db' a h = ground arith

module _ (e : Environment) (w : Writer) (before db : Db) (o : IsOpen before w) where
  written_writer :
      (content : Bytes) (w' : Writer) (db' : Db)
      → write_chunk e w content true db ≡ (ok w', db')
      → is_some w'.file_node ≡ true
  unfolding write_chunk
  written_writer content w' db' h =
      let final : Writer → Action Writer = finalize e in
      let (w₁, d₁, h₁, k₁) = bind-ok (add_chunk e w content) final db db' h in
      let (c₁, t₁, f₁) = add_chunk-shape e w w₁ db d₁ content h₁ in
      (finalize-shape e w₁ w' d₁ db' k₁ (rw f₁ o.targeted)).2

  committed_writer :
      (content : Bytes) (w' : Writer) (db' : Db)
      → (do written ← write_chunk e w content true; commit written) db ≡ (ok w', db')
      → is_some w'.file_node ≡ true
  unfolding commit
  committed_writer content w' db' h =
      let (w₁, d₁, h₁, k₁) = bind-ok (write_chunk e w content true) commit db db' h in
      ground (arith, written_writer content w₁ d₁ h₁)

node_of-ok :
    (w : Writer) (db db' : Db) (x : Error)
    → is_some w.file_node ≡ true
    → node_of w db ≢ (err x, db')
node_of-ok w db db' x s h = ground arith

-- the part of a write that follows the construction of its writer
abbrev rest_of_write : Environment → Bytes → Writer → Action FileNode
rest_of_write e content w = do
  w' ← start e w
  w'' ← discard_on_error w' (do written ← write_chunk e w' content true; commit written)
  node_of w''

module _ (e : Environment) (w : Writer) (content : Bytes) (db db' : Db) (x : Error) where
  body-atomic :
      (before : Db)
      → IsOpen before w
      → (do
        w'' ← discard_on_error w (do written ← write_chunk e w content true; commit written)
        node_of w'')
          db
        ≡ (err x, db')
      → db' ≡ before
  body-atomic before o h =
      let m : Action Writer = (do written ← write_chunk e w content true; commit written) in
      elim (bind-err (discard_on_error w m) node_of db db' h) [
        | inl raised ↦ discard_on_error-error w m before db db' x o raised
        | inr (w'', d, ran, last) ↦ absurd (
            node_of-ok w'' d db' x
              (committed_writer e w before db o content w'' d
                (discard_on_error-ok w m db d w'' ran))
              last)
      ]

module _ (e : Environment) (w : Writer) (content : Bytes) (db db' : Db) (x : Error) where
  rest-atomic :
      is_unsupported w.mode ≡ false
      → w.closed ≡ false
      → rest_of_write e content w db ≡ (err x, db')
      → db' ≡ db
  rest-atomic supported opened h =
      let last : Writer → Action FileNode = λ w'. (do
        w'' ← discard_on_error w' (do written ← write_chunk e w' content true; commit written)
        node_of w'') in
      elim (bind-err (start e w) last db db' h) [
        | inl raised ↦ start-error e w db db' x raised
        | inr (w', d, ran, after) ↦
            body-atomic e w' content d db' x db (start-IsOpen e w supported db w' d opened ran)
              after
      ]

module _ (e : Environment) (mode : Mode) (namespace : ℕ) (raw : Text) (content : Bytes)
    (content_type : Text) (db db' : Db) (x : Error) where
  new_writer-error : new_writer e namespace raw mode content_type none db ≡ (err x, db') → db' ≡ db
  unfolding new_writer
  new_writer-error h = ground arith

  new_writer-shape :
      (w : Writer) (d : Db)
      → new_writer e namespace raw mode content_type none db ≡ (ok w, d)
      → (d ≡ db) × (is_unsupported w.mode ≡ false) × (w.closed ≡ false)
  unfolding new_writer
  new_writer-shape w d h = ground arith

  -- `write_file`, `create_file_exclusive` and `append_file` (one body, with their mode) leave the
  -- database as it was when they raise.
  pub write_with_mode-atomic :
      write_with_mode e mode namespace raw content content_type db ≡ (err x, db') → db' ≡ db
  unfolding write_with_mode
  write_with_mode-atomic h =
      elim (bind-err (new_writer e namespace raw mode content_type none) (rest_of_write e content)
        db db' h) [
          | inl raised ↦ new_writer-error raised
          | inr (w, d, made, after) ↦
              let (same, supported, opened) = new_writer-shape w d made in
              rest-atomic e w content d db' x supported opened after ∙ same
        ]
