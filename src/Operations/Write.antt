-- ===== src/Operations/Write.antt =====
-- operations.py: `write_file`, `create_file_exclusive`, `append_file`; and views.py: the loop by
-- which `put` streams a request body into a writer.
pub mod RoundTrip
pub mod ReadBack
pub mod Stream
pub mod Atomic
pub mod View
use django_fsspec.Prelude.{ℕ, true, false, List, [], ◌∷◌, none}
use django_fsspec.Errors.{Result}
use django_fsspec.Environment.{Bytes, Environment}
use django_fsspec.Text.{Text}
use django_fsspec.Models.{FileNode, Db}
use django_fsspec.Action.{Action, pure, or_cleanup, ◌>>=◌, ◌>>◌}
use django_fsspec.Operations.Writer.{
  Mode, Writer, new_writer, start, write_chunk, commit, discard, node_of,
}

-- `except Exception: writer.discard(); raise`
abbrev pub discard_on_error : {A : Type 0} → Writer → Action A → Action A
discard_on_error w m = or_cleanup m (do discard w; pure tt)

-- the body that the three operations share
unfoldable pub write_with_mode : Environment → Mode → ℕ → Text → Bytes → Text → Action FileNode
write_with_mode e mode namespace path content content_type = do
  w ← new_writer e namespace path mode content_type none
  w' ← start e w
  w'' ← discard_on_error w' (do written ← write_chunk e w' content true; commit written)
  node_of w''

unfoldable pub write_file : Environment → ℕ → Text → Bytes → Text → Action FileNode
write_file e = write_with_mode e Mode.wb

unfoldable pub create_file_exclusive : Environment → ℕ → Text → Bytes → Text → Action FileNode
create_file_exclusive e = write_with_mode e Mode.xb

unfoldable pub append_file : Environment → ℕ → Text → Bytes → Text → Action FileNode
append_file e = write_with_mode e Mode.ab

-- The chunks of a stream up to the first empty read, one `write_chunk` each, with the closing
-- `write_chunk(b"", final=True)`.
unfoldable pub write_all : Environment → Writer → List Bytes → Action Writer
write_all e w [] = write_chunk e w [] true
write_all e w (c ∷ chunks) = do w' ← write_chunk e w c false; write_all e w' chunks

-- A stream of chunks into a new "wb" writer.
unfoldable pub stream_file : Environment → ℕ → Text → List Bytes → Text → Action FileNode
stream_file e namespace path chunks content_type = do
  w ← new_writer e namespace path Mode.wb content_type none
  w' ← start e w
  w'' ← discard_on_error w' (do written ← write_all e w' chunks; commit written)
  node_of w''
