-- ===== src/Buffer.antt =====
-- buffer.py: `DjangoFile`. `close` is fsspec's and a parameter; `buffer` and `closed` are fields of
-- fsspec's class, whose `write` fills the buffer.
pub mod Upload
use django_fsspec.Prelude.{
  ℕ, Bool, true, false, ◌&&◌, not, List, [], ◌∷◌, Option, none, some, if◌then◌else◌,
}
use django_fsspec.Prelude.Int.{ℤ}
use django_fsspec.Errors.{Error, Result, ok, err, is_file_not_found}
use django_fsspec.Environment.{Bytes, Environment}
use django_fsspec.Text.{Text}
use django_fsspec.Models.{Db}
use django_fsspec.Action.{Action, pure, raise, ◌>>=◌, ◌>>◌}
use django_fsspec.Operations.Info.{Info, get_file_info, file_exists}
use django_fsspec.Operations.Ranges.{read_file_range}
use django_fsspec.Operations.Writer.{
  Mode, Writer, is_unsupported, new_writer, start, write_chunk, commit, discard,
}

-- the modes of `open`; any text that is none of the four is `writing Mode.unsupported`
pub data OpenMode : Type 0 where
  rb : OpenMode
  writing : Mode → OpenMode

abbrev pub writer_mode : OpenMode → Mode
writer_mode OpenMode.rb = Mode.unsupported
writer_mode (OpenMode.writing m) = m

pub record DjangoFile : Type 0 where
  pub namespace : ℕ
  pub path : Text
  pub mode : OpenMode
  pub blocksize : ℕ
  pub size : Option ℕ
  pub file_id : Option ℕ
  pub file_version : Option ℕ
  pub autocommit : Bool
  pub content_type : Text
  pub writer : Option Writer
  pub closed : Bool
  pub buffer : Option Bytes

abbrev or_block_size : Option ℕ → ℕ → ℕ
or_block_size none d = d
or_block_size (some n) d = n

-- The file that `__init__` builds, without what a read handle knows of its row.
abbrev pub opened : Environment → ℕ → Text → OpenMode → Option ℕ → Bool → Text → DjangoFile
opened e namespace path mode block_size autocommit content_type = record {
  namespace = namespace;
  path = path;
  mode = mode;
  blocksize = or_block_size block_size e.block_size;
  size = none;
  file_id = none;
  file_version = none;
  autocommit = autocommit;
  content_type = content_type;
  writer = none;
  closed = false;
  buffer = some [];
}

-- the part of `__init__` that depends on the mode
abbrev open_mode : Environment → Option ℕ → DjangoFile → OpenMode → Db → Result DjangoFile
open_mode e supplied f OpenMode.rb db = elim (get_file_info e f.namespace f.path db) [
  | ok info ↦
      ok (record f { size = some info.size; file_id = info.id; file_version = info.version })
  | err error ↦ if is_file_not_found error then err Error.file_not_found else err error
]
open_mode e supplied f (OpenMode.writing Mode.xb) db = elim (file_exists e f.namespace f.path db) [
  | ok there ↦ if there then err Error.file_exists else ok (record f { size = supplied })
  | err error ↦ err error
]
open_mode e supplied f (OpenMode.writing Mode.wb) db = ok (record f { size = supplied })
open_mode e supplied f (OpenMode.writing Mode.ab) db = ok (record f { size = supplied })
open_mode e supplied f (OpenMode.writing Mode.unsupported) db = err Error.value_error

-- `DjangoFile.__init__`
unfoldable pub open_file :
    Environment → ℕ → Text → OpenMode → Option ℕ → Bool → Text → Option ℕ → Db → Result DjangoFile
open_file e namespace path mode block_size autocommit content_type supplied =
    open_mode e supplied (opened e namespace path mode block_size autocommit content_type) mode

-- `_fetch_range`
unfoldable pub fetch_range : Environment → DjangoFile → ℤ → ℤ → Db → Result Bytes
fetch_range e f start stop =
    read_file_range e f.namespace f.path start stop none f.file_id f.file_version

-- `_initiate_upload`
unfoldable pub initiate_upload : Environment → DjangoFile → Action DjangoFile
initiate_upload e f = do
  w ← new_writer e f.namespace f.path (writer_mode f.mode) f.content_type (some f.blocksize)
  w' ← start e w
  pure (record f { writer = some w'; content_type = [] })

abbrev buffered : Option Bytes → Bytes
buffered none = []
buffered (some chunk) = chunk

abbrev emptied : Option Bytes → Option Bytes
emptied none = none
emptied (some chunk) = some []

-- `self._writer` as the code uses it: a method of `None` would raise.
abbrev writer_of : DjangoFile → Action Writer
writer_of f = elim f.writer [ none ↦ raise Error.runtime_error | some w ↦ pure w ]

-- `_upload_chunk`
unfoldable pub upload_chunk : Environment → DjangoFile → Bool → Action DjangoFile
upload_chunk e f final = do
  w ← writer_of f
  w' ← write_chunk e w (buffered f.buffer) final
  if final && f.autocommit
      then (do commit w'; pure (record f { buffer = emptied f.buffer; writer = none }))
      else pure (record f { buffer = emptied f.buffer; writer = some w' })

abbrev commit_writer : DjangoFile → Action DjangoFile
commit_writer f = elim f.writer [
  | none ↦ pure f
  | some w ↦ do commit w; pure (record f { writer = none })
]

-- `commit`
unfoldable pub commit_file : (DjangoFile → Action DjangoFile) → DjangoFile → Action DjangoFile
commit_file close f = if not f.closed then close f >>= commit_writer else commit_writer f

-- `discard`
unfoldable pub discard_file : DjangoFile → Action DjangoFile
discard_file f = elim f.writer [
  | none ↦ pure (record f { closed = true; buffer = none })
  | some w ↦ do discard w; pure (record f { closed = true; buffer = none; writer = none })
]
