-- ===== src/Lib.antt =====
-- django-fsspec stores a file system in the tables of a Django project: namespaces, file nodes,
-- storage blocks, and the mappings that give a file its blocks in order. On them stand the operations
-- of django_fsspec/operations.py; a streaming writer in it does every write. WebDAV views, an fsspec
-- file system and management commands are clients of these operations.
--
-- The parts and their files (under verification/):
--   Environment     what comes from outside: sha256, NFC, new primary keys, the clock, the settings
--   Text            Python's str as code points, with strip, split, rsplit, startswith
--   Errors, Action  exceptions.py as values; code that may raise, and code that also changes the
--                   database: a raise keeps what was written until a transaction rolls it back
--   Models          models.py: the four tables; Query has the querysets, Consistent what the keys
--                   guarantee
--   Validators      validators.py: validate_path
--   Operations      operations.py, with a child for each part:
--     Content       _get_read_integrity, _chunk_data, _load_file_data and their helpers
--     Info          get_file_info, file_exists, read_file
--     Paths         _ensure_parent_directory, _ensure_file_target, the namespace lock
--     Blocks        creation of rows, _allocate_blocks, _release_blocks
--     Writer        StreamingFileWriter: start, write_chunk, _finalize, commit, discard
--     Frame         what a change of one file's rows leaves of all others (no code of its own)
--     Write         write_file, create_file_exclusive, append_file, and the loop of WebDAV's PUT
--                   (webdav/views.py)
--     Ranges        read_file_range, its checked form, and read_file_streaming_range
--     Directory     make_directory, remove_directory, delete_file
--     Listing       list_directory, list_directory_detail
--     Transfer      move_file, move_directory, copy_file
--   Commands        management/commands: Gc, Fsck, Rechunk, Repair and Namespaces for the commands
--                   fsspec_gc, fsspec_fsck, fsspec_rechunk, fsspec_repair and fsspec_namespace,
--                   without their output
--   Webdav          Permissions has webdav/permissions.py; Dispatch the checks of
--                   webdav/views.py before a method's handler, its choice and its errors; Requests
--                   what is read from a request (views.py, utils.py, auth.py); Handlers the methods;
--                   Propfind the items of a PROPFIND (views.py, responses.py)
--   Buffer          buffer.py: DjangoFile over the streaming writer
--   FileSystem      fs.py: ls, info, exists and the like; Url has the stripping of paths, Find the
--                   prefix search, Moves mv and copy of a tree, Transaction DjangoTransaction
--   Tests           a sample environment and database, runs, and the theorems at concrete inputs
--
-- State and errors. The database is one record of row lists; an operation takes it and returns a
-- result and the next database. A transaction is the database at its entry, to which a raise or a
-- discard returns. Row locks order concurrent operations: one operation at a time is modelled.
--
-- Bounds and fuel. Numbers are natural numbers; the range readers take integers, whose sign the code
-- tests. `range_step` runs on the length of the data, which is enough as each step is positive.
-- `make_directory` runs on the length of the normalised path and one more: each call is on a shorter
-- path. `str` of a number has at most as many digits as the number and one more.
-- The number of a mapping in its file is a natural number, although the column of models.py is a signed
-- 32-bit integer: the operations number from 0. The two loops with which repair renumbers, which may
-- meet other numbers, are given on rows with integers. `path__startswith` compares by case, as on
-- MySQL, PostgreSQL and Oracle; Django's `startswith` on SQLite does not tell the case of ASCII letters.
--
-- Not modelled: the commands fsspec_migrate and fsspec_stats, the text that the commands print, XML
-- and JSON bodies of responses, formats of dates, and Django's registration code. Messages of
-- exceptions are left out, and so are the length limits of text columns, which are the database's.
-- What the classes inherit from fsspec (open, close, isdir, the buffer, copy without recursion) and
-- its helpers are parameters, as are Python's parsing of numbers and URLs.
pub mod Prelude
pub mod Text
pub mod Errors
pub mod Environment
pub mod Models
pub mod Action
pub mod Validators
pub mod Operations
pub mod Commands
pub mod Webdav
pub mod Buffer
pub mod FileSystem
pub mod Tests
