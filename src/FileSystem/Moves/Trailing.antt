-- ===== src/FileSystem/Moves/Trailing.antt =====
-- fs.py: a slash at the end of the destination of `mv`.
use django_fsspec.Prelude.{ℕ, ◌≡◌, refl, Bool, [], ◌∷◌, ◌++◌, arith}
use django_fsspec.Environment.{Environment}
use django_fsspec.Text.{Text, text, slash, rstrip_slash}
use django_fsspec.Models.{Db}
use django_fsspec.FileSystem.Url.{strip_protocol}
use django_fsspec.FileSystem.Moves.{Inherited, mv}

rstrip_slash-slash : (s : Text) → rstrip_slash (s ++ text "/") ≡ rstrip_slash s
rstrip_slash-slash [] = refl
rstrip_slash-slash (c ∷ s) = ground (arith, rstrip_slash-slash s)

strip_protocol-slash :
    (t : Text) → strip_protocol (slash ∷ t ++ text "/") ≡ strip_protocol (slash ∷ t)
unfolding strip_protocol
strip_protocol-slash t = ground (arith, rstrip_slash-slash t)

-- `mv` onto an absolute path with a slash at its end does what it does without the slash, whatever
-- fsspec's helpers answer.
pub mv-trailing_slash :
    (e : Environment) (i : Inherited) (temp_prefix : Text) (namespace : ℕ) (path1 t : Text)
    (recursive overwrite : Bool) (db : Db)
    → mv e i temp_prefix namespace path1 (slash ∷ t ++ text "/") recursive overwrite db
      ≡ mv e i temp_prefix namespace path1 (slash ∷ t) recursive overwrite db
unfolding mv
mv-trailing_slash e i temp_prefix namespace path1 t recursive overwrite db =
    rw (strip_protocol-slash t)
