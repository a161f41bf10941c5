-- ===== src/Tests/Files.antt =====
-- The theorems on the file system and its files at concrete inputs.
use django_fsspec.Prelude.{
  ◌≡◌, refl, false, true, ◌&&◌, ◌++◌, length, drop, List, [], ◌∷◌, Option, some, none, any, arith,
  if◌then◌else◌,
}
use django_fsspec.Prelude.Int.{ℤ, pos}
use django_fsspec.Errors.{ok}
use django_fsspec.Text.{Text, text, text_eq, ends_with_slash, show, starts_with}
use django_fsspec.Operations.Info.{directory_info}
use django_fsspec.Operations.Write.RoundTrip.{Holds}
use django_fsspec.Buffer.{DjangoFile}
use django_fsspec.Buffer.Upload.{upload, handle, upload-Holds}
use django_fsspec.FileSystem.Url.{strip_protocol, get_kwargs_from_urls}
use django_fsspec.FileSystem.Url.Laws.{url, strip_protocol-parts}
use django_fsspec.FileSystem.Find.{FindResult, find}
use django_fsspec.FileSystem.Find.Shows.{is_found_at, find-shows}
use django_fsspec.FileSystem.Find.Implied.{is_within}
use django_fsspec.FileSystem.Moves.{Inherited, mv}
use django_fsspec.FileSystem.Moves.Trailing.{mv-trailing_slash}
use django_fsspec.Tests.Sample.{env, env-HasFreshKeys, sample_node, db}
use django_fsspec.Tests.Witnesses.{path_a, path_a-valid, db-IsConsistent, node-Admits}
use django_fsspec.Tests.Clients.{listed_db, path_d-valid, path_d-info}

-- `int()` on the one text that the tests read.
abbrev read_three : Text → Option ℤ
read_three t = if text_eq t (text "3") then some (pos 3) else none

reads_three : read_three (show 3) ≡ some (pos 3)
unfolding show
reads_three = refl

strip_protocol-parts_example :
    (strip_protocol (url 3 path_a) ≡ path_a)
    × (get_kwargs_from_urls read_three (url 3 path_a) ≡ ok (some 3))
strip_protocol-parts_example =
    strip_protocol-parts read_three env.nfc 2 path_a path_a reads_three path_a-valid

runs_strip : strip_protocol (text "django://12/a/b//") ≡ text "/a/b"
unfolding strip_protocol
runs_strip = refl

find-shows_example :
    (shown : List Text) × (find env 1 (text "/d") (some 2) true false listed_db
      ≡ ok (FindResult.names shown))
    × ((name : Text)
        → any (text_eq name) shown ≡ (
            starts_with (text "/d" ++ text "/") name
            && is_within (some 2) (drop (length (text "/d" ++ text "/")) name)
            && any (is_found_at 1 true name) listed_db.nodes))
find-shows_example =
    find-shows env 1 (text "/d") (text "/d") (directory_info (text "/d")) (some 2) true listed_db
      path_d-valid refl path_d-info refl

-- What fsspec gives, for a file system on which nothing is a directory.
abbrev inherited : Inherited
inherited = record {
  trailing_sep = ends_with_slash;
  is_dir = λ path d. false;
  is_file = λ path d. true;
  other_paths = λ sources path exists. sources;
}

mv-trailing_slash_example :
    mv env inherited (text "/tmp") 1 path_a (text "/b/") false false db
    ≡ mv env inherited (text "/tmp") 1 path_a (text "/b") false false db
mv-trailing_slash_example =
    mv-trailing_slash env inherited (text "/tmp") 1 path_a (text "b") false false db

upload-Holds_example :
    (f' : DjangoFile) × (db' : _) × (upload env
        (handle env 1 path_a [] 2)
        ((1 ∷ 2 ∷ 3 ∷ []) ∷ [])
        (4 ∷ [])
        db
      ≡ (ok f', db'))
    × Holds env 1 path_a (1 ∷ 2 ∷ 3 ∷ 4 ∷ []) db'
upload-Holds_example =
    upload-Holds env env-HasFreshKeys 1 path_a path_a [] 2 db path_a-valid refl db-IsConsistent
      (omega arith) ((1 ∷ 2 ∷ 3 ∷ []) ∷ []) (4 ∷ []) (some sample_node) node-Admits (omega arith)
