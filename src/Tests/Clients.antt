-- ===== src/Tests/Clients.antt =====
-- The theorems on deletions, moves, collections and permissions at concrete inputs.
use django_fsspec.Tests.Witnesses.{path_a, db-IsConsistent, path_a-valid, node-Admits}
use django_fsspec.Prelude.{ℕ, ◌≡◌, refl, false, true, List, [], ◌∷◌, some}
use django_fsspec.Prelude.Int.{pos}
use django_fsspec.Errors.{Error, ok, err}
use django_fsspec.Text.{Text, text, text_eq}
use django_fsspec.Models.{Db, FileNode}
use django_fsspec.Models.Query.{get_node, mappings_of}
use django_fsspec.Validators.{validate_path}
use django_fsspec.Operations.Content.{ordered_file_blocks}
use django_fsspec.Operations.Content.Intact.{content_of}
use django_fsspec.Operations.Paths.{ancestor_paths, ensure_parent_directory}
use django_fsspec.Operations.Blocks.InUse.{HasUsedBlocks}
use django_fsspec.Operations.Directory.{delete_file, make_directory}
use django_fsspec.Operations.Directory.Fuel.{KeepsPaths, make_directory-ends}
use django_fsspec.Operations.Directory.InUse.{delete_file-HasUsedBlocks}
use django_fsspec.Operations.Transfer.{move_file, move_directory}
use django_fsspec.Operations.Transfer.InUse.{move_file-HasUsedBlocks, move_directory-HasUsedBlocks}
use django_fsspec.Commands.Gc.{collect_garbage, ordered_file_blocks-collect_garbage}
use django_fsspec.Operations.Transfer.Moved.{moved, move_file-moved}
use django_fsspec.Webdav.Permissions.{
  User, has_namespace_perm, has_namespace_perm-write_read, has_namespace_perm-outsider,
}
use django_fsspec.Prelude.{any, ◌++◌, ◌≢◌, ◌&&◌}
use django_fsspec.Models.Query.{child_prefix}
use django_fsspec.Operations.Info.{Info, node_info, directory_info, get_file_info, info_at}
use django_fsspec.Operations.Content.{load_file_data, path_has_descendants}
use django_fsspec.Operations.Listing.{
  list_directory_detail, child_info, corrupt_child_info, list_directory, child_names,
}
use django_fsspec.Operations.Listing.Shown.{is_part, stands_at, list_directory-shows}
use django_fsspec.Operations.Listing.Existing.{list_directory-Existing}
use django_fsspec.Tests.Sample.{sample_namespace, env, sample_node, db}

db-HasUsedBlocks : HasUsedBlocks db
db-HasUsedBlocks = refl

delete_file-HasUsedBlocks_example : HasUsedBlocks (delete_file env 1 path_a false db).1
delete_file-HasUsedBlocks_example = delete_file-HasUsedBlocks env 1 path_a false db db-HasUsedBlocks

env-KeepsPaths : KeepsPaths env.nfc
env-KeepsPaths = record { rooted = λ s h. h; parents = λ s. refl }

make_directory-ends_example :
    make_directory env 1 (text "/x/y/z") true db ≢ (err Error.runtime_error, db)
make_directory-ends_example = make_directory-ends env env-KeepsPaths 1 (text "/x/y/z") true db db

move_file-HasUsedBlocks_example : HasUsedBlocks (move_file env 1 path_a (text "/b") true db).1
move_file-HasUsedBlocks_example =
    move_file-HasUsedBlocks env 1 path_a (text "/b") true db db-HasUsedBlocks

move_directory-HasUsedBlocks_example :
    HasUsedBlocks (move_directory env (text "/tmp") 1 path_a (text "/b") true db).1
move_directory-HasUsedBlocks_example =
    move_directory-HasUsedBlocks env (text "/tmp") 1 path_a (text "/b") true db db-HasUsedBlocks

ordered_file_blocks-collect_garbage_example :
    ((collect_garbage (pos 0) false db).0 ≡ ok tt)
    × ((n : FileNode)
        → ordered_file_blocks n (collect_garbage (pos 0) false db).1 ≡ ordered_file_blocks n db)
ordered_file_blocks-collect_garbage_example =
    ordered_file_blocks-collect_garbage (pos 0) false db (refl, (refl, (refl, tt))) db-HasUsedBlocks

path_b-valid : validate_path env.nfc (text "/b") ≡ ok (text "/b")
unfolding validate_path
path_b-valid = refl

b-parent : ensure_parent_directory env 1 (text "/b") false db ≡ ok tt
unfolding ensure_parent_directory ancestor_paths
b-parent = refl

move_file-moved_example :
    (db' : Db) × (move_file env 1 path_a (text "/b") false db ≡ (ok tt, db'))
    × (get_node 1 (text "/b") db' ≡ some (moved env (text "/b") sample_node))
    × (content_of (moved env (text "/b") sample_node) db' ≡ content_of sample_node db)
move_file-moved_example =
    move_file-moved env 1 path_a (text "/b") path_a (text "/b") false db path_a-valid path_b-valid
      refl refl refl db-IsConsistent node-Admits.locked b-parent sample_node refl refl refl refl

abbrev pub sample_user : List ℕ → User
sample_user groups = record {
  is_anonymous = false;
  is_authenticated = true;
  is_superuser = false;
  may_read_namespaces = false;
  may_write_namespaces = false;
  groups = groups;
}

pub writer_may_write : has_namespace_perm (some (sample_user (8 ∷ []))) 1 true db ≡ true
unfolding has_namespace_perm
writer_may_write = refl

has_namespace_perm-write_read_example :
    has_namespace_perm (some (sample_user (8 ∷ []))) 1 false db ≡ true
has_namespace_perm-write_read_example =
    has_namespace_perm-write_read (some (sample_user (8 ∷ []))) 1 db writer_may_write

has_namespace_perm-outsider_example :
    has_namespace_perm (some (sample_user (3 ∷ []))) 1 false db ≡ false
has_namespace_perm-outsider_example =
    has_namespace_perm-outsider (sample_user (3 ∷ [])) 1 sample_namespace false db refl refl refl
      refl refl refl

abbrev below_d : Text → FileNode
below_d path = record sample_node { path = path }

abbrev pub listed_db : Db
listed_db = record db {
  nodes = below_d (text "/d/x/y") ∷ below_d (text "/d/b") ∷ below_d (text "/d/x/z") ∷ [];
}

pub path_d-valid : validate_path env.nfc (text "/d") ≡ ok (text "/d")
unfolding validate_path
path_d-valid = refl

pub path_d-info : get_file_info env 1 (text "/d") listed_db ≡ ok (directory_info (text "/d"))
unfolding get_file_info info_at validate_path
path_d-info = refl

list_directory-shows_example :
    (names : List Text) × (list_directory env 1 (text "/d") listed_db ≡ ok names)
    × ((name : Text)
        → any (text_eq name) names
          ≡ (is_part name && any (stands_at 1 (text "/d" ++ text "/" ++ name)) listed_db.nodes))
list_directory-shows_example =
    list_directory-shows env 1 (text "/d") (directory_info (text "/d")) listed_db path_d-valid refl
      path_d-info refl

list_directory-Existing_example :
    (names : List Text) × (list_directory env 1 (text "/d") listed_db ≡ ok names)
    × ((name : Text)
        → any (text_eq name) names ≡ true
        → (child : Info) × (info_at 1 (child_prefix (text "/d") ++ name) listed_db ≡ ok child))
list_directory-Existing_example =
    list_directory-Existing env 1 (text "/d") (directory_info (text "/d")) listed_db path_d-valid
      refl path_d-info refl

runs_listing : list_directory env 1 (text "/d") listed_db ≡ ok (text "b" ∷ text "x" ∷ [])
unfolding list_directory child_names validate_path get_file_info info_at
runs_listing = refl

-- A file without its blocks is shown as corrupt.
runs_listing_detail :
    list_directory_detail env 1 (text "/d") true (record listed_db { file_blocks = [] })
    ≡ ok (corrupt_child_info (text "/d/b") ∷ directory_info (text "/d/x") ∷ [])
unfolding list_directory_detail child_info list_directory child_names validate_path get_file_info
    info_at node_info load_file_data ordered_file_blocks mappings_of path_has_descendants
runs_listing_detail = refl
