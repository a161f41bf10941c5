-- ===== src/Operations/Write/View.antt =====
-- What a database stores, as a function of namespace and path, and that a write changes it at one
-- path only.
use django_fsspec.Prelude.{ℕ, ◌&&◌, Option, some, ◌==◌, if◌then◌else◌}
use mathlib.Core.Option
use django_fsspec.Environment.{Bytes, Environment}
use django_fsspec.Text.{Text, text_eq}
use django_fsspec.Action.{Action}
use django_fsspec.Models.{FileNode, Db}
use django_fsspec.Models.Query.{get_node}
use django_fsspec.Operations.Content.Intact.{content_of}

-- What is stored at a path: the whole row, and the data of its blocks.
pub record Entry : Type 0 where
  pub row : FileNode
  pub content : Bytes

-- What is stored at each path of each namespace.
abbrev pub View : Type 0
View = ℕ → Text → Option Entry

abbrev entry_of : Db → FileNode → Entry
entry_of db n = record { row = n; content = content_of n db }

abbrev pub view : Db → View
view db namespace path = Option.map (entry_of db) (get_node namespace path db)

-- The view with an entry at one path.
abbrev pub put : ℕ → Text → Entry → View → View
put namespace path entry v namespace' path' =
    if namespace == namespace' && text_eq path path' then some entry else v namespace' path'

-- The entry of a row with this content.
abbrev pub entry : FileNode → Bytes → Entry
entry n content = record { row = n; content = content }
