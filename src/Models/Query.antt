-- ===== src/Models/Query.antt =====
-- The querysets that the package builds, as the rows that they select.
use django_fsspec.Prelude.{
  ℕ, Bool, ◌&&◌, ◌||◌, not, List, ◌++◌, map, Option, filter, find?, any, sort, ltb, ◌==◌,
}
use django_fsspec.Text.{Text, text, text_eq, starts_with, rstrip_slash}
use django_fsspec.Models.{FileNode, StorageBlock, FileBlock, Namespace, Db}
use mathlib.Core.Option

-- `path.rstrip("/") + "/"`
abbrev pub child_prefix : Text → Text
child_prefix path = rstrip_slash path ++ text "/"

-- `filter(namespace_id=namespace, path=path)`
abbrev pub at_path : ℕ → Text → FileNode → Bool
at_path namespace path n = n.namespace_id == namespace && text_eq n.path path

-- `filter(namespace_id=namespace, path__startswith=prefix)`, by case as every backend but SQLite compares
abbrev pub below_prefix : ℕ → Text → FileNode → Bool
below_prefix namespace prefix n = n.namespace_id == namespace && starts_with prefix n.path

-- `FileNode.objects.get(namespace_id=namespace, path=path)`, `none` for `DoesNotExist`
abbrev pub get_node : ℕ → Text → Db → Option FileNode
get_node namespace path db = find? (at_path namespace path) db.nodes

-- `FileNode.objects.get(pk=pk)`
abbrev pub get_node_by_pk : ℕ → Db → Option FileNode
get_node_by_pk pk db = find? (λ n. n.pk == pk) db.nodes

-- `FileNode.objects.filter(namespace_id=namespace, path__startswith=prefix).exists()`
abbrev pub any_below : ℕ → Text → Db → Bool
any_below namespace prefix db = any (below_prefix namespace prefix) db.nodes

abbrev pub get_block : ℕ → Db → Option StorageBlock
get_block pk db = find? (λ b. b.pk == pk) db.blocks

abbrev pub get_namespace : ℕ → Db → Option Namespace
get_namespace pk db = find? (λ n. n.pk == pk) db.namespaces

-- A `FileBlock` with its `block` loaded by `select_related("block")`.
pub record LoadedBlock : Type 0 where
  pub mapping : FileBlock
  pub block : StorageBlock

-- `order_by("sequence", "id")`
abbrev pub before_mapping : FileBlock → FileBlock → Bool
before_mapping a b = ltb a.sequence b.sequence || (a.sequence == b.sequence && not (ltb b.pk a.pk))

-- the mappings of one file in order
unfoldable pub mappings_of : ℕ → Db → List FileBlock
mappings_of pk db = sort before_mapping (filter (λ m. m.file_id == pk) db.file_blocks)

-- The inner join with the block's row.
abbrev pub load_block : Db → FileBlock → Option LoadedBlock
load_block db m = Option.map (λ b. record { mapping = m; block = b }) (get_block m.block_id db)

-- `FileBlock.objects.filter(file=n)`
abbrev pub mappings_to : FileNode → Db → List FileBlock
mappings_to n db = filter (λ m. m.file_id == n.pk) db.file_blocks

-- `values_list("block_id", flat=True)`
abbrev pub block_ids : List FileBlock → List ℕ
block_ids = map (λ (m : FileBlock). m.block_id)
