-- ===== src/Operations/Blocks.antt =====
-- operations.py and models.py: new rows with the tables' constraints, and the release of blocks.
pub mod Allocate
pub mod Order
pub mod Extend
pub mod InUse
use django_fsspec.Prelude.{
  ℕ, ◌+◌, Bool, ◌&&◌, not, List, [], ◌∷◌, ◌++◌, map, filter, any, update_where, contains, length,
  ◌==◌, if◌then◌else◌,
}
use django_fsspec.Errors.{Error, Result, ok, err}
use django_fsspec.Environment.{Bytes, Environment}
use django_fsspec.Text.{Text}
use django_fsspec.Models.{FileNode, FileBlock, StorageBlock, Db, NodeType}
use django_fsspec.Models.Query.{at_path}
use django_fsspec.Action.{Action}

-- The row that `FileNode.objects.create` writes.
abbrev pub new_node : Environment → ℕ → Text → NodeType → ℕ → Text → Db → FileNode
new_node e namespace path node_type block_size content_type db = record {
  pk = e.new_pk (map (λ (n : FileNode). n.pk) db.nodes);
  namespace_id = namespace;
  path = path;
  node_type = node_type;
  size = 0;
  block_size = block_size;
  checksum = [];
  content_type = content_type;
  version = 1;
  created_at = e.now;
  updated_at = e.now;
}

-- `FileNode.objects.create`, under `unique_together = ("namespace", "path")`
unfoldable pub create_node : Environment → ℕ → Text → NodeType → ℕ → Text → Action FileNode
create_node e namespace path node_type block_size content_type db =
    if any (at_path namespace path) db.nodes
    then (err Error.django_integrity, db)
    else let n = new_node e namespace path node_type block_size content_type db in
      (ok n, record db { nodes = db.nodes ++ n ∷ [] })

-- The row that `StorageBlock.objects.create` writes for a chunk.
abbrev pub new_block : Environment → Bytes → List StorageBlock → StorageBlock
new_block e chunk blocks = record {
  pk = e.new_pk (map (λ (b : StorageBlock). b.pk) blocks);
  content = chunk;
  size = length chunk;
  checksum = e.sha256 chunk;
  is_free = Bool.false;
  created_at = e.now;
}

-- `_allocate_blocks`: one new row for each chunk, on the table as the rows before left it.
unfoldable pub allocate_blocks : Environment → List Bytes → List StorageBlock → List StorageBlock
allocate_blocks e [] blocks = []
allocate_blocks e (c ∷ chunks) blocks =
    let b = new_block e c blocks in b ∷ allocate_blocks e chunks (blocks ++ b ∷ [])

-- `FileBlock(file=…, block=b, sequence=sequence)`, with the key that the database gives it
abbrev pub new_mapping : Environment → ℕ → ℕ → StorageBlock → List FileBlock → FileBlock
new_mapping e file_id sequence b mappings = record {
  pk = e.new_pk (map (λ (r : FileBlock). r.pk) mappings);
  file_id = file_id;
  block_id = b.pk;
  sequence = sequence;
}

-- The mappings of `enumerate(blocks)`, numbered from `sequence`.
unfoldable pub new_mappings :
    Environment → ℕ → ℕ → List StorageBlock → List FileBlock → List FileBlock
new_mappings e file_id sequence [] mappings = []
new_mappings e file_id sequence (b ∷ blocks) mappings =
    let m = new_mapping e file_id sequence b mappings in
    m ∷ new_mappings e file_id (sequence + 1) blocks (mappings ++ m ∷ [])

-- `unique_together = ("file", "sequence")`
abbrev pub same_slot : FileBlock → FileBlock → Bool
same_slot a b = a.file_id == b.file_id && a.sequence == b.sequence

abbrev pub has_duplicate_slot : List FileBlock → List FileBlock → Bool
has_duplicate_slot stored new = any (λ a. any (same_slot a) stored) new

-- `FileBlock.objects.bulk_create`
unfoldable pub bulk_create : List FileBlock → Action (Unit {0})
bulk_create mappings db =
    if has_duplicate_slot db.file_blocks mappings
    then (err Error.django_integrity, db)
    else (ok tt, record db { file_blocks = db.file_blocks ++ mappings })

-- `_release_file_blocks`: only blocks that no mapping is left for become free.
abbrev pub free_ownerless : List ℕ → List FileBlock → List StorageBlock → List StorageBlock
free_ownerless block_ids left =
    update_where
      (λ b. contains b.pk block_ids && not (any (λ (m : FileBlock). m.block_id == b.pk) left))
      (λ b. record b { is_free = Bool.true })

-- The same on the tables.
abbrev pub free_old : List ℕ → Db → Db
free_old old_block_ids db = record db {
  blocks = free_ownerless old_block_ids db.file_blocks db.blocks;
}

abbrev pub not_of_files : List ℕ → List FileBlock → List FileBlock
not_of_files file_ids = filter (λ m. not (contains m.file_id file_ids))

unfoldable pub release_file_blocks : List ℕ → Db → Db
release_file_blocks file_ids db =
    let block_ids =
      map (λ (m : FileBlock). m.block_id)
        (filter (λ m. contains m.file_id file_ids) db.file_blocks) in
    let left = not_of_files file_ids db.file_blocks in
    record db { file_blocks = left; blocks = free_ownerless block_ids left db.blocks }

-- `_release_blocks`
abbrev pub release_blocks : FileNode → Db → Db
release_blocks file_node = release_file_blocks (file_node.pk ∷ [])
