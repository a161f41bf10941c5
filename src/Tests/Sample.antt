-- ===== src/Tests/Sample.antt =====
-- A concrete environment and a small database.
use django_fsspec.Prelude.{
  ℕ, ◌+◌, ◌≤◌, max, ◌≡◌, refl, Bool, true, false, List, [], ◌∷◌, contains, length, arith,
}
use django_fsspec.Text.{text}
use django_fsspec.Environment.{Bytes, Integrity, Environment, HasFreshKeys}
use django_fsspec.Models.{Namespace, FileNode, StorageBlock, FileBlock, Db, NodeType}

-- a digest that is never empty
abbrev pub sum : Bytes → ℕ
sum [] = 1
sum (b ∷ bs) = b + sum bs

abbrev pub highest : List ℕ → ℕ
highest [] = 0
highest (k ∷ ks) = max k (highest ks)

-- Blocks of two bytes, files of up to nine.
abbrev pub env : Environment
env = record {
  sha256 = λ content. sum content ∷ [];
  nfc = λ path. path;
  new_pk = λ used. highest used + 1;
  now = 100;
  block_size = 2;
  max_file_size = 9;
  read_integrity = Integrity.off;
}

above_all : (k : ℕ) (used : List ℕ) → highest used + 1 ≤ k → contains k used ≡ false
above_all k [] h = refl
above_all k (u ∷ used) h = ground (arith, above_all k used)

pub env-HasFreshKeys : HasFreshKeys env
env-HasFreshKeys used = above_all (highest used + 1) used (omega arith)

abbrev pub sample_namespace : Namespace
sample_namespace = record {
  pk = 1;
  name = text "default";
  description = [];
  read_groups = 7 ∷ [];
  write_groups = 8 ∷ [];
  created_at = 1;
}

abbrev pub sample_node : FileNode
sample_node = record {
  pk = 5;
  namespace_id = 1;
  path = text "/a";
  node_type = NodeType.file;
  size = 3;
  block_size = 2;
  checksum = 67 ∷ [];
  content_type = [];
  version = 4;
  created_at = 10;
  updated_at = 10;
}

abbrev pub sample_block : ℕ → Bytes → Bool → StorageBlock
sample_block pk content is_free = record {
  pk = pk;
  content = content;
  size = length content;
  checksum = sum content ∷ [];
  is_free = is_free;
  created_at = 10;
}

abbrev pub sample_mapping : ℕ → ℕ → ℕ → ℕ → FileBlock
sample_mapping pk file_id block_id sequence = record {
  pk = pk;
  file_id = file_id;
  block_id = block_id;
  sequence = sequence;
}

-- One namespace with the file /a of the bytes 21, 22, 23, and one free block.
abbrev pub db : Db
db = record {
  namespaces = sample_namespace ∷ [];
  nodes = sample_node ∷ [];
  blocks =
      sample_block 1 (21 ∷ 22 ∷ []) false
      ∷ sample_block 2 (23 ∷ []) false
      ∷ sample_block 3 (9 ∷ []) true
      ∷ [];
  file_blocks = sample_mapping 1 5 1 0 ∷ sample_mapping 2 5 2 1 ∷ [];
}

abbrev pub empty_db : Db
empty_db = record { namespaces = sample_namespace ∷ []; nodes = []; blocks = []; file_blocks = [] }
