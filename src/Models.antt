-- ===== src/Models.antt =====
-- models.py: the rows of the four tables, and the database as its tables.
pub mod Query
pub mod Consistent
use django_fsspec.Prelude.{ℕ, Bool, true, false, List}
use django_fsspec.Text.{Text}
use django_fsspec.Environment.{Bytes}

-- `node_type`; `invalid` is any text but the two choices.
pub data NodeType : Type 0 where
  file directory invalid : NodeType

abbrev pub is_file : NodeType → Bool
is_file file = true
is_file _ = false

abbrev pub is_directory : NodeType → Bool
is_directory directory = true
is_directory _ = false

pub record Namespace : Type 0 where
  pub pk : ℕ
  pub name : Text
  pub description : Text
  pub read_groups : List ℕ
  pub write_groups : List ℕ
  pub created_at : ℕ

pub record FileNode : Type 0 where
  pub pk : ℕ
  pub namespace_id : ℕ
  pub path : Text
  pub node_type : NodeType
  pub size : ℕ
  pub block_size : ℕ
  pub checksum : Text
  pub content_type : Text
  pub version : ℕ
  pub created_at : ℕ
  pub updated_at : ℕ

pub record StorageBlock : Type 0 where
  pub pk : ℕ
  pub content : Bytes
  pub size : ℕ
  pub checksum : Text
  pub is_free : Bool
  pub created_at : ℕ

-- `sequence` is a signed 32-bit column of which only the natural numbers stand here; the renumbering
-- of a repair is given for rows with any integer.
pub record FileBlock : Type 0 where
  pub pk : ℕ
  pub file_id : ℕ
  pub block_id : ℕ
  pub sequence : ℕ

pub record Db : Type 0 where
  pub namespaces : List Namespace
  pub nodes : List FileNode
  pub blocks : List StorageBlock
  pub file_blocks : List FileBlock
