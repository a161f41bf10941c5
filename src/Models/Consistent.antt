-- ===== src/Models/Consistent.antt =====
-- What the tables' keys guarantee: primary keys are distinct and foreign keys lead to rows.
use django_fsspec.Prelude.{
  ℕ, ◌≡◌, refl, Bool, true, false, ◌||◌, Option, none, some, List, [], ◌∷◌, map, contains, find?,
  all, filter, ◌==◌, arith,
}
use django_fsspec.Models.{FileNode, FileBlock, Db, is_file, is_directory}
use django_fsspec.Models.Query.{get_block}

abbrev pub is_found {ℓ} : {A : Type ℓ} → Option A → Bool
is_found none = false
is_found (some _) = true

-- The block of the mapping exists.
abbrev pub has_block : Db → FileBlock → Bool
has_block db m = is_found (get_block m.block_id db)

-- The file of the mapping exists.
abbrev pub node_keys : List FileNode → List ℕ
node_keys = map (λ (n : FileNode). n.pk)

abbrev pub has_node : Db → FileBlock → Bool
has_node db m = contains m.file_id (node_keys db.nodes)

abbrev pub AreDistinct : List ℕ → Type 0
AreDistinct [] = Unit
AreDistinct (k ∷ ks) = (contains k ks ≡ false) × AreDistinct ks

pub record IsConsistent (db : Db) : Type 0 where
  pub keys : AreDistinct (node_keys db.nodes)
  pub types : all (λ n. is_file n.node_type || is_directory n.node_type) db.nodes ≡ true
  pub files : all (has_node db) db.file_blocks ≡ true
  pub blocks : all (has_block db) db.file_blocks ≡ true

contains_of_find? :
    (p : FileNode → Bool) (nodes : List FileNode) (n : FileNode)
    → find? p nodes ≡ some n
    → contains n.pk (node_keys nodes) ≡ true
contains_of_find? p [] n h = ground arith
contains_of_find? p (x ∷ nodes) n h = ground (arith, contains_of_find? p nodes n)

distinct_heads :
    (k j : ℕ) (ks : List ℕ) → contains k ks ≡ false → contains j ks ≡ true → (k == j) ≡ false
distinct_heads k j [] h i = ground arith
distinct_heads k j (x ∷ ks) h i = ground (arith, distinct_heads k j ks)

-- A row that a search finds is found by its key.
pub get_node_by_pk_of_find? :
    (p : FileNode → Bool) (nodes : List FileNode) (n : FileNode)
    → AreDistinct (node_keys nodes)
    → find? p nodes ≡ some n
    → find? (λ r. r.pk == n.pk) nodes ≡ some n
get_node_by_pk_of_find? p [] n d h = ground arith
get_node_by_pk_of_find? p (x ∷ nodes) n d h = ground (
  arith,
  get_node_by_pk_of_find? p nodes n d.1,
  contains_of_find? p nodes n,
  distinct_heads x.pk n.pk (node_keys nodes) d.0,
)

pub fresh_key_not_found :
    (k : ℕ) (nodes : List FileNode)
    → contains k (node_keys nodes) ≡ false
    → find? (λ (r : FileNode). r.pk == k) nodes ≡ none
fresh_key_not_found k [] h = refl
fresh_key_not_found k (x ∷ nodes) h = ground (arith, fresh_key_not_found k nodes)

-- No mapping leads to a key that is not in use.
pub no_mappings_of_fresh :
    (k : ℕ) (keys : List ℕ) (ms : List FileBlock)
    → contains k keys ≡ false
    → all (λ m. contains m.file_id keys) ms ≡ true
    → filter (λ m. m.file_id == k) ms ≡ []
no_mappings_of_fresh k keys [] h i = refl
no_mappings_of_fresh k keys (m ∷ ms) h i =
    ground (arith, no_mappings_of_fresh k keys ms, distinct_heads k m.file_id keys h)
