-- ===== src/Operations/Frame.antt =====
-- Changes of the rows of the file at one path: what stays of every other row and its content.
pub mod Rows
use django_fsspec.Prelude.{
  ℕ, ◌≡◌, refl, ap, sym, ◌∙◌, Bool, true, false, ◌&&◌, ◌||◌, contains, not, List, [], ◌∷◌, ◌++◌,
  filter, filter-append, find?, all, all-append, update_where, some, ◌==◌, arith, append-nil,
}
use django_fsspec.Text.{Text, text_eq}
use django_fsspec.Text.Laws.{text_eq_sound}
use django_fsspec.Models.{FileNode, Db}
use django_fsspec.Models.Query.{at_path, get_node, mappings_of}
use django_fsspec.Models.Consistent.{AreDistinct, node_keys, has_block}
use django_fsspec.Operations.Content.{ordered_file_blocks}

-- A row with another key than `k`.
abbrev pub other : ℕ → FileNode → Bool
other k n = not (n.pk == k)

-- A row with the key `k` stands at the path.
abbrev pub only_at : ℕ → ℕ → Text → FileNode → Bool
only_at k namespace path n = other k n || at_path namespace path n

-- Every mapping of the file with this key leads to a block.
abbrev pub IsLoaded : Db → ℕ → Type 0
IsLoaded db j = all (has_block db) (mappings_of j db) ≡ true

-- Between the databases only rows with the key `k`, its mappings, and blocks of no other file
-- changed; and a row with the key stays at the path.
pub record Frame (k namespace : ℕ) (path : Text) (db db' : Db) : Type 0 where
  pub nodes : filter (other k) db'.nodes ≡ filter (other k) db.nodes
  pub only :
      all (only_at k namespace path) db.nodes ≡ true
      → all (only_at k namespace path) db'.nodes ≡ true
  pub rows :
      (n : FileNode)
      → (n.pk == k) ≡ false
      → IsLoaded db n.pk
      → IsLoaded db' n.pk × (ordered_file_blocks n db' ≡ ordered_file_blocks n db)

module _ (k namespace : ℕ) (path : Text) where
  at_key : (j : ℕ) → (j == k) ≡ true → j ≡ k
  at_key j h = ground arith

  pub Frame-refl : (db : Db) → Frame k namespace path db db
  Frame-refl db = record { nodes = refl; only = λ h. h; rows = λ n i l. (l, refl) }

  pub Frame-trans :
      {a b c : Db}
      → Frame k namespace path a b
      → Frame k namespace path b c
      → Frame k namespace path a c
  Frame-trans f g = record {
    nodes = g.nodes ∙ f.nodes;
    only = λ h. g.only (f.only h);
    rows = λ n i l. let (l₁, e₁) = f.rows n i l in let (l₂, e₂) = g.rows n i l₁ in (l₂, e₂ ∙ e₁);
  }

  -- A change of node rows alone.
  Frame-nodes :
      (db : Db) (nodes : List FileNode)
      → filter (other k) nodes ≡ filter (other k) db.nodes
      → (all (only_at k namespace path) db.nodes ≡ true
          → all (only_at k namespace path) nodes ≡ true)
      → Frame k namespace path db (record db { nodes = nodes })
  unfolding ordered_file_blocks mappings_of
  Frame-nodes db nodes same kept = record { nodes = same; only = kept; rows = λ n i l. (l, refl) }

  -- A new row with the key, at the path.
  pub Frame-created :
      (db : Db) (n : FileNode)
      → n.pk ≡ k
      → at_path namespace path n ≡ true
      → Frame k namespace path db (record db { nodes = db.nodes ++ n ∷ [] })
  Frame-created db n key here =
      Frame-nodes db (db.nodes ++ n ∷ [])
        (filter-append (other k) db.nodes (n ∷ [])
          ∙ ground (arith, key, append-nil (filter (other k) db.nodes)))
        (λ h. all-append (only_at k namespace path) db.nodes (n ∷ []) h (ground (arith, here)))

  -- A change of rows with the key that moves none.
  module _ (p : FileNode → Bool) (f : FileNode → FileNode)
      (at : (n : FileNode) → p n ≡ true → n.pk ≡ k) (same_key : (n : FileNode) → (f n).pk ≡ n.pk)
      (same_namespace : (n : FileNode) → (f n).namespace_id ≡ n.namespace_id)
      (same_path : (n : FileNode) → (f n).path ≡ n.path) where
    other-update_where :
        (nodes : List FileNode) → filter (other k) (update_where p f nodes) ≡ filter (other k) nodes
    other-update_where [] = refl
    other-update_where (n ∷ nodes) = ground (arith, at n, same_key n, other-update_where nodes)

    only-update_where :
        (nodes : List FileNode)
        → all (only_at k namespace path) nodes ≡ true
        → all (only_at k namespace path) (update_where p f nodes) ≡ true
    only-update_where [] h = refl
    only-update_where (n ∷ nodes) h =
        ground (arith, same_key n, same_namespace n, same_path n, only-update_where nodes)

    pub Frame-updated :
        (db : Db) → Frame k namespace path db (record db { nodes = update_where p f db.nodes })
    Frame-updated db =
        Frame-nodes db (update_where p f db.nodes) (other-update_where db.nodes)
          (only-update_where db.nodes)

  -- A search at another path does not depend on the rows with the key.
  module _ (ns' : ℕ) (path' : Text)
      (elsewhere : (namespace == ns' && text_eq path path') ≡ false) where
    not_both : (n : FileNode) → at_path namespace path n ≡ true → at_path ns' path' n ≡ false
    not_both n h =
        let same : n.path ≡ path = text_eq_sound n.path path (ground arith) in
        ground (arith, elsewhere, ap (λ p. text_eq p path') same)

    search_others :
        (nodes : List FileNode)
        → all (only_at k namespace path) nodes ≡ true
        → find? (at_path ns' path') (filter (other k) nodes) ≡ find? (at_path ns' path') nodes
    search_others [] h = refl
    search_others (n ∷ nodes) h = ground (arith, not_both n, search_others nodes)

    found_other :
        (nodes : List FileNode) (n : FileNode)
        → all (only_at k namespace path) nodes ≡ true
        → find? (at_path ns' path') nodes ≡ some n
        → (n.pk == k) ≡ false
    found_other [] n all_at h = ground arith
    found_other (x ∷ nodes) n all_at h = ground (arith, not_both x, found_other nodes n)

    -- The row at another path stays.
    pub get_node-Frame :
        {db db' : Db}
        → Frame k namespace path db db'
        → all (only_at k namespace path) db.nodes ≡ true
        → get_node ns' path' db' ≡ get_node ns' path' db
    get_node-Frame {db} {db'} f h =
        sym (search_others db'.nodes (f.only h))
        ∙ ap (find? (at_path ns' path')) f.nodes
        ∙ search_others db.nodes h

    -- The rows of the file at another path stay.
    pub rows-Frame :
        {db db' : Db} (n : FileNode)
        → Frame k namespace path db db'
        → all (only_at k namespace path) db.nodes ≡ true
        → get_node ns' path' db ≡ some n
        → IsLoaded db n.pk
        → ordered_file_blocks n db' ≡ ordered_file_blocks n db
    rows-Frame {db} n f h found l = (f.rows n (found_other db.nodes n h found) l).1

  -- No row has a key that is not in use.
  pub only_at-fresh :
      (nodes : List FileNode)
      → contains k (node_keys nodes) ≡ false
      → all (only_at k namespace path) nodes ≡ true
  only_at-fresh [] h = refl
  only_at-fresh (n ∷ nodes) h = ground (arith, only_at-fresh nodes)

  -- Keys are distinct, so that the row with the key is the one that a search for it finds.
  pub only_at-found :
      (n : FileNode) (nodes : List FileNode)
      → AreDistinct (node_keys nodes)
      → find? (λ r. r.pk == k) nodes ≡ some n
      → at_path namespace path n ≡ true
      → all (only_at k namespace path) nodes ≡ true
  only_at-found n [] d h here = refl
  only_at-found n (x ∷ nodes) d h here = ground (
    arith,
    only_at-found n nodes d.1,
    λ (i : (x.pk == k) ≡ true).
        only_at-fresh nodes (ap (λ j. contains j (node_keys nodes)) (sym (at_key x.pk i)) ∙ d.0),
  )
