-- ===== src/Operations/Writer/Create.antt =====
-- A writer on a path where no file is stands on a new, empty row.
use django_fsspec.Prelude.{
  ◌≡◌, refl, ◌∙◌, Bool, false, not, ◌&&◌, none, some, List, [], ◌∷◌, ◌++◌, find?-append_none, any,
  any-append, any_of_find?-none, ◌==◌, arith,
}
use django_fsspec.Errors.{ok}
use django_fsspec.Environment.{Environment, HasFreshKeys}
use django_fsspec.Text.Laws.{text_eq_refl}
use django_fsspec.Models.{FileNode, Db, NodeType}
use django_fsspec.Models.Query.{
  get_node, any_below, at_path, below_prefix, child_prefix, mappings_of,
}
use django_fsspec.Models.Consistent.{
  IsConsistent, node_keys, fresh_key_not_found, no_mappings_of_fresh,
}
use django_fsspec.Operations.Content.{path_has_descendants, ordered_file_blocks}
use django_fsspec.Operations.Frame.{Frame, Frame-created}
use django_fsspec.Operations.Blocks.{new_node, create_node}
use django_fsspec.Operations.Writer.{Writer, create_target, with_node}
use django_fsspec.Operations.Writer.Writing.{HasTarget, HasRows}

-- A test that no row passes, with a further condition.
any-and :
    (p q : FileNode → Bool) (nodes : List FileNode)
    → any p nodes ≡ false
    → any (λ n. p n && q n) nodes ≡ false
any-and p q [] h = refl
any-and p q (x ∷ nodes) h = ground (arith, any-and p q nodes)

module _ (e : Environment) (fresh : HasFreshKeys e) (w : Writer) (db : Db) (c : IsConsistent db)
    (absent : get_node w.namespace w.path db ≡ none)
    (childless : any_below w.namespace (child_prefix w.path) db ≡ false) where
  abbrev pub created : FileNode
  created = new_node e w.namespace w.path NodeType.file w.stored_block_size w.content_type db

  abbrev pub created_db : Db
  created_db = record db { nodes = db.nodes ++ created ∷ [] }

  pub create_target-created : create_target e w db ≡ (ok created, created_db)
  unfolding create_node
  create_target-created =
      ground (arith, any_of_find?-none (at_path w.namespace w.path) db.nodes absent)

  created-childless : path_has_descendants w.namespace w.path (some created.pk) created_db ≡ false
  unfolding path_has_descendants
  created-childless =
      let below : FileNode → Bool =
        λ n. below_prefix w.namespace (child_prefix w.path) n && not (n.pk == created.pk) in
      ground (
        arith,
        any-append below db.nodes (created ∷ []),
        any-and (below_prefix w.namespace (child_prefix w.path)) (λ n. not (n.pk == created.pk))
            db.nodes childless,
      )

  pub created-HasTarget : HasTarget (with_node w created) created_db created
  created-HasTarget = record {
    target = refl;
    by_key =
        find?-append_none (λ (r : FileNode). r.pk == created.pk) db.nodes (created ∷ [])
          (fresh_key_not_found created.pk db.nodes (fresh (node_keys db.nodes)))
        ∙ ground arith;
    by_path =
        find?-append_none (at_path w.namespace w.path) db.nodes (created ∷ []) absent
        ∙ ground (arith, text_eq_refl w.path);
    version = refl;
    typed = refl;
    childless = created-childless;
  }

  no_mappings : mappings_of created.pk created_db ≡ []
  unfolding mappings_of
  no_mappings = rw (
      no_mappings_of_fresh created.pk (node_keys db.nodes) db.file_blocks
        (fresh (node_keys db.nodes)) c.files)

  no_rows : ordered_file_blocks created created_db ≡ []
  unfolding ordered_file_blocks
  no_rows = rw no_mappings

  pub created-HasRows : HasRows e created_db created 0 []
  created-HasRows = record {
    below = rw (
        no_mappings_of_fresh created.pk (node_keys db.nodes) db.file_blocks
          (fresh (node_keys db.nodes)) c.files);
    loaded = rw no_mappings;
    counted = rw no_rows;
    contiguous = rw no_rows;
    intact = rw no_rows;
    content = rw no_rows;
  }

  pub created-Frame : Frame created.pk w.namespace w.path db created_db
  created-Frame =
      Frame-created created.pk w.namespace w.path db created refl
        (ground (arith, text_eq_refl w.path))
