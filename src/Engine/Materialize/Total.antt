-- ===== src/Engine/Materialize/Total.antt =====
-- src/engine.rs: the preparation of a document does not panic.
use zwirn.Prelude.{
  ℕ, Bool, List, [], ◌∷◌, ◌≢◌, inl, inr, panic, map_err-eq-ok, >>=-ne-panic, >>=-ne-panic_of,
  map_err-ne-panic, ok-ne-panic, err-ne-panic, Option-cases,
}
use zwirn.Text.{Text}
use zwirn.TreeMap.{TreeMap, get, insert}
use zwirn.Fragment.Source.{Fragment, fragments}
use zwirn.Fragment.Source
use zwirn.Fragment.Source.Total.{source_parse-ne-panic, fragments-ne-panic}
use zwirn.Fragment.Rewrite.{FragmentUpdate, Rewritten, borrowed, owned, path_key}
use zwirn.Fragment.Rewrite.Faithful.{rewrite-ne-panic}
use zwirn.Adls.Document.{SourceNode, Document}
use zwirn.Adls.Document
use zwirn.Adls.Document.Parsed.{parse-IsDocument}
use zwirn.Adls.Document.Total.{parse-ne-panic}
use zwirn.Adls.Rewrite.{find_index}
use zwirn.Adls.Rewrite.Total.{rewrite-IsDocument-ne-panic}
use zwirn.Engine.{
  inconsistent_materialization_node, inconsistent_materialization_markers, fragment_rewrite,
  invalid_prepared_markers, duplicate_prepared_fragment, document,
}
use zwirn.Engine.Materialize.{
  PathSet, insert_paths, validate_nodes, validate_prepared_document, rewrite_node, materialize_node,
  materialize_nodes, prepared_output, materialize_document,
}

insert_paths-ne-panic : (paths : PathSet) (found : List Fragment) → insert_paths paths found ≢ panic
unfolding insert_paths
insert_paths-ne-panic paths [] = ok-ne-panic _
insert_paths-ne-panic paths (fragment ∷ rest) = elim (Option-cases (get fragment.path paths)) [
  | inl e ↦ rw (e, insert_paths) (insert_paths-ne-panic (insert fragment.path tt paths) rest)
  | inr (found, e) ↦ rw (e, insert_paths) (err-ne-panic (duplicate_prepared_fragment fragment.path))
]

validate_nodes-ne-panic :
    (paths : PathSet) (nodes : List SourceNode) → validate_nodes paths nodes ≢ panic
unfolding validate_nodes
validate_nodes-ne-panic paths [] = ok-ne-panic _
validate_nodes-ne-panic paths (node ∷ rest) =
    let index = node.handle.index in
    >>=-ne-panic_of _ _
      (map_err-ne-panic (invalid_prepared_markers index) _
        (source_parse-ne-panic node.kind node.source))
      λ parsed e.
        >>=-ne-panic _ _
          (fragments-ne-panic node.kind node.source parsed
            (map_err-eq-ok (invalid_prepared_markers index) (Source.parse node.kind node.source) e))
          λ found.
            >>=-ne-panic _ _ (insert_paths-ne-panic paths found)
              λ next. validate_nodes-ne-panic next rest

validate_prepared_document-ne-panic :
    (number : ℕ) (bytes : Text) → validate_prepared_document number bytes ≢ panic
unfolding validate_prepared_document
validate_prepared_document-ne-panic number bytes =
    >>=-ne-panic _ _ (map_err-ne-panic document _ (parse-ne-panic number bytes)) λ prepared.
      >>=-ne-panic _ _ (validate_nodes-ne-panic [] prepared.sources) λ paths. ok-ne-panic _

module _ (digest : Text → List ℕ) (can_reserve : ℕ → Bool) where
  rewrite_node-ne-panic :
      (node_index : ℕ) (node : SourceNode) (updates : List FragmentUpdate)
      → rewrite_node digest can_reserve node_index node updates ≢ panic
  unfolding rewrite_node
  rewrite_node-ne-panic node_index node updates =
      >>=-ne-panic_of _ _
        (map_err-ne-panic (inconsistent_materialization_markers node_index) _
          (source_parse-ne-panic node.kind node.source))
        λ parsed e.
          >>=-ne-panic _ _
            (map_err-ne-panic (fragment_rewrite node_index) _ (
              rewrite-ne-panic digest can_reserve node.kind node.source parsed
                (map_err-eq-ok (inconsistent_materialization_markers node_index)
                  (Source.parse node.kind node.source) e)
                updates))
            λ rewritten. ok-ne-panic _

  materialize_node-ne-panic :
      (sources : List SourceNode) (node_index : ℕ) (updates : List FragmentUpdate)
      → materialize_node digest can_reserve sources node_index updates ≢ panic
  unfolding materialize_node
  materialize_node-ne-panic sources node_index updates =
      elim (Option-cases (find_index node_index sources)) [
        | inl e ↦
            rw (e, materialize_node) (err-ne-panic (inconsistent_materialization_node node_index))
        | inr ((place, node), e) ↦
            rw (e, materialize_node) (rewrite_node-ne-panic node_index node updates)
      ]

  materialize_nodes-ne-panic :
      (sources : List SourceNode) (node_updates : TreeMap ℕ (List FragmentUpdate))
      → materialize_nodes digest can_reserve sources node_updates ≢ panic
  unfolding materialize_nodes
  materialize_nodes-ne-panic sources [] = ok-ne-panic _
  materialize_nodes-ne-panic sources ((node_index, updates) ∷ rest) =
      >>=-ne-panic _ _ (materialize_node-ne-panic sources node_index updates)
        λ first. >>=-ne-panic _ _ (materialize_nodes-ne-panic sources rest) λ others. ok-ne-panic _

  prepared_output-ne-panic :
      (number : ℕ) (rewritten : Rewritten)
      → prepared_output digest can_reserve number rewritten ≢ panic
  unfolding prepared_output
  prepared_output-ne-panic number (borrowed bytes) = ok-ne-panic _
  prepared_output-ne-panic number (owned bytes) =
      >>=-ne-panic _ _ (validate_prepared_document-ne-panic number bytes) λ _. ok-ne-panic _

  -- Whatever the document's bytes, the updates and the answers of the allocator, preparing the
  -- document does not panic.
  pub materialize_document-ne-panic :
      (first second third : ℕ) (bytes : Text) (node_updates : TreeMap ℕ (List FragmentUpdate))
      → materialize_document digest can_reserve first second third bytes node_updates ≢ panic
  unfolding materialize_document
  materialize_document-ne-panic first second third bytes node_updates =
      >>=-ne-panic_of _ _ (map_err-ne-panic document _ (parse-ne-panic first bytes)) λ parsed e.
        let (_, is_document) =
          parse-IsDocument first bytes (map_err-eq-ok document (Document.parse first bytes) e) in
        >>=-ne-panic _ _ (materialize_nodes-ne-panic parsed.sources node_updates) λ replacements.
          >>=-ne-panic _ _
            (map_err-ne-panic document _ (
              rewrite-IsDocument-ne-panic can_reserve second first parsed replacements is_document))
            λ rewritten. prepared_output-ne-panic third rewritten
