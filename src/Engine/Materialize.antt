-- ===== src/Engine/Materialize.antt =====
-- src/engine.rs: `materialize_document` and `validate_prepared_document`.
pub mod Found
pub mod Tests
pub mod Distinct
pub mod Written
pub mod Requested
pub mod Total
use zwirn.Prelude.{
  ℕ, Bool, List, [], ◌∷◌, ◌++◌, Option, none, some, Result, ok, err, panic, ◌>>=◌, ◌>>◌, map_err,
}
use zwirn.Text.{Text}
use zwirn.TreeMap.{TreeMap, get, insert}
use zwirn.Fragment.Path.{FragmentPath}
use zwirn.Fragment.Source.{Fragment, fragments}
use zwirn.Fragment.Source
use zwirn.Fragment.Rewrite.{FragmentUpdate, Rewritten, borrowed, owned, path_key}
use zwirn.Fragment.Rewrite
use zwirn.Adls.Error.{NodeHandle}
use zwirn.Adls.Document.{SourceNode, Document}
use zwirn.Adls.Document
use zwirn.Adls.Rewrite.{find_index}
use zwirn.Adls.Rewrite as AdlsRewrite
use zwirn.Engine.{
  EngineError, inconsistent_materialization_node, inconsistent_materialization_markers,
  fragment_rewrite, invalid_prepared_markers, duplicate_prepared_fragment, document,
}

-- `BTreeSet<FragmentPath>`.
abbrev pub PathSet : Type 0
PathSet = TreeMap FragmentPath (Unit {0})

-- The loop over the fragments of one node.
unfoldable pub insert_paths : PathSet → List Fragment → Result EngineError PathSet
insert_paths paths [] = ok paths
insert_paths paths (fragment ∷ rest) = elim (get fragment.path paths) [
  | some found ↦ err (duplicate_prepared_fragment fragment.path)
  | none ↦ insert_paths (insert fragment.path tt paths) rest
]

-- The loop over the nodes of the prepared document.
unfoldable pub validate_nodes : PathSet → List SourceNode → Result EngineError PathSet
unfolding insert_paths
validate_nodes paths [] = ok paths
validate_nodes paths (node ∷ rest) = do
  parsed ← map_err (invalid_prepared_markers node.handle.index) (Source.parse node.kind node.source)
  found ← fragments parsed
  next ← insert_paths paths found
  validate_nodes next rest

-- `number` is the one of the prepared document when it is parsed.
unfoldable pub validate_prepared_document : ℕ → Text → Result EngineError (Unit {0})
unfolding validate_nodes
validate_prepared_document number bytes = do
  prepared ← map_err document (Document.parse number bytes)
  paths ← validate_nodes [] prepared.sources
  ok tt

-- What one node adds to `rewritten_nodes`.
abbrev pub replacement_of : NodeHandle → Rewritten → List (NodeHandle × Text)
replacement_of handle (borrowed text) = []
replacement_of handle (owned text) = (handle, text) ∷ []

module _ (digest : Text → List ℕ) (can_reserve : ℕ → Bool) where
  -- The updates of one node that was found.
  unfoldable pub rewrite_node :
      ℕ → SourceNode → List FragmentUpdate → Result EngineError (List (NodeHandle × Text))
  rewrite_node node_index node updates = do
    parsed ←
        map_err (inconsistent_materialization_markers node_index)
          (Source.parse node.kind node.source)
    rewritten ←
        map_err (fragment_rewrite node_index) (Rewrite.rewrite digest can_reserve parsed updates)
    ok (replacement_of node.handle rewritten)

  -- The body of the loop over `node_updates`.
  unfoldable pub materialize_node :
      List SourceNode → ℕ → List FragmentUpdate → Result EngineError (List (NodeHandle × Text))
  unfolding rewrite_node
  materialize_node sources node_index updates = elim (find_index node_index sources) [
    | none ↦ err (inconsistent_materialization_node node_index)
    | some (place, node) ↦ rewrite_node node_index node updates
  ]

  unfoldable pub materialize_nodes :
      List SourceNode
      → TreeMap ℕ (List FragmentUpdate)
      → Result EngineError (List (NodeHandle × Text))
  unfolding materialize_node
  materialize_nodes sources [] = ok []
  materialize_nodes sources ((node_index, updates) ∷ rest) = do
    first ← materialize_node sources node_index updates
    others ← materialize_nodes sources rest
    ok (first ++ others)

  -- The `match` on the rewritten document.
  unfoldable pub prepared_output : ℕ → Rewritten → Result EngineError (Option Text)
  unfolding validate_prepared_document
  prepared_output number (borrowed bytes) = ok none
  prepared_output number (owned bytes) = do validate_prepared_document number bytes; ok (some bytes)

  -- The numbers are those of the three parses: of the document, of the check that ends its rewrite,
  -- and of the prepared document.
  unfoldable pub materialize_document :
      ℕ → ℕ → ℕ → Text → TreeMap ℕ (List FragmentUpdate) → Result EngineError (Option Text)
  unfolding materialize_nodes prepared_output
  materialize_document first second third document_bytes node_updates = do
    parsed ← map_err document (Document.parse first document_bytes)
    replacements ← materialize_nodes parsed.sources node_updates
    rewritten ← map_err document (AdlsRewrite.rewrite can_reserve second parsed replacements)
    prepared_output third rewritten
