-- ===== src/Inventory/Discover.antt =====
-- src/inventory.rs: the front of `discover_inner`, from the document to the checked fragments.
use zwirn.Prelude.{
  ℕ, List, [], ◌∷◌, ◌++◌, ◌≡◌, refl, sym, Both, Result, ok, map_err, map_err-eq-ok, ◌>>=◌, ◌>>◌,
  ok-injective, >>=-elim, All,
}
use mathlib.Core.Path.{subst}
use zwirn.Text.{Text}
use zwirn.Fragment.Canonical.{CanonicalSource}
use zwirn.Fragment.Canonical
use zwirn.Fragment.Source.{ParsedSource, Fragment, fragments}
use zwirn.Fragment.Source
use zwirn.Adls.Document.{SourceNode}
use zwirn.Adls.Document
use zwirn.Inventory.{
  DiscoveredFragment, InventoryError, invalid_document, invalid_markers, invalid_embedded_source,
  sort_by_path, validate_uniqueness, validate_path_prefixes,
}
use zwirn.Inventory.Unique.{IsAscending, validate_uniqueness-Distinct}
use zwirn.Inventory.Prefixes.{IsAncestor, validate_path_prefixes_iff}

abbrev discovered_as : ℕ → Fragment → CanonicalSource → DiscoveredFragment
discovered_as node_index fragment embedded = record {
  node_index = node_index;
  path = fragment.path;
  embedded = embedded;
  baseline = fragment.baseline;
}

-- The loop over the fragments of one node.
unfoldable pub discover_node : ℕ → List Fragment → Result InventoryError (List DiscoveredFragment)
discover_node node_index [] = ok []
discover_node node_index (fragment ∷ rest) = do
  embedded ←
      map_err (invalid_embedded_source node_index fragment.path)
        (Canonical.try_from fragment.source)
  others ← discover_node node_index rest
  ok (discovered_as node_index fragment embedded ∷ others)

-- The loop over the nodes.
unfoldable pub discover_nodes : List SourceNode → Result InventoryError (List DiscoveredFragment)
unfolding discover_node
discover_nodes [] = ok []
discover_nodes (node ∷ rest) = do
  parsed ← map_err (invalid_markers node.handle.index) (Source.parse node.kind node.source)
  found ← fragments parsed
  here ← discover_node node.handle.index found
  others ← discover_nodes rest
  ok (here ++ others)

-- Up to the loop over the targets. `number` is the one of the document.
unfoldable pub discover_fragments : ℕ → Text → Result InventoryError (List DiscoveredFragment)
unfolding discover_nodes
discover_fragments number document_bytes = do
  document ← map_err invalid_document (Document.parse number document_bytes)
  discovered ← discover_nodes document.sources
  validate_uniqueness (sort_by_path discovered)
  validate_path_prefixes (sort_by_path discovered)
  ok (sort_by_path discovered)

-- What is kept of a fragment: its path, its hash and its canonical source, with its node.
abbrev pub IsDiscovered : ℕ → Fragment → DiscoveredFragment → Type 0
IsDiscovered node_index f d =
    (d.node_index ≡ node_index)
    × (d.path ≡ f.path)
    × (d.baseline ≡ f.baseline)
    × (Canonical.try_from f.source ≡ ok d.embedded)

-- All fragments of the nodes, in their order.
abbrev pub AreDiscovered : List SourceNode → List DiscoveredFragment → Type 0
AreDiscovered [] all = all ≡ []
AreDiscovered (node ∷ rest) all =
    (parsed : ParsedSource) × (found : List Fragment) × (here others : List DiscoveredFragment)
    × (Source.parse node.kind node.source ≡ ok parsed)
    × (fragments {E = InventoryError} parsed ≡ ok found)
    × Both (IsDiscovered node.handle.index) found here
    × AreDiscovered rest others
    × (all ≡ here ++ others)

discover_node-Both :
    (node_index : ℕ) (found : List Fragment) {here : List DiscoveredFragment}
    → discover_node node_index found ≡ ok here
    → Both (IsDiscovered node_index) found here
unfolding discover_node
discover_node-Both node_index [] h =
    subst (λ ds. Both (IsDiscovered node_index) [] ds) (ok-injective h) tt
discover_node-Both node_index (f ∷ rest) h =
    let failure = invalid_embedded_source node_index f.path in
    >>=-elim (map_err failure (Canonical.try_from f.source)) _ h λ embedded e h1.
      >>=-elim (discover_node node_index rest) _ h1 λ others o h2.
        subst (λ ds. Both (IsDiscovered node_index) (f ∷ rest) ds) (ok-injective h2)
          (
            (refl, refl, refl, map_err-eq-ok failure (Canonical.try_from f.source) e),
            discover_node-Both node_index rest o,
          )

discover_nodes-AreDiscovered :
    (nodes : List SourceNode) {all : List DiscoveredFragment}
    → discover_nodes nodes ≡ ok all
    → AreDiscovered nodes all
unfolding discover_nodes
discover_nodes-AreDiscovered [] h = sym (ok-injective h)
discover_nodes-AreDiscovered (node ∷ rest) h =
    let markers = invalid_markers node.handle.index in
    >>=-elim (map_err markers (Source.parse node.kind node.source)) _ h λ parsed p h1.
      >>=-elim (fragments parsed) _ h1 λ found f h2.
        >>=-elim (discover_node node.handle.index found) _ h2 λ here n h3.
          >>=-elim (discover_nodes rest) _ h3 λ others o h4. (
            parsed,
            found,
            here,
            others,
            map_err-eq-ok markers (Source.parse node.kind node.source) p,
            f,
            discover_node-Both node.handle.index found n,
            discover_nodes-AreDiscovered rest o,
            sym (ok-injective h4),
          )

-- If the fragments of a document are accepted, they are those of all its nodes, each with its
-- node, path and hash and with its source in canonical form, sorted by path; the paths rise
-- strictly, and none of them is an ancestor of another.
pub discover_fragments-AreDiscovered :
    (number : ℕ) (bytes : Text) (ds : List DiscoveredFragment)
    → discover_fragments number bytes ≡ ok ds
    → (document : Document.Document) × (found : List DiscoveredFragment) × (Document.parse number
          bytes
        ≡ ok document)
      × AreDiscovered document.sources found
      × (ds ≡ sort_by_path found)
      × IsAscending ds
      × All
          (λ (e : DiscoveredFragment).
            All (λ (a : DiscoveredFragment). ¬ IsAncestor a e.path.text) ds)
          ds
unfolding discover_fragments
discover_fragments-AreDiscovered number bytes ds h =
    >>=-elim (map_err invalid_document (Document.parse number bytes)) _ h λ document e h1.
      >>=-elim (discover_nodes document.sources) _ h1 λ found n h2.
        >>=-elim (validate_uniqueness (sort_by_path found)) _ h2 λ u v h3.
          >>=-elim (validate_path_prefixes (sort_by_path found)) _ h3 λ w q h4.
            let same = ok-injective h4 in
            (
              document,
              found,
              map_err-eq-ok invalid_document (Document.parse number bytes) e,
              discover_nodes-AreDiscovered document.sources n,
              sym same,
              subst IsAscending same ((validate_uniqueness-Distinct found).1 v),
              subst
                  (λ (xs : List DiscoveredFragment).
                    All
                      (λ (e : DiscoveredFragment).
                        All (λ (a : DiscoveredFragment). ¬ IsAncestor a e.path.text) xs)
                      xs)
                  same
                  ((validate_path_prefixes_iff (sort_by_path found)
                      ((validate_uniqueness-Distinct found).1 v)).0
                    q),
            )
