-- ===== src/Engine/Materialize/Requested.antt =====
-- src/engine.rs: the replacements that the updates of the nodes become.
use mathlib.Core.Path.{subst}
use zwirn.Prelude.{
  some-injective, err-ne-ok, ℕ, Bool, true, false, List, [], ◌∷◌, ◌++◌, ◌≡◌, ◌≢◌, refl, sym, ap,
  ◌∙◌, arith, inl, inr, Option, none, some, ◌==◌, ==_iff, ltb, All, ok, ok-injective, >>=-elim,
  map_err, map_err-eq-ok, Bool-cases, Option-cases,
}
use zwirn.Text.{Text}
use zwirn.TreeMap.{TreeMap, get, keys}
use zwirn.TreeMap.Nat.{nat_key}
use zwirn.TreeMap.Laws.{IsSorted}
use zwirn.Fragment.Source.{ParsedSource}
use zwirn.Fragment.Source
use zwirn.Fragment.Rewrite.{FragmentUpdate, Rewritten, borrowed, owned, rewritten_text}
use zwirn.Fragment.Rewrite
use zwirn.Adls.Error.{NodeHandle, handle_eq}
use zwirn.Adls.Document.{SourceNode}
use zwirn.Adls.Rewrite.{find_index}
use zwirn.Adls.Rewrite.Requests.{with_request, requested_of}
use zwirn.Engine.{inconsistent_materialization_markers, fragment_rewrite}
use zwirn.Engine.Materialize.{replacement_of, rewrite_node, materialize_node, materialize_nodes}
use zwirn.Engine.Materialize.Found.{find_index-index, IsFound}

module _ (digest : Text → List ℕ) (can_reserve : ℕ → Bool) where
  -- The updates of a node give the replacements `first`.
  pub record IsNodeRewrite (node : SourceNode) (updates : List FragmentUpdate)
      (first : List (NodeHandle × Text)) : Type 0 where
    pub parsed : ParsedSource
    pub parses : Source.parse node.kind node.source ≡ ok parsed
    pub rewritten : Rewritten
    pub rewrites : Rewrite.rewrite digest can_reserve parsed updates ≡ ok rewritten
    pub replaces : first ≡ replacement_of node.handle rewritten

  materialize_node-IsNodeRewrite :
      (sources : List SourceNode) (index : ℕ) (updates : List FragmentUpdate)
      {first : List (NodeHandle × Text)}
      → materialize_node digest can_reserve sources index updates ≡ ok first
      → (place : ℕ) × (node : SourceNode) × (find_index index sources ≡ some (place, node))
        × IsNodeRewrite node updates first
  unfolding materialize_node rewrite_node
  materialize_node-IsNodeRewrite sources index updates h =
      elim (Option-cases (find_index index sources)) [
        | inl e ↦ absurd (err-ne-ok (rw (e, materialize_node) at h))
        | inr ((place, node), e) ↦
            let markers = inconsistent_materialization_markers index in
            >>=-elim (map_err markers (Source.parse node.kind node.source)) _
              (rw (e, materialize_node) at h)
              λ parsed p h1.
                >>=-elim
                  (map_err (fragment_rewrite index)
                    (Rewrite.rewrite digest can_reserve parsed updates))
                  _ h1
                  λ rewritten r h2. (
                    place,
                    node,
                    e,
                    record {
                      parsed = parsed;
                      parses = map_err-eq-ok markers (Source.parse node.kind node.source) p;
                      rewritten = rewritten;
                      rewrites =
                          map_err-eq-ok (fragment_rewrite index)
                            (Rewrite.rewrite digest can_reserve parsed updates) r;
                      replaces = sym (ok-injective h2);
                    },
                  )
      ]

requested_of-append :
    (a b : List (NodeHandle × Text)) (requests : SourceNode → Option Text)
    → requested_of (a ++ b) requests ≡ requested_of b (requested_of a requests)
requested_of-append [] b requests = refl
requested_of-append ((handle, replacement) ∷ a) b requests =
    requested_of-append a b (with_request handle replacement requests)

-- The replacement of another node asks nothing of this one.
replacement_of-other :
    (handle : NodeHandle) (rewritten : Rewritten) (requests : SourceNode → Option Text)
    (node : SourceNode)
    → node.handle.index ≢ handle.index
    → requested_of (replacement_of handle rewritten) requests node ≡ requests node
replacement_of-other handle (borrowed t) requests node d = refl
replacement_of-other handle (owned t) requests node d =
    let other : handle_eq node.handle handle ≡ false = ground (arith, d) in rw other refl

-- What the replacement of a node asks of it.
abbrev pub replaced_by : Rewritten → Option Text → Option Text
replaced_by (borrowed t) before = before
replaced_by (owned t) before = some t

replacement_of-same :
    (node : SourceNode) (rewritten : Rewritten) (requests : SourceNode → Option Text)
    → requested_of (replacement_of node.handle rewritten) requests node
      ≡ replaced_by rewritten (requests node)
replacement_of-same node (borrowed t) requests = refl
replacement_of-same node (owned t) requests =
    let same : handle_eq node.handle node.handle ≡ true = ground arith in rw same refl

-- A key below all those of a map is none of them.
Lower-get :
    (index : ℕ) (m : TreeMap ℕ (List FragmentUpdate))
    → All (λ j. ltb index j ≡ true) (keys m)
    → get index m ≡ none
unfolding get keys
Lower-get index [] l = refl
Lower-get index ((j, u) ∷ m) l = ground (arith, Lower-get index m l.1)

module _ (digest : Text → List ℕ) (can_reserve : ℕ → Bool) (sources : List SourceNode) where
  -- A node without updates is asked for nothing.
  pub materialize_nodes-absent :
      (m : TreeMap ℕ (List FragmentUpdate)) (requests : SourceNode → Option Text)
      (node : SourceNode) {replacements : List (NodeHandle × Text)}
      → materialize_nodes digest can_reserve sources m ≡ ok replacements
      → get node.handle.index m ≡ none
      → requested_of replacements requests node ≡ requests node
  unfolding materialize_nodes get
  materialize_nodes-absent [] requests node h g =
      ap (λ r. requested_of r requests node) (sym (ok-injective h))
  materialize_nodes-absent ((index, updates) ∷ rest) requests node h g =
      >>=-elim (materialize_node digest can_reserve sources index updates) _ h λ first e h1.
        >>=-elim (materialize_nodes digest can_reserve sources rest) _ h1 λ others k h2.
          let (place, met, f, w) =
            materialize_node-IsNodeRewrite digest can_reserve sources index updates e in
          let index_of = find_index-index index sources f in
          let behind : get node.handle.index rest ≡ none = ground (arith, g) in
          let apart : node.handle.index ≢ met.handle.index = λ q. ground (arith, g, q, index_of) in
          ap (λ r. requested_of r requests node) (sym (ok-injective h2))
          ∙ ap (λ r. r node) (requested_of-append first others requests)
          ∙ materialize_nodes-absent rest (requested_of first requests) node k behind
          ∙ ap (λ r. requested_of r requests node) w.replaces
          ∙ replacement_of-other met.handle w.rewritten requests node apart

  -- A node with updates is asked for the source that they give, where it is a new one.
  pub materialize_nodes-present :
      (m : TreeMap ℕ (List FragmentUpdate)) (requests : SourceNode → Option Text)
      (node : SourceNode) {updates : List FragmentUpdate} {replacements : List (NodeHandle × Text)}
      → IsSorted m
      → IsFound sources node
      → materialize_nodes digest can_reserve sources m ≡ ok replacements
      → get node.handle.index m ≡ some updates
      → (parsed : ParsedSource) × (rewritten : Rewritten) × (Source.parse node.kind node.source
          ≡ ok parsed)
        × (Rewrite.rewrite digest can_reserve parsed updates ≡ ok rewritten)
        × (requested_of replacements requests node ≡ replaced_by rewritten (requests node))
  unfolding materialize_nodes get
  materialize_nodes-present [] requests node s found h g = absurd (cc)
  materialize_nodes-present ((index, u) ∷ rest) requests node {updates} s found h g =
      >>=-elim (materialize_node digest can_reserve sources index u) _ h λ first e h1.
        >>=-elim (materialize_nodes digest can_reserve sources rest) _ h1 λ others k h2.
          let (place, met, f, w) =
            materialize_node-IsNodeRewrite digest can_reserve sources index u e in
          let index_of = find_index-index index sources f in
          let split =
            ap (λ r. requested_of r requests node) (sym (ok-injective h2))
            ∙ ap (λ r. r node) (requested_of-append first others requests) in
          elim (Bool-cases (index == node.handle.index)) [
            | inl same ↦
                let equal = (==_iff index node.handle.index).0 same in
                let (_, f0) = found in
                let met_node : met ≡ node =
                  ap (λ p. p.1)
                    (some-injective (sym f ∙ ap (λ i. find_index i sources) equal ∙ f0)) in
                let given : u ≡ updates = some-injective (rw (same, get) at g) in
                let behind : get node.handle.index rest ≡ none =
                  subst (λ i. get i rest ≡ none) equal (Lower-get index rest s.0) in
                let asked : requested_of first requests node
                    ≡ replaced_by w.rewritten (requests node) =
                  ap (λ r. requested_of r requests node) w.replaces
                  ∙ ap
                      (λ (n : SourceNode).
                        requested_of (replacement_of n.handle w.rewritten) requests node)
                      met_node
                  ∙ replacement_of-same node w.rewritten requests in
                (
                  w.parsed,
                  w.rewritten,
                  ap (λ (n : SourceNode). Source.parse n.kind n.source) (sym met_node) ∙ w.parses,
                  ap (Rewrite.rewrite digest can_reserve w.parsed) (sym given) ∙ w.rewrites,
                  split
                      ∙ materialize_nodes-absent rest (requested_of first requests) node k behind
                      ∙ asked,
                )
            | inr other ↦
                let apart : node.handle.index ≢ met.handle.index =
                  λ q. ground (arith, other, q, index_of) in
                let (parsed, rewritten, p, r, asked) =
                  materialize_nodes-present rest (requested_of first requests) node s.1 found k
                    (rw (other, get) at g) in
                let kept : requested_of first requests node ≡ requests node =
                  ap (λ r. requested_of r requests node) w.replaces
                  ∙ replacement_of-other met.handle w.rewritten requests node apart in
                (parsed, rewritten, p, r, split ∙ asked ∙ ap (replaced_by rewritten) kept)
          ]
