-- ===== src/Engine/Materialize/Written.antt =====
-- src/engine.rs: what the prepared document holds.
use mathlib.Core.Path.{subst}
use zwirn.Prelude.{
  ℕ, Bool, List, ◌≡◌, ◌⊎◌, inl, inr, refl, sym, ap, ◌∙◌, Option, none, some, Both, Both-map_left,
  ok, ok-injective, >>=-elim, map_err, map_err-eq-ok, Option-cases,
}
use zwirn.Text.{Text}
use zwirn.TreeMap.{TreeMap, get}
use zwirn.TreeMap.Nat.{nat_key}
use zwirn.TreeMap.Laws.{IsSorted}
use zwirn.Fragment.Source.{ParsedSource}
use zwirn.Fragment.Source
use zwirn.Fragment.Source.Spans.{IsParse, parse-IsParse}
use zwirn.Fragment.Rewrite.{FragmentUpdate, Rewritten, borrowed, owned, rewritten_text}
use zwirn.Fragment.Rewrite
use zwirn.Fragment.Rewrite.Borrowed.{rewrite-borrowed}
use zwirn.Adls.Error.{NodeHandle}
use zwirn.Adls.Document.{SourceNode}
use zwirn.Adls.Document
use zwirn.Adls.Document.Parsed.{HasSource, parse-IsDocument}
use zwirn.Adls.Rewrite as AdlsRewrite
use zwirn.Adls.Rewrite.Borrowed.{adls_rewrite-borrowed}
use zwirn.Adls.Rewrite.Kept.{IsKept}
use zwirn.Adls.Rewrite.Written.{wanted}
use zwirn.Adls.Rewrite.Faithful.{final_source, rewrite-HasSource}
use zwirn.Engine.{document}
use zwirn.Engine.Materialize.{
  materialize_nodes, prepared_output, validate_prepared_document, materialize_document,
}
use zwirn.Engine.Materialize.Found.{IsFound, rising-IsFound}
use zwirn.Engine.Materialize.Requested.{
  replaced_by, materialize_nodes-absent, materialize_nodes-present,
}

-- The bytes that a command leaves: those that were prepared, or the old ones.
abbrev pub output_bytes : Text → Option Text → Text
output_bytes bytes none = bytes
output_bytes bytes (some prepared) = prepared

module _ (digest : Text → List ℕ) (can_reserve : ℕ → Bool) where
  -- The source of a node afterwards: without updates the one it has, and with updates the one that
  -- the rewrite of its fragments gives.
  abbrev pub IsUpdated : TreeMap ℕ (List FragmentUpdate) → SourceNode → Text → Type 0
  IsUpdated node_updates node final =
      ((get node.handle.index node_updates ≡ none) × (final ≡ node.source))
      ⊎ ((updates : List FragmentUpdate) × (parsed : ParsedSource) × (rewritten : Rewritten) × (get
              node.handle.index node_updates
            ≡ some updates)
          × (Source.parse node.kind node.source ≡ ok parsed)
          × (Rewrite.rewrite digest can_reserve parsed updates ≡ ok rewritten)
          × (final ≡ rewritten_text rewritten))

  wanted-replaced_by :
      (node : SourceNode) (updates : List FragmentUpdate) (parsed : ParsedSource)
      (rewritten : Rewritten)
      → Source.parse node.kind node.source ≡ ok parsed
      → Rewrite.rewrite digest can_reserve parsed updates ≡ ok rewritten
      → wanted node (replaced_by rewritten none) ≡ rewritten_text rewritten
  wanted-replaced_by node updates parsed (borrowed t) p r =
      sym ((subst (IsParse node.source) p (parse-IsParse node.kind node.source)).0)
      ∙ sym (rewrite-borrowed digest can_reserve parsed updates r)
  wanted-replaced_by node updates parsed (owned t) p r = refl

  final_source-IsUpdated :
      (sources : List SourceNode) (node_updates : TreeMap ℕ (List FragmentUpdate))
      (node : SourceNode) {replacements : List (NodeHandle × Text)}
      → IsSorted node_updates
      → IsFound sources node
      → materialize_nodes digest can_reserve sources node_updates ≡ ok replacements
      → IsUpdated node_updates node (final_source replacements node)
  final_source-IsUpdated sources node_updates node s found h =
      elim (Option-cases (get node.handle.index node_updates)) [
        | inl e ↦ inl (
          e,
          ap (wanted node) (
              materialize_nodes-absent digest can_reserve sources node_updates (λ _. none) node h
                e),
        )
        | inr (updates, e) ↦
            let (parsed, rewritten, p, r, asked) =
              materialize_nodes-present digest can_reserve sources node_updates (λ _. none) node s
                found h e in
            inr (
              updates,
              parsed,
              rewritten,
              e,
              p,
              r,
              ap (wanted node) asked ∙ wanted-replaced_by node updates parsed rewritten p r,
            )
      ]

  -- The output is the text of the rewritten document.
  prepared_output-text :
      (number : ℕ) (bytes : Text) (rewritten : Rewritten) {output : Option Text}
      → ((t : Text) → rewritten ≡ borrowed t → t ≡ bytes)
      → prepared_output digest can_reserve number rewritten ≡ ok output
      → rewritten_text rewritten ≡ output_bytes bytes output
  unfolding prepared_output
  prepared_output-text number bytes (borrowed t) same h =
      same t refl ∙ ap (output_bytes bytes) (ok-injective h)
  prepared_output-text number bytes (owned t) same h =
      >>=-elim (validate_prepared_document number t) _ h
        λ _ _ h1. ap (output_bytes bytes) (ok-injective h1)

  -- When a document is prepared, with updates in the order of their nodes: the bytes that the
  -- command leaves have, in the source field of every node, the source that the rewrite of its
  -- fragments gives, or, for a node without updates, the source from before; and every range of
  -- bytes that overlaps none of these fields holds what it held before.
  pub materialize_document-IsUpdated :
      (first second third : ℕ) (bytes : Text) (node_updates : TreeMap ℕ (List FragmentUpdate))
      {output : Option Text}
      → IsSorted node_updates
      → materialize_document digest can_reserve first second third bytes node_updates ≡ ok output
      → (parsed : Document.Document) × (Document.parse first bytes ≡ ok parsed)
        × Both
            (λ (node : SourceNode) f.
              (final : Text) × IsUpdated node_updates node final
              × HasSource (output_bytes bytes output) parsed.source_field_locations f final)
            parsed.sources
            parsed.source_field_locations
        × IsKept bytes (output_bytes bytes output) parsed.source_field_locations
  unfolding materialize_document
  materialize_document-IsUpdated first second third bytes node_updates {output} s h =
      >>=-elim (map_err document (Document.parse first bytes)) _ h λ parsed e h1.
        >>=-elim (materialize_nodes digest can_reserve parsed.sources node_updates) _ h1
          λ replacements m h2.
            >>=-elim (map_err document (AdlsRewrite.rewrite can_reserve second parsed replacements))
              _ h2
              λ rewritten r h3.
                let parses = map_err-eq-ok document (Document.parse first bytes) e in
                let (same, is_document) = parse-IsDocument first bytes parses in
                let rewrites =
                  map_err-eq-ok document
                    (AdlsRewrite.rewrite can_reserve second parsed replacements) r in
                let (readable, kept) =
                  rewrite-HasSource can_reserve second first parsed replacements is_document
                    rewrites in
                let text =
                  prepared_output-text third bytes rewritten
                    (λ t q.
                      adls_rewrite-borrowed can_reserve second parsed replacements
                        (rewrites ∙ ap ok q)
                      ∙ same)
                    h3 in
                (
                  parsed,
                  parses,
                  subst
                      (λ t.
                        Both
                          (λ (node : SourceNode) f.
                            (final : Text) × IsUpdated node_updates node final
                            × HasSource t parsed.source_field_locations f final)
                          parsed.sources parsed.source_field_locations)
                      text
                      (Both-map_left _ (IsFound parsed.sources) _ parsed.sources
                        parsed.source_field_locations
                        (λ node f has found. (
                          final_source replacements node,
                          final_source-IsUpdated parsed.sources node_updates node s found m,
                          has,
                        ))
                        readable (rising-IsFound parsed.sources is_document.rising)),
                  subst (λ t. IsKept t (output_bytes bytes output) parsed.source_field_locations)
                      same
                      (subst (λ t. IsKept parsed.bytes t parsed.source_field_locations) text kept),
                )
