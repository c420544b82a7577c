-- ===== src/Adls/Rewrite/Faithful.antt =====
-- src/adls.rs: what a rewritten document holds.
use mathlib.Core.Path.{subst}
use zwirn.Prelude.{
  ℕ, suc, ◌+◌, ◌≤◌, Bool, List, [], ◌∷◌, ◌≡◌, refl, sym, ap, ◌∙◌, Option, none, length, replicate,
  map, All, Both, Both-All, ok, ok-injective, require, >>=-elim,
}
use zwirn.Text.{Text}
use zwirn.Text.Range.Laws.{get_range-bounds}
use zwirn.Text.Cow.{Rewritten, rewritten_text}
use zwirn.Adls.Error.{NodeHandle, allocation_failed}
use zwirn.Adls.Document.{SourceNode, Document, parse}
use zwirn.Adls.Document.Parsed.{HasSource, IsDocument}
use zwirn.Adls.Rewrite.{
  Change, plan_rewrite_size, replacement_lengths, request_all, collect_changes, write_changes,
  apply_changes, rewrite,
}
use zwirn.Adls.Rewrite.Kept.{IsKept}
use zwirn.Adls.Rewrite.Requests.{requested_of, request_all-requested_of, replicate-map}
use zwirn.Adls.Rewrite.Written.{wanted, all_wanted, collect_changes-AreWritten}

-- The source that a node is to have after a batch: the replacement for its handle, or its own.
abbrev pub final_source : List (NodeHandle × Text) → SourceNode → Text
final_source replacements node = wanted node (requested_of replacements (λ _. none) node)

apply_changes-write_changes :
    (can_reserve : ℕ → Bool) (fresh : ℕ) (bytes : Text) (changes : List Change) {result : Rewritten}
    → apply_changes can_reserve fresh bytes changes ≡ ok result
    → write_changes bytes changes ≡ ok (rewritten_text result)
unfolding apply_changes write_changes
apply_changes-write_changes can_reserve fresh bytes [] h =
    ap ok (ap rewritten_text (ok-injective h))
apply_changes-write_changes can_reserve fresh bytes (change ∷ changes) h =
    >>=-elim (plan_rewrite_size (length bytes) (replacement_lengths (change ∷ changes))) _ h
      λ planned_size _ h1.
        >>=-elim (require (can_reserve planned_size) allocation_failed) _ h1 λ _ _ h2.
          >>=-elim (write_changes bytes (change ∷ changes)) _ h2 λ output w h3.
            >>=-elim (parse fresh output) _ h3
              λ parsed _ h4. w ∙ ap ok (ap rewritten_text (ok-injective h4))

Both-all_wanted :
    (bytes : Text) (fields : List ℕ) (requests : SourceNode → Option Text)
    (sources : List SourceNode) (locations : List ℕ)
    → Both
        (λ source f. HasSource bytes fields f source)
        (all_wanted sources (map requests sources))
        locations
    → Both
        (λ (node : SourceNode) f. HasSource bytes fields f (wanted node (requests node)))
        sources
        locations
Both-all_wanted bytes fields requests [] [] h = tt
Both-all_wanted bytes fields requests (node ∷ sources) (f ∷ locations) h =
    (h.0, Both-all_wanted bytes fields requests sources locations h.1)
Both-all_wanted bytes fields requests [] (f ∷ locations) h = elim h [ ]
Both-all_wanted bytes fields requests (node ∷ sources) [] h = elim h [ ]

length-requested :
    (requests : SourceNode → Option Text) (sources : List SourceNode)
    → length (map requests sources) ≡ length sources
length-requested requests [] = refl
length-requested requests (node ∷ sources) = ap suc (length-requested requests sources)

-- The fields of a document are inside its bytes.
pub IsDocument-inside :
    (id : ℕ) (document : Document)
    → IsDocument id document
    → All (λ g. g + 4 ≤ length document.bytes) document.source_field_locations
IsDocument-inside id document w =
    Both-All
      (λ (node : SourceNode) f.
        HasSource document.bytes document.source_field_locations f node.source)
      _ document.sources document.source_field_locations
      (λ node f h.
        let points = h.source_at.points in
        (get_range-bounds document.bytes points.pointer f (f + 4) points.holds).1)
      w.readable

-- The rewrite of a parsed document, for a batch that is accepted: every field of a source in the
-- result points to the replacement for the node's handle, with its size and its terminator, or, for
-- a node without one, to the source from before; and every range of bytes that overlaps none of
-- these fields holds what it held before.
pub rewrite-HasSource :
    (can_reserve : ℕ → Bool) (fresh id : ℕ) (document : Document)
    (replacements : List (NodeHandle × Text)) {result : Rewritten}
    → IsDocument id document
    → rewrite can_reserve fresh document replacements ≡ ok result
    → Both
        (λ (node : SourceNode) f.
          HasSource
            (rewritten_text result)
            document.source_field_locations
            f
            (final_source replacements node))
        document.sources
        document.source_field_locations
      × IsKept document.bytes (rewritten_text result) document.source_field_locations
unfolding rewrite
rewrite-HasSource can_reserve fresh id document [] w h =
    let same : document.bytes ≡ _ = ap rewritten_text (ok-injective h) in
    (
      subst
          (λ t.
            Both
              (λ (node : SourceNode) f. HasSource t document.source_field_locations f node.source)
              document.sources document.source_field_locations)
          same w.readable,
      subst (λ t. IsKept document.bytes t document.source_field_locations) same
          (λ from to range clear g. g),
    )
rewrite-HasSource can_reserve fresh id document (replacement ∷ replacements) {result} w h =
    >>=-elim
      (request_all document.sources (replicate (length document.sources) none)
        (replacement ∷ replacements))
      _ h
      λ requested r h1.
        >>=-elim (collect_changes document.sources document.source_field_locations requested) _ h1
          λ changes c h2.
            let requests = requested_of (replacement ∷ replacements) (λ _. none) in
            let asked : requested ≡ map requests document.sources =
              request_all-requested_of document.sources (replacement ∷ replacements) (λ _. none)
                w.rising
                (ap (λ start. request_all document.sources start (replacement ∷ replacements))
                    (sym (replicate-map document.sources))
                  ∙ r) in
            let written =
              collect_changes-AreWritten document.source_field_locations document.sources
                document.source_field_locations (map requests document.sources) document.bytes
                (length-requested requests document.sources)
                (ap (collect_changes document.sources document.source_field_locations) (sym asked)
                  ∙ c)
                (apply_changes-write_changes can_reserve fresh document.bytes changes h2) w.readable
                w.spread (IsDocument-inside id document w) (λ P all. all) in
            (
              Both-all_wanted (rewritten_text result) document.source_field_locations requests
                  document.sources document.source_field_locations written.readable,
              written.kept,
            )
