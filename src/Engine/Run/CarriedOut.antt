-- ===== src/Engine/Run/CarriedOut.antt =====
-- src/engine.rs: a request that returns a report has carried out its decisions.
use mathlib.Core.List.{Forall₂}
use mathlib.Core.Path.{subst}
use zwirn.Prelude.{
  ℕ, Bool, List, [], ◌∷◌, map, ◌≡◌, ◌↔◌, ◌⊎◌, inl, inr, refl, sym, ap, ◌∙◌, Option, none, some,
  Both, Both-map, ok, ok-injective,
}
use zwirn.Text.{Text}
use zwirn.Access.{AccessPolicy, World}
use zwirn.Fragment.Path.{FragmentPath}
use zwirn.Fragment.Rewrite.{FragmentUpdate}
use zwirn.Reconcile.{Operation, SelectionKind, Decision, plan}
use zwirn.Reconcile.States.{classify_copies}
use zwirn.Reconcile.Synchronize.{Settles, plan-Settles}
use zwirn.Adls.Document.{SourceNode}
use zwirn.Adls.Document
use zwirn.Adls.Document.Parsed.{HasSource}
use zwirn.Adls.Rewrite.Kept.{IsKept}
use zwirn.Commit.{CommitFilesystem, DocumentOutput, ExternalOutput}
use zwirn.Commit.Report.{CommitSucceeds}
use zwirn.Engine.{
  InventoryEntry, Report, synchronized, exit_state, Gathered, gather, nothing_gathered,
  external_output, external_outputs, absent_targets,
}
use zwirn.Engine.Exit.{copies_of, EndsSynchronized, gather-EndsSynchronized}
use zwirn.Engine.Materialize.Written.{output_bytes, IsUpdated}
use zwirn.Engine.Mutate.{WritesAll, document_for}
use zwirn.Engine.Run.{mutate_with_access}
use zwirn.Engine.Run.Classified.{classified_of, classifications, entries_of}
use zwirn.Engine.Run.Asks.{Asks, AreAbsent, absent_targets-AreAbsent, SameLength, gather-IsAsked}
use zwirn.Engine.Run.Updates.{IsUpdatedBy, IsUpdated-IsUpdatedBy}
use zwirn.Engine.Run.Written.{mutate_with_access-IsPrepared}

-- The document is written where its path is, if it was prepared.
abbrev pub IsDocumentOutput : Text → Option Text → Option DocumentOutput → Type 0
IsDocumentOutput path none output = output ≡ none
IsDocumentOutput path (some bytes) output =
    output ≡ some (record { destination = path; bytes = bytes })

document_for-IsDocumentOutput :
    (path : Text) (output : Option Text) → IsDocumentOutput path output (document_for path output)
document_for-IsDocumentOutput path none = refl
document_for-IsDocumentOutput path (some bytes) = refl

Forall₂-SameLength :
    (digest : Text → List ℕ) (es : List InventoryEntry) (ds : List Decision)
    → Forall₂ (Settles digest) (map copies_of es) ds
    → SameLength es ds
Forall₂-SameLength digest [] [] f = tt
Forall₂-SameLength digest [] (d ∷ ds) f = elim f [ ]
Forall₂-SameLength digest (e ∷ es) [] f = elim f [ ]
Forall₂-SameLength digest (e ∷ es) (d ∷ ds) (Forall₂.cons s f) = Forall₂-SameLength digest es ds f

module _ (digest : Text → List ℕ) (can_reserve : ℕ → Bool) {S A F I : Type 0}
    (policy : AccessPolicy S A) (files : CommitFilesystem F I) (parent : Text → Option Text)
    (document_path : Text) (entries : List InventoryEntry) where
  -- Nothing was to be written and nothing was touched, or all was written, each file in its order
  -- and the document last.
  abbrev pub AreWritten : List ExternalOutput → Option Text → World S F → World S F → Type 0
  AreWritten os output world after =
      ((os ≡ []) × (output ≡ none) × (after ≡ world))
      ⊎ ((targets : List FragmentPath) × (last : Option DocumentOutput) × AreAbsent entries targets
          × IsDocumentOutput document_path output last
          × CommitSucceeds files parent can_reserve targets os last world.filesystem
              after.filesystem)

  -- A request on the selected entries that returns the report `r`.
  pub record IsCarriedOut (first : ℕ) (bytes : Text) (selected : List InventoryEntry)
      (selection : SelectionKind) (operation : Operation) (world after : World S F) (r : Report)
      : Type 0 where
    pub decisions : List Decision
    pub planned :
        plan can_reserve operation selection (map (classify_copies digest) (map copies_of selected))
        ≡ ok decisions
    pub settle : Forall₂ (Settles digest) (map copies_of selected) decisions
    pub written : List ExternalOutput
    pub updates : List (ℕ × FragmentUpdate)
    pub asks : Asks selected decisions r.entries written updates
    pub ends : (r.exit ≡ synchronized) ↔ Forall₂ (EndsSynchronized digest) selected decisions
    pub output : Option Text
    pub parsed : Document.Document
    pub parses : Document.parse first bytes ≡ ok parsed
    pub updated :
        Both
          (λ (node : SourceNode) f.
            (final : Text) × IsUpdatedBy digest can_reserve updates node final
            × HasSource (output_bytes bytes output) parsed.source_field_locations f final)
          parsed.sources
          parsed.source_field_locations
    pub kept : IsKept bytes (output_bytes bytes output) parsed.source_field_locations
    pub writes : AreWritten written output world after

  WritesAll-AreWritten :
      (g : Gathered) (os : List ExternalOutput) (output : Option Text) (world after : World S F)
      → map external_output g.extracted ≡ os
      → WritesAll policy files parent can_reserve document_path entries g output world after
      → AreWritten os output world after
  unfolding external_outputs
  WritesAll-AreWritten g os output world after e (inl (none_extracted, none_prepared, same)) =
      inl (sym e ∙ ap (map external_output) none_extracted, none_prepared, same)
  WritesAll-AreWritten g os output world after e (inr succeeds) = inr (
    absent_targets entries,
    document_for document_path output,
    absent_targets-AreAbsent entries,
    document_for-IsDocumentOutput document_path output,
    subst
        (λ xs.
          CommitSucceeds files parent can_reserve (absent_targets entries) xs
            (document_for document_path output) world.filesystem after.filesystem)
        e succeeds,
  )

  -- If a request on selected entries, classified by their copies, returns a report, then the
  -- plan has a decision for each of them that settles it, and all decisions were carried out: the report lists
  -- the states and actions in the order of the entries, and its exit state is `synchronized` exactly
  -- if every selected fragment ends with equal copies and their hash; the document's bytes have, in
  -- the source field of every node, the source that the updates of its fragments give, and outside
  -- of these fields what the document held; and either nothing was to be written and nothing was
  -- touched, or the file of every extracted fragment was written with its embedded source, created
  -- where there was none, in their order, and then the document, if one was prepared.
  pub mutate_with_access-IsCarriedOut :
      (first second third : ℕ) (bytes : Text) (selected : List InventoryEntry)
      (selection : SelectionKind) (operation : Operation) (world after : World S F) (r : Report)
      → mutate_with_access digest can_reserve policy files parent document_path entries first second
          third bytes
          (classified_of digest selected)
          selection
          operation
          world
        ≡ (after, ok r)
      → IsCarriedOut first bytes selected selection operation world after r
  mutate_with_access-IsCarriedOut first second third bytes selected selection operation world after
        r h =
      let (g, output, p, same, writes) =
        mutate_with_access-IsPrepared digest can_reserve policy files parent document_path entries
          first second third bytes (classified_of digest selected) selection operation world after r
          h in
      let ds = p.decisions in
      let planned : plan can_reserve operation selection
            (map (classify_copies digest) (map copies_of selected))
          ≡ ok ds =
        subst (λ ks. plan can_reserve operation selection ks ≡ ok ds)
          (classifications digest selected) p.planned in
      let gathers : gather selected ds nothing_gathered ≡ ok g =
        subst (λ es. gather es ds nothing_gathered ≡ ok g) (entries_of digest selected) p.gathers in
      let settle =
        plan-Settles digest can_reserve selection (map copies_of selected) ds operation planned in
      let w =
        gather-IsAsked selected ds nothing_gathered g (Forall₂-SameLength digest selected ds settle)
          gathers in
      let (found, also, ends) =
        gather-EndsSynchronized digest can_reserve operation selection selected ds planned in
      let reported : w.rs ≡ r.entries = sym (ap (λ (x : Report). x.entries) same ∙ w.entries) in
      let exit : exit_state found.attention ≡ r.exit =
        ap (λ (x : Gathered). exit_state x.attention) (ok-injective (sym also ∙ gathers))
        ∙ sym (ap (λ (x : Report). x.exit) same) in
      record {
        decisions = ds;
        planned = planned;
        settle = settle;
        written = w.os;
        updates = w.us;
        asks = subst (λ rs. Asks selected ds rs w.os w.us) reported w.asks;
        ends =
            subst (λ x. (x ≡ synchronized) ↔ Forall₂ (EndsSynchronized digest) selected ds) exit
              ends;
        output = output;
        parsed = p.parsed;
        parses = p.parses;
        updated =
            Both-map _ _ p.parsed.sources p.parsed.source_field_locations
              (λ node f (final, is, has). (
                final,
                IsUpdated-IsUpdatedBy digest can_reserve w.us node final
                    (subst (λ m. IsUpdated digest can_reserve m node final) w.updates is),
                has,
              ))
              p.updated;
        kept = p.kept;
        writes = WritesAll-AreWritten g w.os output world after w.outputs writes;
      }
