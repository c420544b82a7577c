-- ===== src/Engine/Run/Written.antt =====
-- src/engine.rs: what a request that returns a report has done.
use mathlib.Core.Path.{subst}
use zwirn.Prelude.{
  ℕ, Bool, List, [], ◌∷◌, map, ◌≡◌, refl, ap, Option, Both, Result, ok, err, panic, >>=-elim,
  ok-injective, err-ne-ok, map_err-eq-ok,
}
use zwirn.Text.{Text}
use zwirn.TreeMap.Nat.{nat_key}
use zwirn.TreeMap.Laws.{IsSorted, insert-IsSorted}
use zwirn.Access.{AccessPolicy, World, map_operation}
use zwirn.Reconcile.{
  Classification, Operation, SelectionKind, Decision, settled, act, unresolved, PlanError, plan,
}
use zwirn.Adls.Document.{SourceNode}
use zwirn.Adls.Document
use zwirn.Adls.Document.Parsed.{HasSource}
use zwirn.Adls.Rewrite.Kept.{IsKept}
use zwirn.Commit.{CommitFilesystem}
use zwirn.Engine.{
  InventoryEntry, EngineError, Report, Gathered, gather_one, gather, nothing_gathered, update_of,
  map_plan_error,
}
use zwirn.Engine.Errors.{classification_of}
use zwirn.Engine.Materialize.{materialize_document}
use zwirn.Engine.Materialize.Written.{output_bytes, IsUpdated, materialize_document-IsUpdated}
use zwirn.Engine.Mutate.{report_of, write_gathered, WritesAll, write_gathered-WritesAll}
use zwirn.Engine.Run.{commit, entry_of, map_plan, prepare, write_prepared, mutate_with_access}

gather_one-IsSorted :
    (e : InventoryEntry) (d : Decision) (g : Gathered) {h : Gathered}
    → IsSorted g.node_updates
    → gather_one e d g ≡ ok h
    → IsSorted h.node_updates
gather_one-IsSorted e settled g s q =
    subst (λ (x : Gathered). IsSorted x.node_updates) (ok-injective q) s
gather_one-IsSorted e (unresolved state) g s q =
    subst (λ (x : Gathered). IsSorted x.node_updates) (ok-injective q) s
gather_one-IsSorted e (act action) g s q =
    >>=-elim (update_of e action e.filesystem) _ q λ update u r.
      subst (λ (x : Gathered). IsSorted x.node_updates) (ok-injective r)
        (insert-IsSorted e.node_index _ g.node_updates s)

gather-IsSorted :
    (es : List InventoryEntry) (ds : List Decision) (g : Gathered) {h : Gathered}
    → IsSorted g.node_updates
    → gather es ds g ≡ ok h
    → IsSorted h.node_updates
unfolding gather
gather-IsSorted [] ds g s q = subst (λ (x : Gathered). IsSorted x.node_updates) (ok-injective q) s
gather-IsSorted (e ∷ es) [] g s q =
    subst (λ (x : Gathered). IsSorted x.node_updates) (ok-injective q) s
gather-IsSorted (e ∷ es) (d ∷ ds) g s q =
    >>=-elim (gather_one e d g) _ q
      λ next u r. gather-IsSorted es ds next (gather_one-IsSorted e d g s u) r

pub map_plan-ok :
    (classified : List (InventoryEntry × Classification)) (m : Result PlanError (List Decision))
    {decisions : List Decision}
    → map_plan classified m ≡ ok decisions
    → m ≡ ok decisions
map_plan-ok classified (ok ds) h = ap ok (ok-injective h)
map_plan-ok classified (err e) h =
    >>=-elim (map_plan_error e classified) _ h λ mapped u r. absurd (err-ne-ok r)
map_plan-ok classified panic h = cc

module _ (digest : Text → List ℕ) (can_reserve : ℕ → Bool) where
  -- The decisions are those of the plan, and `g` and `output` what they ask of the files and the
  -- document.
  pub record IsPrepared (first second third : ℕ) (bytes : Text)
      (classified : List (InventoryEntry × Classification)) (selection : SelectionKind)
      (operation : Operation) (g : Gathered) (output : Option Text) : Type 0 where
    pub decisions : List Decision
    pub planned :
        plan can_reserve operation selection (map classification_of classified) ≡ ok decisions
    pub gathers : gather (map entry_of classified) decisions nothing_gathered ≡ ok g
    pub parsed : Document.Document
    pub parses : Document.parse first bytes ≡ ok parsed
    pub updated :
        Both
          (λ (node : SourceNode) f.
            (final : Text) × IsUpdated digest can_reserve g.node_updates node final
            × HasSource (output_bytes bytes output) parsed.source_field_locations f final)
          parsed.sources
          parsed.source_field_locations
    pub kept : IsKept bytes (output_bytes bytes output) parsed.source_field_locations

  prepare-IsPrepared :
      (first second third : ℕ) (bytes : Text) (classified : List (InventoryEntry × Classification))
      (selection : SelectionKind) (operation : Operation) {g : Gathered} {output : Option Text}
      → prepare digest can_reserve first second third bytes classified selection operation
        ≡ ok (g, output)
      → IsPrepared first second third bytes classified selection operation g output
  unfolding prepare
  prepare-IsPrepared first second third bytes classified selection operation {g} {output} h =
      >>=-elim
        (map_plan classified
          (plan can_reserve operation selection (map classification_of classified)))
        _ h
        λ decisions p h1.
          >>=-elim (gather (map entry_of classified) decisions nothing_gathered) _ h1 λ found u h2.
            >>=-elim
              (materialize_document digest can_reserve first second third bytes found.node_updates)
              _ h2
              λ made m h3.
                let same = ok-injective h3 in
                let (parsed, parses, updated, kept) =
                  materialize_document-IsUpdated digest can_reserve first second third bytes
                    found.node_updates
                    (gather-IsSorted (map entry_of classified) decisions nothing_gathered tt u) m in
                subst
                  (λ (x : Gathered × Option Text).
                    IsPrepared first second third bytes classified selection operation x.0 x.1)
                  same
                  record {
                    decisions = decisions;
                    planned = map_plan-ok classified _ p;
                    gathers = u;
                    parsed = parsed;
                    parses = parses;
                    updated = updated;
                    kept = kept;
                  }

  module _ {S A F I : Type 0} (policy : AccessPolicy S A) (files : CommitFilesystem F I)
      (parent : Text → Option Text) (document_path : Text) (entries : List InventoryEntry) where
    write_prepared-ok :
        (world : World S F) (prepared : Result EngineError (Gathered × Option Text))
        {after : World S F} {r : Report}
        → write_prepared digest can_reserve policy files parent document_path entries world prepared
          ≡ (after, ok r)
        → (g : Gathered) × (output : Option Text) × (prepared ≡ ok (g, output))
          × (write_gathered policy files parent can_reserve document_path entries g output world
              ≡ (after, ok r))
    write_prepared-ok world (ok (g, output)) h =
        let run =
          write_gathered policy files parent can_reserve document_path entries g output world in
        let result = map_err-eq-ok (map_operation commit) (run.1) (ap (λ x. x.1) h) in
        (g, output, refl, λ i. (ap (λ x. x.0) h i, result i))
    write_prepared-ok world (err e) h = absurd (err-ne-ok (ap (λ x. x.1) h))
    write_prepared-ok world panic h = let q = ap (λ x. x.1) h in cc

    -- If a request returns a report, then the plan gave decisions for the classified entries, and
    -- the report is the one they ask for; the bytes behind the document's output have, in the
    -- source field of every node, the source that the updates of the decisions give, and hold
    -- outside of these fields what the document held; and either no decision asked for a write and
    -- nothing was touched, or the outputs of all extracted fragments were written in their order,
    -- and then the document, if one was prepared.
    pub mutate_with_access-IsPrepared :
        (first second third : ℕ) (bytes : Text)
        (classified : List (InventoryEntry × Classification)) (selection : SelectionKind)
        (operation : Operation) (world after : World S F) (r : Report)
        → mutate_with_access digest can_reserve policy files parent document_path entries first
            second third bytes classified selection operation world
          ≡ (after, ok r)
        → (g : Gathered) × (output : Option Text) × IsPrepared first second third bytes classified
            selection operation g output
          × (r ≡ report_of g)
          × WritesAll policy files parent can_reserve document_path entries g output world after
    unfolding mutate_with_access
    mutate_with_access-IsPrepared first second third bytes classified selection operation world
          after r h =
        let (g, output, p, w) = write_prepared-ok world _ h in
        let (same, writes) =
          write_gathered-WritesAll policy files parent can_reserve document_path entries g output
            world after r w in
        (
          g,
          output,
          prepare-IsPrepared first second third bytes classified selection operation p,
          same,
          writes,
        )
