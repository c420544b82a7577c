-- ===== src/Engine/Run/Total.antt =====
-- src/engine.rs: what a request does before it writes does not panic.
use mathlib.Core.Path.{subst}
use zwirn.Prelude.{
  ℕ, Bool, List, map, ◌≡◌, ◌≢◌, refl, sym, Result, ok, err, panic, err-ne-panic, >>=-ne-panic,
  >>=-ne-panic_of, ok-ne-panic,
}
use zwirn.Text.{Text}
use zwirn.Reconcile.{Classification, Operation, SelectionKind, Decision, PlanError, plan}
use zwirn.Reconcile.States.{classify_copies}
use zwirn.Reconcile.Forced.{plan-ne-panic}
use zwirn.Engine.{InventoryEntry, gather, nothing_gathered}
use zwirn.Engine.Exit.{copies_of, gather-EndsSynchronized}
use zwirn.Engine.Errors.{classification_of, map_plan_error-NamesOther}
use zwirn.Engine.Materialize.Total.{materialize_document-ne-panic}
use zwirn.Engine.Run.Classified.{classified_of, classifications, entries_of}
use zwirn.Engine.Run.{map_plan, prepare}
use zwirn.Engine.Run.Written.{map_plan-ok}

module _ (digest : Text → List ℕ) (can_reserve : ℕ → Bool) where
  map_plan-ne-panic :
      (operation : Operation) (selection : SelectionKind)
      (classified : List (InventoryEntry × Classification)) (m : Result PlanError (List Decision))
      → plan can_reserve operation selection (map classification_of classified) ≡ m
      → map_plan classified m ≢ panic
  map_plan-ne-panic operation selection classified (ok ds) h = ok-ne-panic ds
  map_plan-ne-panic operation selection classified (err e) h =
      let (f, found, names) =
        map_plan_error-NamesOther can_reserve operation selection classified e h in
      rw found (err-ne-panic f)
  map_plan-ne-panic operation selection classified panic h =
      absurd (plan-ne-panic can_reserve operation selection (map classification_of classified) h)

  -- When each entry has the classification of its copies, then, whatever the document's bytes, the
  -- operation, the selection and the answers of the allocator, everything that a request does
  -- before it writes gives a value or an error: an embed action has a file, the index in a refused
  -- plan is one of the entries, and preparing the document does not panic.
  pub prepare-ne-panic :
      (first second third : ℕ) (bytes : Text) (entries : List InventoryEntry)
      (selection : SelectionKind) (operation : Operation)
      → prepare digest can_reserve first second third bytes
          (classified_of digest entries)
          selection
          operation
        ≢ panic
  unfolding prepare
  prepare-ne-panic first second third bytes entries selection operation =
      let planned =
        plan can_reserve operation selection
          (map classification_of (classified_of digest entries)) in
      >>=-ne-panic_of (map_plan (classified_of digest entries) planned) _
        (map_plan-ne-panic operation selection (classified_of digest entries) planned refl)
        λ ds p.
          let same : plan can_reserve operation selection
                (map (classify_copies digest) (map copies_of entries))
              ≡ ok ds =
            subst (λ ks. plan can_reserve operation selection ks ≡ ok ds)
              (classifications digest entries)
              (map_plan-ok (classified_of digest entries) planned p) in
          let (h, gathers, ends) =
            gather-EndsSynchronized digest can_reserve operation selection entries ds same in
          >>=-ne-panic _ _
            (subst (λ es. gather es ds nothing_gathered ≢ panic) (sym (entries_of digest entries))
              (subst (λ m. m ≢ panic) (sym gathers) (ok-ne-panic h)))
            λ g.
              >>=-ne-panic _ _
                (materialize_document-ne-panic digest can_reserve first second third bytes
                  g.node_updates)
                λ output. ok-ne-panic _
