-- ===== src/Engine/Run.antt =====
-- src/engine.rs: `mutate_with_access`, from the plan to the report.
pub mod Classified
pub mod Asks
pub mod Updates
pub mod Written
pub mod CarriedOut
pub mod Total
pub mod Tests
use zwirn.Prelude.{ℕ, Bool, List, map, Option, Result, ok, err, panic, ◌>>=◌, map_err}
use zwirn.Text.{Text}
use zwirn.Access.{AccessPolicy, PolicyFailure, operation_failure, World, map_operation}
use zwirn.Reconcile.{Classification, Operation, SelectionKind, Decision, PlanError, plan}
use zwirn.Commit.{CommitFilesystem, CommitError}
use zwirn.Engine.{
  InventoryEntry, EngineError, Report, Gathered, gather, nothing_gathered, map_plan_error,
}
use zwirn.Engine.Errors.{classification_of}
use zwirn.Engine.Materialize.{materialize_document}
use zwirn.Engine.Mutate.{EngineAccessFailure, write_gathered}

-- The errors of a request: those from before the writes, and those of the writes.
pub data MutateError (I : Type 0) : Type 0 where
  preparation : EngineError → MutateError I
  commit : CommitError I → MutateError I

abbrev pub entry_of : InventoryEntry × Classification → InventoryEntry
entry_of (entry, classification) = entry

-- The two `map_err` behind `plan`.
abbrev pub map_plan :
    List (InventoryEntry × Classification)
    → Result PlanError (List Decision)
    → Result EngineError (List Decision)
map_plan classified (ok decisions) = ok decisions
map_plan classified (err e) = do mapped ← map_plan_error e classified; err mapped
map_plan classified panic = panic

module _ (digest : Text → List ℕ) (can_reserve : ℕ → Bool) where
  -- The plan, the loop over its decisions and the document. The numbers are those of its parses.
  unfoldable pub prepare :
      ℕ
      → ℕ
      → ℕ
      → Text
      → List (InventoryEntry × Classification)
      → SelectionKind
      → Operation
      → Result EngineError (Gathered × Option Text)
  prepare first second third document_bytes classified selection operation = do
    decisions ←
        map_plan classified
          (plan can_reserve operation selection (map classification_of classified))
    gathered ← gather (map entry_of classified) decisions nothing_gathered
    output ←
        materialize_document digest can_reserve first second third document_bytes
          gathered.node_updates
    ok (gathered, output)

  module _ {S A F I : Type 0} (policy : AccessPolicy S A) (files : CommitFilesystem F I)
      (parent : Text → Option Text) (document_path : Text) (entries : List InventoryEntry) where
    abbrev pub map_commit :
        World S F × Result (PolicyFailure (EngineAccessFailure A) (CommitError I)) Report
        → World S F × Result (PolicyFailure (EngineAccessFailure A) (MutateError I)) Report
    map_commit (after, result) = (after, map_err (map_operation commit) result)

    -- What is left to do once the document is prepared.
    abbrev pub write_prepared :
        World S F
        → Result EngineError (Gathered × Option Text)
        → World S F × Result (PolicyFailure (EngineAccessFailure A) (MutateError I)) Report
    write_prepared world (ok (gathered, output)) =
        map_commit (
          write_gathered policy files parent can_reserve document_path entries gathered output
            world)
    write_prepared world (err e) = (world, err (operation_failure (preparation e)))
    write_prepared world panic = (world, panic)

    -- `entries` and `document_bytes` are those of the inventory.
    unfoldable pub mutate_with_access :
        ℕ
        → ℕ
        → ℕ
        → Text
        → List (InventoryEntry × Classification)
        → SelectionKind
        → Operation
        → World S F
        → World S F × Result (PolicyFailure (EngineAccessFailure A) (MutateError I)) Report
    unfolding prepare
    mutate_with_access first second third document_bytes classified selection operation world =
        write_prepared world
          (prepare first second third document_bytes classified selection operation)
