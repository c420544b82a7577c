-- ===== src/Engine/Mutate.antt =====
-- src/engine.rs: the end of `mutate_with_access`, from the prepared document on.
use zwirn.Prelude.{
  ℕ, Bool, true, false, ◌&&◌, List, [], ◌≡◌, ◌⊎◌, inl, inr, refl, arith, Option, none, some, is_nil,
  if◌then◌else◌, Result, ok, err, panic, Bool-cases,
}
use mathlib.Core.Path.{subst}
use zwirn.Text.{Text}
use zwirn.Access.{AccessPolicy, PolicyFailure, World, map_access}
use zwirn.Fragment.Path.{FragmentPath}
use zwirn.Commit.{
  CommitFilesystem, CommitAccessFailure, CommitError, Failure, DocumentOutput, commit_using,
}
use zwirn.Commit.Report.{CommitOutcome, CommitSucceeds, commit_using-CommitOutcome}
use zwirn.Engine.{InventoryEntry, Report, exit_state, Gathered, external_outputs, absent_targets}

pub record EngineAccessFailure (A : Type 0) : Type 0 where
  pub source : A
  pub completed : List FragmentPath

-- `EngineAccessFailure::commit`.
abbrev pub commit_access : {A : Type 0} → CommitAccessFailure A → EngineAccessFailure A
commit_access failure = record { source = failure.source; completed = failure.completed }

abbrev pub report_of : Gathered → Report
report_of g = record { entries = g.entries; exit = exit_state g.attention }

abbrev pub document_for : Text → Option Text → Option DocumentOutput
document_for document_path none = none
document_for document_path (some bytes) =
    some (record { destination = document_path; bytes = bytes })

abbrev is_none : Option Text → Bool
is_none none = true
is_none (some bytes) = false

module _ {S A F I : Type 0} (policy : AccessPolicy S A) (files : CommitFilesystem F I)
    (parent : Text → Option Text) (can_reserve : ℕ → Bool) (document_path : Text)
    (entries : List InventoryEntry) where
  -- `?` on the commit, and the report behind it.
  report_commit :
      Gathered
      → World S F × Result (Failure A I) (Unit {0})
      → World S F × Result (PolicyFailure (EngineAccessFailure A) (CommitError I)) Report
  report_commit g (after, ok u) = (after, ok (report_of g))
  report_commit g (after, err e) = (after, err (map_access commit_access e))
  report_commit g (after, panic) = (after, panic)

  -- From `document_output` on; `entries` are those of the inventory.
  unfoldable pub write_gathered :
      Gathered
      → Option Text
      → World S F
      → World S F × Result (PolicyFailure (EngineAccessFailure A) (CommitError I)) Report
  unfolding report_commit
  write_gathered g document_output world =
      if is_nil g.extracted && is_none document_output
      then (world, ok (report_of g))
      else report_commit g (
          commit_using policy files parent can_reserve (external_outputs g.extracted)
            (absent_targets entries) (document_for document_path document_output) world)

  -- Nothing was to be written and nothing was touched, or all was written as a commit promises.
  abbrev pub WritesAll : Gathered → Option Text → World S F → World S F → Type 0
  WritesAll g document_output world after =
      ((g.extracted ≡ []) × (document_output ≡ none) × (after ≡ world))
      ⊎ CommitSucceeds files parent can_reserve (absent_targets entries)
          (external_outputs g.extracted) (document_for document_path document_output)
          world.filesystem after.filesystem

  abbrev Good :
      Gathered
      → Option Text
      → World S F
      → World S F × Result (PolicyFailure (EngineAccessFailure A) (CommitError I)) Report
      → Type 0
  Good g document_output world (after, ok r) =
      (r ≡ report_of g) × WritesAll g document_output world after
  Good g document_output world (after, err e) = Unit
  Good g document_output world (after, panic) = Unit

  report_commit-Good :
      (g : Gathered) (document_output : Option Text) (world : World S F)
      (result : World S F × Result (Failure A I) (Unit {0}))
      → CommitOutcome files parent can_reserve
          (absent_targets entries)
          (external_outputs g.extracted)
          (document_for document_path document_output)
          policy
          world.filesystem
          result
      → Good g document_output world (report_commit g result)
  unfolding report_commit
  report_commit-Good g d world (after, ok u) h = (refl, inr h)
  report_commit-Good g d world (after, err e) h = tt
  report_commit-Good g d world (after, panic) h = tt

  write_gathered-Good :
      (g : Gathered) (document_output : Option Text) (world : World S F)
      → Good g document_output world (write_gathered g document_output world)
  unfolding write_gathered
  write_gathered-Good g d world = elim (Bool-cases (is_nil g.extracted && is_none d)) [
    | inl e ↦ rw e (refl, inl (ground arith, ground arith, refl))
    | inr e ↦ rw e (
        report_commit-Good g d world _ (
          commit_using-CommitOutcome files parent can_reserve (absent_targets entries)
            (external_outputs g.extracted) (document_for document_path d) policy world))
  ]

  -- If a command returns a report behind its decisions, it is the report that was gathered, and
  -- either nothing was to be written and nothing was touched, or the outputs of all extracted
  -- fragments were written in their order, and then the document.
  pub write_gathered-WritesAll :
      (g : Gathered) (document_output : Option Text) (world after : World S F) (r : Report)
      → write_gathered g document_output world ≡ (after, ok r)
      → (r ≡ report_of g) × WritesAll g document_output world after
  write_gathered-WritesAll g d world after r h =
      subst (Good g d world) h (write_gathered-Good g d world)
