-- ===== src/Reconcile.antt =====
-- src/reconcile.rs: the classification of a fragment and the plan for a selected batch.
pub mod States
pub mod Synchronize
pub mod Safety
pub mod Forced
pub mod Refused
pub mod Tests
use zwirn.Prelude.{
  ℕ, suc, ◌+◌, Bool, true, false, not, List, [], ◌∷◌, Option, none, some, if◌then◌else◌, length,
  replicate, Result, ok, err, panic, ◌>>=◌, ◌>>◌, require, is_nil,
}
use zwirn.Text.{Text, ascii}
use zwirn.Fragment.Canonical.{CanonicalSource, source_eq}
use zwirn.Fragment.Hash.{BaselineHash, hash_eq, from_source}

-- The state that the command line reports.
pub data State : Type 0 where
  unadopted unadopted_conflict missing synchronized embed extract converged conflict : State

-- `State::as_str`.
abbrev pub state_text : State → Text
state_text State.unadopted = ascii "unadopted"
state_text State.unadopted_conflict = ascii "unadopted conflict"
state_text State.missing = ascii "missing"
state_text State.synchronized = ascii "synchronized"
state_text State.embed = ascii "embed"
state_text State.extract = ascii "extract"
state_text State.converged = ascii "converged"
state_text State.conflict = ascii "conflict"

pub data UnadoptedFile : Type 0 where
  absent matching : UnadoptedFile

pub data Classification : Type 0 where
  unadopted : UnadoptedFile → Classification
  unadopted_conflict missing synchronized embed extract converged conflict : Classification

-- `Classification::state`.
abbrev pub state : Classification → State
state (Classification.unadopted file) = State.unadopted
state Classification.unadopted_conflict = State.unadopted_conflict
state Classification.missing = State.missing
state Classification.synchronized = State.synchronized
state Classification.embed = State.embed
state Classification.extract = State.extract
state Classification.converged = State.converged
state Classification.conflict = State.conflict

-- The `match` on which sides still have the baseline's hash.
classify_changed : Bool → Bool → Classification
classify_changed false true = Classification.embed
classify_changed true false = Classification.extract
classify_changed false false = Classification.conflict
classify_changed true true = Classification.conflict

module _ (digest : Text → List ℕ) where
  -- Both files are there, and the fragment has a baseline.
  classify_adopted : CanonicalSource → BaselineHash → CanonicalSource → Classification
  classify_adopted embedded baseline filesystem =
      let filesystem_matches = hash_eq (from_source digest filesystem.text) baseline in
      let embedded_matches = hash_eq (from_source digest embedded.text) baseline in
      if source_eq filesystem embedded
      then (if filesystem_matches then Classification.synchronized else Classification.converged)
      else classify_changed filesystem_matches embedded_matches

  unfoldable pub classify :
      CanonicalSource → Option BaselineHash → Option CanonicalSource → Classification
  unfolding classify_adopted classify_changed
  classify embedded none none = Classification.unadopted absent
  classify embedded none (some filesystem) =
      if source_eq filesystem embedded
      then Classification.unadopted matching
      else Classification.unadopted_conflict
  classify embedded (some baseline) none = Classification.missing
  classify embedded (some baseline) (some filesystem) =
      classify_adopted embedded baseline filesystem

-- The field is `force`.
pub data Operation : Type 0 where
  embed : Bool → Operation
  extract : Bool → Operation
  sync : Operation

pub data SelectionKind : Type 0 where
  all explicit : SelectionKind

pub data Action : Type 0 where
  record_hash embed extract : Action

-- `Action::as_str`.
abbrev pub action_text : Action → Text
action_text record_hash = ascii "record"
action_text Action.embed = ascii "embed"
action_text Action.extract = ascii "extract"

pub data Decision : Type 0 where
  settled : Decision
  act : Action → Decision
  unresolved : State → Decision

pub data PlanError : Type 0 where
  force_requires_explicit_selection : PlanError
  invalid_forced_state : ℕ → State → PlanError
  allocation_failed : PlanError

abbrev pub forced_action : Operation → Option Action
forced_action (Operation.embed true) = some Action.embed
forced_action (Operation.extract true) = some Action.extract
forced_action (Operation.embed false) = none
forced_action (Operation.extract false) = none
forced_action Operation.sync = none

-- The arms of `plan_one` behind the first two, in the order of the source; the last is the
-- `unreachable!` for a forced operation.
plan_directed : Operation → SelectionKind → Classification → Result PlanError Decision
plan_directed (Operation.extract false) selection (Classification.unadopted absent) =
    ok (act Action.extract)
plan_directed Operation.sync selection (Classification.unadopted absent) = ok (act Action.extract)
plan_directed (Operation.extract false) selection Classification.extract = ok (act Action.extract)
plan_directed Operation.sync selection Classification.extract = ok (act Action.extract)
plan_directed (Operation.extract false) explicit Classification.missing = ok (act Action.extract)
plan_directed (Operation.embed false) selection Classification.embed = ok (act Action.embed)
plan_directed Operation.sync selection Classification.embed = ok (act Action.embed)
plan_directed (Operation.embed false) selection classification =
    ok (unresolved (state classification))
plan_directed (Operation.extract false) selection classification =
    ok (unresolved (state classification))
plan_directed Operation.sync selection classification = ok (unresolved (state classification))
plan_directed (Operation.embed true) selection classification = panic
plan_directed (Operation.extract true) selection classification = panic

unfoldable pub plan_one : Operation → SelectionKind → Classification → Result PlanError Decision
unfolding plan_directed
plan_one operation selection Classification.synchronized = ok settled
plan_one operation selection (Classification.unadopted matching) = ok (act record_hash)
plan_one operation selection Classification.converged = ok (act record_hash)
plan_one operation selection classification = plan_directed operation selection classification

-- The iterator of `plan` for an operation that is not forced.
plan_each : Operation → SelectionKind → List Classification → Result PlanError (List Decision)
plan_each operation selection [] = ok []
plan_each operation selection (classification ∷ rest) = do
  decision ← plan_one operation selection classification
  decisions ← plan_each operation selection rest
  ok (decision ∷ decisions)

abbrev can_force : Classification → Bool
can_force Classification.conflict = true
can_force Classification.unadopted_conflict = true
can_force _ = false

-- The `find` over the enumerated classifications, and the error for what it finds.
validate_forced : ℕ → List Classification → Result PlanError (Unit {0})
validate_forced index [] = ok tt
validate_forced index (classification ∷ rest) =
    if can_force classification
    then validate_forced (index + 1) rest
    else err (invalid_forced_state index (state classification))

abbrev is_explicit : SelectionKind → Bool
is_explicit explicit = true
is_explicit all = false

module _ (can_reserve : ℕ → Bool) where
  -- `reserve_plan`; `can_reserve` is the allocator's answer.
  reserve_plan : ℕ → Result PlanError (Unit {0})
  reserve_plan count = require (can_reserve count) allocation_failed

  plan_forced : Action → SelectionKind → List Classification → Result PlanError (List Decision)
  unfolding validate_forced reserve_plan
  plan_forced action selection selected = do
    require (is_explicit selection) force_requires_explicit_selection
    require (not (is_nil selected)) force_requires_explicit_selection
    validate_forced 0 selected
    reserve_plan (length selected)
    ok (replicate (length selected) (act action))

  plan_unforced : Operation → SelectionKind → List Classification → Result PlanError (List Decision)
  unfolding plan_each reserve_plan
  plan_unforced operation selection selected = do
    reserve_plan (length selected)
    plan_each operation selection selected

  unfoldable pub plan :
      Operation → SelectionKind → List Classification → Result PlanError (List Decision)
  unfolding plan_forced plan_unforced
  plan operation selection selected = elim (forced_action operation) [
    | some action ↦ plan_forced action selection selected
    | none ↦ plan_unforced operation selection selected
  ]
