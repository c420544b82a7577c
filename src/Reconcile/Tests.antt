-- ===== src/Reconcile/Tests.antt =====
-- Runs of the reconciliation, and its theorems at concrete inputs.
use mathlib.Core.List.{Forall₂}
use zwirn.Prelude.{
  ℕ, List, [], ◌∷◌, ◌≡◌, ◌≢◌, ◌⊎◌, refl, none, some, true, false, ok, err, All, length, replicate,
  map,
}
use zwirn.Text.{Text, ascii}
use zwirn.Text
use zwirn.Fragment.Canonical.{CanonicalSource}
use zwirn.Fragment.Hash.{from_source}
use zwirn.Fragment.Tests.{sum_digest, always}
use zwirn.Reconcile.{
  State, Classification, Operation, all, explicit, Action, Decision, settled, act, unresolved,
  force_requires_explicit_selection, invalid_forced_state, allocation_failed, classify, plan_one,
  plan,
}
use zwirn.Reconcile.States.{Copies, classify_copies}
use zwirn.Reconcile.Synchronize.{Settles, plan-Settles}
use zwirn.Reconcile.Safety.{LosesNothing, plan_one-LosesNothing, mirror_result, plan_one-exchange}
use zwirn.Reconcile.Forced.{IsConflict, FirstOther, plan-forced_ok, plan-forced_err}

abbrev old_text : CanonicalSource
old_text = record { text = ascii "a\n" }

abbrev new_text : CanonicalSource
new_text = record { text = ascii "b\n" }

-- The embedded copy is as recorded, the file was changed.
abbrev file_changed : Copies
file_changed = record {
  embedded = old_text;
  baseline = some (from_source sum_digest old_text.text);
  filesystem = some new_text;
}

abbrev in_step : Copies
in_step = record file_changed { filesystem = some old_text }

abbrev never_adopted : Copies
never_adopted = record { embedded = old_text; baseline = none; filesystem = some new_text }

abbrev batch : List Copies
batch = file_changed ∷ in_step ∷ never_adopted ∷ []

abbrev decisions : List Decision
decisions = act Action.embed ∷ settled ∷ unresolved State.unadopted_conflict ∷ []

plan-batch : plan always Operation.sync all (map (classify_copies sum_digest) batch) ≡ ok decisions
unfolding plan classify plan_one Text.text_eq
plan-batch = refl

plan-Settles_example : Forall₂ (Settles sum_digest) batch decisions
plan-Settles_example = plan-Settles sum_digest always all batch decisions Operation.sync plan-batch

plan_one-changed :
    plan_one Operation.sync all (classify_copies sum_digest file_changed) ≡ ok (act Action.embed)
unfolding classify plan_one Text.text_eq
plan_one-changed = refl

plan_one-LosesNothing_example : LosesNothing sum_digest file_changed Action.embed
plan_one-LosesNothing_example =
    plan_one-LosesNothing sum_digest Operation.sync all file_changed Action.embed refl
      plan_one-changed

plan_one-exchange_example :
    plan_one
      (Operation.extract false)
      all
      (classify sum_digest new_text (some (from_source sum_digest old_text.text)) (some old_text))
    ≡ mirror_result (
        plan_one (Operation.embed false) all (
          classify sum_digest old_text
            (some (from_source sum_digest old_text.text))
            (some new_text)))
plan_one-exchange_example =
    plan_one-exchange sum_digest (Operation.embed false) all old_text new_text
      (some (from_source sum_digest old_text.text))

abbrev conflicts : List Classification
conflicts = Classification.conflict ∷ Classification.unadopted_conflict ∷ []

plan-conflicts :
    plan always (Operation.embed true) explicit conflicts
    ≡ ok (act Action.embed ∷ act Action.embed ∷ [])
unfolding plan
plan-conflicts = refl

plan-forced_ok_example :
    (explicit ≡ explicit)
    × (conflicts ≢ [])
    × All IsConflict conflicts
    × (act Action.embed ∷ act Action.embed ∷ [] ≡ replicate (length conflicts) (act Action.embed))
plan-forced_ok_example =
    plan-forced_ok always (Operation.embed true) Action.embed refl explicit conflicts
      (act Action.embed ∷ act Action.embed ∷ []) plan-conflicts

abbrev not_all_conflicts : List Classification
not_all_conflicts = Classification.conflict ∷ Classification.embed ∷ []

plan-not_all :
    plan always (Operation.extract true) explicit not_all_conflicts
    ≡ err (invalid_forced_state 1 State.embed)
unfolding plan
plan-not_all = refl

plan-forced_err_example :
    ((invalid_forced_state 1 State.embed ≡ force_requires_explicit_selection)
      × ((explicit ≢ explicit) ⊎ (not_all_conflicts ≡ [])))
    ⊎ ((explicit ≡ explicit)
        × ((i : ℕ) × (s : State) × (invalid_forced_state 1 State.embed ≡ invalid_forced_state i s)
            × FirstOther not_all_conflicts i s))
    ⊎ ((invalid_forced_state 1 State.embed ≡ allocation_failed)
        × (always (length not_all_conflicts) ≡ false))
plan-forced_err_example =
    plan-forced_err always (Operation.extract true) Action.extract refl explicit not_all_conflicts
      (invalid_forced_state 1 State.embed) plan-not_all
