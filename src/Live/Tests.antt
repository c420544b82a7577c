-- ===== src/Live/Tests.antt =====
-- Runs of the driver and its threads, and their theorems at concrete states.
use zwirn.Prelude.{Option, ◌↔◌, [], ◌∷◌, ℕ, suc, ◌≢◌, ◌≤◌, true, none, some, ◌≡◌, refl}
use zwirn.Live.{
  filesystem, reconciling, stopped, failed, Session, started, driver_step, drive, signal, send,
  invalidation, Reachable, at_start, then_step, raise, notify, invalidate,
}
use zwirn.Text.{ascii}
use zwirn.Reconcile.{State}
use zwirn.Engine.{state_entry}
use zwirn.Live.Diagnostics.{
  Blocker, failure_blocker, blocker_transition, RunResult, reported, current_blocker, result_lines,
  reconciliation_lines,
}
use zwirn.Live.Diagnostics.Changes.{reconciliation_lines_iff}
use zwirn.Live.Invariant.{IsSound, Reachable-IsSound, Step-no_run}
use zwirn.Live.Progress.{run_driver, run_driver-stopped, RunsAgain, run_driver-RunsAgain}

-- The first run is under way and a file changes.
abbrev running : Session
running = record started { driver = reconciling }

abbrev changed : Session
changed = invalidate running

running-Reachable : Reachable running
unfolding driver_step
running-Reachable = then_step started running at_start (drive started running refl)

changed-Reachable : Reachable changed
changed-Reachable = then_step running changed running-Reachable (invalidation running refl)

-- The user asks to stop, and the channel is full.
abbrev raised : Session
raised = raise changed

abbrev notified : Session
notified = notify raised

raised-Reachable : Reachable raised
raised-Reachable = then_step changed raised changed-Reachable (signal changed refl refl)

notified-Reachable : Reachable notified
notified-Reachable = then_step raised notified raised-Reachable (send raised refl refl)

Reachable-IsSound_example : IsSound notified
Reachable-IsSound_example = Reachable-IsSound notified notified-Reachable

Step-no_run_example :
    (notified.shutdown ≡ true) × (notified.driver ≡ reconciling → raised.driver ≡ reconciling)
Step-no_run_example = Step-no_run raised notified (send raised refl refl) refl

run_driver-stopped_example :
    ((n : ℕ) → (run_driver (suc (suc (suc n))) notified).driver ≡ stopped)
    × ((n : ℕ) → (run_driver (suc n) notified).driver ≢ reconciling)
run_driver-stopped_example =
    run_driver-stopped notified notified-Reachable refl refl refl (λ (e : reconciling ≡ failed). cc)

run_driver-RunsAgain_example : (n : ℕ) × (n ≤ 5) × RunsAgain changed n
run_driver-RunsAgain_example =
    run_driver-RunsAgain changed changed-Reachable refl (λ (e : some filesystem ≡ none). cc)
      (λ (e : reconciling ≡ failed). cc) (λ (e : reconciling ≡ stopped). cc)

-- A run that left a conflict, behind one that failed.
abbrev blocked : Option Blocker
blocked = some (failure_blocker (ascii "x"))

abbrev conflict_run : RunResult
conflict_run = reported (state_entry (record { text = ascii "a" }) State.conflict ∷ [])

blocked_lines :
    reconciliation_lines blocked conflict_run
    ≡ ascii "zwirn live: reconciliation recovered" ∷ ascii "zwirn live: attention: a\tconflict" ∷ []
unfolding blocker_transition
blocked_lines = refl

reconciliation_lines_iff_example :
    (reconciliation_lines blocked conflict_run ≡ result_lines conflict_run)
    ↔ (blocked ≡ current_blocker conflict_run)
reconciliation_lines_iff_example = reconciliation_lines_iff blocked conflict_run
