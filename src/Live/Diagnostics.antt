-- ===== src/Live/Diagnostics.antt =====
-- src/live.rs: what a session tells the user of its runs.
pub mod Changes
use zwirn.Prelude.{
  Bool, true, false, ◌&&◌, List, [], ◌∷◌, ◌++◌, map, Option, none, some, if◌then◌else◌, Result, ok,
  err, panic,
}
use zwirn.Text.{Text, ascii, text_eq}
use zwirn.Fragment.Path.{FragmentPath}
use zwirn.Reconcile.{State, Action, state_text, action_text}
use zwirn.Engine.{ReportEntry, state_entry, action_entry}

pub data Blocker : Type 0 where
  states_blocker : List Text → Blocker
  failure_blocker : Text → Blocker

abbrev pub texts_eq : List Text → List Text → Bool
texts_eq [] [] = true
texts_eq (a ∷ xs) (b ∷ ys) = text_eq a b && texts_eq xs ys
texts_eq [] (b ∷ ys) = false
texts_eq (a ∷ xs) [] = false

abbrev pub blocker_eq : Blocker → Blocker → Bool
blocker_eq (states_blocker xs) (states_blocker ys) = texts_eq xs ys
blocker_eq (failure_blocker a) (failure_blocker b) = text_eq a b
blocker_eq (states_blocker xs) (failure_blocker b) = false
blocker_eq (failure_blocker a) (states_blocker ys) = false

pub data BlockerTransition : Type 0 where
  unchanged report recovered recovered_and_report : BlockerTransition

-- The arms for two blockers that differ.
abbrev changed_transition : Blocker → Blocker → BlockerTransition
changed_transition (failure_blocker a) (states_blocker ys) = recovered_and_report
changed_transition (failure_blocker a) (failure_blocker b) = report
changed_transition (states_blocker xs) b = report

unfoldable pub blocker_transition : Option Blocker → Option Blocker → BlockerTransition
blocker_transition none none = unchanged
blocker_transition (some a) (some b) = if blocker_eq a b then unchanged else changed_transition a b
blocker_transition (some a) none = recovered
blocker_transition none (some b) = report

-- What `execute` gives the session: a report's entries, or an error with `committed_external` and
-- the text of `engine_failure`.
pub data RunResult : Type 0 where
  reported : List ReportEntry → RunResult
  run_failed : List FragmentPath → Text → RunResult

abbrev pub entry_text : FragmentPath → Text → Text
entry_text path result = path.text ++ (b'\t' ∷ result)

-- The lines for the entries that are actions, and `states`.
abbrev pub action_lines : List ReportEntry → List Text
action_lines [] = []
action_lines (action_entry path action ∷ rest) =
    (ascii "zwirn live: " ++ entry_text path (action_text action)) ∷ action_lines rest
action_lines (state_entry path state ∷ rest) = action_lines rest

abbrev pub state_texts : List ReportEntry → List Text
state_texts [] = []
state_texts (state_entry path state ∷ rest) = entry_text path (state_text state) ∷ state_texts rest
state_texts (action_entry path action ∷ rest) = state_texts rest

abbrev pub committed_line : FragmentPath → Text
committed_line path =
    ascii "zwirn live: external file already written for `" ++ (path.text ++ ascii "`")

abbrev pub result_lines : RunResult → List Text
result_lines (reported entries) = action_lines entries
result_lines (run_failed committed failure) = map committed_line committed

abbrev states_or_none : List Text → Option Blocker
states_or_none [] = none
states_or_none (state ∷ states) = some (states_blocker (state ∷ states))

-- `current`.
abbrev pub current_blocker : RunResult → Option Blocker
current_blocker (reported entries) = states_or_none (state_texts entries)
current_blocker (run_failed committed failure) = some (failure_blocker failure)

abbrev attention_line : Text → Text
attention_line state = ascii "zwirn live: attention: " ++ state

-- The lines of `report_blocker`.
abbrev pub blocker_lines : Option Blocker → List Text
blocker_lines none = []
blocker_lines (some (states_blocker states)) = map attention_line states
blocker_lines (some (failure_blocker failure)) = (ascii "zwirn live: blocked: " ++ failure) ∷ []

abbrev recovered_line : Text
recovered_line = ascii "zwirn live: reconciliation recovered"

-- The lines of the `match` on the transition.
abbrev pub transition_lines : BlockerTransition → Option Blocker → List Text
transition_lines unchanged current = []
transition_lines recovered current = recovered_line ∷ []
transition_lines recovered_and_report current = recovered_line ∷ blocker_lines current
transition_lines report current = blocker_lines current

-- The calls of `writeln!` in their order, up to the first that fails.
unfoldable pub write_lines :
    {W I : Type 0} → (Text → W → W × Result I (Unit {0})) → List Text → W → W × Result I (Unit {0})
write_lines write_line [] w = (w, ok tt)
write_lines write_line (line ∷ rest) w =
    let (after, written) = write_line line w in
    elim written [
      | ok u ↦ write_lines write_line rest after
      | err e ↦ (after, err e)
      | panic ↦ (after, panic)
    ]

pub record Diagnostics (W : Type 0) : Type 0 where
  pub writer : W
  pub blocker : Option Blocker

-- The lines of one `reconciliation`.
abbrev pub reconciliation_lines : Option Blocker → RunResult → List Text
reconciliation_lines previous result =
    result_lines result
    ++ transition_lines (blocker_transition previous (current_blocker result))
        (current_blocker result)

abbrev keep_blocker :
    {W I : Type 0}
    → Option Blocker
    → Option Blocker
    → W × Result I (Unit {0})
    → Diagnostics W × Result I (Unit {0})
keep_blocker previous current (w, ok u) = (record { writer = w; blocker = current }, ok tt)
keep_blocker previous current (w, err e) = (record { writer = w; blocker = previous }, err e)
keep_blocker previous current (w, panic) = (record { writer = w; blocker = previous }, panic)

unfoldable pub reconciliation :
    {W I : Type 0}
    → (Text → W → W × Result I (Unit {0}))
    → Diagnostics W
    → RunResult
    → Diagnostics W × Result I (Unit {0})
reconciliation write_line d result =
    keep_blocker d.blocker (current_blocker result)
      (write_lines write_line (reconciliation_lines d.blocker result) d.writer)
