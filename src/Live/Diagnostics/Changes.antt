-- ===== src/Live/Diagnostics/Changes.antt =====
-- A session reports a blocker when it changes, and only then.
use zwirn.Prelude.{
  true, List, [], ◌∷◌, ◌++◌, ◌≡◌, ◌≢◌, ◌↔◌, refl, ap, arith, Option, none, some, Bool-cases, inl,
  inr,
}
use zwirn.Text.{Text, text_eq_iff}
use zwirn.Live.Diagnostics.{
  Blocker, states_blocker, failure_blocker, texts_eq, blocker_eq, blocker_transition, RunResult,
  reported, run_failed, state_texts, states_or_none, current_blocker, transition_lines,
  blocker_lines, changed_transition, result_lines, reconciliation_lines,
}

texts_eq_iff : (xs ys : List Text) → (texts_eq xs ys ≡ true) ↔ (xs ≡ ys)
texts_eq_iff [] [] = ((λ h. refl), (λ h. refl))
texts_eq_iff [] (y ∷ ys) = ((λ h. absurd cc), (λ h. absurd cc))
texts_eq_iff (x ∷ xs) [] = ((λ h. absurd cc), (λ h. absurd cc))
texts_eq_iff (x ∷ xs) (y ∷ ys) = ground (arith, texts_eq_iff xs ys, text_eq_iff x y)

blocker_eq_iff : (a b : Blocker) → (blocker_eq a b ≡ true) ↔ (a ≡ b)
blocker_eq_iff (states_blocker xs) (states_blocker ys) = ground (arith, texts_eq_iff xs ys)
blocker_eq_iff (failure_blocker a) (failure_blocker b) = ground (arith, text_eq_iff a b)
blocker_eq_iff (states_blocker xs) (failure_blocker b) = ((λ h. absurd cc), (λ h. absurd cc))
blocker_eq_iff (failure_blocker a) (states_blocker ys) = ((λ h. absurd cc), (λ h. absurd cc))

-- A blocker with something to say.
abbrev Speaks : Option Blocker → Type 0
Speaks none = Unit
Speaks (some b) = blocker_lines (some b) ≢ []

current_blocker-Speaks : (r : RunResult) → Speaks (current_blocker r)
current_blocker-Speaks (reported entries) = by_states (state_texts entries)
  where
    by_states : (xs : List Text) → Speaks (states_or_none xs)
    by_states [] = tt
    by_states (x ∷ xs) = λ q. cc
current_blocker-Speaks (run_failed committed failure) = λ q. cc

changed_lines :
    (a b : Blocker)
    → blocker_lines (some b) ≢ []
    → transition_lines (changed_transition a b) (some b) ≢ []
changed_lines (failure_blocker a) (states_blocker ys) s = λ q. cc
changed_lines (failure_blocker a) (failure_blocker b) s = s
changed_lines (states_blocker xs) b s = s

transition_lines_iff :
    (previous current : Option Blocker)
    → Speaks current
    → (transition_lines (blocker_transition previous current) current ≡ []) ↔ (previous ≡ current)
unfolding blocker_transition
transition_lines_iff none none s = ((λ h. refl), (λ h. refl))
transition_lines_iff none (some b) s = ((λ h. absurd (s h)), (λ h. absurd cc))
transition_lines_iff (some a) none s = ((λ h. absurd cc), (λ h. absurd cc))
transition_lines_iff (some a) (some b) s = elim (Bool-cases (blocker_eq a b)) [
  | inl e ↦ rw e ((λ h. ap some ((blocker_eq_iff a b).0 e)), (λ h. refl))
  | inr e ↦ rw e (
    (λ h. absurd (changed_lines a b s h)),
    (λ h. let same : a ≡ b = cc in absurd (cc ((blocker_eq_iff a b).1 same, e))),
  )
]

append_same_iff : (xs ys : List Text) → (xs ++ ys ≡ xs) ↔ (ys ≡ [])
append_same_iff [] ys = ((λ h. h), (λ h. h))
append_same_iff (x ∷ xs) ys = ground (arith, append_same_iff xs ys)

-- After a run, the session writes the lines for the run itself and no others exactly if the
-- blocker that the run leaves is the one that was known: a blocker is not told again, and one
-- that is new, differs or is gone always is.
pub reconciliation_lines_iff :
    (previous : Option Blocker) (r : RunResult)
    → (reconciliation_lines previous r ≡ result_lines r) ↔ (previous ≡ current_blocker r)
reconciliation_lines_iff previous r =
    let current = current_blocker r in
    let quiet = transition_lines_iff previous current (current_blocker-Speaks r) in
    let cut =
      append_same_iff (result_lines r)
        (transition_lines (blocker_transition previous current) current) in
    ((λ h. quiet.0 (cut.0 h)), (λ h. cut.1 (quiet.1 h)))
