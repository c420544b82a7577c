-- ===== src/Reconcile/Forced.antt =====
-- A forced batch is validated as a whole, and a plan never panics.
use zwirn.Prelude.{
  ℕ, zero, suc, ◌+◌, Bool, true, false, not, List, [], ◌∷◌, ◌≡◌, ◌≢◌, ◌⊎◌, inl, inr, refl, sym, ap,
  ◌∙◌, none, some, arith, Result, ok, err, panic, Bool-cases, All, length, replicate, >>=-eq-ok,
  >>=-eq-err, >>=-ne-panic, require, is_nil,
}
use zwirn.Reconcile.{
  State, Classification, state, Operation, SelectionKind, explicit, Action, is_explicit, can_force,
  Decision, act, PlanError, force_requires_explicit_selection, allocation_failed,
  invalid_forced_state, plan_one, plan, plan_each, forced_action, validate_forced, reserve_plan,
  plan_forced,
}

abbrev pub IsConflict : Classification → Type 0
IsConflict k = (k ≡ Classification.conflict) ⊎ (k ≡ Classification.unadopted_conflict)

-- The first classification that is no conflict stands at index `i` and has the state `s`.
abbrev pub FirstOther : List Classification → ℕ → State → Type 0
FirstOther [] i s = ⊥
FirstOther (k ∷ ks) zero s = ¬ IsConflict k × (s ≡ state k)
FirstOther (k ∷ ks) (suc i) s = IsConflict k × FirstOther ks i s

can_force-IsConflict : (k : Classification) → can_force k ≡ true → IsConflict k
can_force-IsConflict k h = ground arith

can_force-not : (k : Classification) → can_force k ≡ false → ¬ IsConflict k
can_force-not k h = λ c. elim c [ inl e ↦ cc | inr e ↦ cc ]

validate_forced-ok :
    (index : ℕ) (ks : List Classification) → validate_forced index ks ≡ ok tt → All IsConflict ks
unfolding validate_forced
validate_forced-ok index [] h = tt
validate_forced-ok index (k ∷ ks) h = elim (Bool-cases (can_force k)) [
  | inl e ↦ (can_force-IsConflict k e, validate_forced-ok (index + 1) ks (rw e at h))
  | inr e ↦ absurd (cc (rw e at h))
]

validate_forced-err :
    (index : ℕ) (ks : List Classification) (e : PlanError)
    → validate_forced index ks ≡ err e
    → (i : ℕ) × (s : State) × (e ≡ invalid_forced_state (index + i) s) × FirstOther ks i s
unfolding validate_forced
validate_forced-err index [] e h = absurd (cc)
validate_forced-err index (k ∷ ks) e h = elim (Bool-cases (can_force k)) [
  | inl c ↦
      let (i, s, q, f) = validate_forced-err (index + 1) ks e (rw c at h) in
      (
        suc i,
        s,
        q ∙ ap (λ j. invalid_forced_state j s) (omega arith),
        (can_force-IsConflict k c, f),
      )
  | inr c ↦
      let h' = rw c at h in
      (
        0,
        state k,
        error e h' ∙ ap (λ j. invalid_forced_state j (state k)) (omega arith),
        (can_force-not k c, refl),
      )
]
  where
    error :
        (e : PlanError)
        → ◌≡◌ {A = Result PlanError (Unit {0})} (err (invalid_forced_state index (state k))) (err e)
        → e ≡ invalid_forced_state index (state k)
    error e h = cc

module _ (can_reserve : ℕ → Bool) (operation : Operation) (action : Action)
    (forced : forced_action operation ≡ some action) (selection : SelectionKind)
    (ks : List Classification) where
  plan-forced :
      plan can_reserve operation selection ks ≡ plan_forced can_reserve action selection ks
  unfolding plan
  plan-forced = rw (forced, plan)

  -- A forced batch that is planned was selected explicitly, is not empty, holds conflicts only,
  -- and gets the forced action at every place.
  pub plan-forced_ok :
      (ds : List Decision)
      → plan can_reserve operation selection ks ≡ ok ds
      → (selection ≡ explicit)
        × (ks ≢ [])
        × All IsConflict ks
        × (ds ≡ replicate (length ks) (act action))
  unfolding plan_forced
  plan-forced_ok ds h =
      let h' = sym plan-forced ∙ h in
      let (_, e₁, r₁) = >>=-eq-ok (require (is_explicit selection) _) _ h' in
      let (_, e₂, r₂) = >>=-eq-ok (require (not (is_nil ks)) _) _ r₁ in
      let (_, e₃, r₃) = >>=-eq-ok (validate_forced 0 ks) _ r₂ in
      let (_, e₄, r₄) = >>=-eq-ok (reserve_plan can_reserve (length ks)) _ r₃ in
      (ground arith, ground arith, validate_forced-ok 0 ks e₃, cc)

  -- A forced batch is refused for one of three reasons: it was not selected explicitly or is
  -- empty; it holds a fragment that is no conflict, and the error names the first one with its
  -- state; or the allocator cannot hold the plan.
  pub plan-forced_err :
      (e : PlanError)
      → plan can_reserve operation selection ks ≡ err e
      → ((e ≡ force_requires_explicit_selection) × ((selection ≢ explicit) ⊎ (ks ≡ [])))
        ⊎ ((selection ≡ explicit)
            × ((i : ℕ) × (s : State) × (e ≡ invalid_forced_state i s) × FirstOther ks i s))
        ⊎ ((e ≡ allocation_failed) × (can_reserve (length ks) ≡ false))
  unfolding plan_forced
  plan-forced_err e h =
      elim (>>=-eq-err (require (is_explicit selection) _) _ (sym plan-forced ∙ h)) [
        | inl b₁ ↦ inl (ground arith, inl (ground arith))
        | inr (_, e₁, r₁) ↦ elim (>>=-eq-err (require (not (is_nil ks)) _) _ r₁) [
          | inl b₂ ↦ inl (ground arith, inr (ground arith))
          | inr (_, e₂, r₂) ↦ elim (>>=-eq-err (validate_forced 0 ks) _ r₂) [
            | inl b₃ ↦
                let (i, s, q, f) = validate_forced-err 0 ks e b₃ in
                inr (
                  inl
                    (ground arith, (i, s, q ∙ ap (λ j. invalid_forced_state j s) (omega arith), f)))
            | inr (_, e₃, r₃) ↦ inr (inr (ground arith, ground arith))
          ]
        ]
      ]

plan_one-ne-panic :
    (operation : Operation) (selection : SelectionKind) (k : Classification)
    → forced_action operation ≡ none
    → plan_one operation selection k ≢ panic
unfolding plan_one
plan_one-ne-panic operation selection k h = ground arith

plan_each-ne-panic :
    (operation : Operation) (selection : SelectionKind) (ks : List Classification)
    → forced_action operation ≡ none
    → plan_each operation selection ks ≢ panic
unfolding plan_each
plan_each-ne-panic operation selection [] h = λ q. cc
plan_each-ne-panic operation selection (k ∷ ks) h =
    >>=-ne-panic (plan_one operation selection k) _ (plan_one-ne-panic operation selection k h)
      (λ d.
        >>=-ne-panic (plan_each operation selection ks) _
          (plan_each-ne-panic operation selection ks h) (λ ds q. cc))

validate_forced-ne-panic : (index : ℕ) (ks : List Classification) → validate_forced index ks ≢ panic
unfolding validate_forced
validate_forced-ne-panic index [] = λ q. cc
validate_forced-ne-panic index (k ∷ ks) = ground (arith, validate_forced-ne-panic (index + 1) ks)

-- No plan reaches the `unreachable!` of the code, forced or not.
pub plan-ne-panic :
    (can_reserve : ℕ → Bool) (operation : Operation) (selection : SelectionKind)
    (ks : List Classification)
    → plan can_reserve operation selection ks ≢ panic
unfolding plan
plan-ne-panic r (Operation.embed true) selection ks = ground (arith, validate_forced-ne-panic 0 ks)
plan-ne-panic r (Operation.extract true) selection ks =
    ground (arith, validate_forced-ne-panic 0 ks)
plan-ne-panic r (Operation.embed false) selection ks =
    ground (arith, plan_each-ne-panic (Operation.embed false) selection ks refl)
plan-ne-panic r (Operation.extract false) selection ks =
    ground (arith, plan_each-ne-panic (Operation.extract false) selection ks refl)
plan-ne-panic r Operation.sync selection ks =
    ground (arith, plan_each-ne-panic Operation.sync selection ks refl)
