-- ===== src/Reconcile/Refused.antt =====
-- Why a plan is refused, forced or not.
use zwirn.Prelude.{
  ℕ, Bool, true, false, List, [], ◌∷◌, ◌≡◌, ◌≢◌, ◌⊎◌, inl, inr, refl, arith, some, err, length,
  >>=-eq-err, require,
}
use zwirn.Reconcile.{
  State, Classification, Operation, SelectionKind, PlanError, force_requires_explicit_selection,
  allocation_failed, invalid_forced_state, forced_action, plan_one, plan_each, plan, plan_unforced,
  reserve_plan, Action,
}
use zwirn.Reconcile.Forced.{FirstOther, plan-forced_err}

plan_one-ne-err :
    (operation : Operation) (selection : SelectionKind) (k : Classification) (e : PlanError)
    → plan_one operation selection k ≢ err e
unfolding plan_one
plan_one-ne-err operation selection k e h = ground arith

plan_each-ne-err :
    (operation : Operation) (selection : SelectionKind) (ks : List Classification) (e : PlanError)
    → plan_each operation selection ks ≢ err e
unfolding plan_each
plan_each-ne-err operation selection [] e = λ h. cc
plan_each-ne-err operation selection (k ∷ ks) e = λ h.
    elim (>>=-eq-err (plan_one operation selection k) _ h) [
      | inl b ↦ plan_one-ne-err operation selection k e b
      | inr (d, q, r) ↦ elim (>>=-eq-err (plan_each operation selection ks) _ r) [
        | inl b ↦ plan_each-ne-err operation selection ks e b
        | inr (ds, q', r') ↦ cc
      ]
    ]

-- The three reasons; the index in the second is that of the first fragment that is no conflict.
abbrev pub Refusal : List Classification → PlanError → Type 0
Refusal ks e =
    (e ≡ force_requires_explicit_selection)
    ⊎ ((i : ℕ) × (s : State) × (e ≡ invalid_forced_state i s) × FirstOther ks i s)
    ⊎ (e ≡ allocation_failed)

module _ (can_reserve : ℕ → Bool) (operation : Operation) (selection : SelectionKind)
    (ks : List Classification) (e : PlanError) where
  forced-Refusal :
      (action : Action)
      → forced_action operation ≡ some action
      → plan can_reserve operation selection ks ≡ err e
      → Refusal ks e
  forced-Refusal action forced h =
      elim (plan-forced_err can_reserve operation action forced selection ks e h) [
        | inl b ↦ inl b.0
        | inr (inl b) ↦ inr (inl b.1)
        | inr (inr b) ↦ inr (inr b.0)
      ]

  unforced-Refusal : plan_unforced can_reserve operation selection ks ≡ err e → Refusal ks e
  unfolding plan_unforced reserve_plan
  unforced-Refusal h = elim (>>=-eq-err (require (can_reserve (length ks)) allocation_failed) _ h) [
    | inl b ↦ inr (inr (ground arith))
    | inr (u, q, r) ↦ absurd (plan_each-ne-err operation selection ks e r)
  ]

pub plan-Refusal :
    (can_reserve : ℕ → Bool) (operation : Operation) (selection : SelectionKind)
    (ks : List Classification) (e : PlanError)
    → plan can_reserve operation selection ks ≡ err e
    → Refusal ks e
unfolding plan
plan-Refusal r (Operation.embed true) selection ks e =
    forced-Refusal r (Operation.embed true) selection ks e Action.embed refl
plan-Refusal r (Operation.extract true) selection ks e =
    forced-Refusal r (Operation.extract true) selection ks e Action.extract refl
plan-Refusal r (Operation.embed false) selection ks e =
    unforced-Refusal r (Operation.embed false) selection ks e
plan-Refusal r (Operation.extract false) selection ks e =
    unforced-Refusal r (Operation.extract false) selection ks e
plan-Refusal r Operation.sync selection ks e = unforced-Refusal r Operation.sync selection ks e
