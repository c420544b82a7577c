-- ===== src/Commit/Order.antt =====
-- The order that a commit asks of its outputs.
use zwirn.Prelude.{
  true, false, List, [], ◌∷◌, ◌++◌, ◌≡◌, ◌≢◌, ◌↔◌, inl, inr, refl, ap, arith, ok, err, panic, All,
  Bool-cases,
}
use zwirn.Text.Order.{text_lt_trans}
use zwirn.Fragment.Path.{FragmentPath}
use zwirn.Commit.{
  ExternalOutput, path_lt, external_order, CommitError, validate_after, validate_order,
}

abbrev Above : FragmentPath → List ExternalOutput → Type 0
Above path os = All (λ (o : ExternalOutput). path_lt path o.path ≡ true) os

-- Each path is below all those behind it.
abbrev pub Ascending : List ExternalOutput → Type 0
Ascending [] = Unit
Ascending (o ∷ os) = Above o.path os × Ascending os

Above-trans :
    (a b : FragmentPath) (os : List ExternalOutput) → path_lt a b ≡ true → Above b os → Above a os
Above-trans a b [] h k = tt
Above-trans a b (o ∷ os) h k =
    (text_lt_trans a.text b.text o.path.text h k.0, Above-trans a b os h k.1)

module _ {I : Type 0} where
  validate_after-ok :
      (previous : FragmentPath) (os : List ExternalOutput)
      → validate_after {I = I} previous os ≡ ok tt
      → Above previous os × Ascending os
  unfolding validate_after
  validate_after-ok previous [] h = (tt, tt)
  validate_after-ok previous (o ∷ os) h = elim (Bool-cases (path_lt previous o.path)) [
    | inl e ↦
        let (above, ascending) = validate_after-ok o.path os (rw e at h) in
        ((e, Above-trans previous o.path os e above), (above, ascending))
    | inr e ↦ absurd (cc (rw e at h))
  ]

  validate_after-Ascending :
      (previous : FragmentPath) (os : List ExternalOutput)
      → Above previous os
      → Ascending os
      → validate_after {I = I} previous os ≡ ok tt
  unfolding validate_after
  validate_after-Ascending previous [] h k = refl
  validate_after-Ascending previous (o ∷ os) h k =
      rw (h.0) (validate_after-Ascending o.path os k.0 k.1)

  pub validate_order_iff :
      (external : List ExternalOutput)
      → (validate_order {I = I} external ≡ ok tt) ↔ Ascending external
  unfolding validate_order
  validate_order_iff [] = (λ h. tt, λ h. refl)
  validate_order_iff (o ∷ os) =
      (validate_after-ok o.path os, λ h. validate_after-Ascending o.path os h.0 h.1)

  -- Two neighbours that are out of order.
  pub data Descent (external : List ExternalOutput) : CommitError I → Type 0 where
    descent :
        (before after : List ExternalOutput) (a b : ExternalOutput)
        → external ≡ before ++ (a ∷ b ∷ after)
        → path_lt a.path b.path ≡ false
        → Descent external (record { completed = []; failure = external_order a.path b.path })

  deeper-Descent :
      (a : ExternalOutput) (os : List ExternalOutput) (e : CommitError I)
      → Descent os e
      → Descent (a ∷ os) e
  deeper-Descent a os e (descent before after b c q h) =
      descent (a ∷ before) after b c (ap (◌∷◌ a) q) h

  validate_after-Descent :
      (a : ExternalOutput) (os : List ExternalOutput) (e : CommitError I)
      → validate_after a.path os ≡ err e
      → Descent (a ∷ os) e
  unfolding validate_after
  validate_after-Descent a [] e h = absurd cc
  validate_after-Descent a (b ∷ os) e h = elim (Bool-cases (path_lt a.path b.path)) [
    | inl less ↦ deeper-Descent a (b ∷ os) e (validate_after-Descent b os e (rw less at h))
    | inr more ↦
        let same : record { completed = []; failure = external_order a.path b.path } ≡ e =
          cc (rw more at h) in
        rw (← same) (descent [] os a b refl more)
  ]

  pub validate_order-Descent :
      (external : List ExternalOutput) (e : CommitError I)
      → validate_order external ≡ err e
      → Descent external e
  unfolding validate_order
  validate_order-Descent [] e h = absurd cc
  validate_order-Descent (o ∷ os) e h = validate_after-Descent o os e h

  validate_after-ne-panic :
      (previous : FragmentPath) (os : List ExternalOutput)
      → validate_after {I = I} previous os ≢ panic
  unfolding validate_after
  validate_after-ne-panic previous [] = λ q. cc
  validate_after-ne-panic previous (o ∷ os) = ground (arith, validate_after-ne-panic o.path os)
