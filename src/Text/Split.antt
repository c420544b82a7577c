-- ===== src/Text/Split.antt =====
-- `str::split` at one byte, and its inverse.
use zwirn.Prelude.{
  ℕ, false, List, [], ◌∷◌, ◌++◌, ◌≡◌, ◌≢◌, refl, ap, ◌∙◌, arith, ◌==◌, if◌then◌else◌, All,
  Bool-cases, inl, inr, ==_iff,
}
use zwirn.Text.{Text, contains}

abbrev pub cons_head : ℕ → List Text → List Text
cons_head b [] = (b ∷ []) ∷ []
cons_head b (s ∷ ss) = (b ∷ s) ∷ ss

unfoldable pub split : ℕ → Text → List Text
split sep [] = [] ∷ []
split sep (b ∷ s) = if b == sep then [] ∷ split sep s else cons_head b (split sep s)

unfoldable pub join : ℕ → List Text → Text
join sep [] = []
join sep (s ∷ []) = s
join sep (s ∷ t ∷ ss) = s ++ (sep ∷ join sep (t ∷ ss))

cons_head-ne-nil : (b : ℕ) (ss : List Text) → cons_head b ss ≢ []
cons_head-ne-nil b [] = λ h. cc
cons_head-ne-nil b (t ∷ ss) = λ h. cc

pub split-ne-nil : (sep : ℕ) (s : Text) → split sep s ≢ []
unfolding split
split-ne-nil sep [] = λ h. cc
split-ne-nil sep (b ∷ s) = elim (Bool-cases (b == sep)) [
  | inl e ↦ rw e (λ h. cc)
  | inr e ↦ rw e (cons_head-ne-nil b (split sep s))
]

join-cons_head : (sep b : ℕ) (ss : List Text) → join sep (cons_head b ss) ≡ b ∷ join sep ss
unfolding join
join-cons_head sep b [] = refl
join-cons_head sep b (s ∷ []) = refl
join-cons_head sep b (s ∷ t ∷ ss) = refl

join-cons_nil : (sep : ℕ) (ss : List Text) → ss ≢ [] → join sep ([] ∷ ss) ≡ sep ∷ join sep ss
unfolding join
join-cons_nil sep [] h = absurd (h refl)
join-cons_nil sep (t ∷ ss) h = refl

pub join-split : (sep : ℕ) (s : Text) → join sep (split sep s) ≡ s
unfolding split
join-split sep [] = unfold join in refl
join-split sep (b ∷ s) = elim (Bool-cases (b == sep)) [
  | inl e ↦ rw e (
      join-cons_nil sep (split sep s) (split-ne-nil sep s)
      ∙ rw (join-split sep s) (ap (λ (c : ℕ). c ∷ s) (ground (arith, ==_iff b sep))))
  | inr e ↦ rw e (join-cons_head sep b (split sep s) ∙ rw (join-split sep s))
]

All-cons_head :
    (sep b : ℕ) (ss : List Text)
    → (b == sep) ≡ false
    → All (λ t. contains t sep ≡ false) ss
    → All (λ t. contains t sep ≡ false) (cons_head b ss)
unfolding contains
All-cons_head sep b [] e h = (rw e refl, tt)
All-cons_head sep b (s ∷ ss) e h = (rw e h.0, h.1)

-- No part holds the separator.
pub split-All : (sep : ℕ) (s : Text) → All (λ t. contains t sep ≡ false) (split sep s)
unfolding split contains
split-All sep [] = (refl, tt)
split-All sep (b ∷ s) = elim (Bool-cases (b == sep)) [
  | inl e ↦ rw e (refl, split-All sep s)
  | inr e ↦ rw e (All-cons_head sep b (split sep s) e (split-All sep s))
]
