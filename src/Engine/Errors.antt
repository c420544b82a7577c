-- ===== src/Engine/Errors.antt =====
-- The error of a refused plan, by the path of the fragment.
use zwirn.Prelude.{
  ℕ, zero, suc, Bool, List, [], ◌∷◌, map, ◌≡◌, inl, inr, refl, some, ok, err, get_elem?,
}
use zwirn.Reconcile.{State, Classification, state, Operation, SelectionKind, PlanError, plan}
use zwirn.Reconcile.Forced.{FirstOther, IsConflict}
use zwirn.Reconcile.Refused.{plan-Refusal}
use zwirn.Engine.{
  InventoryEntry, EngineError, force_requires_explicit_selection, invalid_forced_state, allocation,
  map_plan_error,
}

abbrev pub classification_of : InventoryEntry × Classification → Classification
classification_of (entry, classification) = classification

-- The error names an entry of the batch that is no conflict, in its own state, or none.
abbrev pub NamesOther : List (InventoryEntry × Classification) → EngineError → Type 0
NamesOther classified (invalid_forced_state path s) =
    (i : ℕ) × (entry : InventoryEntry) × (k : Classification) × (get_elem? classified i
      ≡ some (entry, k))
    × (path ≡ entry.path)
    × (s ≡ state k)
    × ¬ IsConflict k
NamesOther classified force_requires_explicit_selection = Unit
NamesOther classified allocation = Unit
NamesOther classified _ = ⊥

FirstOther-get_elem? :
    (classified : List (InventoryEntry × Classification)) (i : ℕ) (s : State)
    → FirstOther (map classification_of classified) i s
    → (entry : InventoryEntry) × (k : Classification) × (get_elem? classified i ≡ some (entry, k))
      × (s ≡ state k)
      × ¬ IsConflict k
FirstOther-get_elem? [] i s h = absurd h
FirstOther-get_elem? ((entry, k) ∷ rest) zero s (other, e) = (entry, k, refl, e, other)
FirstOther-get_elem? ((entry, k) ∷ rest) (suc i) s (c, h) = FirstOther-get_elem? rest i s h

-- If a plan for the classified entries is refused, the index of the error is one of the entries,
-- so that the lookup does not panic, and the error names the path of an entry that is no conflict
-- with its state, where it names one.
pub map_plan_error-NamesOther :
    (can_reserve : ℕ → Bool) (operation : Operation) (selection : SelectionKind)
    (classified : List (InventoryEntry × Classification)) (e : PlanError)
    → plan can_reserve operation selection (map classification_of classified) ≡ err e
    → (f : EngineError) × (map_plan_error e classified ≡ ok f) × NamesOther classified f
unfolding map_plan_error
map_plan_error-NamesOther can_reserve operation selection classified e h =
    elim (plan-Refusal can_reserve operation selection (map classification_of classified) e h) [
      | inl q ↦ (force_requires_explicit_selection, rw q refl, tt)
      | inr (inl (i, s, q, first)) ↦
          let (entry, k, found, same, other) = FirstOther-get_elem? classified i s first in
          (
            invalid_forced_state entry.path s,
            rw (q, found) refl,
            (i, entry, k, found, refl, same, other),
          )
      | inr (inr q) ↦ (allocation, rw q refl, tt)
    ]
