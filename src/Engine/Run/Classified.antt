-- ===== src/Engine/Run/Classified.antt =====
-- src/engine.rs: the classification of the selected entries.
use zwirn.Prelude.{ℕ, List, [], ◌∷◌, map, ◌≡◌, refl, ap}
use zwirn.Text.{Text}
use zwirn.Reconcile.{Classification, classify}
use zwirn.Reconcile.States.{classify_copies}
use zwirn.Engine.{InventoryEntry}
use zwirn.Engine.Exit.{copies_of}
use zwirn.Engine.Errors.{classification_of}
use zwirn.Engine.Run.{entry_of}

module _ (digest : Text → List ℕ) where
  -- Each entry with the classification of its copies.
  abbrev pub classified_of : List InventoryEntry → List (InventoryEntry × Classification)
  classified_of selected =
      map (λ e. (e, classify digest e.embedded e.baseline e.filesystem)) selected

  pub classifications :
      (selected : List InventoryEntry)
      → map classification_of (classified_of selected)
        ≡ map (classify_copies digest) (map copies_of selected)
  classifications [] = refl
  classifications (e ∷ es) =
      ap (λ ks. classify_copies digest (copies_of e) ∷ ks) (classifications es)

  pub entries_of :
      (selected : List InventoryEntry) → map entry_of (classified_of selected) ≡ selected
  entries_of [] = refl
  entries_of (e ∷ es) = ap (λ rest. e ∷ rest) (entries_of es)
