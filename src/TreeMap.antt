-- ===== src/TreeMap.antt =====
-- Rust's `BTreeMap` as an association list in the order of its keys, over any ordered key.
pub mod Laws
pub mod Nat
use zwirn.Prelude.{
  ℕ, Bool, true, false, List, [], ◌∷◌, ◌≡◌, ◌≢◌, ◌↔◌, ◌⊎◌, Option, none, some, if◌then◌else◌,
}

-- `Ord` of a key type.
pub record Key {ℓ} (K : Type ℓ) : Type ℓ where
  pub lt : K → K → Bool
  pub eq : K → K → Bool
  pub eq_iff : (a b : K) → (eq a b ≡ true) ↔ (a ≡ b)
  pub lt_irrefl : (a : K) → lt a a ≡ false
  pub lt_trans : (a b c : K) → lt a b ≡ true → lt b c ≡ true → lt a c ≡ true
  pub lt_total : (a b : K) → (lt a b ≡ true) ⊎ (a ≡ b) ⊎ (lt b a ≡ true)

abbrev pub TreeMap {ℓ κ} : Type ℓ → Type κ → Type (ℓ ⊔ κ)
TreeMap K V = List (K × V)

module _ {ℓ κ} {K : Type ℓ} {V : Type κ} ⦃o : Key K⦄ where
  -- `get`.
  unfoldable pub get : K → TreeMap K V → Option V
  get k [] = none
  get k ((j, v) ∷ m) = if o.eq j k then some v else get k m

  -- `insert`; the value that it replaces is what `get` finds before.
  unfoldable pub insert : K → V → TreeMap K V → TreeMap K V
  insert k v [] = (k, v) ∷ []
  insert k v ((j, w) ∷ m) =
      if o.eq j k
      then (k, v) ∷ m
      else if o.lt k j
      then (k, v) ∷ (j, w) ∷ m
      else (j, w) ∷ insert k v m

-- `keys`.
unfoldable pub keys {ℓ κ} : {K : Type ℓ} {V : Type κ} → TreeMap K V → List K
keys [] = []
keys ((k, v) ∷ m) = k ∷ keys m

module _ {ℓ κ} {K : Type ℓ} {V : Type κ} ⦃o : Key K⦄ where
  -- `range(..k).next_back()`.
  unfoldable pub last_below : K → TreeMap K V → Option (K × V)
  last_below k [] = none
  last_below k ((j, v) ∷ m) =
      if o.lt j k
      then elim (last_below k m) [ none ↦ some (j, v) | some entry ↦ some entry ]
      else none

  -- `range(k..).next()`.
  unfoldable pub first_from : K → TreeMap K V → Option (K × V)
  first_from k [] = none
  first_from k ((j, v) ∷ m) = if o.lt j k then first_from k m else some (j, v)
