-- ===== src/TreeMap/Laws.antt =====
-- Lookup after insertion, and the order of the keys.
use mathlib.Core.Path.{subst}
use zwirn.Prelude.{Bool-cases, inl, inr, true, [], ◌∷◌, ◌≡◌, refl, arith, some, if◌then◌else◌, All}
use zwirn.TreeMap.{Key, TreeMap, get, insert, keys}

module _ {ℓ κ} {K : Type ℓ} {V : Type κ} ⦃o : Key K⦄ where
  pub get-insert :
      (j k : K) (v : V) (m : TreeMap K V)
      → get j (insert k v m) ≡ (if o.eq k j then some v else get j m)
  unfolding get insert
  get-insert j k v [] = refl
  get-insert j k v ((i, w) ∷ m) =
      ground (arith, get-insert j k v m, o.eq_iff i k, o.eq_iff k j, o.eq_iff i j)

  -- The keys rise strictly.
  abbrev pub IsSorted : TreeMap K V → Type 0
  IsSorted [] = Unit
  IsSorted ((k, v) ∷ m) = All (λ j. o.lt k j ≡ true) (keys m) × IsSorted m

  abbrev Lower : K → TreeMap K V → Type 0
  Lower k m = All (λ j. o.lt k j ≡ true) (keys m)

  Lower-insert :
      (k j : K) (v : V) (m : TreeMap K V) → o.lt k j ≡ true → Lower k m → Lower k (insert j v m)
  unfolding insert keys
  Lower-insert k j v [] h l = (h, tt)
  Lower-insert k j v ((i, w) ∷ m) h l = ground (arith, Lower-insert k j v m h l.1)

  Lower-trans : (k j : K) (m : TreeMap K V) → o.lt k j ≡ true → Lower j m → Lower k m
  unfolding keys
  Lower-trans k j [] h l = tt
  Lower-trans k j ((i, w) ∷ m) h l = (o.lt_trans k j i h l.0, Lower-trans k j m h l.1)

  pub insert-IsSorted : (k : K) (v : V) (m : TreeMap K V) → IsSorted m → IsSorted (insert k v m)
  unfolding insert keys
  insert-IsSorted k v [] s = (tt, tt)
  insert-IsSorted k v ((j, w) ∷ m) s = elim (Bool-cases (o.eq j k)) [
    | inl e ↦ let same : j ≡ k = (o.eq_iff j k).0 e in rw e (subst (λ i. Lower i m) same s.0, s.1)
    | inr e ↦ elim (Bool-cases (o.lt k j)) [
      | inl l ↦ rw (e, l) ((l, Lower-trans k j m l s.0), s)
      | inr l ↦
          let above : o.lt j k ≡ true = elim (o.lt_total j k) [
            | inl h ↦ h
            | inr (inl h) ↦ absurd (cc ((o.eq_iff j k).1 h, e))
            | inr (inr h) ↦ absurd (cc (h, l))
          ] in
          rw (e, l) (Lower-insert j k v m above s.0, insert-IsSorted k v m s.1)
    ]
  ]
