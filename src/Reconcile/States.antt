-- ===== src/Reconcile/States.antt =====
-- What each state says of the two copies of a fragment and of the recorded hash.
use mathlib.Core.Path.{subst}
use zwirn.Prelude.{ℕ, List, ◌≡◌, ◌≢◌, ◌⊎◌, refl, sym, Option, none, some, arith}
use zwirn.Text.{Text, text_eq_iff}
use zwirn.Fragment.Canonical.{CanonicalSource}
use zwirn.Fragment.Hash.{BaselineHash, from_source}
use zwirn.Reconcile.{State, state, Classification, classify}

-- The two copies of a fragment and the recorded baseline.
pub record Copies : Type 0 where
  pub embedded : CanonicalSource
  pub baseline : Option BaselineHash
  pub filesystem : Option CanonicalSource

module _ (digest : Text → List ℕ) where
  abbrev pub classify_copies : Copies → Classification
  classify_copies c = classify digest c.embedded c.baseline c.filesystem

  abbrev pub HasHash : CanonicalSource → BaselineHash → Type 0
  HasHash source baseline = from_source digest source.text ≡ baseline

  -- The table of states: what each says of the embedded source, the baseline and the file. It does
  -- not look at how the code finds the state.
  abbrev pub InState :
      CanonicalSource → Option BaselineHash → Option CanonicalSource → State → Type 0
  InState e none none State.unadopted = Unit
  InState e none (some f) State.unadopted = f ≡ e
  InState e none (some f) State.unadopted_conflict = f ≢ e
  InState e (some b) none State.missing = Unit
  InState e (some b) (some f) State.synchronized = (f ≡ e) × HasHash e b
  InState e (some b) (some f) State.converged = (f ≡ e) × ¬ HasHash e b
  InState e (some b) (some f) State.embed = (f ≢ e) × HasHash e b × ¬ HasHash f b
  InState e (some b) (some f) State.extract = (f ≢ e) × HasHash f b × ¬ HasHash e b
  InState e (some b) (some f) State.conflict =
      (f ≢ e) × ((HasHash e b × HasHash f b) ⊎ (¬ HasHash e b × ¬ HasHash f b))
  InState e baseline filesystem s = ⊥

  abbrev pub IsInState : Copies → State → Type 0
  IsInState c s = InState c.embedded c.baseline c.filesystem s

  -- The copies are equal, and their hash is the baseline.
  abbrev pub IsSynchronized : Copies → Type 0
  IsSynchronized c = IsInState c State.synchronized

  classify-InState :
      (e : CanonicalSource) (baseline : Option BaselineHash) (filesystem : Option CanonicalSource)
      → InState e baseline filesystem (state (classify digest e baseline filesystem))
  unfolding classify
  classify-InState e none none = tt
  classify-InState e none (some f) = ground (arith, text_eq_iff f.text e.text)
  classify-InState e (some b) none = tt
  classify-InState e (some b) (some f) = ground (
    arith,
    text_eq_iff f.text e.text,
    text_eq_iff (from_source digest e.text).bytes b.bytes,
    text_eq_iff (from_source digest f.text).bytes b.bytes,
  )

  pub classify-IsInState : (c : Copies) → IsInState c (state (classify_copies c))
  classify-IsInState c = classify-InState c.embedded c.baseline c.filesystem

  InState-synchronized :
      (e : CanonicalSource) (baseline : Option BaselineHash) (filesystem : Option CanonicalSource)
      (s : State)
      → InState e baseline filesystem State.synchronized
      → InState e baseline filesystem s
      → s ≡ State.synchronized
  InState-synchronized e none none s h k = elim h [ ]
  InState-synchronized e none (some f) s h k = elim h [ ]
  InState-synchronized e (some b) none s h k = elim h [ ]
  InState-synchronized e (some b) (some f) State.synchronized h k = refl
  InState-synchronized e (some b) (some f) State.converged (q, r) (_, n) = absurd (n r)
  InState-synchronized e (some b) (some f) State.embed (q, r) (n, _, _) = absurd (n q)
  InState-synchronized e (some b) (some f) State.extract (q, r) (n, _, _) = absurd (n q)
  InState-synchronized e (some b) (some f) State.conflict (q, r) (n, _) = absurd (n q)
  InState-synchronized e (some b) (some f) State.unadopted h k = elim k [ ]
  InState-synchronized e (some b) (some f) State.unadopted_conflict h k = elim k [ ]
  InState-synchronized e (some b) (some f) State.missing h k = elim k [ ]

  -- A fragment in another state is not synchronized.
  pub IsInState-other :
      (c : Copies) (s : State) → IsInState c s → s ≢ State.synchronized → ¬ IsSynchronized c
  IsInState-other c s h n q = n (InState-synchronized c.embedded c.baseline c.filesystem s q h)

  pub synchronized_of_equal :
      (source : CanonicalSource) (filesystem : Option CanonicalSource)
      → filesystem ≡ some source
      → InState source (some (from_source digest source.text)) filesystem State.synchronized
  synchronized_of_equal source filesystem e =
      subst (λ f. InState source (some (from_source digest source.text)) f State.synchronized)
        (sym e) (refl, refl)
