-- ===== src/Reconcile/Safety.antt =====
-- What an operation that is not forced may overwrite, and how the two directions mirror each other.
use zwirn.Prelude.{
  ℕ, List, ◌≡◌, ◌≢◌, ◌⊎◌, inl, inr, refl, Option, none, some, arith, Result, ok, err, panic,
}
use zwirn.Text.{Text, text_eq_iff}
use zwirn.Fragment.Canonical.{CanonicalSource, source_eq}
use zwirn.Fragment.Hash.{BaselineHash, from_source}
use zwirn.Reconcile.{
  State, absent, Classification, classify, Operation, SelectionKind, Action, record_hash, Decision,
  settled, act, unresolved, PlanError, plan_one, forced_action,
}
use zwirn.Reconcile.States.{Copies, classify_copies}

module _ (digest : Text → List ℕ) where
  -- The action loses no change made since the recorded baseline: a file is overwritten only if
  -- there is none or its hash is the baseline, embedded source only if its hash is the baseline,
  -- and a hash is recorded only where both copies are equal.
  abbrev pub LosesNothing : Copies → Action → Type 0
  LosesNothing c record_hash = c.filesystem ≡ some c.embedded
  LosesNothing c Action.extract =
      (c.filesystem ≡ none)
      ⊎ ((source : CanonicalSource) × (c.filesystem ≡ some source)
          × (c.baseline ≡ some (from_source digest source.text)))
  LosesNothing c Action.embed = c.baseline ≡ some (from_source digest c.embedded.text)

  plan_one-LosesNothing_of :
      (operation : Operation) (selection : SelectionKind) (embedded : CanonicalSource)
      (baseline : Option BaselineHash) (filesystem : Option CanonicalSource) (a : Action)
      → forced_action operation ≡ none
      → plan_one operation selection (classify digest embedded baseline filesystem) ≡ ok (act a)
      → LosesNothing
          (record { embedded = embedded; baseline = baseline; filesystem = filesystem })
          a
  unfolding plan_one classify
  plan_one-LosesNothing_of operation selection e none none record_hash n h = ground arith
  plan_one-LosesNothing_of operation selection e none none Action.embed n h = ground arith
  plan_one-LosesNothing_of operation selection e none none Action.extract n h = inl refl
  plan_one-LosesNothing_of operation selection e none (some f) record_hash n h =
      ground (arith, text_eq_iff f.text e.text)
  plan_one-LosesNothing_of operation selection e none (some f) Action.embed n h = ground arith
  plan_one-LosesNothing_of operation selection e none (some f) Action.extract n h =
      absurd (ground arith)
  plan_one-LosesNothing_of operation selection e (some b) none record_hash n h = ground arith
  plan_one-LosesNothing_of operation selection e (some b) none Action.embed n h = ground arith
  plan_one-LosesNothing_of operation selection e (some b) none Action.extract n h = inl refl
  plan_one-LosesNothing_of operation selection e (some b) (some f) record_hash n h =
      ground (arith, text_eq_iff f.text e.text)
  plan_one-LosesNothing_of operation selection e (some b) (some f) Action.embed n h =
      ground (arith, text_eq_iff (from_source digest e.text).bytes b.bytes)
  plan_one-LosesNothing_of operation selection e (some b) (some f) Action.extract n h =
      inr (f, refl, ground (arith, text_eq_iff (from_source digest f.text).bytes b.bytes))

  -- Without force, the action planned for a fragment loses no change made on either side since
  -- the recorded baseline, whatever is selected.
  pub plan_one-LosesNothing :
      (operation : Operation) (selection : SelectionKind) (c : Copies) (a : Action)
      → forced_action operation ≡ none
      → plan_one operation selection (classify_copies digest c) ≡ ok (act a)
      → LosesNothing c a
  plan_one-LosesNothing operation selection c =
      plan_one-LosesNothing_of operation selection c.embedded c.baseline c.filesystem

-- The same from the other side: embedding and extracting change places.
abbrev pub mirror_operation : Operation → Operation
mirror_operation (Operation.embed force) = Operation.extract force
mirror_operation (Operation.extract force) = Operation.embed force
mirror_operation Operation.sync = Operation.sync

abbrev pub mirror_state : State → State
mirror_state State.embed = State.extract
mirror_state State.extract = State.embed
mirror_state s = s

abbrev pub mirror_action : Action → Action
mirror_action Action.embed = Action.extract
mirror_action Action.extract = Action.embed
mirror_action record_hash = record_hash

abbrev pub mirror_decision : Decision → Decision
mirror_decision settled = settled
mirror_decision (act a) = act (mirror_action a)
mirror_decision (unresolved s) = unresolved (mirror_state s)

abbrev pub mirror_result : Result PlanError Decision → Result PlanError Decision
mirror_result (ok d) = ok (mirror_decision d)
mirror_result (err e) = err e
mirror_result panic = panic

abbrev mirror : Classification → Classification
mirror Classification.embed = Classification.extract
mirror Classification.extract = Classification.embed
mirror k = k

module _ (digest : Text → List ℕ) where
  source_eq_comm : (a b : CanonicalSource) → source_eq a b ≡ source_eq b a
  source_eq_comm a b = ground (arith, text_eq_iff a.text b.text, text_eq_iff b.text a.text)

  classify-mirror :
      (left right : CanonicalSource) (baseline : Option BaselineHash)
      → classify digest right baseline (some left)
        ≡ mirror (classify digest left baseline (some right))
  unfolding classify
  classify-mirror left right none = ground (arith, source_eq_comm left right)
  classify-mirror left right (some b) =
      ground (arith, source_eq_comm left right, text_eq_iff left.text right.text)

  plan_one-mirror :
      (operation : Operation) (selection : SelectionKind) (k : Classification)
      → k ≢ Classification.unadopted absent
      → k ≢ Classification.missing
      → plan_one (mirror_operation operation) selection (mirror k)
        ≡ mirror_result (plan_one operation selection k)
  unfolding plan_one
  plan_one-mirror operation selection k h₁ h₂ = ground arith

  classify-present :
      (embedded filesystem : CanonicalSource) (baseline : Option BaselineHash)
      → (classify digest embedded baseline (some filesystem) ≢ Classification.unadopted absent)
        × (classify digest embedded baseline (some filesystem) ≢ Classification.missing)
  unfolding classify
  classify-present e f none = ground arith
  classify-present e f (some b) = ground arith

  -- Where both copies are there, exchanging them and the direction of the operation exchanges the
  -- direction of the decision: neither side is preferred.
  pub plan_one-exchange :
      (operation : Operation) (selection : SelectionKind) (left right : CanonicalSource)
      (baseline : Option BaselineHash)
      → plan_one (mirror_operation operation) selection (classify digest right baseline (some left))
        ≡ mirror_result (plan_one operation selection (classify digest left baseline (some right)))
  plan_one-exchange operation selection left right baseline =
      let (h₁, h₂) = classify-present left right baseline in
      rw (classify-mirror left right baseline) (plan_one-mirror operation selection _ h₁ h₂)
