-- ===== src/Reconcile/Synchronize.antt =====
-- What the decisions of a plan achieve: each of them settles its fragment, or leaves it for the user.
use mathlib.Core.List.{Forall₂}
use mathlib.Core.Path.{subst}
use zwirn.Prelude.{
  ap, sym, ◌+◌, Bool-cases, ℕ, Bool, true, false, List, [], ◌∷◌, ◌≡◌, ◌≢◌, ◌⊎◌, inl, inr, refl,
  Option, none, some, arith, ok, map, length, replicate, >>=-eq-ok, require, is_nil, not,
}
use zwirn.Text.{Text, text_eq_iff}
use zwirn.Fragment.Canonical.{CanonicalSource}
use zwirn.Fragment.Hash.{BaselineHash, from_source}
use zwirn.Reconcile.States.{
  Copies, classify_copies, IsInState, IsSynchronized, classify-IsInState, synchronized_of_equal,
}
use zwirn.Reconcile.{
  State, matching, Classification, state, classify, Operation, SelectionKind, Action, record_hash,
  Decision, settled, act, unresolved, plan_one, plan, plan_each, plan_forced, plan_unforced,
  validate_forced, reserve_plan, can_force, is_explicit,
}

-- What a decision says of the classification that it is for.
abbrev Fits : Classification → Decision → Type 0
Fits k settled = k ≡ Classification.synchronized
Fits k (act record_hash) = (k ≡ Classification.unadopted matching) ⊎ (k ≡ Classification.converged)
Fits k (act Action.embed) = k ≡ Classification.embed
Fits k (act Action.extract) = Unit
Fits k (unresolved s) = (s ≡ state k) × (k ≢ Classification.synchronized)

plan_one-Fits :
    (operation : Operation) (selection : SelectionKind) (k : Classification) (d : Decision)
    → plan_one operation selection k ≡ ok d
    → Fits k d
unfolding plan_one
plan_one-Fits operation selection k settled h = ground arith
plan_one-Fits operation selection k (act record_hash) h = ground arith
plan_one-Fits operation selection k (act Action.embed) h = ground arith
plan_one-Fits operation selection k (act Action.extract) h = tt
plan_one-Fits operation selection k (unresolved s) h = ground arith

module _ (digest : Text → List ℕ) where
  abbrev pub carry_embed : Copies → Option CanonicalSource → Option Copies
  carry_embed c none = none
  carry_embed c (some source) =
      some (record c { embedded = source; baseline = some (from_source digest source.text) })

  -- What carrying out an action does to the copies; `none` for an embed with no file to embed.
  abbrev pub carry_out : Action → Copies → Option Copies
  carry_out record_hash c = some (record c { baseline = some (from_source digest c.embedded.text) })
  carry_out Action.extract c = some (record c {
    baseline = some (from_source digest c.embedded.text);
    filesystem = some c.embedded;
  })
  carry_out Action.embed c = carry_embed c c.filesystem

  -- A settled fragment is synchronized; an action can be carried out and synchronizes; a fragment
  -- left unresolved is reported in its own state, which is not `synchronized`.
  abbrev pub Settles : Copies → Decision → Type 0
  Settles c settled = IsSynchronized digest c
  Settles c (act action) =
      (after : Copies) × (carry_out action c ≡ some after) × IsSynchronized digest after
  Settles c (unresolved s) = IsInState digest c s × (s ≢ State.synchronized)

  classify-equal :
      (embedded : CanonicalSource) (baseline : Option BaselineHash)
      (filesystem : Option CanonicalSource)
      → (classify digest embedded baseline filesystem ≡ Classification.unadopted matching)
        ⊎ (classify digest embedded baseline filesystem ≡ Classification.converged)
      → filesystem ≡ some embedded
  unfolding classify
  classify-equal embedded baseline none h = ground arith
  classify-equal embedded baseline (some f) h = ground (arith, text_eq_iff f.text embedded.text)

  classify-matching :
      (c : Copies)
      → (classify_copies digest c ≡ Classification.unadopted matching)
        ⊎ (classify_copies digest c ≡ Classification.converged)
      → c.filesystem ≡ some c.embedded
  classify-matching c = classify-equal c.embedded c.baseline c.filesystem

  classify-embed :
      (c : Copies)
      → classify_copies digest c ≡ Classification.embed
      → (source : CanonicalSource) × (c.filesystem ≡ some source)
  unfolding classify
  classify-embed c h = ground arith

  embed-Settles :
      (c : Copies) (source : CanonicalSource)
      → c.filesystem ≡ some source
      → Settles c (act Action.embed)
  embed-Settles c source e = (
    record c { embedded = source; baseline = some (from_source digest source.text) },
    ap (carry_embed c) e,
    synchronized_of_equal digest source c.filesystem e,
  )

  state-synchronized :
      (k : Classification) → k ≢ Classification.synchronized → state k ≢ State.synchronized
  state-synchronized k h = ground arith

  Fits-Settles : (c : Copies) (d : Decision) → Fits (classify_copies digest c) d → Settles c d
  Fits-Settles c settled h = subst (IsInState digest c) (ap state h) (classify-IsInState digest c)
  Fits-Settles c (act record_hash) h =
      (_, refl, synchronized_of_equal digest c.embedded c.filesystem (classify-matching c h))
  Fits-Settles c (act Action.extract) h = (_, refl, synchronized_of_equal digest c.embedded _ refl)
  Fits-Settles c (act Action.embed) h =
      let (source, e) = classify-embed c h in embed-Settles c source e
  Fits-Settles c (unresolved s) (e, h) = (
    subst (IsInState digest c) (sym e) (classify-IsInState digest c),
    λ q. state-synchronized (classify_copies digest c) h (cc),
  )

  plan_one-Settles :
      (operation : Operation) (selection : SelectionKind) (c : Copies) (d : Decision)
      → plan_one operation selection (classify_copies digest c) ≡ ok d
      → Settles c d
  plan_one-Settles operation selection c d h =
      Fits-Settles c d (plan_one-Fits operation selection (classify_copies digest c) d h)

  plan_each-Settles :
      (operation : Operation) (selection : SelectionKind) (cs : List Copies) (ds : List Decision)
      → plan_each operation selection (map (classify_copies digest) cs) ≡ ok ds
      → Forall₂ Settles cs ds
  unfolding plan_each
  plan_each-Settles operation selection [] [] h = Forall₂.nil
  plan_each-Settles operation selection [] (d ∷ ds) h = absurd (cc)
  plan_each-Settles operation selection (c ∷ cs) ds h =
      let (d, e, r) = >>=-eq-ok (plan_one operation selection (classify_copies digest c)) _ h in
      let (ds', e', r') =
        >>=-eq-ok (plan_each operation selection (map (classify_copies digest) cs)) _ r in
      let whole : d ∷ ds' ≡ ds = cc in
      subst (Forall₂ Settles (c ∷ cs)) whole (
        Forall₂.cons (plan_one-Settles operation selection c d e)
          (plan_each-Settles operation selection cs ds' e'))

  -- A conflict has both copies.
  classify-can_force :
      (embedded : CanonicalSource) (baseline : Option BaselineHash)
      (filesystem : Option CanonicalSource)
      → can_force (classify digest embedded baseline filesystem) ≡ true
      → (source : CanonicalSource) × (filesystem ≡ some source)
  unfolding classify
  classify-can_force embedded none none h = absurd (cc)
  classify-can_force embedded (some b) none h = absurd (cc)
  classify-can_force embedded baseline (some source) h = (source, refl)

  act-Settles :
      (action : Action) (c : Copies)
      → action ≢ record_hash
      → can_force (classify_copies digest c) ≡ true
      → Settles c (act action)
  act-Settles record_hash c n h = absurd (n refl)
  act-Settles Action.extract c n h = (_, refl, synchronized_of_equal digest c.embedded _ refl)
  act-Settles Action.embed c n h =
      let (source, e) = classify-can_force c.embedded c.baseline c.filesystem h in
      embed-Settles c source e

  forced-Settles :
      (action : Action) (index : ℕ) (cs : List Copies)
      → action ≢ record_hash
      → validate_forced index (map (classify_copies digest) cs) ≡ ok tt
      → Forall₂ Settles cs (replicate (length (map (classify_copies digest) cs)) (act action))
  unfolding validate_forced
  forced-Settles action index [] n h = Forall₂.nil
  forced-Settles action index (c ∷ cs) n h =
      elim (Bool-cases (can_force (classify_copies digest c))) [
        | inl e ↦
            Forall₂.cons (act-Settles action c n e)
              (forced-Settles action (index + 1) cs n (rw e at h))
        | inr e ↦ absurd (cc (rw e at h))
      ]

  module _ (can_reserve : ℕ → Bool) (selection : SelectionKind) (cs : List Copies)
      (ds : List Decision) where
    plan_forced-Settles :
        (action : Action)
        → action ≢ record_hash
        → plan_forced can_reserve action selection (map (classify_copies digest) cs) ≡ ok ds
        → Forall₂ Settles cs ds
    unfolding plan_forced
    plan_forced-Settles action n h =
        let (_, e₁, r₁) = >>=-eq-ok (require (is_explicit selection) _) _ h in
        let (_, e₂, r₂) =
          >>=-eq-ok (require (not (is_nil (map (classify_copies digest) cs))) _) _ r₁ in
        let (t, e₃, r₃) = >>=-eq-ok (validate_forced 0 (map (classify_copies digest) cs)) _ r₂ in
        let (_, e₄, r₄) =
          >>=-eq-ok (reserve_plan can_reserve (length (map (classify_copies digest) cs))) _ r₃ in
        let whole : replicate (length (map (classify_copies digest) cs)) (act action) ≡ ds = cc in
        subst (Forall₂ Settles cs) whole (forced-Settles action 0 cs n e₃)

    plan_unforced-Settles :
        (operation : Operation)
        → plan_unforced can_reserve operation selection (map (classify_copies digest) cs) ≡ ok ds
        → Forall₂ Settles cs ds
    unfolding plan_unforced
    plan_unforced-Settles operation h =
        let (_, e₁, r₁) =
          >>=-eq-ok (reserve_plan can_reserve (length (map (classify_copies digest) cs))) _ h in
        plan_each-Settles operation selection cs ds r₁

    -- Whatever a plan decides for a batch of classified fragments, each decision settles its
    -- fragment: a fragment with nothing to do has equal copies with the recorded hash, an action can
    -- be carried out and leaves the copies so, and a fragment that is left is reported in the state
    -- that the table of states gives, which is not `synchronized`.
    pub plan-Settles :
        (operation : Operation)
        → plan can_reserve operation selection (map (classify_copies digest) cs) ≡ ok ds
        → Forall₂ Settles cs ds
    unfolding plan
    plan-Settles (Operation.embed true) = plan_forced-Settles Action.embed (λ e. cc)
    plan-Settles (Operation.extract true) = plan_forced-Settles Action.extract (λ e. cc)
    plan-Settles (Operation.embed false) = plan_unforced-Settles (Operation.embed false)
    plan-Settles (Operation.extract false) = plan_unforced-Settles (Operation.extract false)
    plan-Settles Operation.sync = plan_unforced-Settles Operation.sync
