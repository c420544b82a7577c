-- ===== src/Engine/Exit.antt =====
-- What the exit state of a mutating command says of the fragments.
use mathlib.Core.List.{Forall₂}
use zwirn.Prelude.{
  ℕ, Bool, true, false, ◌||◌, List, [], ◌∷◌, map, ◌≡◌, ◌↔◌, refl, sym, some-injective, ap, ◌∙◌,
  arith, Option, none, some, ok, ◌>>=◌,
}
use mathlib.Core.Path.{subst}
use zwirn.Text.{Text}
use zwirn.Fragment.Canonical.{CanonicalSource}
use zwirn.Reconcile.{
  Action, record_hash, Decision, settled, act, unresolved, Operation, SelectionKind, plan,
}
use zwirn.Reconcile.States.{Copies, classify_copies, IsSynchronized, IsInState-other}
use zwirn.Reconcile.Synchronize.{carry_out, carry_embed, Settles, plan-Settles}
use zwirn.Engine.{
  InventoryEntry, Gathered, synchronized, exit_state, update_of, gather_action, gather_one, gather,
  nothing_gathered,
}

abbrev pub copies_of : InventoryEntry → Copies
copies_of entry = record {
  embedded = entry.embedded;
  baseline = entry.baseline;
  filesystem = entry.filesystem;
}

abbrev is_unresolved : Decision → Bool
is_unresolved (unresolved state) = true
is_unresolved settled = false
is_unresolved (act action) = false

module _ (digest : Text → List ℕ) where
  -- What a decision does to the copies: only an action changes them.
  abbrev pub carry_decision : Decision → Copies → Option Copies
  carry_decision settled c = some c
  carry_decision (act action) c = carry_out digest action c
  carry_decision (unresolved state) c = some c

  -- The copies are equal, with the recorded hash, once the decision is carried out.
  abbrev pub EndsSynchronized : InventoryEntry → Decision → Type 0
  EndsSynchronized entry d =
      (after : Copies) × (carry_decision d (copies_of entry) ≡ some after)
      × IsSynchronized digest after

  abbrev SettlesEntry : InventoryEntry → Decision → Type 0
  SettlesEntry entry d = Settles digest (copies_of entry) d

  update_of-ok :
      (entry : InventoryEntry) (action : Action)
      → SettlesEntry entry (act action)
      → (update : _) × (update_of entry action entry.filesystem ≡ ok update)
  update_of-ok entry record_hash h = (_, refl)
  update_of-ok entry Action.extract h = (_, refl)
  update_of-ok entry Action.embed (after, carried, sync) = by_file entry.filesystem carried
    where
      by_file :
          (file : Option CanonicalSource)
          → carry_embed digest (copies_of entry) file ≡ some after
          → (update : _) × (update_of entry Action.embed file ≡ ok update)
      by_file none carried = absurd cc
      by_file (some source) carried = (_, refl)

  gather_one-ok :
      (entry : InventoryEntry) (d : Decision) (g : Gathered)
      → SettlesEntry entry d
      → (next : Gathered) × (gather_one entry d g ≡ ok next)
        × (next.attention ≡ (g.attention || is_unresolved d))
  gather_one-ok entry settled g h = (g, refl, ground arith)
  gather_one-ok entry (unresolved state) g h = (_, refl, ground arith)
  gather_one-ok entry (act action) g h =
      let (update, e) = update_of-ok entry action h in
      (
        gather_action entry action update g,
        ap (λ m. m >>= λ u. ok (gather_action entry action u g)) e,
        ground arith,
      )

  ends_iff :
      (entry : InventoryEntry) (d : Decision)
      → SettlesEntry entry d
      → (is_unresolved d ≡ false) ↔ EndsSynchronized entry d
  ends_iff entry settled h = (λ e. (copies_of entry, refl, h), λ e. refl)
  ends_iff entry (act action) h = (λ e. h, λ e. refl)
  ends_iff entry (unresolved state) (found, other) = (
    λ e. absurd cc,
    λ (after, e, q). absurd (
        IsInState-other digest (copies_of entry) state found other
          (subst (IsSynchronized digest) (sym (some-injective e)) q)),
  )

  ends_uncons :
      (entry : InventoryEntry) (entries : List InventoryEntry) (d : Decision) (ds : List Decision)
      → Forall₂ EndsSynchronized (entry ∷ entries) (d ∷ ds)
      → EndsSynchronized entry d × Forall₂ EndsSynchronized entries ds
  ends_uncons entry entries d ds (Forall₂.cons here later) = (here, later)

  gather-Ends :
      (entries : List InventoryEntry) (ds : List Decision) (g : Gathered)
      → Forall₂ (Settles digest) (map copies_of entries) ds
      → (h : Gathered) × (gather entries ds g ≡ ok h)
        × ((h.attention ≡ false) ↔ ((g.attention ≡ false) × Forall₂ EndsSynchronized entries ds))
  unfolding gather
  gather-Ends [] [] g f = (g, refl, ((λ e. (e, Forall₂.nil)), (λ e. e.0)))
  gather-Ends [] (d ∷ ds) g f = elim f [ ]
  gather-Ends (entry ∷ entries) [] g f = elim f [ ]
  gather-Ends (entry ∷ entries) (d ∷ ds) g (Forall₂.cons s f) =
      let (next, e, a) = gather_one-ok entry d g s in
      let (h, e', iff) = gather-Ends entries ds next f in
      let end = ends_iff entry d s in
      (
        h,
        ap (λ m. m >>= λ n. gather entries ds n) e ∙ e',
        (
          (λ calm.
              let (quiet, rest) = iff.0 calm in
              let split : (g.attention ≡ false) × (is_unresolved d ≡ false) = ground arith in
              (split.0, Forall₂.cons (end.0 split.1) rest)),
          (λ (quiet, all_end).
              let (here, later) = ends_uncons entry entries d ds all_end in
              let calm : is_unresolved d ≡ false = end.1 here in iff.1 (ground arith, later)),
        ),
      )

  -- If a plan is made for the classified entries, the loop over its decisions does not panic, and
  -- the exit state is `synchronized` exactly if every entry is synchronized once its decision is
  -- carried out.
  pub gather-EndsSynchronized :
      (can_reserve : ℕ → Bool) (operation : Operation) (selection : SelectionKind)
      (entries : List InventoryEntry) (ds : List Decision)
      → plan can_reserve operation selection (map (classify_copies digest) (map copies_of entries))
        ≡ ok ds
      → (h : Gathered) × (gather entries ds nothing_gathered ≡ ok h)
        × ((exit_state h.attention ≡ synchronized) ↔ Forall₂ EndsSynchronized entries ds)
  gather-EndsSynchronized can_reserve operation selection entries ds p =
      let settles =
        plan-Settles digest can_reserve selection (map copies_of entries) ds operation p in
      let (h, e, iff) = gather-Ends entries ds nothing_gathered settles in
      (h, e, ((λ quiet. (iff.0 (ground arith)).1), (λ ends. ap exit_state (iff.1 (refl, ends)))))
