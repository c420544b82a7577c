-- ===== src/Engine/Run/Asks.antt =====
-- What decisions ask for, said without the loop that gathers it.
use zwirn.Prelude.{
  ℕ, List, [], ◌∷◌, ◌++◌, map, append-nil, append_assoc, ◌≡◌, refl, sym, ap, ◌∙◌, inl, inr, Option,
  none, some, ok, ok-injective, >>=-elim, Option-cases,
}
use mathlib.Core.Path.{subst}
use zwirn.TreeMap.{TreeMap}
use zwirn.Fragment.Path.{FragmentPath}
use zwirn.Fragment.Canonical.{CanonicalSource}
use zwirn.Fragment.Rewrite.{FragmentUpdate, record_update, replace_update}
use zwirn.Reconcile.{Action, record_hash, Decision, settled, act, unresolved}
use zwirn.Commit.{ExternalOutput, create_new, create_or_truncate}
use zwirn.Engine.{
  InventoryEntry, ReportEntry, state_entry, action_entry, Gathered, push_update, update_of,
  gather_one, gather, external_output, absent_targets, extracted_by, write_of,
}

-- For each entry and its decision, in their order: what the report says, which file is written with
-- which bytes and in which way, and which update goes to which node of the document.
pub data Asks
    : List InventoryEntry
      → List Decision
      → List ReportEntry
      → List ExternalOutput
      → List (ℕ × FragmentUpdate)
      → Type 0 where
  no_more : Asks [] [] [] [] []
  leaves :
      {es : List InventoryEntry} {ds : List Decision} {rs : List ReportEntry}
      {os : List ExternalOutput} {us : List (ℕ × FragmentUpdate)} (e : InventoryEntry)
      → Asks es ds rs os us
      → Asks (e ∷ es) (settled ∷ ds) rs os us
  reports :
      {es : List InventoryEntry} {ds : List Decision} {rs : List ReportEntry}
      {os : List ExternalOutput} {us : List (ℕ × FragmentUpdate)} (e : InventoryEntry) (s : _)
      → Asks es ds rs os us
      → Asks (e ∷ es) (unresolved s ∷ ds) (state_entry e.path s ∷ rs) os us
  records :
      {es : List InventoryEntry} {ds : List Decision} {rs : List ReportEntry}
      {os : List ExternalOutput} {us : List (ℕ × FragmentUpdate)} (e : InventoryEntry)
      → Asks es ds rs os us
      → Asks
          (e ∷ es)
          (act record_hash ∷ ds)
          (action_entry e.path record_hash ∷ rs)
          os
          ((e.node_index, record_update e.path) ∷ us)
  embeds :
      {es : List InventoryEntry} {ds : List Decision} {rs : List ReportEntry}
      {os : List ExternalOutput} {us : List (ℕ × FragmentUpdate)} (e : InventoryEntry)
      (source : CanonicalSource)
      → e.filesystem ≡ some source
      → Asks es ds rs os us
      → Asks
          (e ∷ es)
          (act Action.embed ∷ ds)
          (action_entry e.path Action.embed ∷ rs)
          os
          ((e.node_index, replace_update e.path source) ∷ us)
  creates :
      {es : List InventoryEntry} {ds : List Decision} {rs : List ReportEntry}
      {os : List ExternalOutput} {us : List (ℕ × FragmentUpdate)} (e : InventoryEntry)
      → e.filesystem ≡ none
      → Asks es ds rs os us
      → Asks
          (e ∷ es)
          (act Action.extract ∷ ds)
          (action_entry e.path Action.extract ∷ rs)
          (record { path = e.path; bytes = e.embedded.text; write = create_new } ∷ os)
          ((e.node_index, record_update e.path) ∷ us)
  overwrites :
      {es : List InventoryEntry} {ds : List Decision} {rs : List ReportEntry}
      {os : List ExternalOutput} {us : List (ℕ × FragmentUpdate)} (e : InventoryEntry)
      (source : CanonicalSource)
      → e.filesystem ≡ some source
      → Asks es ds rs os us
      → Asks
          (e ∷ es)
          (act Action.extract ∷ ds)
          (action_entry e.path Action.extract ∷ rs)
          (record { path = e.path; bytes = e.embedded.text; write = create_or_truncate } ∷ os)
          ((e.node_index, record_update e.path) ∷ us)

-- The paths of the entries without a file, in their order.
pub data AreAbsent : List InventoryEntry → List FragmentPath → Type 0 where
  all_seen : AreAbsent [] []
  is_absent :
      {es : List InventoryEntry} {paths : List FragmentPath} (e : InventoryEntry)
      → e.filesystem ≡ none
      → AreAbsent es paths
      → AreAbsent (e ∷ es) (e.path ∷ paths)
  is_there :
      {es : List InventoryEntry} {paths : List FragmentPath} (e : InventoryEntry)
      (source : CanonicalSource)
      → e.filesystem ≡ some source
      → AreAbsent es paths
      → AreAbsent (e ∷ es) paths

pub absent_targets-AreAbsent : (es : List InventoryEntry) → AreAbsent es (absent_targets es)
unfolding absent_targets
absent_targets-AreAbsent [] = all_seen
absent_targets-AreAbsent (e ∷ es) = elim (Option-cases e.filesystem) [
  | inl q ↦
      subst (AreAbsent (e ∷ es)) (sym (rw (q, absent_targets) refl))
        (is_absent e q (absent_targets-AreAbsent es))
  | inr (source, q) ↦
      subst (AreAbsent (e ∷ es)) (sym (rw (q, absent_targets) refl))
        (is_there e source q (absent_targets-AreAbsent es))
]

-- The updates, pushed one after the other.
abbrev pub push_all :
    List (ℕ × FragmentUpdate) → TreeMap ℕ (List FragmentUpdate) → TreeMap ℕ (List FragmentUpdate)
push_all [] m = m
push_all ((node_index, update) ∷ us) m = push_all us (push_update node_index update m)

-- What the loop adds to its variables.
pub record IsAsked (es : List InventoryEntry) (ds : List Decision) (g h : Gathered) : Type 0 where
  pub rs : List ReportEntry
  pub os : List ExternalOutput
  pub us : List (ℕ × FragmentUpdate)
  pub asks : Asks es ds rs os us
  pub entries : h.entries ≡ g.entries ++ rs
  pub outputs : map external_output h.extracted ≡ map external_output g.extracted ++ os
  pub updates : h.node_updates ≡ push_all us g.node_updates

abbrev pub SameLength : List InventoryEntry → List Decision → Type 0
SameLength [] [] = Unit
SameLength (e ∷ es) (d ∷ ds) = SameLength es ds
SameLength _ _ = ⊥

outputs-append :
    (xs ys : List InventoryEntry)
    → map external_output (xs ++ ys) ≡ map external_output xs ++ map external_output ys
outputs-append [] ys = refl
outputs-append (x ∷ xs) ys = ap (λ os. external_output x ∷ os) (outputs-append xs ys)

push_all-append :
    (us vs : List (ℕ × FragmentUpdate)) (m : TreeMap ℕ (List FragmentUpdate))
    → push_all (us ++ vs) m ≡ push_all vs (push_all us m)
push_all-append [] vs m = refl
push_all-append ((i, u) ∷ us) vs m = push_all-append us vs (push_update i u m)

module _ (e : InventoryEntry) (es : List InventoryEntry) (ds : List Decision) where
  -- One entry more: what its decision adds, and what the rest does.
  IsAsked-cons :
      (d : Decision) (g next h : Gathered) (rs₀ : List ReportEntry) (os₀ : List ExternalOutput)
      (us₀ : List (ℕ × FragmentUpdate)) (w : IsAsked es ds next h)
      → next.entries ≡ g.entries ++ rs₀
      → map external_output next.extracted ≡ map external_output g.extracted ++ os₀
      → next.node_updates ≡ push_all us₀ g.node_updates
      → Asks (e ∷ es) (d ∷ ds) (rs₀ ++ w.rs) (os₀ ++ w.os) (us₀ ++ w.us)
      → IsAsked (e ∷ es) (d ∷ ds) g h
  IsAsked-cons d g next h rs₀ os₀ us₀ w r o u asks = record {
    rs = rs₀ ++ w.rs;
    os = os₀ ++ w.os;
    us = us₀ ++ w.us;
    asks = asks;
    entries = w.entries ∙ ap (λ x. x ++ w.rs) r ∙ append_assoc g.entries rs₀ w.rs;
    outputs =
        w.outputs ∙ ap (λ x. x ++ w.os) o ∙ append_assoc (map external_output g.extracted) os₀ w.os;
    updates = w.updates ∙ ap (push_all w.us) u ∙ sym (push_all-append us₀ w.us g.node_updates);
  }

  module _ {rs : List ReportEntry} {os : List ExternalOutput} {us : List (ℕ × FragmentUpdate)}
      (rest : Asks es ds rs os us) where
    abbrev AsksFor : Action → FragmentUpdate → Type 0
    AsksFor action update =
        Asks (e ∷ es) (act action ∷ ds) (action_entry e.path action ∷ rs)
          (map external_output (extracted_by action e) ++ os) ((e.node_index, update) ∷ us)

    asks_to_embed :
        (update : FragmentUpdate) (file : Option CanonicalSource)
        → e.filesystem ≡ file
        → update_of e Action.embed file ≡ ok update
        → AsksFor Action.embed update
    asks_to_embed update none q v = absurd (cc)
    asks_to_embed update (some source) q v =
        subst (AsksFor Action.embed) (ok-injective v) (embeds e source q rest)

    abbrev AsksToWrite : FragmentUpdate → Option CanonicalSource → Type 0
    AsksToWrite update file =
        Asks (e ∷ es) (act Action.extract ∷ ds) (action_entry e.path Action.extract ∷ rs)
          (record { path = e.path; bytes = e.embedded.text; write = write_of file } ∷ os)
          ((e.node_index, update) ∷ us)

    asks_to_extract :
        (file : Option CanonicalSource)
        → e.filesystem ≡ file
        → AsksToWrite (record_update e.path) file
    asks_to_extract none q = creates e q rest
    asks_to_extract (some source) q = overwrites e source q rest

    asks_for :
        (action : Action) (update : FragmentUpdate)
        → update_of e action e.filesystem ≡ ok update
        → AsksFor action update
    asks_for record_hash update v = subst (AsksFor record_hash) (ok-injective v) (records e rest)
    asks_for Action.embed update v = asks_to_embed update e.filesystem refl v
    asks_for Action.extract update v =
        subst (AsksFor Action.extract) (ok-injective v) (asks_to_extract e.filesystem refl)

  gather_one-IsAsked :
      (d : Decision) (g next h : Gathered)
      → gather_one e d g ≡ ok next
      → IsAsked es ds next h
      → IsAsked (e ∷ es) (d ∷ ds) g h
  gather_one-IsAsked settled g next h q w =
      let same = ok-injective q in
      IsAsked-cons settled g next h [] [] [] w
        (sym (ap (λ (x : Gathered). x.entries) same) ∙ sym (append-nil g.entries))
        (sym (ap (λ (x : Gathered). map external_output x.extracted) same)
          ∙ sym (append-nil (map external_output g.extracted)))
        (sym (ap (λ (x : Gathered). x.node_updates) same)) (leaves e w.asks)
  gather_one-IsAsked (unresolved s) g next h q w =
      let same = ok-injective q in
      IsAsked-cons (unresolved s) g next h (state_entry e.path s ∷ []) [] [] w
        (sym (ap (λ (x : Gathered). x.entries) same))
        (sym (ap (λ (x : Gathered). map external_output x.extracted) same)
          ∙ sym (append-nil (map external_output g.extracted)))
        (sym (ap (λ (x : Gathered). x.node_updates) same)) (reports e s w.asks)
  gather_one-IsAsked (act action) g next h q w =
      >>=-elim (update_of e action e.filesystem) _ q λ update v r.
        let same = ok-injective r in
        IsAsked-cons (act action) g next h (action_entry e.path action ∷ [])
          (map external_output (extracted_by action e)) ((e.node_index, update) ∷ []) w
          (sym (ap (λ (x : Gathered). x.entries) same))
          (sym (ap (λ (x : Gathered). map external_output x.extracted) same)
            ∙ outputs-append g.extracted (extracted_by action e))
          (sym (ap (λ (x : Gathered). x.node_updates) same)) (asks_for w.asks action update v)

-- The loop adds what the decisions ask for.
pub gather-IsAsked :
    (es : List InventoryEntry) (ds : List Decision) (g h : Gathered)
    → SameLength es ds
    → gather es ds g ≡ ok h
    → IsAsked es ds g h
unfolding gather
gather-IsAsked [] [] g h s q = subst (IsAsked [] [] g) (ok-injective q) record {
  rs = [];
  os = [];
  us = [];
  asks = no_more;
  entries = sym (append-nil g.entries);
  outputs = sym (append-nil (map external_output g.extracted));
  updates = refl;
}
gather-IsAsked [] (d ∷ ds) g h s q = elim s [ ]
gather-IsAsked (e ∷ es) [] g h s q = elim s [ ]
gather-IsAsked (e ∷ es) (d ∷ ds) g h s q =
    >>=-elim (gather_one e d g) _ q
      λ next u r. gather_one-IsAsked e es ds d g next h u (gather-IsAsked es ds next h s r)
