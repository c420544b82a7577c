-- ===== src/Engine/Run/Updates.antt =====
-- The updates that one node gets, in the order of the decisions.
use zwirn.Prelude.{
  ℕ, Bool, List, [], ◌∷◌, ◌++◌, append-nil, append_assoc, ◌≡◌, ◌≢◌, ◌⊎◌, inl, inr, refl, sym, ap,
  ◌∙◌, Option, none, some, ok, ◌==◌, ==_iff, if◌then◌else◌, Bool-cases,
}
use zwirn.Text.{Text}
use zwirn.TreeMap.{TreeMap, get}
use zwirn.TreeMap.Nat.{nat_key}
use zwirn.TreeMap.Laws.{get-insert}
use zwirn.Fragment.Source.{ParsedSource}
use zwirn.Fragment.Source
use zwirn.Fragment.Rewrite.{FragmentUpdate, Rewritten, rewritten_text}
use zwirn.Fragment.Rewrite
use zwirn.Adls.Document.{SourceNode}
use zwirn.Engine.{push_update, or_default}
use zwirn.Engine.Materialize.Written.{IsUpdated}
use zwirn.Engine.Run.Asks.{push_all}

abbrev pub updates_for : ℕ → List (ℕ × FragmentUpdate) → List FragmentUpdate
updates_for index [] = []
updates_for index ((node_index, update) ∷ us) =
    let others = updates_for index us in if node_index == index then update ∷ others else others

abbrev extend : Option (List FragmentUpdate) → List FragmentUpdate → Option (List FragmentUpdate)
extend none [] = none
extend none (u ∷ us) = some (u ∷ us)
extend (some before) us = some (before ++ us)

extend-nil : (before : Option (List FragmentUpdate)) → before ≡ extend before []
extend-nil none = refl
extend-nil (some before) = ap some (sym (append-nil before))

extend-cons :
    (before : Option (List FragmentUpdate)) (u : FragmentUpdate) (us : List FragmentUpdate)
    → extend (some (or_default before ++ (u ∷ []))) us ≡ extend before (u ∷ us)
extend-cons none u us = refl
extend-cons (some before) u us = ap some (append_assoc before (u ∷ []) us)

get-push_all :
    (index : ℕ) (us : List (ℕ × FragmentUpdate)) (m : TreeMap ℕ (List FragmentUpdate))
    → get index (push_all us m) ≡ extend (get index m) (updates_for index us)
get-push_all index [] m = extend-nil (get index m)
get-push_all index ((j, u) ∷ us) m =
    let inserted = get-insert index j (or_default (get j m) ++ (u ∷ [])) m in
    get-push_all index us (push_update j u m) ∙ elim (Bool-cases (j == index)) [
      | inl e ↦
          let same = (==_iff j index).0 e in
          let pushed : get index (push_update j u m) ≡ some (or_default (get j m) ++ (u ∷ [])) =
            rw e at inserted in
          rw e (
            ap (λ o. extend o (updates_for index us)) pushed
            ∙ extend-cons (get j m) u (updates_for index us)
            ∙ ap (λ i. extend (get i m) (u ∷ updates_for index us)) same)
      | inr e ↦
          let kept : get index (push_update j u m) ≡ get index m = rw e at inserted in
          rw e (ap (λ o. extend o (updates_for index us)) kept)
    ]

module _ (digest : Text → List ℕ) (can_reserve : ℕ → Bool) where
  -- The source of a node afterwards: the one it has, where no update goes to it, and otherwise the
  -- one that the rewrite of its fragments gives.
  abbrev pub IsUpdatedBy : List (ℕ × FragmentUpdate) → SourceNode → Text → Type 0
  IsUpdatedBy us node final =
      ((updates_for node.handle.index us ≡ []) × (final ≡ node.source))
      ⊎ ((parsed : ParsedSource) × (rewritten : Rewritten) × (updates_for node.handle.index us ≢ [])
          × (Source.parse node.kind node.source ≡ ok parsed)
          × (Rewrite.rewrite digest can_reserve parsed (updates_for node.handle.index us)
              ≡ ok rewritten)
          × (final ≡ rewritten_text rewritten))

  by_updates :
      (node : SourceNode) (final : Text) (us : List (ℕ × FragmentUpdate))
      (updates : List FragmentUpdate)
      → updates_for node.handle.index us ≡ updates
      → (m : TreeMap ℕ (List FragmentUpdate)) → get node.handle.index m ≡ extend none updates
      → IsUpdated digest can_reserve m node final
      → IsUpdatedBy us node final
  by_updates node final us [] q m g (inl (e, same)) = inl (q, same)
  by_updates node final us [] q m g (inr (updates, parsed, rewritten, e, p, r, t)) =
      absurd (cc (sym g ∙ e))
  by_updates node final us (u ∷ rest) q m g (inl (e, same)) = absurd (cc (sym g ∙ e))
  by_updates node final us (u ∷ rest) q m g (inr (updates, parsed, rewritten, e, p, r, t)) =
      let all : updates ≡ updates_for node.handle.index us = cc (sym g ∙ e, q) in
      inr (
        parsed,
        rewritten,
        (λ n. cc (sym q ∙ n)),
        p,
        ap (Rewrite.rewrite digest can_reserve parsed) (sym all) ∙ r,
        t,
      )

  pub IsUpdated-IsUpdatedBy :
      (us : List (ℕ × FragmentUpdate)) (node : SourceNode) (final : Text)
      → IsUpdated digest can_reserve (push_all us []) node final
      → IsUpdatedBy us node final
  unfolding get
  IsUpdated-IsUpdatedBy us node final =
      by_updates node final us (updates_for node.handle.index us) refl (push_all us [])
        (get-push_all node.handle.index us [])
