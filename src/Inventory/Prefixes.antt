-- ===== src/Inventory/Prefixes.antt =====
-- No path of an accepted inventory is a directory on the way to another.
use zwirn.Prelude.{
  ℕ, List, [], ◌∷◌, ◌++◌, append_assoc, append-nil, ◌≡◌, ◌↔◌, inl, inr, refl, sym, ap, ◌∙◌, arith,
  none, ok, >>=-elim, All, All-map, Bool-cases, Option-cases,
}
use zwirn.Text.{Text, text_eq, text_eq_iff}
use zwirn.Fragment.Path.{FragmentPath}
use zwirn.Inventory.Unique.{IsAscending}
use zwirn.Text.Search.Found.{Rises, NoneHas, binary_search-none_iff}
use zwirn.Inventory.{
  DiscoveredFragment, find_fragment, validate_ancestors, validate_prefixes_of,
  validate_path_prefixes,
}

-- The path of `a`, a slash and more are the text.
abbrev pub IsAncestor : DiscoveredFragment → Text → Type 0
IsAncestor a text = (rest : Text) × (text ≡ a.path.text ++ (47 ∷ rest))

IsAscending-Rises :
    (ds : List DiscoveredFragment)
    → IsAscending ds
    → Rises (λ (d : DiscoveredFragment). d.path.text) ds
IsAscending-Rises [] h = tt
IsAscending-Rises (d ∷ ds) h = (h.0, IsAscending-Rises ds h.1)

-- No fragment has the path.
abbrev NoneHasPath : Text → List DiscoveredFragment → Type 0
NoneHasPath path ds = NoneHas (λ (d : DiscoveredFragment). d.path.text) path ds

find_fragment-none_iff :
    (path : Text) (ds : List DiscoveredFragment)
    → IsAscending ds
    → (find_fragment path ds ≡ none) ↔ NoneHasPath path ds
unfolding find_fragment
find_fragment-none_iff path ds sorted =
    binary_search-none_iff (λ (d : DiscoveredFragment). d.path.text) path ds
      (IsAscending-Rises ds sorted)

-- No fragment has a path that ends in front of a slash of `text`, which follows `front`.
abbrev NoneBefore : List DiscoveredFragment → Text → Text → Type 0
NoneBefore ds front text =
    (before rest : Text) → text ≡ before ++ (47 ∷ rest) → find_fragment (front ++ before) ds ≡ none

NoneBefore-step :
    (ds : List DiscoveredFragment) (front : Text) (byte : ℕ) (text : Text)
    → NoneBefore ds front (byte ∷ text)
    → NoneBefore ds (front ++ (byte ∷ [])) text
NoneBefore-step ds front byte text h before rest e =
    ap (λ t. find_fragment t ds) (append_assoc front (byte ∷ []) before)
    ∙ h (byte ∷ before) rest (ap (λ t. byte ∷ t) e)

NoneBefore-cons :
    (ds : List DiscoveredFragment) (front : Text) (byte : ℕ) (text : Text)
    → (byte ≡ 47 → find_fragment front ds ≡ none)
    → NoneBefore ds (front ++ (byte ∷ [])) text
    → NoneBefore ds front (byte ∷ text)
NoneBefore-cons ds front byte text here later [] rest e =
    ap (λ t. find_fragment t ds) (append-nil front) ∙ here cc
NoneBefore-cons ds front byte text here later (b ∷ before) rest e =
    let same : byte ≡ b = cc in
    let behind : text ≡ before ++ (47 ∷ rest) = cc in
    ap (λ x. find_fragment (front ++ (x ∷ before)) ds) (sym same)
    ∙ ap (λ t. find_fragment t ds) (sym (append_assoc front (byte ∷ []) before))
    ∙ later before rest behind

no_ancestor_at_end : (ds : List DiscoveredFragment) (front : Text) → NoneBefore ds front []
no_ancestor_at_end ds front [] rest e = cc
no_ancestor_at_end ds front (b ∷ before) rest e = cc

-- One step of the loop.
validate_ancestors_step :
    (ds : List DiscoveredFragment) (path : FragmentPath) (front : Text) (byte : ℕ) (text : Text)
    → (validate_ancestors ds path front (byte ∷ text) ≡ ok tt) ↔ (
        (byte ≡ 47 → find_fragment front ds ≡ none)
        × (validate_ancestors ds path (front ++ (byte ∷ [])) text ≡ ok tt))
unfolding validate_ancestors
validate_ancestors_step ds path front byte text = elim (Option-cases (find_fragment front ds)) [
  | inl e ↦ rw (e, validate_ancestors) (ground arith)
  | inr (found, e) ↦ rw (e, validate_ancestors) (ground arith)
]

validate_ancestors_iff :
    (ds : List DiscoveredFragment) (path : FragmentPath) (text front : Text)
    → (validate_ancestors ds path front text ≡ ok tt) ↔ NoneBefore ds front text
unfolding validate_ancestors
validate_ancestors_iff ds path [] front = ((λ h. no_ancestor_at_end ds front), (λ h. refl))
validate_ancestors_iff ds path (byte ∷ text) front =
    let step = validate_ancestors_step ds path front byte text in
    let (to, from) = validate_ancestors_iff ds path text (front ++ (byte ∷ [])) in
    (
      (λ h. let (here, later) = step.0 h in NoneBefore-cons ds front byte text here (to later)),
      (λ h. step.1 (
        (λ e.
            ap (λ t. find_fragment t ds) (sym (append-nil front))
            ∙ h [] text (ap (λ b. b ∷ text) e)),
        from (NoneBefore-step ds front byte text h),
      )),
    )

-- On sorted fragments, no search finds an ancestor exactly if none is one.
ancestors_iff :
    (ds : List DiscoveredFragment) (text : Text)
    → IsAscending ds
    → NoneBefore ds [] text ↔ All (λ (a : DiscoveredFragment). ¬ IsAncestor a text) ds
ancestors_iff ds text sorted = (
  (λ h. to ds (λ before rest e. (find_fragment-none_iff before ds sorted).0 (h before rest e))),
  (λ h before rest e. (find_fragment-none_iff before ds sorted).1 (from before rest e h)),
)
  where
    to :
        (es : List DiscoveredFragment)
        → ((before rest : Text) → text ≡ before ++ (47 ∷ rest) → NoneHasPath before es)
        → All (λ (a : DiscoveredFragment). ¬ IsAncestor a text) es
    to [] h = tt
    to (a ∷ es) h = (
      (λ (rest, e).
          let (other, _) = h a.path.text rest e in
          let same = (text_eq_iff a.path.text a.path.text).1 refl in cc),
      to es (λ before rest e. (h before rest e).1),
    )

    from :
        (before rest : Text)
        → text ≡ before ++ (47 ∷ rest)
        → All (λ (a : DiscoveredFragment). ¬ IsAncestor a text) ds
        → NoneHasPath before ds
    from before rest e h =
        All-map _ _ ds
          (λ a apart. elim (Bool-cases (text_eq a.path.text before)) [
            | inl q ↦ absurd (
                apart (
                  rest,
                  e ∙ ap (λ t. t ++ (47 ∷ rest)) (sym ((text_eq_iff a.path.text before).0 q)),
                ))
            | inr q ↦ q
          ])
          h

prefixes_of_iff :
    (ds es : List DiscoveredFragment)
    → IsAscending ds
    → (validate_prefixes_of ds es ≡ ok tt)
      ↔ All
          (λ (e : DiscoveredFragment).
            All (λ (a : DiscoveredFragment). ¬ IsAncestor a e.path.text) ds)
          es
unfolding validate_prefixes_of
prefixes_of_iff ds [] sorted = ((λ h. tt), (λ h. refl))
prefixes_of_iff ds (e ∷ es) sorted =
    let loop = validate_ancestors_iff ds e.path e.path.text [] in
    let apart = ancestors_iff ds e.path.text sorted in
    let rest = prefixes_of_iff ds es sorted in
    (
      (λ h.
          >>=-elim (validate_ancestors ds e.path [] e.path.text) _ h
            λ u q r. (apart.0 (loop.0 q), rest.0 r)),
      (λ (here, later). rw (loop.1 (apart.1 here)) (rest.1 later)),
    )

-- If the paths of the fragments rise strictly, as they do behind the sort and the check that they
-- are unique, the fragments are accepted exactly if the path of none of them is an ancestor of
-- another's: a path that, with a slash and more behind it, is the path of a fragment.
pub validate_path_prefixes_iff :
    (ds : List DiscoveredFragment)
    → IsAscending ds
    → (validate_path_prefixes ds ≡ ok tt)
      ↔ All
          (λ (e : DiscoveredFragment).
            All (λ (a : DiscoveredFragment). ¬ IsAncestor a e.path.text) ds)
          ds
unfolding validate_path_prefixes
validate_path_prefixes_iff ds sorted = prefixes_of_iff ds ds sorted
