-- ===== src/Text/Search/Found.antt =====
-- The binary search finds what is there, on items in the order of their texts.
use mathlib.Core.Path.{subst}
use zwirn.Prelude.{
  ℕ, zero, suc, ◌+◌, ◌/◌, ◌≤◌, ◌<◌, true, false, List, [], ◌∷◌, ◌++◌, ◌≡◌, ◌↔◌, inl, inr, refl, sym,
  ap, ◌∙◌, arith, none, some, length, get_elem?, take, drop, if◌then◌else◌, All, All-append,
  All-map, Bool-cases, Option-cases,
}
use zwirn.Text.{Text, text_eq, text_eq_iff}
use zwirn.Text.Order.{text_lt, text_lt_trans, text_lt_irrefl, text_lt_total}
use zwirn.Text.Search.{search_in, search_from, binary_search}

lt-differs : (s t : Text) → text_lt s t ≡ true → text_eq s t ≡ false
lt-differs s t h = elim (Bool-cases (text_eq s t)) [
  | inl e ↦ absurd (cc (ap (λ u. text_lt u t) ((text_eq_iff s t).0 e), h, text_lt_irrefl t))
  | inr e ↦ e
]

gt-differs : (s t : Text) → text_lt t s ≡ true → text_eq s t ≡ false
gt-differs s t h = elim (Bool-cases (text_eq s t)) [
  | inl e ↦ absurd (cc (ap (λ u. text_lt t u) ((text_eq_iff s t).0 e), h, text_lt_irrefl t))
  | inr e ↦ e
]

true-ne-false : ¬ (true ≡ false)
true-ne-false h = cc

All-take : {A : Type 0} (P : A → Type 0) (n : ℕ) (xs : List A) → All P xs → All P (take n xs)
All-take P zero xs h = tt
All-take P (suc n) [] h = tt
All-take P (suc n) (x ∷ xs) h = (h.0, All-take P n xs h.1)

All-drop : {A : Type 0} (P : A → Type 0) (n : ℕ) (xs : List A) → All P xs → All P (drop n xs)
All-drop P zero xs h = h
All-drop P (suc n) [] h = tt
All-drop P (suc n) (x ∷ xs) h = All-drop P n xs h.1

All-get_elem? :
    {A : Type 0} (P : A → Type 0) (xs : List A) (n : ℕ) (x : A)
    → All P xs
    → get_elem? xs n ≡ some x
    → P x
All-get_elem? P [] n x h e = absurd (cc)
All-get_elem? P (y ∷ xs) zero x h e = let same : y ≡ x = cc in subst P same h.0
All-get_elem? P (y ∷ xs) (suc n) x h e = All-get_elem? P xs n x h.1 e

module _ {A : Type 0} (key : A → Text) where
  abbrev pub Below : A → List A → Type 0
  Below x rest = All (λ (a : A). text_lt (key x) (key a) ≡ true) rest

  -- Each text is below all those behind it.
  abbrev pub Rises : List A → Type 0
  Rises [] = Unit
  Rises (a ∷ rest) = Below a rest × Rises rest

  -- No fragment has the path.
  abbrev pub NoneHas : Text → List A → Type 0
  NoneHas path ds = All (λ (a : A). text_eq (key a) path ≡ false) ds

  -- Fragments in front of a position, the one there, and those behind it.
  record IsCut (ds : List A) (i : ℕ) : Type 0 where
    middle : A
    found : get_elem? ds i ≡ some middle
    parts : ds ≡ take i ds ++ (middle ∷ drop (suc i) ds)
    fewer : length ds ≡ length (take i ds) + suc (length (drop (suc i) ds))

  get_elem?-IsCut : (ds : List A) (i : ℕ) → i < length ds → IsCut ds i
  get_elem?-IsCut [] i h = absurd (omega arith)
  get_elem?-IsCut (d ∷ ds) zero h = record {
    middle = d;
    found = refl;
    parts = refl;
    fewer = omega arith;
  }
  get_elem?-IsCut (d ∷ ds) (suc i) h =
      let c = get_elem?-IsCut ds i (omega arith) in
      record {
        middle = c.middle;
        found = c.found;
        parts = ap (λ xs. d ∷ xs) c.parts;
        fewer = omega (arith, c.fewer);
      }

  -- What the order says of the two sides of a fragment.
  record IsMiddle (xs : List A) (d : A) (ys : List A) : Type 0 where
    left : Rises xs
    right : Rises ys
    less : All (λ (x : A). text_lt (key x) (key d) ≡ true) xs
    greater : Below d ys

  Below-parts :
      (x : A) (xs : List A) (d : A) (ys : List A)
      → Below x (xs ++ (d ∷ ys))
      → Below x xs × (text_lt (key x) (key d) ≡ true)
  Below-parts x [] d ys h = (tt, h.0)
  Below-parts x (y ∷ xs) d ys h = let (l, k) = Below-parts x xs d ys h.1 in ((h.0, l), k)

  Rises-IsMiddle : (xs : List A) (d : A) (ys : List A) → Rises (xs ++ (d ∷ ys)) → IsMiddle xs d ys
  Rises-IsMiddle [] d ys h = record { left = tt; right = h.1; less = tt; greater = h.0 }
  Rises-IsMiddle (x ∷ xs) d ys h =
      let m = Rises-IsMiddle xs d ys h.1 in
      let (l, k) = Below-parts x xs d ys h.0 in
      record { left = (l, m.left); right = m.right; less = (k, m.less); greater = m.greater }

  NoneHas-parts :
      (path : Text) (xs ys : List A) → NoneHas path (xs ++ ys) → NoneHas path xs × NoneHas path ys
  NoneHas-parts path [] ys h = (tt, h)
  NoneHas-parts path (x ∷ xs) ys h = let (l, k) = NoneHas-parts path xs ys h.1 in ((h.0, l), k)

  -- With another path in the middle, no fragment has the path if none of the half searched has it.
  middle_iff :
      (path : Text) (xs : List A) (d : A) (ys half : List A)
      → IsMiddle xs d ys
      → text_eq (key d) path ≡ false
      → half ≡ (if text_lt (key d) path then ys else xs)
      → Rises half × (NoneHas path half ↔ NoneHas path (xs ++ (d ∷ ys)))
  middle_iff path xs d ys half m other e = elim (Bool-cases (text_lt (key d) path)) [
    | inl l ↦
        let same : ys ≡ half = sym (rw l at e) in
        let front : NoneHas path xs =
          All-map _ _ xs (λ x k. lt-differs (key x) path (text_lt_trans (key x) (key d) path k l))
            m.less in
        subst (λ h. Rises h × (NoneHas path h ↔ NoneHas path (xs ++ (d ∷ ys)))) same
          (
            m.right,
            (
              (λ none_behind. All-append _ xs (d ∷ ys) front (other, none_behind)),
              (λ whole. (NoneHas-parts path xs (d ∷ ys) whole).1.1),
            ),
          )
    | inr l ↦
        let same : xs ≡ half = sym (rw l at e) in
        let above : text_lt path (key d) ≡ true =
          ground (arith, text_lt_total (key d) path, text_eq_iff (key d) path) in
        let behind : NoneHas path ys =
          All-map _ _ ys
            (λ y k. gt-differs (key y) path (text_lt_trans path (key d) (key y) above k))
            m.greater in
        subst (λ h. Rises h × (NoneHas path h ↔ NoneHas path (xs ++ (d ∷ ys)))) same
          (
            m.left,
            (
              (λ none_in_front. All-append _ xs (d ∷ ys) none_in_front (other, behind)),
              (λ whole. (NoneHas-parts path xs (d ∷ ys) whole).0),
            ),
          )
  ]

  some-ne-none : {d : A} → ¬ (some d ≡ none)
  some-ne-none h = cc

  search_from_step :
      (fuel : ℕ) (path : Text) (ds : List A) (d : A)
      → get_elem? ds (length ds / 2) ≡ some d
      → search_from key (suc fuel) path ds ≡ (
          if text_eq (key d) path
          then some d
          else search_from key fuel path (search_in key path (length ds / 2) d ds))
  unfolding search_from
  search_from_step fuel path ds d e = rw (e, search_from) refl

  -- Either half is shorter than the whole.
  search_in-length :
      (path : Text) (ds : List A) (i : ℕ) (c : IsCut ds i)
      → length (search_in key path i c.middle ds) < length ds
  unfolding search_in
  search_in-length path ds i c = ground (arith, c.fewer)

  search_from-none_iff :
      (fuel : ℕ) (path : Text) (ds : List A)
      → length ds ≤ fuel
      → Rises ds
      → (search_from key fuel path ds ≡ none) ↔ NoneHas path ds
  unfolding search_from search_in
  search_from-none_iff zero path [] h a = ((λ _. tt), (λ _. refl))
  search_from-none_iff zero path (d ∷ ds) h a = absurd (omega arith)
  search_from-none_iff (suc fuel) path [] h a = ((λ _. tt), (λ _. refl))
  search_from-none_iff (suc fuel) path (e ∷ es) h a =
      let ds = e ∷ es in
      let i = length ds / 2 in
      let c = get_elem?-IsCut ds i (omega arith) in
      let d = c.middle in
      let m = Rises-IsMiddle (take i ds) d (drop (suc i) ds) (subst Rises c.parts a) in
      let half = search_in key path i d ds in
      let step = search_from_step fuel path ds d c.found in
      elim (Bool-cases (text_eq (key d) path)) [
        | inl q ↦
            let hit : search_from key (suc fuel) path ds ≡ some d = step ∙ rw q refl in
            (
              (λ h. absurd (some-ne-none (sym hit ∙ h))),
              (λ none_has.
                  let (_, here) =
                    NoneHas-parts path (take i ds) (d ∷ drop (suc i) ds)
                      (subst (NoneHas path) c.parts none_has) in
                  absurd (true-ne-false (sym q ∙ here.0))),
            )
        | inr q ↦
            let next : search_from key (suc fuel) path ds ≡ search_from key fuel path half =
              step ∙ rw q refl in
            let (rises, iff) = middle_iff path (take i ds) d (drop (suc i) ds) half m q refl in
            let shorter : length half ≤ fuel = omega (arith, search_in-length path ds i c, h) in
            let (to, from) = search_from-none_iff fuel path half shorter rises in
            (
              (λ k. subst (NoneHas path) (sym c.parts) (iff.0 (to (sym next ∙ k)))),
              (λ none_has. next ∙ from (iff.1 (subst (NoneHas path) c.parts none_has))),
            )
      ]

  -- On items in their order the search finds none exactly if none has the text.
  pub binary_search-none_iff :
      (path : Text) (ds : List A) → Rises ds → (binary_search key path ds ≡ none) ↔ NoneHas path ds
  unfolding binary_search
  binary_search-none_iff path ds a = search_from-none_iff (length ds) path ds (omega arith) a

  All-half :
      (P : A → Type 0) (path : Text) (i : ℕ) (d : A) (ds : List A)
      → All P ds
      → All P (search_in key path i d ds)
  unfolding search_in
  All-half P path i d ds h = elim (Bool-cases (text_lt (key d) path)) [
    | inl e ↦ rw e (All-drop P (suc i) ds h)
    | inr e ↦ rw e (All-take P i ds h)
  ]

  search_from-All :
      (P : A → Type 0) (fuel : ℕ) (path : Text) (ds : List A) (a : A)
      → All P ds
      → search_from key fuel path ds ≡ some a
      → P a × (text_eq (key a) path ≡ true)
  unfolding search_from
  search_from-All P zero path ds a h e = absurd (cc)
  search_from-All P (suc fuel) path ds a h e = elim (Option-cases (get_elem? ds (length ds / 2))) [
    | inl q ↦ absurd (cc (rw (q, search_from) at e))
    | inr (d, q) ↦
        let step = sym (search_from_step fuel path ds d q) ∙ e in
        elim (Bool-cases (text_eq (key d) path)) [
          | inl t ↦
              let same : d ≡ a = cc (rw t at step) in
              subst (λ x. P x × (text_eq (key x) path ≡ true)) same
                (All-get_elem? P ds (length ds / 2) d h q, t)
          | inr t ↦
              search_from-All P fuel path (search_in key path (length ds / 2) d ds) a
                (All-half P path (length ds / 2) d ds h) (rw t at step)
        ]
  ]

  -- What the search finds has the text, and what all items have.
  pub binary_search-All :
      (P : A → Type 0) (path : Text) (ds : List A) (a : A)
      → All P ds
      → binary_search key path ds ≡ some a
      → P a × (text_eq (key a) path ≡ true)
  unfolding binary_search
  binary_search-All P path ds a h e = search_from-All P (length ds) path ds a h e
