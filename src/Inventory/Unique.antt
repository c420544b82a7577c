-- ===== src/Inventory/Unique.antt =====
-- Sorting and comparing neighbours finds every duplicate.
use zwirn.Prelude.{
  true, false, List, [], ◌∷◌, ◌≡◌, ◌↔◌, inl, inr, refl, ap, arith, ok, All, Bool-cases,
}
use zwirn.Text.{text_eq_iff}
use zwirn.Text.Order.{text_lt, text_lt_trans, text_lt_irrefl, text_lt_total}
use zwirn.Fragment.Path.{path_eq}
use zwirn.Inventory.{
  DiscoveredFragment, before, insert_sorted, sort_by_path, unique_after, validate_uniqueness,
}

abbrev pub Fresh : DiscoveredFragment → List DiscoveredFragment → Type 0
Fresh x ds = All (λ (d : DiscoveredFragment). path_eq x.path d.path ≡ false) ds

-- No two fragments have the same path.
abbrev pub Distinct : List DiscoveredFragment → Type 0
Distinct [] = Unit
Distinct (d ∷ ds) = Fresh d ds × Distinct ds

abbrev pub Below : DiscoveredFragment → List DiscoveredFragment → Type 0
Below x ds = All (λ (d : DiscoveredFragment). before x d ≡ true) ds

-- Each path is below all those behind it.
abbrev pub IsAscending : List DiscoveredFragment → Type 0
IsAscending [] = Unit
IsAscending (d ∷ ds) = Below d ds × IsAscending ds

path_eq_comm : (x y : DiscoveredFragment) → path_eq x.path y.path ≡ path_eq y.path x.path
path_eq_comm x y =
    ground (arith, text_eq_iff x.path.text y.path.text, text_eq_iff y.path.text x.path.text)

Fresh-insert_sorted :
    (x y : DiscoveredFragment) (ds : List DiscoveredFragment)
    → Fresh x (insert_sorted y ds) ↔ ((path_eq x.path y.path ≡ false) × Fresh x ds)
unfolding insert_sorted
Fresh-insert_sorted x y [] = ((λ h. h), (λ h. h))
Fresh-insert_sorted x y (d ∷ ds) = ground (arith, Fresh-insert_sorted x y ds)

Distinct-insert_sorted :
    (y : DiscoveredFragment) (ds : List DiscoveredFragment)
    → Distinct (insert_sorted y ds) ↔ (Fresh y ds × Distinct ds)
unfolding insert_sorted
Distinct-insert_sorted y [] = ((λ h. h), (λ h. h))
Distinct-insert_sorted y (d ∷ ds) =
    ground (arith, Distinct-insert_sorted y ds, Fresh-insert_sorted d y ds, path_eq_comm d y)

Fresh-sort_by_path :
    (x : DiscoveredFragment) (ds : List DiscoveredFragment) → Fresh x (sort_by_path ds) ↔ Fresh x ds
unfolding sort_by_path
Fresh-sort_by_path x [] = ((λ h. h), (λ h. h))
Fresh-sort_by_path x (d ∷ ds) =
    ground (arith, Fresh-sort_by_path x ds, Fresh-insert_sorted x d (sort_by_path ds))

Distinct-sort_by_path : (ds : List DiscoveredFragment) → Distinct (sort_by_path ds) ↔ Distinct ds
unfolding sort_by_path
Distinct-sort_by_path [] = ((λ h. h), (λ h. h))
Distinct-sort_by_path (d ∷ ds) = ground (
  arith,
  Distinct-sort_by_path ds,
  Distinct-insert_sorted d (sort_by_path ds),
  Fresh-sort_by_path d ds,
)

-- No path is below one that stands before it.
abbrev NotAbove : DiscoveredFragment → List DiscoveredFragment → Type 0
NotAbove x ds = All (λ (d : DiscoveredFragment). before d x ≡ false) ds

abbrev IsWeak : List DiscoveredFragment → Type 0
IsWeak [] = Unit
IsWeak (d ∷ ds) = NotAbove d ds × IsWeak ds

not_above_trans :
    (x y d : DiscoveredFragment) → before y x ≡ false → before d y ≡ false → before d x ≡ false
not_above_trans x y d h k = elim (Bool-cases (before d x)) [
  | inl e ↦ elim (text_lt_total y.path.text d.path.text) [
    | inl l ↦ absurd (cc (text_lt_trans y.path.text d.path.text x.path.text l e, h))
    | inr (inl q) ↦ absurd (cc (ap (λ t. text_lt t x.path.text) q, e, h))
    | inr (inr l) ↦ absurd (cc (l, k))
  ]
  | inr e ↦ e
]

NotAbove-trans :
    (x y : DiscoveredFragment) (ds : List DiscoveredFragment)
    → before y x ≡ false
    → NotAbove y ds
    → NotAbove x ds
NotAbove-trans x y [] h k = tt
NotAbove-trans x y (d ∷ ds) h k = (not_above_trans x y d h k.0, NotAbove-trans x y ds h k.1)

NotAbove-insert_sorted :
    (x y : DiscoveredFragment) (ds : List DiscoveredFragment)
    → before y x ≡ false
    → NotAbove x ds
    → NotAbove x (insert_sorted y ds)
unfolding insert_sorted
NotAbove-insert_sorted x y [] h k = (h, tt)
NotAbove-insert_sorted x y (d ∷ ds) h k = ground (arith, NotAbove-insert_sorted x y ds)

before_asym : (x y : DiscoveredFragment) → before x y ≡ true → before y x ≡ false
before_asym x y h = elim (Bool-cases (before y x)) [
  | inl e ↦
      absurd
        (cc (text_lt_trans x.path.text y.path.text x.path.text h e, text_lt_irrefl x.path.text))
  | inr e ↦ e
]

insert_sorted-IsWeak :
    (y : DiscoveredFragment) (ds : List DiscoveredFragment)
    → IsWeak ds
    → IsWeak (insert_sorted y ds)
unfolding insert_sorted
insert_sorted-IsWeak y [] h = (tt, tt)
insert_sorted-IsWeak y (d ∷ ds) h = elim (Bool-cases (before d y)) [
  | inl e ↦
      rw e (NotAbove-insert_sorted d y ds (before_asym d y e) h.0, insert_sorted-IsWeak y ds h.1)
  | inr e ↦ rw e ((e, NotAbove-trans y d ds e h.0), h)
]

sort_by_path-IsWeak : (ds : List DiscoveredFragment) → IsWeak (sort_by_path ds)
unfolding sort_by_path
sort_by_path-IsWeak [] = tt
sort_by_path-IsWeak (d ∷ ds) = insert_sorted-IsWeak d (sort_by_path ds) (sort_by_path-IsWeak ds)

before_of_weak :
    (x y : DiscoveredFragment)
    → before y x ≡ false
    → path_eq x.path y.path ≡ false
    → before x y ≡ true
before_of_weak x y h k = elim (text_lt_total x.path.text y.path.text) [
  | inl l ↦ l
  | inr (inl q) ↦ absurd (cc ((text_eq_iff x.path.text y.path.text).1 q, k))
  | inr (inr l) ↦ absurd (cc (l, h))
]

Below-trans :
    (x y : DiscoveredFragment) (ds : List DiscoveredFragment)
    → before x y ≡ true
    → Below y ds
    → Below x ds
Below-trans x y [] h k = tt
Below-trans x y (d ∷ ds) h k =
    (text_lt_trans x.path.text y.path.text d.path.text h k.0, Below-trans x y ds h k.1)

unique_after-IsAscending :
    (x : DiscoveredFragment) (ds : List DiscoveredFragment)
    → IsWeak (x ∷ ds)
    → unique_after x ds ≡ ok tt
    → Below x ds × IsAscending ds
unfolding unique_after
unique_after-IsAscending x [] w h = (tt, tt)
unique_after-IsAscending x (d ∷ ds) w h = elim (Bool-cases (path_eq x.path d.path)) [
  | inl e ↦ absurd (cc (rw e at h))
  | inr e ↦
      let (below, ascending) = unique_after-IsAscending d ds w.1 (rw e at h) in
      let less = before_of_weak x d w.0.0 e in
      ((less, Below-trans x d ds less below), (below, ascending))
]

Below-Fresh : (x : DiscoveredFragment) (ds : List DiscoveredFragment) → Below x ds → Fresh x ds
Below-Fresh x [] h = tt
Below-Fresh x (d ∷ ds) h = elim (Bool-cases (path_eq x.path d.path)) [
  | inl e ↦
      let same = (text_eq_iff x.path.text d.path.text).0 e in
      absurd (cc (ap (λ t. text_lt t d.path.text) same, h.0, text_lt_irrefl d.path.text))
  | inr e ↦ (e, Below-Fresh x ds h.1)
]

IsAscending-Distinct : (ds : List DiscoveredFragment) → IsAscending ds → Distinct ds
IsAscending-Distinct [] h = tt
IsAscending-Distinct (d ∷ ds) h = (Below-Fresh d ds h.0, IsAscending-Distinct ds h.1)

unique_after-ok :
    (x : DiscoveredFragment) (ds : List DiscoveredFragment)
    → Distinct (x ∷ ds)
    → unique_after x ds ≡ ok tt
unfolding unique_after
unique_after-ok x [] h = refl
unique_after-ok x (d ∷ ds) h = rw (h.0.0) (unique_after-ok d ds h.1)

validate_uniqueness-IsAscending :
    (ds : List DiscoveredFragment) → IsWeak ds → validate_uniqueness ds ≡ ok tt → IsAscending ds
unfolding validate_uniqueness
validate_uniqueness-IsAscending [] w h = tt
validate_uniqueness-IsAscending (d ∷ ds) w h = unique_after-IsAscending d ds w h

validate_uniqueness-ok :
    (ds : List DiscoveredFragment) → Distinct ds → validate_uniqueness ds ≡ ok tt
unfolding validate_uniqueness
validate_uniqueness-ok [] h = refl
validate_uniqueness-ok (d ∷ ds) h = unique_after-ok d ds h

-- The fragments that were discovered are accepted, once sorted, exactly if no two of them have
-- the same path, and then the sorted paths rise strictly.
pub validate_uniqueness-Distinct :
    (ds : List DiscoveredFragment)
    → ((validate_uniqueness (sort_by_path ds) ≡ ok tt) ↔ Distinct ds)
      × (validate_uniqueness (sort_by_path ds) ≡ ok tt → IsAscending (sort_by_path ds))
validate_uniqueness-Distinct ds =
    let rises = validate_uniqueness-IsAscending (sort_by_path ds) (sort_by_path-IsWeak ds) in
    (
      (
        (λ h. (Distinct-sort_by_path ds).0 (IsAscending-Distinct (sort_by_path ds) (rises h))),
        (λ h. validate_uniqueness-ok (sort_by_path ds) ((Distinct-sort_by_path ds).1 h)),
      ),
      rises,
    )
