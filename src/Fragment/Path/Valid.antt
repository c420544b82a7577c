-- ===== src/Fragment/Path/Valid.antt =====
-- Which strings are fragment paths.
use zwirn.Prelude.{
  ℕ, true, false, List, [], ◌∷◌, ◌≡◌, ◌≢◌, ◌↔◌, refl, arith, ◌==◌, panic, ok, All, Bool-cases, inl,
  inr,
}
use mathlib.Core.List.{tail}
use zwirn.Text.{
  Text, ascii, text_eq_iff, is_empty, starts_with, ends_with, contains, has_whitespace,
}
use zwirn.Text.Split.{split, cons_head}
use zwirn.Fragment.Path.{validate_segment, validate_segments, validate_fragment_path, try_from}

-- A component that a path may have: none of "", "." and "..".
abbrev pub IsComponent : Text → Type 0
IsComponent s = (s ≢ []) × (s ≢ ascii ".") × (s ≢ ascii "..")

validate_segment_iff : (s : Text) → (validate_segment s ≡ ok tt) ↔ IsComponent s
unfolding validate_segment
validate_segment_iff s =
    ground (arith, text_eq_iff s [], text_eq_iff s (ascii "."), text_eq_iff s (ascii ".."))

validate_segments_iff : (ss : List Text) → (validate_segments ss ≡ ok tt) ↔ All IsComponent ss
unfolding validate_segments
validate_segments_iff [] = (λ h. tt, λ h. refl)
validate_segments_iff (s ∷ ss) = ground (
  arith,
  (validate_segment_iff s).0,
  (validate_segment_iff s).1,
  (validate_segments_iff ss).0,
  (validate_segments_iff ss).1,
)

tail-cons_head : (b : ℕ) (ss : List Text) → tail (cons_head b ss) ≡ tail ss
tail-cons_head b [] = refl
tail-cons_head b (s ∷ ss) = refl

All-tail {ℓ κ} : {A : Type ℓ} (P : A → Type κ) (xs : List A) → All P xs → All P (tail xs)
All-tail P [] h = tt
All-tail P (x ∷ xs) h = h.1

-- A separator at the end leaves an empty part behind the first.
ends_with-tail : (s : Text) → ends_with s b'/' ≡ true → All IsComponent (tail (split b'/' s)) → ⊥
unfolding ends_with split
ends_with-tail [] h k = cc
ends_with-tail (b ∷ []) h k = ends (rw h at k)
  where
    ends : All IsComponent (tail ([] ∷ [] ∷ [])) → ⊥
    ends k = k.0.0 refl
ends_with-tail (b ∷ d ∷ s) h k = elim (Bool-cases (b == b'/')) [
  | inl e ↦ ends_with-tail (d ∷ s) h (All-tail IsComponent (split b'/' (d ∷ s)) (rw e at k))
  | inr e ↦ ends_with-tail (d ∷ s) h (rw tail-cons_head at (rw e at k))
]

starts_with-split :
    (s : Text) → starts_with s (ascii "/") ≡ true → All IsComponent (split b'/' s) → ⊥
unfolding starts_with split
starts_with-split [] h k = cc
starts_with-split (b ∷ s) h k =
    let e : (b == b'/') ≡ true = ground arith in let k' = rw e at k in k'.0.0 refl

is_empty-split : (s : Text) → is_empty s ≡ true → All IsComponent (split b'/' s) → ⊥
unfolding split
is_empty-split [] h k = k.0.0 refl
is_empty-split (b ∷ s) h k = cc

-- A string is accepted exactly if it has no backslash, no white space, and no part between
-- slashes that is empty, `.` or `..`: the first three checks of the code are consequences.
pub validate_fragment_path_iff :
    (value : Text)
    → (validate_fragment_path value ≡ ok tt) ↔ (
        (contains value b'\\' ≡ false)
        × (has_whitespace value ≡ false)
        × All IsComponent (split b'/' value))
unfolding validate_fragment_path
validate_fragment_path_iff value = (there, back)
  where
    parts : List Text
    parts = split b'/' value

    there :
        validate_fragment_path value ≡ ok tt
        → (contains value b'\\' ≡ false) × (has_whitespace value ≡ false) × All IsComponent parts
    there h = ground (arith, (validate_segments_iff parts).0)

    back :
        (contains value b'\\' ≡ false) × (has_whitespace value ≡ false) × All IsComponent parts
        → validate_fragment_path value ≡ ok tt
    back (no_backslash, no_space, components) = ground (
      arith,
      (validate_segments_iff parts).1 components,
      λ (h : is_empty value ≡ true). is_empty-split value h components,
      λ (h : starts_with value (ascii "/") ≡ true). starts_with-split value h components,
      λ (h : ends_with value b'/' ≡ true).
          ends_with-tail value h (All-tail IsComponent parts components),
    )

validate_segments-ne-panic : (ss : List Text) → validate_segments ss ≢ panic
unfolding validate_segments validate_segment
validate_segments-ne-panic [] = λ q. cc
validate_segments-ne-panic (s ∷ ss) = ground (arith, validate_segments-ne-panic ss)

-- Validation ends in `Ok` or an error.
pub try_from-ne-panic : (value : Text) → try_from value ≢ panic
unfolding try_from
try_from-ne-panic value = ground (arith, validate_segments-ne-panic (split b'/' value))
