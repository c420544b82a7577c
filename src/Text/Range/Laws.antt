-- ===== src/Text/Range/Laws.antt =====
-- What a range holds after an append and after a copy.
use zwirn.Prelude.{
  ℕ, zero, suc, ◌+◌, ◌-◌, ◌≤◌, [], ◌∷◌, ◌++◌, ◌≡◌, ◌⊎◌, inl, inr, sym, ap, ◌∙◌, arith, append_assoc,
  take-append-drop, some, length, take, drop, length-append, length-drop, length-take_of_le, ok,
  panic, ◌≢◌, ok-ne-panic, le→leb,
}
use zwirn.Text.{Text, slice, slice-append}
use zwirn.Text.Slice.{drop-split, length-slice}
use zwirn.Text.Range.{index_range, get_range, copy_at}

pub index_range_of {ℓ} :
    {E : Type ℓ} (source : Text) (from to : ℕ)
    → from ≤ to
    → to ≤ length source
    → index_range {E = E} source from to ≡ ok (slice source from to)
unfolding index_range
index_range_of source from to h k = rw (le→leb from to h, le→leb to (length source) k)

pub index_range-ne-panic {ℓ} :
    {E : Type ℓ} (source : Text) (from to : ℕ)
    → from ≤ to
    → to ≤ length source
    → index_range {E = E} source from to ≢ panic
index_range-ne-panic source from to h k = rw (index_range_of source from to h k) (ok-ne-panic _)

pub index_range-bounds {ℓ} :
    {E : Type ℓ} (source range : Text) (from to : ℕ)
    → index_range {E = E} source from to ≡ ok range
    → (from ≤ to) × (to ≤ length source) × (slice source from to ≡ range)
unfolding index_range
index_range-bounds source range from to h = ground arith

pub get_range_of :
    (bytes : Text) (from to : ℕ)
    → from ≤ to
    → to ≤ length bytes
    → get_range bytes from to ≡ some (slice bytes from to)
unfolding get_range
get_range_of bytes from to h k = ground arith

pub get_range-bounds :
    (bytes range : Text) (from to : ℕ)
    → get_range bytes from to ≡ some range
    → (from ≤ to) × (to ≤ length bytes) × (slice bytes from to ≡ range)
unfolding get_range
get_range-bounds bytes range from to h = ground arith

-- A list is what stands before a range, the range and what stands behind it.
split_at :
    (bytes : Text) (from to : ℕ)
    → from ≤ to
    → bytes ≡ take from bytes ++ (slice bytes from to ++ drop to bytes)
split_at bytes from to h = sym (
    ap (λ rest. take from bytes ++ rest) (sym (drop-split bytes from to h))
    ∙ take-append-drop from bytes)

pub slice-append_left :
    (a b : Text) (from to : ℕ)
    → from ≤ to
    → to ≤ length a
    → slice (a ++ b) from to ≡ slice a from to
slice-append_left a b from to h k =
    let whole : a ++ b ≡ take from a ++ (slice a from to ++ (drop to a ++ b)) =
      ap (λ (t : Text). t ++ b) (split_at a from to h)
      ∙ append_assoc (take from a) (slice a from to ++ drop to a) b
      ∙ ap (λ t. take from a ++ t) (append_assoc (slice a from to) (drop to a) b) in
    ap (λ t. slice t from to) whole
    ∙ slice-append (take from a) (slice a from to) (drop to a ++ b) from to
        (omega (arith, length-take_of_le from a (omega arith)))
        (omega (arith, length-take_of_le from a (omega arith), length-slice a from to h k))

drop-append_right :
    (a b : Text) (from : ℕ) → length a ≤ from → drop from (a ++ b) ≡ drop (from - length a) b
drop-append_right [] b from h = let e : from ≡ from - 0 = omega arith in ap (λ n. drop n b) e
drop-append_right (x ∷ a) b zero h = absurd (omega arith)
drop-append_right (x ∷ a) b (suc from) h =
    let e : from - length a ≡ suc from - suc (length a) = omega arith in
    drop-append_right a b from (omega arith) ∙ ap (λ n. drop n b) e

slice-append_right :
    (a b c : Text) (from to : ℕ)
    → length a ≡ length b
    → length a ≤ from
    → slice (a ++ c) from to ≡ slice (b ++ c) from to
slice-append_right a b c from to e h = ap (take (to - from)) (
    drop-append_right a c from h
    ∙ ap (λ n. drop (from - n) c) e
    ∙ sym (drop-append_right b c from (omega arith)))

-- What `copy_at` makes: as long, with the copied bytes in their range and the others as before.
pub copy_at-eq-ok {ℓ} :
    {E : Type ℓ} (output bytes next : Text) (at : ℕ)
    → copy_at {E = E} output at bytes ≡ ok next
    → (at + length bytes ≤ length output)
      × (next ≡ take at output ++ (bytes ++ drop (at + length bytes) output))
unfolding copy_at
copy_at-eq-ok output bytes next at h = ground arith

pub get_range-append :
    (a b range : Text) (from to : ℕ)
    → get_range a from to ≡ some range
    → get_range (a ++ b) from to ≡ some range
get_range-append a b range from to h =
    let (l, k, e) = get_range-bounds a range from to h in
    get_range_of (a ++ b) from to l (omega (arith, length-append a b))
    ∙ ap some (slice-append_left a b from to l k ∙ e)

pub get_range-middle :
    (a b c : Text) (from to : ℕ)
    → from ≡ length a
    → to ≡ length a + length b
    → get_range (a ++ (b ++ c)) from to ≡ some b
get_range-middle a b c from to h k =
    get_range_of (a ++ (b ++ c)) from to (omega arith)
      (omega (arith, length-append a (b ++ c), length-append b c))
    ∙ ap some (slice-append a b c from to h k)

module _ {ℓ} {E : Type ℓ} (output bytes next : Text) (at : ℕ)
    (h : copy_at {E = E} output at bytes ≡ ok next) where
  pub length-copy_at : length next ≡ length output
  length-copy_at =
      let (k, e) = copy_at-eq-ok output bytes next at h in
      rw e (
        omega (
          arith,
          length-append (take at output) (bytes ++ drop (at + length bytes) output),
          length-append bytes (drop (at + length bytes) output),
          length-take_of_le at output (omega arith),
          length-drop (at + length bytes) output,
        ))

  pub get_range-copied : get_range next at (at + length bytes) ≡ some bytes
  get_range-copied =
      let (k, e) = copy_at-eq-ok output bytes next at h in
      rw e (
        get_range-middle (take at output) bytes (drop (at + length bytes) output) at
          (at + length bytes) (sym (length-take_of_le at output (omega arith)))
          (omega (arith, length-take_of_le at output (omega arith))))

  slice_before : (from to : ℕ) → from ≤ to → to ≤ at → slice next from to ≡ slice output from to
  slice_before from to l k =
      let (bound, e) = copy_at-eq-ok output bytes next at h in
      let inside : to ≤ length (take at output) =
        omega (arith, length-take_of_le at output (omega arith)) in
      ap (λ t. slice t from to) e
      ∙ slice-append_left (take at output) (bytes ++ drop (at + length bytes) output) from to l
          inside
      ∙ sym (slice-append_left (take at output) (drop at output) from to l inside)
      ∙ ap (λ t. slice t from to) (take-append-drop at output)

  slice_behind :
      (from to : ℕ) → at + length bytes ≤ from → slice next from to ≡ slice output from to
  slice_behind from to l =
      let (bound, e) = copy_at-eq-ok output bytes next at h in
      let stop : ℕ = at + length bytes in
      let same : length (take at output ++ bytes) ≡ length (take stop output) = omega (
        arith,
        length-append (take at output) bytes,
        length-take_of_le at output (omega arith),
        length-take_of_le stop output bound,
      ) in
      ap (λ t. slice t from to) (e ∙ sym (append_assoc (take at output) bytes (drop stop output)))
      ∙ slice-append_right (take at output ++ bytes) (take stop output) (drop stop output) from to
          same (omega (arith, length-take_of_le stop output bound))
      ∙ ap (λ t. slice t from to) (take-append-drop stop output)

  pub get_range-kept :
      (from to : ℕ) (range : Text)
      → (to ≤ at) ⊎ (at + length bytes ≤ from)
      → get_range output from to ≡ some range
      → get_range next from to ≡ some range
  get_range-kept from to range apart g =
      let (l, k, e) = get_range-bounds output range from to g in
      get_range_of next from to l (omega (arith, length-copy_at))
      ∙ ap some
          (elim apart [ inl b ↦ slice_before from to l b | inr b ↦ slice_behind from to b ] ∙ e)

pub copy_at_total {ℓ} :
    {E : Type ℓ} (output bytes : Text) (at : ℕ)
    → at + length bytes ≤ length output
    → (next : Text) × (copy_at {E = E} output at bytes ≡ ok next)
unfolding copy_at
copy_at_total output bytes at h =
    (take at output ++ (bytes ++ drop (at + length bytes) output), ground arith)
