-- ===== src/Fragment/Rewrite/Edits.antt =====
-- The edits of a rewrite lie one behind the other, and applying them splices the source.
use zwirn.Prelude.{
  and_then, checked_sub, checked_add, ℕ, ◌+◌, ◌-◌, ◌≤◌, List, [], ◌∷◌, ◌++◌, append_assoc, ◌≡◌, ap,
  ◌∙◌, arith, length, drop, length-append, length-drop, ok, >>=-eq-ok,
}
use zwirn.Text.{Text, slice}
use zwirn.Text.Slice.{slice-split, drop-split, slice-length, length-slice}
use zwirn.Text.Range.Laws.{index_range_of}
use zwirn.Fragment.Rewrite.{
  TextEdit, RewriteError, apply_edits, fold_length, path_key, or_too_large,
}

-- Edits one behind the other between `low` and `high`.
abbrev pub Ordered : ℕ → List TextEdit → ℕ → Type 0
Ordered low [] high = low ≤ high
Ordered low (e ∷ es) high =
    (low ≤ e.range_start) × (e.range_start ≤ e.range_end) × Ordered e.range_end es high

-- The reference: the source from `pos` on with each range replaced.
abbrev pub splice : Text → ℕ → List TextEdit → Text
splice source pos [] = drop pos source
splice source pos (e ∷ es) =
    slice source pos e.range_start ++ (e.replacement ++ splice source e.range_end es)

pub Ordered-low :
    (low lower high : ℕ) (es : List TextEdit)
    → Ordered low es high
    → lower ≤ low
    → Ordered lower es high
Ordered-low low lower high [] o h = omega arith
Ordered-low low lower high (e ∷ es) (a, b, rest) h = (omega arith, b, rest)

pub Ordered-le : (low high : ℕ) (es : List TextEdit) → Ordered low es high → low ≤ high
Ordered-le low high [] o = o
Ordered-le low high (e ∷ es) (a, b, rest) = omega (arith, Ordered-le e.range_end high es rest)

pub splice-skip :
    (source : Text) (pos middle high : ℕ) (es : List TextEdit)
    → pos ≤ middle
    → Ordered middle es high
    → splice source pos es ≡ slice source pos middle ++ splice source middle es
splice-skip source pos middle high [] h o = drop-split source pos middle h
splice-skip source pos middle high (e ∷ es) h (a, b, rest) =
    rw (slice-split source pos middle e.range_start h a)
      (append_assoc (slice source pos middle) (slice source middle e.range_start) _)

-- Copying and replacing along ordered edits never panics, and gives the splice.
pub apply_edits-splice :
    (source out : Text) (cursor : ℕ) (es : List TextEdit)
    → Ordered cursor es (length source)
    → apply_edits source out cursor es ≡ ok (out ++ splice source cursor es)
unfolding apply_edits
apply_edits-splice source out cursor [] o =
    rw (index_range_of {E = RewriteError} source cursor (length source) o (omega arith))
      (ap ok (rw (slice-length source cursor)))
apply_edits-splice source out cursor (e ∷ es) (a, b, rest) =
    let le = Ordered-le e.range_end (length source) es rest in
    rw (index_range_of {E = RewriteError} source cursor e.range_start a (omega arith)) (
      apply_edits-splice source ((out ++ slice source cursor e.range_start) ++ e.replacement)
        e.range_end es rest
      ∙ ap ok (simp append_assoc))

-- How many bytes the edits take away, and how many they add.
abbrev removed : List TextEdit → ℕ
removed [] = 0
removed (e ∷ es) = (e.range_end - e.range_start) + removed es

abbrev added : List TextEdit → ℕ
added [] = 0
added (e ∷ es) = length e.replacement + added es

length-splice :
    (source : Text) (cursor : ℕ) (es : List TextEdit)
    → Ordered cursor es (length source)
    → length (splice source cursor es) + removed es + cursor ≡ length source + added es
length-splice source cursor [] o = omega (arith, length-drop cursor source)
length-splice source cursor (e ∷ es) (a, b, rest) =
    let le = Ordered-le e.range_end (length source) es rest in
    omega (
      arith,
      length-splice source e.range_end es rest,
      length-append (slice source cursor e.range_start)
          (e.replacement ++ splice source e.range_end es),
      length-append e.replacement (splice source e.range_end es),
      length-slice source cursor e.range_start a (omega arith),
    )

-- One step of the fold, where it does not give up.
length_step :
    (size : ℕ) (e : TextEdit) (n : ℕ)
    → or_too_large (
        and_then
          (checked_sub size (e.range_end - e.range_start))
          (λ n. checked_add n (length e.replacement)))
      ≡ ok n
    → n + (e.range_end - e.range_start) ≡ size + length e.replacement
length_step size e n h = ground arith

fold_length-exact :
    (size : ℕ) (es : List TextEdit) (n : ℕ)
    → fold_length size es ≡ ok n
    → n + removed es ≡ size + added es
unfolding fold_length
fold_length-exact size [] n h = ground arith
fold_length-exact size (e ∷ es) n h =
    let shrunk = checked_sub size (e.range_end - e.range_start) in
    let grown = and_then shrunk (λ n. checked_add n (length e.replacement)) in
    let (next, step, r) = >>=-eq-ok (or_too_large grown) (λ n. fold_length n es) h in
    omega (arith, length_step size e next step, fold_length-exact next es n r)

-- The length that is reserved is that of the spliced text.
pub fold_length-splice :
    (source : Text) (es : List TextEdit) (n : ℕ)
    → Ordered 0 es (length source)
    → fold_length (length source) es ≡ ok n
    → n ≡ length (splice source 0 es)
fold_length-splice source es n o h =
    omega (arith, fold_length-exact (length source) es n h, length-splice source 0 es o)
