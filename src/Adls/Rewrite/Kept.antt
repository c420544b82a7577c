-- ===== src/Adls/Rewrite/Kept.antt =====
-- src/adls.rs: what one written change keeps, and the source that it puts in place.
use zwirn.Prelude.{
  ℕ, ◌+◌, ◌%◌, ◌^◌, ◌≤◌, ◌<◌, List, [], ◌∷◌, ◌++◌, ◌≡◌, ◌⊎◌, inl, inr, refl, sym, ap, ◌∙◌, arith,
  some, length, length-append, append-nil, replicate, All, All-map,
}
use zwirn.Text.{Text}
use zwirn.Text.Range.{get_range}
use zwirn.Text.Range.Laws.{
  get_range-append, get_range-middle, get_range-copied, get_range-kept, length-copy_at,
}
use zwirn.Adls.Parser.{from_le_bytes}
use zwirn.Adls.Document.Strings.{string_size}
use zwirn.Adls.Document.Nodes.{AreApart}
use zwirn.Adls.Document.Parsed.{IsClearOf, HasSource}
use zwirn.Adls.Rewrite.{padding_of, to_le_bytes, Change}
use zwirn.Adls.Rewrite.Size.{padded, string_bytes, length-padded, length-grown, IsWritten}

pub from_le_bytes-to_le_bytes : (n : ℕ) → n < 2 ^ 32 → from_le_bytes (to_le_bytes n) ≡ n
from_le_bytes-to_le_bytes n h = omega arith

-- Every range that overlaps none of the fields holds the same bytes afterwards.
abbrev pub IsKept : Text → Text → List ℕ → Type 0
IsKept before after fields =
    (from to : ℕ) (range : Text)
    → IsClearOf fields from to
    → get_range before from to ≡ some range
    → get_range after from to ≡ some range

pub IsWritten-IsKept :
    (output : Text) (change : Change) (next : Text)
    → IsWritten output change next
    → IsKept output next (change.field_location ∷ [])
IsWritten-IsKept output change next w from to range clear g =
    get_range-kept (padded output ++ string_bytes change) (to_le_bytes w.relative) next
      change.field_location w.copied from to range (elim clear.0 [ inl l ↦ inr l | inr l ↦ inl l ])
      (get_range-append (padded output) (string_bytes change) range from to
        (get_range-append output (replicate (padding_of (length output)) 0) range from to g))

pub IsWritten-length :
    (output : Text) (change : Change) (next : Text)
    → IsWritten output change next
    → length next ≡ length (padded output) + string_size change.replacement
IsWritten-length output change next w =
    length-copy_at (padded output ++ string_bytes change) (to_le_bytes w.relative) next
      change.field_location w.copied
    ∙ omega (arith, length-grown output change, (length-padded output).0)

-- The change puts its replacement in place.
pub IsWritten-HasSource :
    (output : Text) (change : Change) (next : Text) (fields : List ℕ)
    → IsWritten output change next
    → change.replacement_length ≡ length change.replacement
    → change.replacement_length < 2 ^ 32
    → change.field_location % 4 ≡ 0
    → change.field_location + 4 ≤ length output
    → All (λ g. g + 4 ≤ length output) fields
    → HasSource next fields change.field_location change.replacement
IsWritten-HasSource output change next fields w e small aligned inside all =
    let (pad, multiple) = length-padded output in
    let long = IsWritten-length output change next w in
    let front : length output ≤ length (padded output) = omega (arith, pad) in
    let written : get_range (padded output ++ string_bytes change) (length (padded output))
          (length (padded output) + string_size change.replacement)
        ≡ some (string_bytes change) =
      ap
        (λ t.
          get_range (padded output ++ t) (length (padded output))
            (length (padded output) + string_size change.replacement))
        (sym (append-nil (string_bytes change)))
      ∙ get_range-middle (padded output) (string_bytes change) [] (length (padded output))
          (length (padded output) + string_size change.replacement) refl
          (omega (arith, length-append change.replacement (0 ∷ []))) in
    record {
      start = length (padded output);
      source_at = record {
        points = record {
          pointer = to_le_bytes w.relative;
          holds =
              get_range-copied (padded output ++ string_bytes change) (to_le_bytes w.relative) next
                change.field_location w.copied;
          sum = omega (arith, w.reaches, from_le_bytes-to_le_bytes w.relative w.small);
          aligned = aligned;
          target_aligned = multiple;
          ahead = omega arith;
          inside = omega arith;
        };
        size = to_le_bytes change.replacement_length;
        sized = from_le_bytes-to_le_bytes change.replacement_length small ∙ e;
        holds =
            get_range-kept (padded output ++ string_bytes change) (to_le_bytes w.relative) next
              change.field_location w.copied (length (padded output))
              (length (padded output) + string_size change.replacement) (string_bytes change)
              (inr (omega arith)) written;
      };
      clear = All-map (λ g. g + 4 ≤ length output) _ fields (λ g l. inl (omega arith)) all;
    }

-- A source stays in place when neither its field nor its bytes are written to.
pub HasSource-kept :
    (before after : Text) (fields changed : List ℕ) (f : ℕ) (source : Text)
    → IsKept before after changed
    → length before ≤ length after
    → All (AreApart f) changed
    → (h : HasSource before fields f source)
    → IsClearOf changed h.start (h.start + string_size source)
    → HasSource after fields f source
HasSource-kept before after fields changed f source kept long apart h clear =
    let points = h.source_at.points in
    record {
      start = h.start;
      source_at = record {
        points = record {
          pointer = points.pointer;
          holds =
              kept f (f + 4) points.pointer
                (All-map (AreApart f) (λ g. (g + 4 ≤ f) ⊎ (f + 4 ≤ g)) changed
                  (λ g a. elim a [ inl l ↦ inr l | inr l ↦ inl l ]) apart)
                points.holds;
          sum = points.sum;
          aligned = points.aligned;
          target_aligned = points.target_aligned;
          ahead = points.ahead;
          inside = omega (arith, points.inside);
        };
        size = h.source_at.size;
        sized = h.source_at.sized;
        holds = kept h.start (h.start + string_size source) _ clear h.source_at.holds;
      };
      clear = h.clear;
    }
