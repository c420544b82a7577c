-- ===== src/Adls/Rewrite.antt =====
-- src/adls.rs: `Document::rewrite`.
pub mod Accepted
pub mod Borrowed
pub mod Total
pub mod Faithful
pub mod Requests
pub mod Written
pub mod Kept
pub mod Size
use zwirn.Prelude.{
  ℕ, zero, suc, ◌+◌, ◌-◌, ◌/◌, ◌%◌, ◌^◌, Bool, true, false, not, List, [], ◌∷◌, ◌++◌, map, Option,
  none, some, if◌then◌else◌, ltb, leb, ◌==◌, length, get_elem?, replicate, checked_sub, checked_add,
  and_then, Result, ok, err, panic, ◌>>=◌, ◌>>◌, require,
}
use zwirn.Text.{Text, text_eq}
use zwirn.Text.Range.{copy_at}
use zwirn.Text.Cow.{Rewritten, borrowed, owned}
use zwirn.Adls.Error.{
  NodeHandle, handle_eq, Error, unknown_node_handle, duplicate_replacement, allocation_failed,
  size_limit_exceeded,
}
use zwirn.Adls.Document.{SourceNode, Document, parse}

abbrev pub max_rewritten_adls_size : ℕ
max_rewritten_adls_size = 2 ^ 31

-- `(U32_SIZE - size % U32_SIZE) % U32_SIZE`.
abbrev pub padding_of : ℕ → ℕ
padding_of size = (4 - size % 4) % 4

-- `to_le_bytes` of a `u32`.
abbrev pub to_le_bytes : ℕ → Text
to_le_bytes n = n % 256 ∷ n / 256 % 256 ∷ n / 65536 % 256 ∷ n / 16777216 % 256 ∷ []

abbrev pub or_size_limit : Option ℕ → Result Error ℕ
or_size_limit none = err size_limit_exceeded
or_size_limit (some n) = ok n

-- `u32::try_from`.
abbrev pub to_u32 : ℕ → Option ℕ
to_u32 n = if ltb n (2 ^ 32) then some n else none

-- `filter`.
abbrev within_limit : Option ℕ → Option ℕ
within_limit none = none
within_limit (some size) = if leb size max_rewritten_adls_size then some size else none

-- The size after one replacement.
unfoldable pub next_size : ℕ → ℕ → Option ℕ
next_size size replacement_length = within_limit (
    and_then
      (and_then (and_then (checked_add size (padding_of size)) (λ size. checked_add size 4))
        (λ size. checked_add size replacement_length))
      (λ size. checked_add size 1))

-- The loop.
unfoldable pub plan_sizes : ℕ → List ℕ → Result Error ℕ
unfolding next_size
plan_sizes size [] = ok size
plan_sizes size (replacement_length ∷ rest) = do
  next ← or_size_limit (next_size size replacement_length)
  plan_sizes next rest

unfoldable pub plan_rewrite_size : ℕ → List ℕ → Result Error ℕ
unfolding plan_sizes
plan_rewrite_size initial_size replacement_lengths =
    if ltb max_rewritten_adls_size initial_size
    then err size_limit_exceeded
    else plan_sizes initial_size replacement_lengths

-- `binary_search_by_key` over the sources, whose indexes rise: the place of the one with `index`.
unfoldable pub find_index : ℕ → List SourceNode → Option (ℕ × SourceNode)
find_index index [] = none
find_index index (node ∷ rest) =
    if node.handle.index == index then some (0, node) else elim (find_index index rest) [
      | none ↦ none
      | some (place, found) ↦ some (suc place, found)
    ]

-- `requested[place].replace(replacement)`: what stood there before, and the new list.
unfoldable pub replace_at :
    List (Option Text) → ℕ → Text → Result Error (Option Text × List (Option Text))
replace_at [] place replacement = panic
replace_at (old ∷ rest) zero replacement = ok (old, some replacement ∷ rest)
replace_at (old ∷ rest) (suc place) replacement = do
  (previous, next) ← replace_at rest place replacement
  ok (previous, old ∷ next)

-- The body of the loop that fills `requested`.
unfoldable pub request_one :
    List SourceNode → List (Option Text) → NodeHandle → Text → Result Error (List (Option Text))
unfolding find_index replace_at
request_one sources requested handle replacement = elim (find_index handle.index sources) [
  | none ↦ err (unknown_node_handle handle)
  | some (place, found) ↦ do
    require (handle_eq found.handle handle) (unknown_node_handle handle)
    (previous, next) ← replace_at requested place replacement
    elim previous [ some earlier ↦ err (duplicate_replacement handle) | none ↦ ok next ]
]

unfoldable pub request_all :
    List SourceNode
    → List (Option Text)
    → List (NodeHandle × Text)
    → Result Error (List (Option Text))
unfolding request_one
request_all sources requested [] = ok requested
request_all sources requested ((handle, replacement) ∷ rest) = do
  next ← request_one sources requested handle replacement
  request_all sources next rest

pub record Change : Type 0 where
  pub field_location : ℕ
  pub replacement : Text
  pub replacement_length : ℕ

-- The change for one node.
unfoldable pub change_one : SourceNode → ℕ → Option Text → Result Error (List Change)
change_one node field_location none = ok []
change_one node field_location (some replacement) =
    if text_eq replacement node.source then ok [] else do
      replacement_length ← or_size_limit (to_u32 (length replacement))
      ok (
          record {
            field_location = field_location;
            replacement = replacement;
            replacement_length = replacement_length;
          }
          ∷ [])

-- The loop over `requested`, whose index runs through the sources and their locations too.
unfoldable pub collect_changes :
    List SourceNode → List ℕ → List (Option Text) → Result Error (List Change)
unfolding change_one
collect_changes sources locations [] = ok []
collect_changes (node ∷ sources) (location ∷ locations) (replacement ∷ requested) = do
  change ← change_one node location replacement
  rest ← collect_changes sources locations requested
  ok (change ++ rest)
collect_changes sources locations (replacement ∷ requested) = panic

-- The body of the loop that writes.
unfoldable pub write_change : Text → Change → Result Error Text
unfolding copy_at
write_change output change = do
  let padded = output ++ replicate (padding_of (length output)) 0
  let string_location = length padded
  relative_offset ←
      or_size_limit (and_then (checked_sub string_location change.field_location) to_u32)
  copy_at (padded ++ (to_le_bytes change.replacement_length ++ (change.replacement ++ (0 ∷ []))))
      change.field_location (to_le_bytes relative_offset)

unfoldable pub write_changes : Text → List Change → Result Error Text
unfolding write_change
write_changes output [] = ok output
write_changes output (change ∷ rest) = do next ← write_change output change; write_changes next rest

abbrev pub replacement_lengths : List Change → List ℕ
replacement_lengths changes = map (λ (change : Change). length change.replacement) changes

module _ (can_reserve : ℕ → Bool) where
  -- From `changes` on; `can_reserve` is the allocator's answer, `document` a fresh number.
  unfoldable pub apply_changes : ℕ → Text → List Change → Result Error Rewritten
  unfolding plan_rewrite_size write_changes
  apply_changes document bytes [] = ok (borrowed bytes)
  apply_changes document bytes (change ∷ changes) = do
    planned_size ← plan_rewrite_size (length bytes) (replacement_lengths (change ∷ changes))
    require (can_reserve planned_size) allocation_failed
    output ← write_changes bytes (change ∷ changes)
    parsed ← parse document output
    ok (owned output)

  unfoldable pub rewrite : ℕ → Document → List (NodeHandle × Text) → Result Error Rewritten
  unfolding request_all collect_changes apply_changes
  rewrite fresh document [] = ok (borrowed document.bytes)
  rewrite fresh document (replacement ∷ replacements) = do
    requested ←
        request_all document.sources (replicate (length document.sources) none)
          (replacement ∷ replacements)
    changes ← collect_changes document.sources document.source_field_locations requested
    apply_changes fresh document.bytes changes
