-- ===== src/Adls/Rewrite/Total.antt =====
-- src/adls.rs: `Document::rewrite` does not panic on a parsed document.
use mathlib.Core.Path.{subst}
use zwirn.Prelude.{
  ℕ, ◌+◌, ◌≤◌, Bool, List, [], ◌∷◌, ◌≡◌, ◌≢◌, ◌∙◌, arith, Option, none, some, ltb, inl, inr, length,
  replicate, All, All-append, Both, ok, ok-injective, panic, >>=-elim, >>=-ne-panic,
  >>=-ne-panic_of, require-ne-panic, ok-ne-panic, err-ne-panic, Bool-cases,
}
use zwirn.Text.{Text, text_eq}
use zwirn.Adls.Error.{NodeHandle, allocation_failed}
use zwirn.Adls.Table.Total.{if-ne-panic}
use zwirn.Adls.Document.{SourceNode, Document}
use zwirn.Adls.Document.Total.{parse-ne-panic}
use zwirn.Adls.Document.Parsed.{IsDocument}
use zwirn.Adls.Rewrite.{
  to_u32, or_size_limit, next_size, Change, change_one, collect_changes, write_changes, plan_sizes,
  plan_rewrite_size, replacement_lengths, apply_changes, rewrite, max_rewritten_adls_size,
}
use zwirn.Adls.Rewrite.Size.{write_changes-plan_rewrite_size, length-replicate}
use zwirn.Adls.Rewrite.Faithful.{IsDocument-inside}
use zwirn.Adls.Rewrite.Accepted.{request_all-ne-panic, request_all-length, or_size_limit-ne-panic}

change_one-ne-panic :
    (node : SourceNode) (location : ℕ) (replacement : Option Text)
    → change_one node location replacement ≢ panic
unfolding change_one
change_one-ne-panic node location none = ok-ne-panic _
change_one-ne-panic node location (some replacement) =
    if-ne-panic (text_eq replacement node.source) _ _ (ok-ne-panic _)
      (>>=-ne-panic _ _ (or_size_limit-ne-panic (to_u32 (length replacement))) λ n. ok-ne-panic _)

collect_changes-ne-panic :
    (R : SourceNode → ℕ → Type 0) (sources : List SourceNode) (locations : List ℕ)
    (requested : List (Option Text))
    → Both R sources locations
    → length requested ≡ length sources
    → collect_changes sources locations requested ≢ panic
unfolding collect_changes
collect_changes-ne-panic R sources locations [] b e = ok-ne-panic _
collect_changes-ne-panic R (node ∷ sources) (location ∷ locations) (replacement ∷ requested) b e =
    >>=-ne-panic _ _ (change_one-ne-panic node location replacement) λ change.
      >>=-ne-panic _ _ (collect_changes-ne-panic R sources locations requested b.1 (omega arith))
        λ rest. ok-ne-panic _
collect_changes-ne-panic R [] locations (replacement ∷ requested) b e = absurd (omega arith)
collect_changes-ne-panic R (node ∷ sources) [] (replacement ∷ requested) b e = elim b [ ]

abbrev Inside : ℕ → Change → Type 0
Inside n change = change.field_location + 4 ≤ n

change_one-Inside :
    (n : ℕ) (node : SourceNode) (location : ℕ) (replacement : Option Text) {changes : List Change}
    → location + 4 ≤ n
    → change_one node location replacement ≡ ok changes
    → All (Inside n) changes
unfolding change_one
change_one-Inside n node location none l h = subst (All (Inside n)) (ok-injective h) tt
change_one-Inside n node location (some replacement) l h =
    elim (Bool-cases (text_eq replacement node.source)) [
      | inl e ↦ subst (All (Inside n)) (ok-injective (rw (e, change_one) at h)) tt
      | inr e ↦
          >>=-elim (or_size_limit (to_u32 (length replacement))) _ (rw (e, change_one) at h)
            λ size _ h1. subst (All (Inside n)) (ok-injective h1) (l, tt)
    ]

collect_changes-Inside :
    (n : ℕ) (sources : List SourceNode) (locations : List ℕ) (requested : List (Option Text))
    {changes : List Change}
    → All (λ g. g + 4 ≤ n) locations
    → collect_changes sources locations requested ≡ ok changes
    → All (Inside n) changes
unfolding collect_changes
collect_changes-Inside n sources locations [] l h = subst (All (Inside n)) (ok-injective h) tt
collect_changes-Inside n (node ∷ sources) (location ∷ locations) (replacement ∷ requested) l h =
    >>=-elim (change_one node location replacement) _ h λ change c h1.
      >>=-elim (collect_changes sources locations requested) _ h1 λ rest d h2.
        subst (All (Inside n)) (ok-injective h2) (
          All-append (Inside n) change rest (change_one-Inside n node location replacement l.0 c)
            (collect_changes-Inside n sources locations requested l.1 d))
collect_changes-Inside n [] locations (replacement ∷ requested) l h = absurd (cc)
collect_changes-Inside n (node ∷ sources) [] (replacement ∷ requested) l h = absurd (cc)

plan_sizes-ne-panic : (size : ℕ) (lengths : List ℕ) → plan_sizes size lengths ≢ panic
unfolding plan_sizes
plan_sizes-ne-panic size [] = ok-ne-panic _
plan_sizes-ne-panic size (n ∷ lengths) =
    >>=-ne-panic _ _ (or_size_limit-ne-panic (next_size size n))
      λ next. plan_sizes-ne-panic next lengths

plan_rewrite_size-ne-panic : (size : ℕ) (lengths : List ℕ) → plan_rewrite_size size lengths ≢ panic
unfolding plan_rewrite_size
plan_rewrite_size-ne-panic size lengths =
    if-ne-panic (ltb max_rewritten_adls_size size) _ _ (err-ne-panic _)
      (plan_sizes-ne-panic size lengths)

apply_changes-ne-panic :
    (can_reserve : ℕ → Bool) (fresh : ℕ) (bytes : Text) (changes : List Change)
    → All (Inside (length bytes)) changes
    → apply_changes can_reserve fresh bytes changes ≢ panic
unfolding apply_changes
apply_changes-ne-panic can_reserve fresh bytes [] l = ok-ne-panic _
apply_changes-ne-panic can_reserve fresh bytes (change ∷ changes) l =
    >>=-ne-panic_of _ _
      (plan_rewrite_size-ne-panic (length bytes) (replacement_lengths (change ∷ changes)))
      λ size p. >>=-ne-panic _ _ (require-ne-panic (can_reserve size) allocation_failed) λ _.
        let (output, w, _, _) = write_changes-plan_rewrite_size bytes (change ∷ changes) l p in
        let written : write_changes bytes (change ∷ changes) ≢ panic = λ q. cc in
        >>=-ne-panic _ _ written
          λ output. >>=-ne-panic _ _ (parse-ne-panic fresh output) λ parsed. ok-ne-panic _

-- A rewrite of a parsed document does not panic, whatever the batch and whatever the allocator
-- answers: every index into the sources, their locations and the requests is in range, and so is
-- the place where an offset is written.
pub rewrite-IsDocument-ne-panic :
    (can_reserve : ℕ → Bool) (fresh id : ℕ) (document : Document)
    (replacements : List (NodeHandle × Text))
    → IsDocument id document
    → rewrite can_reserve fresh document replacements ≢ panic
unfolding rewrite
rewrite-IsDocument-ne-panic can_reserve fresh id document [] w = ok-ne-panic _
rewrite-IsDocument-ne-panic can_reserve fresh id document (replacement ∷ replacements) w =
    let sources = document.sources in
    let locations = document.source_field_locations in
    let long : length (replicate {A = Option Text} (length sources) none) ≡ length sources =
      length-replicate (length sources) none in
    >>=-ne-panic_of _ _
      (request_all-ne-panic sources (replicate (length sources) none) (replacement ∷ replacements)
        long)
      λ requested r.
        >>=-ne-panic_of _ _
          (collect_changes-ne-panic _ sources locations requested w.readable (
            request_all-length sources (replicate (length sources) none)
              (replacement ∷ replacements) r
            ∙ long))
          λ changes c. apply_changes-ne-panic can_reserve fresh document.bytes changes (
            collect_changes-Inside (length document.bytes) sources locations requested
              (IsDocument-inside id document w) c)
