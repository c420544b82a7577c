-- ===== src/Fragment/Rewrite/Faithful.antt =====
-- `rewrite` on what `parse` found: it computes the reference and never panics.
use mathlib.Core.Path.{subst, fun_ext}
use zwirn.Prelude.{
  and_then, checked_sub, checked_add, ℕ, ◌-◌, Bool, List, [], ◌∷◌, ◌++◌, ◌≡◌, ◌≢◌, refl, sym, ap,
  ◌∙◌, arith, Option, none, some, length, drop, ok, panic, require, >>=-eq-ok, >>=-ne-panic,
  require-ne-panic,
}
use zwirn.Text.{Text, slice}
use zwirn.Text.Slice.{drop-split}
use zwirn.Adls.Kind.{NodeKind}
use zwirn.TreeMap.{get, insert, keys}
use zwirn.Fragment.Path.{FragmentPath}
use zwirn.Fragment.Marker.Bounds.{location_end}
use zwirn.Fragment.Source.{ParsedFragment, ParsedSource, parse}
use zwirn.Fragment.Source.Spans.{Chain, IsParse, parse-IsParse}
use zwirn.Fragment.Rewrite.{
  TextEdit, Requests, fold_length, path_key, write_edits, rewrite_batch, rewrite, Rewritten,
  rewritten_text, borrowed, owned, FragmentUpdate, collect_requests, check_requests, check_matches,
  allocation_failed, update_path, update_source, or_too_large,
}
use zwirn.Fragment.Rewrite.Edits.{Ordered, splice, apply_edits-splice}
use zwirn.Fragment.Rewrite.Requests.{requested_by, get-collect_requests}
use zwirn.Fragment.Rewrite.Surgical.{surgical, all_edits-surgical}

parse-Chain :
    (kind : NodeKind) (source : Text) (parsed : ParsedSource)
    → parse kind source ≡ ok parsed
    → (parsed.source ≡ source) × Chain 0 parsed.fragments (length parsed.source)
parse-Chain kind source parsed h =
    let (e, c) = subst (IsParse source) h (parse-IsParse kind source) in
    (e, subst (λ s. Chain 0 parsed.fragments (length s)) (sym e) c)

or_too_large-ne-panic : (o : Option ℕ) → or_too_large o ≢ panic
or_too_large-ne-panic none = λ q. cc
or_too_large-ne-panic (some n) = λ q. cc

module _ (digest : Text → List ℕ) (can_reserve : ℕ → Bool) where
  -- Once the edits are known, the text that is written is their splice.
  write_edits-splice :
      (source : Text) (es : List TextEdit) (r : Rewritten)
      → Ordered 0 es (length source)
      → write_edits digest can_reserve source es ≡ ok r
      → rewritten_text r ≡ splice source 0 es
  unfolding write_edits
  write_edits-splice source [] r o h =
      let same : borrowed source ≡ r = cc in sym (ap rewritten_text same)
  write_edits-splice source (e ∷ es) r o h =
      let edits = e ∷ es in
      let (n, e₁, r₁) = >>=-eq-ok (fold_length (length source) edits) _ h in
      let (_, e₂, r₂) = >>=-eq-ok (require (can_reserve n) allocation_failed) _ r₁ in
      let written = rw (apply_edits-splice source [] 0 edits o) at r₂ in
      let same : owned (splice source 0 edits) ≡ r = cc written in sym (ap rewritten_text same)

  rewrite_batch-surgical :
      (parsed : ParsedSource) (updates : List FragmentUpdate) (r : Rewritten)
      → Chain 0 parsed.fragments (length parsed.source)
      → rewrite_batch digest can_reserve parsed updates ≡ ok r
      → rewritten_text r ≡ surgical digest parsed.source (requested_by updates) 0 parsed.fragments
  unfolding rewrite_batch
  rewrite_batch-surgical parsed updates r c h =
      let (m, collected, r₁) = >>=-eq-ok (collect_requests [] updates) _ h in
      let (_, checked, r₂) = >>=-eq-ok (check_requests (keys m) parsed.fragments) _ r₁ in
      let (es, built, spliced, ordered) =
        all_edits-surgical digest parsed.source m 0 parsed.fragments c in
      let lookups : (λ path. get path m) ≡ requested_by updates =
        fun_ext (λ path. get-collect_requests updates m path collected) in
      write_edits-splice parsed.source es r ordered (rw built at r₂)
      ∙ spliced
      ∙ ap (λ request_of. surgical digest parsed.source request_of 0 parsed.fragments) lookups

  surgical-none :
      (source : Text) (pos : ℕ) (fs : List ParsedFragment)
      → Chain pos fs (length source)
      → surgical digest source (λ path. none) pos fs ≡ drop pos source
  surgical-none source pos [] c = refl
  surgical-none source pos (f ∷ fs) (a, b, c, d, rest) =
      ap (◌++◌ (slice source pos (location_end f.hash_location)))
        (surgical-none source (location_end f.hash_location) fs rest)
      ∙ sym (drop-split source pos (location_end f.hash_location) (omega arith))

  rewrite-text :
      (parsed : ParsedSource) (updates : List FragmentUpdate) (r : Rewritten)
      → Chain 0 parsed.fragments (length parsed.source)
      → rewrite digest can_reserve parsed updates ≡ ok r
      → rewritten_text r ≡ surgical digest parsed.source (requested_by updates) 0 parsed.fragments
  unfolding rewrite
  rewrite-text parsed [] r c h =
      let same : borrowed parsed.source ≡ r = cc in
      sym (ap rewritten_text same) ∙ sym (surgical-none parsed.source 0 parsed.fragments c)
  rewrite-text parsed (u ∷ us) r c h = rewrite_batch-surgical parsed (u ∷ us) r c h

  collect_requests-ne-panic :
      (m : Requests) (us : List FragmentUpdate) → collect_requests m us ≢ panic
  unfolding collect_requests
  collect_requests-ne-panic m [] = λ q. cc
  collect_requests-ne-panic m (u ∷ us) =
      ground (arith, collect_requests-ne-panic (insert (update_path u) (update_source u) m) us)

  check_requests-ne-panic :
      (paths : List FragmentPath) (fs : List ParsedFragment) → check_requests paths fs ≢ panic
  unfolding check_requests check_matches
  check_requests-ne-panic [] fs = λ q. cc
  check_requests-ne-panic (path ∷ paths) fs = ground (arith, check_requests-ne-panic paths fs)

  fold_length-ne-panic : (size : ℕ) (es : List TextEdit) → fold_length size es ≢ panic
  unfolding fold_length
  fold_length-ne-panic size [] = λ q. cc
  fold_length-ne-panic size (e ∷ es) =
      let shrunk = checked_sub size (e.range_end - e.range_start) in
      let grown = and_then shrunk (λ n. checked_add n (length e.replacement)) in
      >>=-ne-panic (or_too_large grown) _ (or_too_large-ne-panic grown)
        (λ next. fold_length-ne-panic next es)

  write_edits-ne-panic :
      (source : Text) (es : List TextEdit)
      → Ordered 0 es (length source)
      → write_edits digest can_reserve source es ≢ panic
  unfolding write_edits
  write_edits-ne-panic source [] o = λ q. cc
  write_edits-ne-panic source (e ∷ es) o =
      >>=-ne-panic (fold_length (length source) (e ∷ es)) _
        (fold_length-ne-panic (length source) (e ∷ es))
        (λ n.
          >>=-ne-panic (require (can_reserve n) allocation_failed) _
            (require-ne-panic (can_reserve n) allocation_failed)
            (λ _. rw (apply_edits-splice source [] 0 (e ∷ es) o) (λ q. cc)))

  rewrite_batch-ne-panic :
      (parsed : ParsedSource) (updates : List FragmentUpdate)
      → Chain 0 parsed.fragments (length parsed.source)
      → rewrite_batch digest can_reserve parsed updates ≢ panic
  unfolding rewrite_batch
  rewrite_batch-ne-panic parsed updates c =
      >>=-ne-panic (collect_requests [] updates) _ (collect_requests-ne-panic [] updates) (λ m.
        >>=-ne-panic (check_requests (keys m) parsed.fragments) _
          (check_requests-ne-panic (keys m) parsed.fragments)
          (λ _.
            let (es, built, spliced, ordered) =
              all_edits-surgical digest parsed.source m 0 parsed.fragments c in
            rw built (write_edits-ne-panic parsed.source es ordered)))

  rewrite-calm :
      (parsed : ParsedSource) (updates : List FragmentUpdate)
      → Chain 0 parsed.fragments (length parsed.source)
      → rewrite digest can_reserve parsed updates ≢ panic
  unfolding rewrite
  rewrite-calm parsed [] c = λ q. cc
  rewrite-calm parsed (u ∷ us) c = rewrite_batch-ne-panic parsed (u ∷ us) c

  module _ (kind : NodeKind) (source : Text) (parsed : ParsedSource)
      (parses : parse kind source ≡ ok parsed) (updates : List FragmentUpdate) where
    -- Rewriting what was parsed gives exactly the reference: each requested fragment has its new
    -- source and, unless it is recorded already, the hash of the canonical form of that source;
    -- every other byte stays as it was.
    pub rewrite-surgical :
        (r : Rewritten)
        → rewrite digest can_reserve parsed updates ≡ ok r
        → rewritten_text r ≡ surgical digest source (requested_by updates) 0 parsed.fragments
    rewrite-surgical r h =
        let (e, c) = parse-Chain kind source parsed parses in
        rewrite-text parsed updates r c h
        ∙ ap (λ s. surgical digest s (requested_by updates) 0 parsed.fragments) e

    -- No batch of updates makes a rewrite of what was parsed panic: every slice that it takes is
    -- a range of the source.
    pub rewrite-ne-panic : rewrite digest can_reserve parsed updates ≢ panic
    rewrite-ne-panic = rewrite-calm parsed updates (parse-Chain kind source parsed parses).1
