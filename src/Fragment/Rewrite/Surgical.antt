-- ===== src/Fragment/Rewrite/Surgical.antt =====
-- A rewrite against its reference: every fragment's source and hash, and what lies between.
use zwirn.Prelude.{
  ℕ, ◌≤◌, List, [], ◌∷◌, ◌++◌, ◌≡◌, refl, ap, ◌∙◌, arith, Option, none, some, if◌then◌else◌, length,
  drop, ok, Bool-cases, inl, inr,
}
use zwirn.Text.{Text, ascii, text_eq, text_eq_iff, slice}
use zwirn.TreeMap.{get}
use zwirn.Fragment.Path.{FragmentPath}
use zwirn.Fragment.Hash.{BaselineHash, from_source, display}
use zwirn.Fragment.Canonical.{from_validated}
use zwirn.Fragment.Marker.{HashLocation, present, missing}
use zwirn.Fragment.Marker.Bounds.{location_start, location_end}
use zwirn.Fragment.Source.{ParsedFragment}
use zwirn.Text.Range.Laws.{index_range_of}
use zwirn.Fragment.Source.Spans.{Chain, Chain-bounds}
use zwirn.Fragment.Rewrite.{
  TextEdit, RewriteError, RequestedSource, current, replacement, Requests, hash_edit, hash_edits,
  baseline_is, source_edits, request_edits, option_edits, all_edits, path_key,
}
use zwirn.Fragment.Rewrite.Edits.{Ordered, splice, splice-skip, Ordered-low}

module _ (digest : Text → List ℕ) (source : Text) where
  abbrev span_text : ParsedFragment → Text
  span_text f = slice source f.span_start f.span_end

  -- The source that a fragment has after its request.
  abbrev pub new_source : ParsedFragment → RequestedSource → Text
  new_source f current = span_text f
  new_source f (replacement s) = s.text

  -- The hash that is recorded for it: that of the canonical form of the source.
  abbrev pub new_hash : ParsedFragment → RequestedSource → BaselineHash
  new_hash f current = from_source digest (from_validated (span_text f)).text
  new_hash f (replacement s) = from_source digest s.text

  abbrev hash_prefix : HashLocation → Text
  hash_prefix (present from to) = []
  hash_prefix (missing insertion) = ascii " "

  -- The text at its hash location: left alone if the hash is recorded already.
  abbrev pub new_location : ParsedFragment → BaselineHash → Text
  new_location f hash =
      if baseline_is f.baseline hash
      then slice source (location_start f.hash_location) (location_end f.hash_location)
      else hash_prefix f.hash_location ++ display hash

  -- One fragment by its request, from `pos` to the end of its hash location.
  abbrev pub surgical_fragment : ℕ → ParsedFragment → Option RequestedSource → Text → Text
  surgical_fragment pos f none after = slice source pos (location_end f.hash_location) ++ after
  surgical_fragment pos f (some request) after =
      slice source pos f.span_start
      ++ (new_source f request
          ++ (slice source f.span_end (location_start f.hash_location)
              ++ (new_location f (new_hash f request) ++ after)))

  -- The reference: from `pos` on, fragment by fragment, by what is requested of each path.
  abbrev pub surgical : (FragmentPath → Option RequestedSource) → ℕ → List ParsedFragment → Text
  surgical request_of pos [] = drop pos source
  surgical request_of pos (f ∷ rest) =
      surgical_fragment pos f (request_of f.path)
        (surgical request_of (location_end f.hash_location) rest)

  hash_edit-eq :
      (hash : BaselineHash) (l : HashLocation)
      → hash_edit hash l ≡ record {
        range_start = location_start l;
        range_end = location_end l;
        replacement = hash_prefix l ++ display hash;
      }
  unfolding hash_edit
  hash_edit-eq hash (present from to) = refl
  hash_edit-eq hash (missing insertion) = refl

  -- The hash's edit in front of later ones.
  splice-hash_edits :
      (f : ParsedFragment) (hash : BaselineHash) (pos : ℕ) (es : List TextEdit)
      → pos ≤ location_start f.hash_location
      → location_start f.hash_location ≤ location_end f.hash_location
      → Ordered (location_end f.hash_location) es (length source)
      → (splice source pos (hash_edits f hash ++ es)
          ≡ slice source pos (location_start f.hash_location)
            ++ (new_location f hash ++ splice source (location_end f.hash_location) es))
        × Ordered pos (hash_edits f hash ++ es) (length source)
  unfolding hash_edits
  splice-hash_edits f hash pos es h k o =
      let from = location_start f.hash_location in
      let to = location_end f.hash_location in
      let size = length source in
      let o' = Ordered-low to from size es o k in
      elim (Bool-cases (baseline_is f.baseline hash)) [
        | inl e ↦ rw e (
          splice-skip source pos from size es h o'
              ∙ ap (◌++◌ (slice source pos from)) (splice-skip source from to size es k o),
          Ordered-low from pos size es o' h,
        )
        | inr e ↦ rw e (rw (hash_edit-eq hash f.hash_location) (refl, (h, k, o)))
      ]

  -- A span that is left as it is, in front of later edits.
  splice-kept :
      (f : ParsedFragment) (es : List TextEdit) (pos : ℕ) {later : Text}
      → pos ≤ f.span_start
      → f.span_start ≤ f.span_end
      → splice source f.span_end es ≡ later
      → Ordered f.span_end es (length source)
      → (splice source pos es ≡ slice source pos f.span_start ++ (span_text f ++ later))
        × Ordered pos es (length source)
  splice-kept f es pos a b e o =
      let size = length source in
      let o' = Ordered-low f.span_end f.span_start size es o b in
      (
        splice-skip source pos f.span_start size es a o'
            ∙ ap (◌++◌ (slice source pos f.span_start)) (
                splice-skip source f.span_start f.span_end size es b o ∙ ap (◌++◌ (span_text f)) e),
        Ordered-low f.span_start pos size es o' a,
      )

  -- All the edits of one requested fragment in front of later ones.
  splice-request_edits :
      (f : ParsedFragment) (request : RequestedSource) (pos : ℕ) (es : List TextEdit)
      → pos ≤ f.span_start
      → f.span_start ≤ f.span_end
      → f.span_end ≤ location_start f.hash_location
      → location_start f.hash_location ≤ location_end f.hash_location
      → Ordered (location_end f.hash_location) es (length source)
      → (splice source pos (request_edits digest f (span_text f) request ++ es)
          ≡ slice source pos f.span_start
            ++ (new_source f request
                ++ (slice source f.span_end (location_start f.hash_location)
                    ++ (new_location f (new_hash f request)
                        ++ splice source (location_end f.hash_location) es))))
        × Ordered pos (request_edits digest f (span_text f) request ++ es) (length source)
  unfolding request_edits source_edits
  splice-request_edits f current pos es a b c d o =
      let hash = new_hash f current in
      let (e, later) = splice-hash_edits f hash f.span_end es c d o in
      splice-kept f (hash_edits f hash ++ es) pos a b e later
  splice-request_edits f (replacement s) pos es a b c d o =
      let hash = from_source digest s.text in
      let (e, later) = splice-hash_edits f hash f.span_end es c d o in
      elim (Bool-cases (text_eq (span_text f) s.text)) [
        | inl same ↦
            let after : Text =
              slice source f.span_end (location_start f.hash_location)
              ++ (new_location f hash ++ splice source (location_end f.hash_location) es) in
            let kept = splice-kept f (hash_edits f hash ++ es) pos a b e later in
            let unchanged = (text_eq_iff (span_text f) s.text).0 same in
            rw same
              (kept.0 ∙ ap (λ t. slice source pos f.span_start ++ (t ++ after)) unchanged, kept.1)
        | inr differ ↦
            rw differ (ap (λ t. slice source pos f.span_start ++ (s.text ++ t)) e, (a, b, later))
      ]

  -- The edits of one fragment, requested or not, in front of later ones.
  splice-option_edits :
      (f : ParsedFragment) (request : Option RequestedSource) (pos : ℕ) (es : List TextEdit)
      → Chain pos (f ∷ []) (length source)
      → Ordered (location_end f.hash_location) es (length source)
      → (own : List TextEdit) × (option_edits digest source f request ≡ ok own)
        × (splice source pos (own ++ es)
            ≡ surgical_fragment pos f request (splice source (location_end f.hash_location) es))
        × Ordered pos (own ++ es) (length source)
  unfolding option_edits
  splice-option_edits f none pos es (a, b, c, d, fits) o =
      let end = location_end f.hash_location in
      let passed : pos ≤ end = omega arith in
      (
        [],
        refl,
        splice-skip source pos end (length source) es passed o,
        Ordered-low end pos (length source) es o passed,
      )
  splice-option_edits f (some request) pos es (a, b, c, d, fits) o =
      let read = index_range_of {E = RewriteError} source f.span_start f.span_end b (omega arith) in
      let (s, o') = splice-request_edits f request pos es a b c d o in
      (request_edits digest f (span_text f) request, rw read, s, o')

  -- The list of edits of all fragments: it is built without an error, lies in order, and splices
  -- to the reference.
  pub all_edits-surgical :
      (requested : Requests) (pos : ℕ) (fs : List ParsedFragment)
      → Chain pos fs (length source)
      → (es : List TextEdit) × (all_edits digest source requested fs ≡ ok es)
        × (splice source pos es ≡ surgical (λ path. get path requested) pos fs)
        × Ordered pos es (length source)
  unfolding all_edits
  all_edits-surgical requested pos [] c = ([], refl, refl, c)
  all_edits-surgical requested pos (f ∷ fs) (a, b, c, d, rest) =
      let end = location_end f.hash_location in
      let (es, built, spliced, ordered) = all_edits-surgical requested end fs rest in
      let alone : Chain pos (f ∷ []) (length source) =
        (a, b, c, d, Chain-bounds end (length source) fs rest) in
      let (own, read, s, o) = splice-option_edits f (get f.path requested) pos es alone ordered in
      (
        own ++ es,
        rw (read, built),
        s ∙ ap (surgical_fragment pos f (get f.path requested)) spliced,
        o,
      )
