-- ===== src/Fragment/Source/Total.antt =====
-- src/fragment.rs: parsing a source and taking its fragments does not panic.
use zwirn.Prelude.{
  ℕ, List, [], ◌∷◌, ◌≡◌, ◌≢◌, sym, arith, length, ok, panic, >>=-ne-panic, ok-ne-panic,
}
use mathlib.Core.Path.{subst}
use zwirn.Text.{Text}
use zwirn.Text.Range.{index_range}
use zwirn.Adls.Kind.{NodeKind}
use zwirn.Fragment.Source.{
  ParsedFragment, ParsedSource, fragment_of, fragments_of, fragments, parse,
}
use zwirn.Fragment.Marker.Bounds.{location_end}
use zwirn.Fragment.Source.Spans.{Chain, Chain-bounds, IsParse, parse-IsParse}

pub source_parse-ne-panic : (kind : NodeKind) (source : Text) → parse kind source ≢ panic
source_parse-ne-panic kind source e = subst (IsParse source) e (parse-IsParse kind source)

fragments_of-ne-panic {ℓ} :
    {E : Type ℓ} (source : Text) (low : ℕ) (found : List ParsedFragment)
    → Chain low found (length source)
    → fragments_of {E = E} source found ≢ panic
unfolding fragments_of fragment_of index_range
fragments_of-ne-panic source low [] c = ok-ne-panic _
fragments_of-ne-panic {E = E} source low (f ∷ rest) (a, b, m, n, chain) =
    let last = Chain-bounds (location_end f.hash_location) (length source) rest chain in
    let slice : index_range {E = E} source f.span_start f.span_end ≢ panic =
      λ q. absurd (ground arith) in
    >>=-ne-panic _ _ (>>=-ne-panic _ _ slice λ text. ok-ne-panic _) λ first.
      >>=-ne-panic _ _ (fragments_of-ne-panic source (location_end f.hash_location) rest chain)
        λ others. ok-ne-panic _

pub fragments-ne-panic {ℓ} :
    {E : Type ℓ} (kind : NodeKind) (source : Text) (parsed : ParsedSource)
    → parse kind source ≡ ok parsed
    → fragments {E = E} parsed ≢ panic
unfolding fragments
fragments-ne-panic kind source parsed e =
    let (same, chain) = subst (IsParse source) e (parse-IsParse kind source) in
    fragments_of-ne-panic parsed.source 0 parsed.fragments
      (subst (λ s. Chain 0 parsed.fragments (length s)) (sym same) chain)
