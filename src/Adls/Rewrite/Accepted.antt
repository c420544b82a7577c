-- ===== src/Adls/Rewrite/Accepted.antt =====
-- src/adls.rs: the replacements of a batch are taken up without a panic.
use zwirn.Prelude.{
  err-ne-ok, ℕ, zero, suc, ◌<◌, List, [], ◌∷◌, ◌≡◌, ◌≢◌, sym, ap, ◌∙◌, arith, Option, none, some,
  inl, inr, length, ok, ok-injective, panic, require, >>=-elim, >>=-ne-panic, >>=-ne-panic_of,
  require-ne-panic, ok-ne-panic, err-ne-panic, Option-cases,
}
use zwirn.Text.{Text}
use zwirn.Adls.Error.{NodeHandle, handle_eq, unknown_node_handle, duplicate_replacement}
use zwirn.Adls.Document.{SourceNode}
use zwirn.Adls.Rewrite.{or_size_limit, find_index, replace_at, request_one, request_all}

pub or_size_limit-ne-panic : (o : Option ℕ) → or_size_limit o ≢ panic
or_size_limit-ne-panic none = err-ne-panic _
or_size_limit-ne-panic (some n) = ok-ne-panic _

-- The place that the search finds is one of the list.
find_index-lt :
    (index : ℕ) (sources : List SourceNode) {place : ℕ} {found : SourceNode}
    → find_index index sources ≡ some (place, found)
    → place < length sources
unfolding find_index
find_index-lt index [] f = absurd (cc)
find_index-lt index (node ∷ sources) f = elim (Option-cases (find_index index sources)) [
  | inl e ↦ ground arith
  | inr ((place, found), e) ↦ ground (arith, find_index-lt index sources e)
]

replace_at-ne-panic :
    (requested : List (Option Text)) (place : ℕ) (replacement : Text)
    → place < length requested
    → replace_at requested place replacement ≢ panic
unfolding replace_at
replace_at-ne-panic [] place replacement l = absurd (omega arith)
replace_at-ne-panic (old ∷ rest) zero replacement l = ok-ne-panic _
replace_at-ne-panic (old ∷ rest) (suc place) replacement l =
    >>=-ne-panic _ _ (replace_at-ne-panic rest place replacement (omega arith))
      λ pair. ok-ne-panic _

replace_at-length :
    (requested : List (Option Text)) (place : ℕ) (replacement : Text)
    {pair : Option Text × List (Option Text)}
    → replace_at requested place replacement ≡ ok pair
    → length pair.1 ≡ length requested
unfolding replace_at
replace_at-length [] place replacement h = absurd (cc)
replace_at-length (old ∷ rest) zero replacement h = ap (λ p. length p.1) (sym (ok-injective h))
replace_at-length (old ∷ rest) (suc place) replacement h =
    >>=-elim (replace_at rest place replacement) _ h λ pair e h1.
      ap (λ p. length p.1) (sym (ok-injective h1))
      ∙ ap suc (replace_at-length rest place replacement e)

module _ (sources : List SourceNode) where
  request_one-ne-panic :
      (requested : List (Option Text)) (handle : NodeHandle) (replacement : Text)
      → length requested ≡ length sources
      → request_one sources requested handle replacement ≢ panic
  unfolding request_one
  request_one-ne-panic requested handle replacement e =
      elim (Option-cases (find_index handle.index sources)) [
        | inl z ↦ rw (z, request_one) (err-ne-panic (unknown_node_handle handle))
        | inr ((place, found), z) ↦
            rw (z, request_one)
              (>>=-ne-panic _ _
                (require-ne-panic (handle_eq found.handle handle) (unknown_node_handle handle))
                λ _.
                  >>=-ne-panic _ _
                    (replace_at-ne-panic requested place replacement
                      (omega (arith, find_index-lt handle.index sources z)))
                    λ pair. elim (Option-cases pair.0) [
                      | inl y ↦ rw y (ok-ne-panic pair.1)
                      | inr (earlier, y) ↦ rw y (err-ne-panic (duplicate_replacement handle))
                    ])
      ]

  request_one-length :
      (requested : List (Option Text)) (handle : NodeHandle) (replacement : Text)
      {next : List (Option Text)}
      → request_one sources requested handle replacement ≡ ok next
      → length next ≡ length requested
  unfolding request_one
  request_one-length requested handle replacement h =
      elim (Option-cases (find_index handle.index sources)) [
        | inl z ↦ absurd (err-ne-ok (rw (z, request_one) at h))
        | inr ((place, found), z) ↦
            >>=-elim (require (handle_eq found.handle handle) (unknown_node_handle handle)) _
              (rw (z, request_one) at h)
              λ _ _ h1. >>=-elim (replace_at requested place replacement) _ h1 λ pair r h2.
                elim (Option-cases pair.0) [
                  | inl y ↦
                      ap length (sym (ok-injective (rw y at h2)))
                      ∙ replace_at-length requested place replacement r
                  | inr (earlier, y) ↦ absurd (err-ne-ok (rw y at h2))
                ]
      ]

  pub request_all-ne-panic :
      (requested : List (Option Text)) (replacements : List (NodeHandle × Text))
      → length requested ≡ length sources
      → request_all sources requested replacements ≢ panic
  unfolding request_all
  request_all-ne-panic requested [] e = ok-ne-panic _
  request_all-ne-panic requested ((handle, replacement) ∷ rest) e =
      >>=-ne-panic_of _ _ (request_one-ne-panic requested handle replacement e) λ next h.
        request_all-ne-panic next rest (request_one-length requested handle replacement h ∙ e)

  pub request_all-length :
      (requested : List (Option Text)) (replacements : List (NodeHandle × Text))
      {final : List (Option Text)}
      → request_all sources requested replacements ≡ ok final
      → length final ≡ length requested
  unfolding request_all
  request_all-length requested [] h = ap length (sym (ok-injective h))
  request_all-length requested ((handle, replacement) ∷ rest) h =
      >>=-elim (request_one sources requested handle replacement) _ h λ next e h1.
        request_all-length next rest h1 ∙ request_one-length requested handle replacement e
