-- ===== src/Adls/Rewrite/Requests.antt =====
-- src/adls.rs: the replacements of a batch, by node.
use mathlib.Core.Path.{subst}
use zwirn.Prelude.{
  some-injective, none-ne-some, err-ne-ok, ℕ, zero, suc, ◌<◌, true, false, List, [], ◌∷◌, ◌≡◌, ◌≢◌,
  ◌⊎◌, inl, inr, refl, sym, ap, ◌∙◌, arith, Option, none, some, length, replicate, if◌then◌else◌,
  map, ◌==◌, ==_iff, eq→==, All, Pairwise, ok, ok-injective, require, >>=-elim, Bool-cases,
  Option-cases,
}
use zwirn.Text.{Text}
use zwirn.Adls.Error.{NodeHandle, handle_eq, unknown_node_handle}
use zwirn.Adls.Parser.Reads.{require-eq-ok}
use zwirn.Adls.Document.{SourceNode}
use zwirn.Adls.Document.Nodes.{IsBefore}
use zwirn.Adls.Rewrite.{find_index, replace_at, request_one, request_all}

-- The requests after one more replacement.
abbrev pub with_request : NodeHandle → Text → (SourceNode → Option Text) → SourceNode → Option Text
with_request handle replacement requests node =
    if handle_eq node.handle handle then some replacement else requests node

-- What a batch asks of a node, whose handle occurs in it at most once.
abbrev pub requested_of :
    List (NodeHandle × Text) → (SourceNode → Option Text) → SourceNode → Option Text
requested_of [] requests = requests
requested_of ((handle, replacement) ∷ rest) requests =
    requested_of rest (with_request handle replacement requests)

no_place :
    (index : ℕ) {place : ℕ} {found : SourceNode} → ¬ (find_index index [] ≡ some (place, found))
unfolding find_index
no_place index h = none-ne-some h

-- The nodes behind have other handles.
with_request-others :
    (handle : NodeHandle) (replacement : Text) (requests : SourceNode → Option Text)
    (sources : List SourceNode)
    → All (λ (node : SourceNode). handle.index < node.handle.index) sources
    → map (with_request handle replacement requests) sources ≡ map requests sources
with_request-others handle replacement requests [] h = refl
with_request-others handle replacement requests (node ∷ sources) h =
    let differs : handle_eq node.handle handle ≡ false = ground (arith, h.0) in
    rw differs (
      ap (λ rest. requests node ∷ rest)
        (with_request-others handle replacement requests sources h.1))

-- The search finds the first node, or goes on behind it.
find_index-cases :
    (index : ℕ) (node : SourceNode) (sources : List SourceNode) {place : ℕ} {found : SourceNode}
    → find_index index (node ∷ sources) ≡ some (place, found)
    → ((node.handle.index ≡ index) × (place ≡ 0) × (found ≡ node))
      ⊎ ((node.handle.index ≢ index)
          × ((behind : ℕ) × (place ≡ suc behind)
              × (find_index index sources ≡ some (behind, found))))
unfolding find_index
find_index-cases index node sources f = elim (Bool-cases (node.handle.index == index)) [
  | inl same ↦
      let both = some-injective (rw same at f) in
      inl (
        (==_iff node.handle.index index).0 same,
        sym (ap (λ p. p.0) both),
        sym (ap (λ p. p.1) both),
      )
  | inr other ↦
      let differs : node.handle.index ≢ index = λ e. cc (eq→== node.handle.index index e, other) in
      elim (Option-cases (find_index index sources)) [
        | inl z ↦ absurd (none-ne-some (rw z at (rw other at f)))
        | inr ((behind, met), z) ↦
            let both = some-injective (rw z at (rw other at f)) in
            inr (
              differs,
              (
                behind,
                sym (ap (λ p. p.0) both),
                z ∙ ap (λ m. some (behind, m)) (ap (λ p. p.1) both),
              ),
            )
      ]
]

-- The place that the search finds is the one that is replaced.
replace_at-with_request :
    (handle : NodeHandle) (replacement : Text) (requests : SourceNode → Option Text)
    (sources : List SourceNode) (place : ℕ) {found : SourceNode} {previous : Option Text}
    {next : List (Option Text)}
    → Pairwise IsBefore sources
    → find_index handle.index sources ≡ some (place, found)
    → handle_eq found.handle handle ≡ true
    → replace_at (map requests sources) place replacement ≡ ok (previous, next)
    → (next ≡ map (with_request handle replacement requests) sources) × (previous ≡ requests found)
unfolding replace_at
replace_at-with_request handle replacement requests [] place p f e r =
    absurd (no_place handle.index f)
replace_at-with_request handle replacement requests (node ∷ sources) zero {found} p f e r =
    elim (find_index-cases handle.index node sources f) [
      | inl (same, _, met) ↦
          let both = ok-injective r in
          let first : handle_eq node.handle handle ≡ true =
            ap (λ (n : SourceNode). handle_eq n.handle handle) (sym met) ∙ e in
          (
            sym (ap (λ q. q.1) both)
                ∙ rw first (
                    ap (λ rest. some replacement ∷ rest)
                      (sym (
                        with_request-others handle replacement requests sources (
                          subst (λ i. All (λ (n : SourceNode). i < n.handle.index) sources) same
                            p.0)))),
            sym (ap (λ q. q.0) both) ∙ ap requests (sym met),
          )
      | inr (_, (behind, e0, _)) ↦ absurd (omega (arith, e0))
    ]
replace_at-with_request handle replacement requests (node ∷ sources) (suc place) {found} p f e r =
    elim (find_index-cases handle.index node sources f) [
      | inl (_, e0, _) ↦ absurd (omega (arith, e0))
      | inr (differs, (behind, e0, g)) ↦
          >>=-elim (replace_at (map requests sources) place replacement) _ r λ pair k h1.
            let step : behind ≡ place = omega (arith, e0) in
            let (rest, old) =
              replace_at-with_request handle replacement requests sources place p.1 (rw step at g) e
                k in
            let both = ok-injective h1 in
            let other : handle_eq node.handle handle ≡ false = ground (arith, differs) in
            (
              sym (ap (λ q. q.1) both) ∙ rw other (ap (λ t. requests node ∷ t) rest),
              sym (ap (λ q. q.0) both) ∙ old,
            )
    ]

pub request_one-with_request :
    (sources : List SourceNode) (requests : SourceNode → Option Text) (handle : NodeHandle)
    (replacement : Text) {next : List (Option Text)}
    → Pairwise IsBefore sources
    → request_one sources (map requests sources) handle replacement ≡ ok next
    → next ≡ map (with_request handle replacement requests) sources
unfolding request_one
request_one-with_request sources requests handle replacement p h =
    elim (Option-cases (find_index handle.index sources)) [
      | inl z ↦ absurd (err-ne-ok (rw (z, request_one) at h))
      | inr ((place, found), z) ↦
          >>=-elim (require (handle_eq found.handle handle) (unknown_node_handle handle)) _
            (rw (z, request_one) at h)
            λ _ e h1.
              >>=-elim (replace_at (map requests sources) place replacement) _ h1 λ pair r h2.
                let (same, old) =
                  replace_at-with_request handle replacement requests sources place p z
                    (require-eq-ok (handle_eq found.handle handle) (unknown_node_handle handle) e)
                    r in
                elim (Option-cases pair.0) [
                  | inl y ↦ sym (ok-injective (rw y at h2)) ∙ same
                  | inr (earlier, y) ↦ absurd (err-ne-ok (rw y at h2))
                ]
    ]

-- What the batch asks of each node.
pub request_all-requested_of :
    (sources : List SourceNode) (replacements : List (NodeHandle × Text))
    (requests : SourceNode → Option Text) {requested : List (Option Text)}
    → Pairwise IsBefore sources
    → request_all sources (map requests sources) replacements ≡ ok requested
    → requested ≡ map (requested_of replacements requests) sources
unfolding request_all
request_all-requested_of sources [] requests p h = sym (ok-injective h)
request_all-requested_of sources ((handle, replacement) ∷ rest) requests p h =
    >>=-elim (request_one sources (map requests sources) handle replacement) _ h λ next e h1.
      request_all-requested_of sources rest (with_request handle replacement requests) p
        (rw (request_one-with_request sources requests handle replacement p e) at h1)

pub replicate-map :
    (sources : List SourceNode)
    → replicate {A = Option Text} (length sources) none ≡ map (λ (_ : SourceNode). none) sources
replicate-map [] = refl
replicate-map (node ∷ sources) = ap (λ rest. none ∷ rest) (replicate-map sources)
