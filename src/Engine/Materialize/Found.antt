-- ===== src/Engine/Materialize/Found.antt =====
-- src/adls.rs: the search for a node by its index.
use zwirn.Prelude.{
  ℕ, suc, ◌<◌, false, List, [], ◌∷◌, ◌≡◌, refl, arith, inl, inr, some, ◌==◌, eq→==, All, Pairwise,
  Option-cases,
}
use zwirn.TreeMap.Nat.{nat_key}
use zwirn.Adls.Document.{SourceNode}
use zwirn.Adls.Document.Nodes.{IsBefore}
use zwirn.Adls.Rewrite.{find_index}

-- A search finds the node with the index.
pub find_index-index :
    (index : ℕ) (sources : List SourceNode) {place : ℕ} {found : SourceNode}
    → find_index index sources ≡ some (place, found)
    → found.handle.index ≡ index
unfolding find_index
find_index-index index [] f = absurd (cc)
find_index-index index (node ∷ sources) f = elim (Option-cases (find_index index sources)) [
  | inl e ↦ ground arith
  | inr ((place, met), e) ↦ ground (arith, find_index-index index sources e)
]

abbrev pub IsFound : List SourceNode → SourceNode → Type 0
IsFound sources node = (place : ℕ) × (find_index node.handle.index sources ≡ some (place, node))

find_index-behind :
    (first node : SourceNode) (sources : List SourceNode)
    → first.handle.index < node.handle.index
    → IsFound sources node
    → IsFound (first ∷ sources) node
unfolding find_index
find_index-behind first node sources l (place, f) =
    let other : (first.handle.index == node.handle.index) ≡ false = ground arith in
    (suc place, rw (other, f) refl)

find_index-first : (node : SourceNode) (sources : List SourceNode) → IsFound (node ∷ sources) node
unfolding find_index
find_index-first node sources = (0, rw (eq→== node.handle.index node.handle.index refl) refl)

-- Where the indexes rise, every node is the one that a search for its index finds.
pub rising-IsFound :
    (sources : List SourceNode) → Pairwise IsBefore sources → All (IsFound sources) sources
rising-IsFound [] p = tt
rising-IsFound (node ∷ sources) p = (
  find_index-first node sources,
  All-both (IsBefore node) (IsFound sources) _ sources
      (λ m l f. find_index-behind node m sources l f) p.0 (rising-IsFound sources p.1),
)
  where
    All-both :
        {A : Type 0} (P Q R : A → Type 0) (xs : List A)
        → ((x : A) → P x → Q x → R x)
        → All P xs
        → All Q xs
        → All R xs
    All-both P Q R [] f h k = tt
    All-both P Q R (x ∷ xs) f h k = (f x h.0 k.0, All-both P Q R xs f h.1 k.1)
