-- ===== src/Adls/Layout/Apart.antt =====
-- src/adls.rs: regions that do not overlap, and a layout to which a region is added.
use Prim.Native.String.{String}
use zwirn.Prelude.{ℕ, ◌≤◌, ◌<◌, [], ◌∷◌, ◌≡◌, ◌≢◌, ◌⊎◌, inl, inr, arith, some, ok}
use zwirn.TreeMap.{get}
use zwirn.TreeMap.Nat.{nat_key}
use zwirn.TreeMap.Laws.{get-insert}
use zwirn.Adls.Layout.{RegionKind, Region, Layout, add}
use zwirn.Adls.Layout.Neighbours.{IsApart, region_of, IsClear-insert, IsClear-get, add-IsAdded}

pub get-bounds :
    (low start : ℕ) (region : Region) (layout : Layout)
    → IsApart low layout
    → get start layout ≡ some region
    → (low ≤ start) × (start < region.end)
unfolding get
get-bounds low start region [] w h = cc
get-bounds low start region ((j, r) ∷ layout) w h =
    ground (arith, get-bounds r.end start region layout w.2)

-- Of two regions the one that starts first ends before the other starts.
get-apart :
    (low a b : ℕ) (r q : Region) (layout : Layout)
    → IsApart low layout
    → get a layout ≡ some r
    → get b layout ≡ some q
    → a < b
    → r.end ≤ b
unfolding get
get-apart low a b r q [] w h k d = cc
get-apart low a b r q ((j, i) ∷ layout) w h k d = ground (
  arith,
  get-apart i.end a b r q layout w.2,
  get-bounds i.end a r layout w.2,
  get-bounds i.end b q layout w.2,
)

nat_cases : (a b : ℕ) → a ≢ b → (a < b) ⊎ (b < a)
nat_cases a b h = ground (arith, h)

-- Two regions with different starts do not overlap.
pub get-disjoint :
    (a b : ℕ) (r q : Region) (layout : Layout)
    → IsApart 0 layout
    → get a layout ≡ some r
    → get b layout ≡ some q
    → a ≢ b
    → (r.end ≤ b) ⊎ (q.end ≤ a)
get-disjoint a b r q layout w h k d = elim (nat_cases a b d) [
  | inl l ↦ inl (get-apart 0 a b r q layout w h k l)
  | inr l ↦ inr (get-apart 0 b a q r layout w k h l)
]

-- `next` has the regions of `layout`.
abbrev pub IsLater : Layout → Layout → Type 0
IsLater layout next =
    (start : ℕ) (region : Region) → get start layout ≡ some region → get start next ≡ some region

pub record IsGrown (layout next : Layout) (start end : ℕ) (kind : RegionKind) : Type 0 where
  pub apart : IsApart 0 next
  pub later : IsLater layout next
  pub stands : get start next ≡ some (region_of end kind)

pub add-IsGrown :
    (start end : ℕ) (kind : RegionKind) (structure : String) (layout next : Layout)
    → IsApart 0 layout
    → add layout start end kind structure ≡ ok next
    → IsGrown layout next start end kind
add-IsGrown start end kind structure layout next w h =
    let (d, cases) = (add-IsAdded start end kind structure layout next w).0 h in
    elim cases [
      | inl (e, _, same) ↦ rw same (record { apart = w; later = λ s r k. k; stands = e })
      | inr (clear, same) ↦ rw same (record {
        apart = IsClear-insert 0 start end kind layout (omega arith) d w clear;
        later = λ s r k. ground (
          arith,
          get-insert s start (region_of end kind) layout,
          IsClear-get 0 start end layout d w clear,
        );
        stands = ground (arith, get-insert start start (region_of end kind) layout);
      })
    ]
