-- ===== src/Adls/Layout/Neighbours.antt =====
-- src/adls.rs: a region is added where it overlaps no other, of which the code asks the neighbours.
use Prim.Native.String.{String}
use zwirn.Prelude.{
  ℕ, ◌≤◌, ◌<◌, Bool, true, false, [], ◌∷◌, ◌≡◌, ◌↔◌, ◌⊎◌, inl, inr, refl, arith, Option, none, some,
  ltb, All, Option-cases, ok,
}
use zwirn.TreeMap.{get, insert, last_below, first_from}
use zwirn.TreeMap.Nat.{nat_key}
use zwirn.Adls.Layout.{
  RegionKind, header_region, table_region, vector_region, vtable_region, string_region, Region,
  Layout, can_share, kind_eq, add_between, add,
}

-- Each region is behind the one before it, and not empty; the first starts at `low` or later.
abbrev pub IsApart : ℕ → Layout → Type 0
IsApart low [] = Unit
IsApart low ((start, region) ∷ layout) =
    (low ≤ start) × (start < region.end) × IsApart region.end layout

-- The bytes from `start` to `end` are in no region.
abbrev pub IsClear : ℕ → ℕ → Layout → Type 0
IsClear start end layout =
    All (λ (entry : ℕ × Region). (entry.1.end ≤ start) ⊎ (end ≤ entry.0)) layout

abbrev pub region_of : ℕ → RegionKind → Region
region_of end kind = record { end = end; kind = kind }

last_below-some :
    (low start : ℕ) (layout : Layout) (entry : ℕ × Region)
    → IsApart low layout
    → last_below start layout ≡ some entry
    → (low ≤ entry.0) × (entry.0 < start)
unfolding last_below
last_below-some low start [] entry w h = cc
last_below-some low start ((j, r) ∷ layout) entry w h =
    elim (Option-cases (last_below start layout)) [
      | inl e ↦ ground arith
      | inr (found, e) ↦ ground (arith, last_below-some r.end start layout found w.2 e)
    ]

-- All regions are at `start` or behind.
abbrev IsFrom : ℕ → Layout → Type 0
IsFrom start layout = All (λ (entry : ℕ × Region). start ≤ entry.0) layout

IsApart-IsFrom :
    (low start : ℕ) (layout : Layout) → start ≤ low → IsApart low layout → IsFrom start layout
IsApart-IsFrom low start [] h w = tt
IsApart-IsFrom low start ((j, r) ∷ layout) h w =
    (omega arith, IsApart-IsFrom r.end start layout (omega arith) w.2)

last_below-IsFrom :
    (low start : ℕ) (layout : Layout)
    → IsApart low layout
    → last_below start layout ≡ none
    → IsFrom start layout
unfolding last_below
last_below-IsFrom low start [] w h = tt
last_below-IsFrom low start ((j, r) ∷ layout) w h = elim (Option-cases (last_below start layout)) [
  | inl e ↦ ground (arith, IsApart-IsFrom r.end start layout)
  | inr (found, e) ↦ ground (arith, IsApart-IsFrom r.end start layout)
]

-- What the code asks of the region before.
abbrev ends_after : ℕ → Option (ℕ × Region) → Bool
ends_after start none = false
ends_after start (some previous) = ltb start previous.1.end

abbrev starts_before : ℕ → Option (ℕ × Region) → Bool
starts_before end none = false
starts_before end (some next) = ltb next.0 end

IsClear-IsFrom : (start end : ℕ) (layout : Layout) → IsFrom end layout → IsClear start end layout
IsClear-IsFrom start end [] h = tt
IsClear-IsFrom start end (entry ∷ layout) h = (inr h.0, IsClear-IsFrom start end layout h.1)

first_from-IsClear :
    (low start end : ℕ) (layout : Layout)
    → start < end
    → IsApart low layout
    → IsFrom start layout
    → (starts_before end (first_from start layout) ≡ false) ↔ IsClear start end layout
unfolding first_from
first_from-IsClear low start end [] d w h = ((λ _. tt), (λ _. refl))
first_from-IsClear low start end ((j, r) ∷ layout) d w h =
    ground (arith, IsClear-IsFrom start end layout, IsApart-IsFrom r.end end layout)

-- The neighbours decide for all regions.
neighbours-IsClear :
    (low start end : ℕ) (layout : Layout)
    → start < end
    → IsApart low layout
    → get start layout ≡ none
    → ((ends_after start (last_below start layout) ≡ false)
        × (starts_before end (first_from start layout) ≡ false))
      ↔ IsClear start end layout
unfolding last_below first_from get
neighbours-IsClear low start end [] d w h = ((λ _. tt), (λ _. (refl, refl)))
neighbours-IsClear low start end ((j, r) ∷ layout) d w h =
    elim (Option-cases (last_below start layout)) [
      | inl e ↦ ground (
        arith,
        neighbours-IsClear r.end start end layout d w.2,
        IsClear-IsFrom start end layout,
        IsApart-IsFrom r.end end layout,
      )
      | inr (found, e) ↦ ground (
        arith,
        neighbours-IsClear r.end start end layout d w.2,
        last_below-some r.end start layout found w.2 e,
        IsClear-IsFrom start end layout,
        IsApart-IsFrom r.end end layout,
      )
    ]

pub IsClear-insert :
    (low start end : ℕ) (kind : RegionKind) (layout : Layout)
    → low ≤ start
    → start < end
    → IsApart low layout
    → IsClear start end layout
    → IsApart low (insert start (region_of end kind) layout)
unfolding insert
IsClear-insert low start end kind [] l d w c = (l, d, tt)
IsClear-insert low start end kind ((j, r) ∷ layout) l d w c =
    ground (arith, IsClear-insert r.end start end kind layout)

add_between-ok :
    (low start end : ℕ) (kind : RegionKind) (structure : String) (layout next : Layout)
    → start < end
    → IsApart low layout
    → get start layout ≡ none
    → (add_between layout start end kind structure ≡ ok next)
      ↔ (IsClear start end layout × (next ≡ insert start (region_of end kind) layout))
unfolding add_between
add_between-ok low start end kind structure layout next d w g =
    ground (arith, neighbours-IsClear low start end layout d w g)

kind_eq→eq : (a b : RegionKind) → kind_eq a b ≡ true → a ≡ b
kind_eq→eq header_region header_region h = refl
kind_eq→eq table_region table_region h = refl
kind_eq→eq vector_region vector_region h = refl
kind_eq→eq vtable_region vtable_region h = refl
kind_eq→eq string_region string_region h = refl
kind_eq→eq _ _ h = cc

kind_eq_refl : (a : RegionKind) → kind_eq a a ≡ true
kind_eq_refl header_region = refl
kind_eq_refl table_region = refl
kind_eq_refl vector_region = refl
kind_eq_refl vtable_region = refl
kind_eq_refl string_region = refl

pub IsClear-get :
    (low start end : ℕ) (layout : Layout)
    → start < end
    → IsApart low layout
    → IsClear start end layout
    → get start layout ≡ none
unfolding get
IsClear-get low start end [] d w c = refl
IsClear-get low start end ((j, r) ∷ layout) d w c =
    ground (arith, IsClear-get r.end start end layout d w.2)

-- An entry for a region is added when it overlaps no region, and accepted as it is when the same
-- region stands there and may be shared.
abbrev pub IsAdded : Layout → ℕ → ℕ → RegionKind → Layout → Type 0
IsAdded layout start end kind next =
    ((get start layout ≡ some (region_of end kind)) × (can_share kind ≡ true) × (next ≡ layout))
    ⊎ (IsClear start end layout × (next ≡ insert start (region_of end kind) layout))

-- On regions that do not overlap, `add` succeeds with a layout exactly when the new region is not
-- empty and either stands in the layout already, with the same end and a kind that can be shared,
-- and the layout stays, or overlaps none of the regions, of which the code compares only the two
-- neighbours, and the layout has it besides.
pub add-IsAdded :
    (start end : ℕ) (kind : RegionKind) (structure : String) (layout next : Layout)
    → IsApart 0 layout
    → (add layout start end kind structure ≡ ok next)
      ↔ ((start < end) × IsAdded layout start end kind next)
unfolding add
add-IsAdded start end kind structure layout next w = elim (Option-cases (get start layout)) [
  | inl e ↦ ground (arith, add_between-ok 0 start end kind structure layout next)
  | inr (found, e) ↦
      ground (arith, kind_eq→eq found.kind kind, kind_eq_refl kind, IsClear-get 0 start end layout)
]
