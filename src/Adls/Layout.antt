-- ===== src/Adls/Layout.antt =====
-- src/adls.rs: `Layout`, the regions of the document that the view has read.
pub mod Neighbours
pub mod Apart
pub mod Tables
use Prim.Native.String.{String}
use zwirn.Prelude.{
  ℕ, Bool, true, false, ◌&&◌, Option, none, some, if◌then◌else◌, ltb, leb, ◌==◌, checked_add,
  Result, ok, err, ◌>>=◌,
}
use zwirn.TreeMap.{TreeMap, get, insert, last_below, first_from}
use zwirn.TreeMap.Nat.{nat_key}
use zwirn.Adls.Error.{Error, malformed, or_malformed}
use zwirn.Adls.Table.{Table}

pub data RegionKind : Type 0 where
  header_region table_region vector_region vtable_region string_region : RegionKind

abbrev pub can_share : RegionKind → Bool
can_share vtable_region = true
can_share string_region = true
can_share _ = false

abbrev pub kind_eq : RegionKind → RegionKind → Bool
kind_eq header_region header_region = true
kind_eq table_region table_region = true
kind_eq vector_region vector_region = true
kind_eq vtable_region vtable_region = true
kind_eq string_region string_region = true
kind_eq _ _ = false

-- Its start is the key in the layout.
pub record Region : Type 0 where
  pub end : ℕ
  pub kind : RegionKind

-- The field `regions`.
abbrev pub Layout : Type 0
Layout = TreeMap ℕ Region

abbrev is_some_and {ℓ} : {A : Type ℓ} → Option A → (A → Bool) → Bool
is_some_and none test = false
is_some_and (some a) test = test a

-- Where no region starts at `start`.
unfoldable pub add_between : Layout → ℕ → ℕ → RegionKind → String → Result Error Layout
add_between layout start end kind structure =
    if is_some_and (last_below start layout) (λ previous. ltb start previous.1.end)
    then err (malformed start structure)
    else if is_some_and (first_from start layout) (λ next. ltb next.0 end)
    then err (malformed start structure)
    else ok (insert start (record { end = end; kind = kind }) layout)

unfoldable pub add : Layout → ℕ → ℕ → RegionKind → String → Result Error Layout
unfolding add_between
add layout start end kind structure =
    if leb end start then err (malformed start structure) else elim (get start layout) [
      | some existing ↦
          if existing.end == end && kind_eq existing.kind kind && can_share kind
          then ok layout
          else err (malformed start structure)
      | none ↦ add_between layout start end kind structure
    ]

unfoldable pub add_table : Layout → Table → String → Result Error Layout
unfolding add
add_table layout table structure = do
  table_end ← or_malformed (checked_add table.location table.object_length) table.location structure
  with_table ← add layout table.location table_end table_region structure
  vtable_end ←
      or_malformed (checked_add table.vtable_location table.vtable_length) table.vtable_location
        structure
  add with_table table.vtable_location vtable_end vtable_region structure
