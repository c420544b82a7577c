-- ===== src/Adls/Layout/Tables.antt =====
-- src/adls.rs: what `add_table` adds to a layout.
use Prim.Native.String.{String}
use zwirn.Prelude.{
  ℕ, ◌+◌, ◌≡◌, inl, inr, ap, ◌∙◌, arith, none, some, checked_add, >>=-elim, Option-cases, ok,
}
use zwirn.TreeMap.{get}
use zwirn.TreeMap.Nat.{nat_key}
use zwirn.Adls.Error.{or_malformed}
use zwirn.Adls.Table.{Table}
use zwirn.Adls.Layout.{table_region, vtable_region, Layout, add, add_table}
use zwirn.Adls.Layout.Neighbours.{IsApart, region_of}
use zwirn.Adls.Layout.Apart.{IsLater, add-IsGrown}

-- A table is new in the layout, and stands there afterwards.
pub record IsTableAdded (layout next : Layout) (table : Table) : Type 0 where
  pub apart : IsApart 0 next
  pub later : IsLater layout next
  pub absent : get table.location layout ≡ none
  pub stands :
      get table.location next ≡ some (region_of (table.location + table.object_length) table_region)
  pub vtable_stands :
      get table.vtable_location next
      ≡ some (region_of (table.vtable_location + table.vtable_length) vtable_region)

add-new :
    (start end : ℕ) (structure : String) (layout next : Layout)
    → add layout start end table_region structure ≡ ok next
    → get start layout ≡ none
unfolding add
add-new start end structure layout next h = elim (Option-cases (get start layout)) [
  | inl e ↦ e
  | inr (found, e) ↦ ground arith
]

pub add_table-IsTableAdded :
    (table : Table) (structure : String) (layout : Layout) {next : Layout}
    → IsApart 0 layout
    → add_table layout table structure ≡ ok next
    → IsTableAdded layout next table
unfolding add_table
add_table-IsTableAdded table structure layout {next} w h =
    >>=-elim
      (or_malformed (checked_add table.location table.object_length) table.location structure) _ h
      λ table_end e h1.
        >>=-elim (add layout table.location table_end table_region structure) _ h1
          λ with_table a h2.
            >>=-elim
              (or_malformed (checked_add table.vtable_location table.vtable_length)
                table.vtable_location structure)
              _ h2
              λ vtable_end f h3.
                let grown =
                  add-IsGrown table.location table_end table_region structure layout with_table w
                    a in
                let again =
                  add-IsGrown table.vtable_location vtable_end vtable_region structure with_table
                    next grown.apart h3 in
                let end : table_end ≡ table.location + table.object_length = ground (arith, e) in
                let vtable : vtable_end ≡ table.vtable_location + table.vtable_length =
                  ground (arith, f) in
                record {
                  apart = again.apart;
                  later = λ s r k. again.later s r (grown.later s r k);
                  absent = add-new table.location table_end structure layout with_table a;
                  stands =
                      again.later table.location _
                        (grown.stands ∙ ap (λ n. some (region_of n table_region)) end);
                  vtable_stands = again.stands ∙ ap (λ n. some (region_of n vtable_region)) vtable;
                }
