-- ===== src/Adls/Table/Total.antt =====
-- src/adls.rs: `table` and `field` return a value or an error, whatever the bytes.
use Prim.Native.String.{String}
use zwirn.Prelude.{
  ℕ, zero, suc, ◌+◌, Bool, true, false, ◌&&◌, ◌≢◌, if◌then◌else◌, ltb, leb, ◌==◌, inl, inr,
  checked_add, checked_mul, and_then, Result, panic, >>=-ne-panic, require-ne-panic, ok-ne-panic,
  Bool-cases,
}
use zwirn.Text.{Text}
use zwirn.Adls.Error.{malformed}
use zwirn.Adls.Parser.{is_multiple_of}
use zwirn.Adls.Parser.Total.{
  or_malformed-ne-panic, add_at-ne-panic, read_u16-ne-panic, read_u32-ne-panic,
  require_range-ne-panic,
}
use zwirn.Adls.Table.{
  Table, steps_by_two, vtable_of, check_entries, table, check_unshared, field_at, field,
}

-- Both branches of a test.
pub if-ne-panic {ℓ κ} :
    {E : Type ℓ} {A : Type κ} (b : Bool) (x y : Result E A)
    → x ≢ panic
    → y ≢ panic
    → (if b then x else y) ≢ panic
if-ne-panic true x y h k = h
if-ne-panic false x y h k = k

module _ (bytes : Text) where
  check_entries-ne-panic :
      (count entry_offset vtable_location object_length : ℕ) (structure : String)
      → check_entries bytes count entry_offset vtable_location object_length structure ≢ panic
  unfolding check_entries
  check_entries-ne-panic zero entry_offset vtable_location object_length structure = ok-ne-panic _
  check_entries-ne-panic (suc count) entry_offset vtable_location object_length structure =
      >>=-ne-panic _ _ (add_at-ne-panic vtable_location entry_offset vtable_location structure)
        λ entry_location.
          >>=-ne-panic _ _ (read_u16-ne-panic bytes entry_location structure) λ field_offset.
            >>=-ne-panic _ _ (require-ne-panic _ _) λ _.
              check_entries-ne-panic count (entry_offset + 2) vtable_location object_length
                structure

  vtable_of-ne-panic :
      (location vtable_offset : ℕ) (structure : String)
      → vtable_of location vtable_offset structure ≢ panic
  unfolding vtable_of
  vtable_of-ne-panic location vtable_offset structure = or_malformed-ne-panic _ location structure

  pub table-ne-panic : (location : ℕ) (structure : String) → table bytes location structure ≢ panic
  unfolding table
  table-ne-panic location structure = >>=-ne-panic _ _ (require-ne-panic _ _) λ _.
      >>=-ne-panic _ _ (read_u32-ne-panic bytes location structure) λ vtable_offset.
        >>=-ne-panic _ _ (require-ne-panic _ _) λ _.
          >>=-ne-panic _ _ (vtable_of-ne-panic location vtable_offset structure) λ vtable_location.
            >>=-ne-panic _ _ (require-ne-panic _ _) λ _.
              >>=-ne-panic _ _ (read_u16-ne-panic bytes vtable_location structure) λ vtable_length.
                >>=-ne-panic _ _ (add_at-ne-panic vtable_location 2 vtable_location structure)
                  λ length_location.
                    >>=-ne-panic _ _ (read_u16-ne-panic bytes length_location structure)
                      λ object_length.
                        >>=-ne-panic _ _
                          (require-ne-panic (leb 4 vtable_length && is_multiple_of vtable_length 2)
                            (malformed vtable_location structure))
                          λ _.
                            >>=-ne-panic _ _
                              (require-ne-panic (leb 4 object_length)
                                (malformed location structure))
                              λ _.
                                >>=-ne-panic _ _
                                  (require_range-ne-panic bytes vtable_location vtable_length
                                    structure)
                                  λ _.
                                    >>=-ne-panic _ _
                                      (require_range-ne-panic bytes location object_length
                                        structure)
                                      λ _.
                                        >>=-ne-panic _ _
                                          (check_entries-ne-panic (steps_by_two 4 vtable_length) 4
                                            vtable_location object_length structure)
                                          λ _. ok-ne-panic (record {
                                            location = location;
                                            vtable_location = vtable_location;
                                            vtable_length = vtable_length;
                                            object_length = object_length;
                                          })

  check_unshared-ne-panic :
      (count other_entry_offset : ℕ) (t : Table) (entry_offset field_offset field_end : ℕ)
      (structure : String)
      → check_unshared bytes count other_entry_offset t entry_offset field_offset field_end
          structure
        ≢ panic
  unfolding check_unshared
  check_unshared-ne-panic zero other_entry_offset t entry_offset field_offset field_end structure =
      ok-ne-panic _
  check_unshared-ne-panic (suc count) other_entry_offset t entry_offset field_offset field_end
        structure =
      let rest =
        check_unshared-ne-panic count (other_entry_offset + 2) t entry_offset field_offset field_end
          structure in
      elim (Bool-cases (other_entry_offset == entry_offset)) [
        | inl e ↦ rw (e, check_unshared) rest
        | inr e ↦
            rw (e, check_unshared)
              (>>=-ne-panic _ _
                (add_at-ne-panic t.vtable_location other_entry_offset t.vtable_location structure)
                λ other_entry_location.
                  >>=-ne-panic _ _ (read_u16-ne-panic bytes other_entry_location structure)
                    λ other_field_offset. >>=-ne-panic _ _ (require-ne-panic _ _) λ _. rest)
      ]

  field_at-ne-panic :
      (t : Table) (entry_offset entry_location field_offset width alignment : ℕ)
      (structure : String)
      → field_at bytes t entry_offset entry_location field_offset width alignment structure ≢ panic
  unfolding field_at
  field_at-ne-panic t entry_offset entry_location field_offset width alignment structure =
      >>=-ne-panic _ _
        (or_malformed-ne-panic (checked_add field_offset width) entry_location structure)
        λ field_end. >>=-ne-panic _ _ (require-ne-panic _ _) λ _.
          >>=-ne-panic _ _
            (check_unshared-ne-panic (steps_by_two 4 t.vtable_length) 4 t entry_offset field_offset
              field_end structure)
            λ _.
              >>=-ne-panic _ _ (add_at-ne-panic t.location field_offset entry_location structure)
                λ field_location. >>=-ne-panic _ _ (require-ne-panic _ _) λ _.
                  >>=-ne-panic _ _ (require_range-ne-panic bytes field_location width structure)
                    λ _. ok-ne-panic _

  pub field-ne-panic :
      (t : Table) (field_index width alignment : ℕ) (structure : String)
      → field bytes t field_index width alignment structure ≢ panic
  unfolding field
  field-ne-panic t field_index width alignment structure =
      >>=-ne-panic _ _
        (or_malformed-ne-panic (and_then (checked_mul field_index 2) (checked_add 4))
          t.vtable_location structure)
        λ entry_offset.
          >>=-ne-panic _ _
            (or_malformed-ne-panic (checked_add entry_offset 2) t.vtable_location structure)
            λ entry_end. if-ne-panic (ltb t.vtable_length entry_end) _ _ (ok-ne-panic _) (
              >>=-ne-panic _ _
                (add_at-ne-panic t.vtable_location entry_offset t.vtable_location structure)
                λ entry_location.
                  >>=-ne-panic _ _ (read_u16-ne-panic bytes entry_location structure)
                    λ field_offset. if-ne-panic (field_offset == 0) _ _ (ok-ne-panic _) (
                      field_at-ne-panic t entry_offset entry_location field_offset width alignment
                        structure))
