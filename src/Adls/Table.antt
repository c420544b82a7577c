-- ===== src/Adls/Table.antt =====
-- src/adls.rs: `Parser::table` and `Table::field`.
pub mod Entries
pub mod Total
pub mod Fields
use Prim.Native.String.{String}
use zwirn.Prelude.{
  ℕ, zero, suc, ◌+◌, ◌-◌, ◌*◌, ◌/◌, ◌^◌, Bool, not, ◌&&◌, ◌||◌, Option, none, some, true, false,
  if◌then◌else◌, ltb, leb, ◌==◌, Result, ok, err, ◌>>=◌, ◌>>◌, require, checked_sub, checked_add,
  checked_mul, and_then,
}
use zwirn.Text.{Text}
use zwirn.Adls.Error.{Error, malformed, or_malformed}
use zwirn.Adls.Parser.{is_multiple_of, add_at, read_u16, read_u32, require_range}

-- An `i32` as its bit pattern.
abbrev is_positive : ℕ → Bool
is_positive i = ltb 0 i && ltb i (2 ^ 31)

abbrev unsigned_abs : ℕ → ℕ
unsigned_abs i = if ltb i (2 ^ 31) then i else 2 ^ 32 - i

pub record Table : Type 0 where
  pub location : ℕ
  pub vtable_location : ℕ
  pub vtable_length : ℕ
  pub object_length : ℕ

-- How often `(from..to).step_by(2)` steps.
abbrev pub steps_by_two : ℕ → ℕ → ℕ
steps_by_two from to = (to - from + 1) / 2

-- Where the vtable is, from the `i32` at the start of the table.
unfoldable pub vtable_of : ℕ → ℕ → String → Result Error ℕ
vtable_of location vtable_offset structure =
    or_malformed
      (if is_positive vtable_offset
        then checked_sub location (unsigned_abs vtable_offset)
        else checked_add location (unsigned_abs vtable_offset))
      location structure

module _ (bytes : Text) where
  -- The loop over the entries of the vtable, `count` of which are left.
  unfoldable pub check_entries : ℕ → ℕ → ℕ → ℕ → String → Result Error (Unit {0})
  check_entries zero entry_offset vtable_location object_length structure = ok tt
  check_entries (suc count) entry_offset vtable_location object_length structure = do
    entry_location ← add_at vtable_location entry_offset vtable_location structure
    field_offset ← read_u16 bytes entry_location structure
    require
        (not (not (field_offset == 0) && (ltb field_offset 4 || leb object_length field_offset)))
        (malformed entry_location structure)
    check_entries count (entry_offset + 2) vtable_location object_length structure

  unfoldable pub table : ℕ → String → Result Error Table
  unfolding vtable_of check_entries
  table location structure = do
    require (is_multiple_of location 4) (malformed location structure)
    vtable_offset ← read_u32 bytes location structure
    require (not (vtable_offset == 0)) (malformed location structure)
    vtable_location ← vtable_of location vtable_offset structure
    require (is_multiple_of vtable_location 2) (malformed vtable_location structure)
    vtable_length ← read_u16 bytes vtable_location structure
    object_length_location ← add_at vtable_location 2 vtable_location structure
    object_length ← read_u16 bytes object_length_location structure
    require (leb 4 vtable_length && is_multiple_of vtable_length 2)
        (malformed vtable_location structure)
    require (leb 4 object_length) (malformed location structure)
    require_range bytes vtable_location vtable_length structure
    require_range bytes location object_length structure
    check_entries (steps_by_two 4 vtable_length) 4 vtable_location object_length structure
    ok (record {
      location = location;
      vtable_location = vtable_location;
      vtable_length = vtable_length;
      object_length = object_length;
    })

  -- The loop that looks for another field whose offset lies in this one.
  unfoldable pub check_unshared : ℕ → ℕ → Table → ℕ → ℕ → ℕ → String → Result Error (Unit {0})
  check_unshared zero other_entry_offset table entry_offset field_offset field_end structure = ok tt
  check_unshared (suc count) other_entry_offset table entry_offset field_offset field_end
        structure =
      elim (other_entry_offset == entry_offset) [
        | true ↦
            check_unshared count (other_entry_offset + 2) table entry_offset field_offset field_end
              structure
        | false ↦ do
          other_entry_location ←
              add_at table.vtable_location other_entry_offset table.vtable_location structure
          other_field_offset ← read_u16 bytes other_entry_location structure
          require (not (leb field_offset other_field_offset && ltb other_field_offset field_end))
              (malformed other_entry_location structure)
          check_unshared count (other_entry_offset + 2) table entry_offset field_offset field_end
              structure
      ]

  -- The field whose offset is `field_offset`, which its entry holds.
  unfoldable pub field_at : Table → ℕ → ℕ → ℕ → ℕ → ℕ → String → Result Error (Option ℕ)
  unfolding check_unshared
  field_at table entry_offset entry_location field_offset width alignment structure = do
    field_end ← or_malformed (checked_add field_offset width) entry_location structure
    require (leb field_end table.object_length) (malformed entry_location structure)
    check_unshared (steps_by_two 4 table.vtable_length) 4 table entry_offset field_offset field_end
        structure
    field_location ← add_at table.location field_offset entry_location structure
    require (is_multiple_of field_location alignment) (malformed field_location structure)
    require_range bytes field_location width structure
    ok (some field_location)

  unfoldable pub field : Table → ℕ → ℕ → ℕ → String → Result Error (Option ℕ)
  unfolding field_at
  field table field_index width alignment structure = do
    entry_offset ←
        or_malformed (and_then (checked_mul field_index 2) (checked_add 4)) table.vtable_location
          structure
    entry_end ← or_malformed (checked_add entry_offset 2) table.vtable_location structure
    if ltb table.vtable_length entry_end then ok none else do
      entry_location ← add_at table.vtable_location entry_offset table.vtable_location structure
      field_offset ← read_u16 bytes entry_location structure
      if field_offset == 0
          then ok none
          else field_at table entry_offset entry_location field_offset width alignment structure
