-- ===== src/Adls/Table/Entries.antt =====
-- src/adls.rs: a table that was read, and the offsets in its vtable.
use Prim.Native.String.{String}
use mathlib.Core.Path.{subst}
use zwirn.Prelude.{
  ℕ, zero, suc, ◌+◌, ◌*◌, ◌%◌, ◌≤◌, ◌<◌, not, ◌&&◌, ◌||◌, ◌≡◌, ◌⊎◌, sym, ap, ◌∙◌, arith, some,
  length, leb, ltb, ◌==◌, ==_iff, ok, require, >>=-elim,
}
use zwirn.Text.{Text}
use zwirn.Text.Range.{get_range}
use zwirn.Adls.Error.{Error, malformed}
use zwirn.Adls.Parser.{from_le_bytes, is_multiple_of, add_at, read_u16, read_u32, require_range}
use zwirn.Adls.Parser.Reads.{add_at-eq-ok, require-eq-ok, read_u16-eq-ok, require_range-eq-ok}
use zwirn.Adls.Table.{Table, steps_by_two, vtable_of, check_entries, table}

-- The offset in an entry is 0, where the field is absent, or lies behind the first four bytes of
-- the object and inside it.
abbrev pub IsEntry : Text → ℕ → ℕ → Type 0
IsEntry bytes object_length entry_location =
    (read : Text)
    → get_range bytes entry_location (entry_location + 2) ≡ some read
    → (from_le_bytes read ≡ 0) ⊎ ((4 ≤ from_le_bytes read) × (from_le_bytes read < object_length))

pub check_entries-IsEntry :
    (bytes : Text) (count entry_offset vtable_location object_length : ℕ) (structure : String)
    {u : Unit {0}}
    → check_entries bytes count entry_offset vtable_location object_length structure ≡ ok u
    → (k : ℕ) → k < count
    → IsEntry bytes object_length (vtable_location + (entry_offset + 2 * k))
unfolding check_entries
check_entries-IsEntry bytes zero entry_offset vtable_location object_length structure h k l =
    absurd (omega arith)
check_entries-IsEntry bytes (suc count) entry_offset vtable_location object_length structure h k l =
    >>=-elim (add_at vtable_location entry_offset vtable_location structure) _ h
      λ entry_location e h1.
        >>=-elim (read_u16 bytes entry_location structure) _ h1 λ field_offset f h2.
          >>=-elim
            (require
              (not
                (not (field_offset == 0) && (ltb field_offset 4 || leb object_length field_offset)))
              (malformed entry_location structure))
            _ h2
            λ _ t h3.
              let here : IsEntry bytes object_length entry_location = λ read g.
                let (found, r, v) = read_u16-eq-ok bytes entry_location structure f in
                let same : found ≡ read = cc in
                let value : field_offset ≡ from_le_bytes read = v ∙ ap from_le_bytes same in
                rw (← value) (ground arith) in
              let rest =
                check_entries-IsEntry bytes count (entry_offset + 2) vtable_location object_length
                  structure h3 in
              elim k
                  as (λ k.
                    k < suc count
                    → IsEntry bytes object_length (vtable_location + (entry_offset + 2 * k))) [
                      | zero ↦ λ _.
                          let same : entry_location ≡ vtable_location + (entry_offset + 2 * 0) =
                            omega (
                              arith,
                              (add_at-eq-ok vtable_location entry_offset vtable_location structure
                                  e).0,
                            ) in
                          subst (IsEntry bytes object_length) same here
                      | suc j ↦ λ below.
                          let same : vtable_location + (entry_offset + 2 + 2 * j)
                              ≡ vtable_location + (entry_offset + 2 * suc j) =
                            omega arith in
                          subst (IsEntry bytes object_length) same (rest j (omega arith))
                    ]
                l

-- A table, its vtable and the offsets in it are inside the bytes.
pub record IsTable (bytes : Text) (table : Table) : Type 0 where
  pub aligned : table.location % 4 ≡ 0
  pub whole : table.location + table.object_length ≤ length bytes
  pub vtable_whole : table.vtable_location + table.vtable_length ≤ length bytes
  pub entries :
      (k : ℕ)
      → k < steps_by_two 4 table.vtable_length
      → IsEntry bytes table.object_length (table.vtable_location + (4 + 2 * k))

pub table-IsTable :
    (bytes : Text) (location : ℕ) (structure : String) {t : Table}
    → table bytes location structure ≡ ok t
    → (t.location ≡ location) × IsTable bytes t
unfolding table
table-IsTable bytes location structure {t} h =
    let misplaced : ℕ → Error = λ offset. malformed offset structure in
    >>=-elim (require (is_multiple_of location 4) (misplaced location)) _ h λ _ aligned h1.
      >>=-elim (read_u32 bytes location structure) _ h1 λ vtable_offset _ h2.
        >>=-elim (require (not (vtable_offset == 0)) (misplaced location)) _ h2 λ _ _ h3.
          >>=-elim (vtable_of location vtable_offset structure) _ h3 λ vtable_location _ h4.
            >>=-elim (require (is_multiple_of vtable_location 2) (misplaced vtable_location)) _ h4
              λ _ _ h5.
                >>=-elim (read_u16 bytes vtable_location structure) _ h5 λ vtable_length _ h6.
                  >>=-elim (add_at vtable_location 2 vtable_location structure) _ h6
                    λ length_location _ h7.
                      >>=-elim (read_u16 bytes length_location structure) _ h7 λ object_length _ h8.
                        >>=-elim
                          (require (leb 4 vtable_length && is_multiple_of vtable_length 2)
                            (misplaced vtable_location))
                          _ h8
                          λ _ _ h9.
                            >>=-elim (require (leb 4 object_length) (misplaced location)) _ h9
                              λ _ _ h10.
                                >>=-elim
                                  (require_range bytes vtable_location vtable_length structure) _
                                  h10
                                  λ _ vtable_whole h11.
                                    >>=-elim (require_range bytes location object_length structure)
                                      _ h11
                                      λ _ whole h12.
                                        >>=-elim
                                          (check_entries bytes (steps_by_two 4 vtable_length) 4
                                            vtable_location object_length structure)
                                          _ h12
                                          λ _ entries h13.
                                            let found : Table = record {
                                              location = location;
                                              vtable_location = vtable_location;
                                              vtable_length = vtable_length;
                                              object_length = object_length;
                                            } in
                                            let same : found ≡ t = cc in
                                            let is_table : IsTable bytes found = record {
                                              aligned = (==_iff (location % 4) 0).0 (
                                                  require-eq-ok (is_multiple_of location 4)
                                                    (misplaced location) aligned);
                                              whole =
                                                  require_range-eq-ok bytes location object_length
                                                    structure whole;
                                              vtable_whole =
                                                  require_range-eq-ok bytes vtable_location
                                                    vtable_length structure vtable_whole;
                                              entries =
                                                  check_entries-IsEntry bytes
                                                    (steps_by_two 4 vtable_length) 4 vtable_location
                                                    object_length structure entries;
                                            } in
                                            (
                                              sym (ap (λ (t : Table). t.location) same),
                                              subst (IsTable bytes) same is_table,
                                            )

pub record IsField (table : Table) (alignment width location : ℕ) : Type 0 where
  pub behind : table.location + 4 ≤ location
  pub inside : location + width ≤ table.location + table.object_length
  pub aligned : location % alignment ≡ 0
