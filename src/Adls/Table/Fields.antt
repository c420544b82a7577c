-- ===== src/Adls/Table/Fields.antt =====
-- src/adls.rs: where a table and its fields lie.
use Prim.Native.String.{String}
use mathlib.Core.Path.{subst}
use zwirn.Prelude.{
  ℕ, ◌+◌, ◌*◌, ◌%◌, ◌≤◌, ◌<◌, false, ◌≡◌, inl, inr, arith, Option, none, some, leb, ltb, leb→le,
  ◌==◌, ==_iff, checked_add, checked_mul, and_then, Result, ok, require, >>=-elim, Bool-cases,
}
use zwirn.Text.{Text}
use zwirn.Text.Range.{get_range}
use zwirn.Adls.Error.{Error, or_malformed, malformed}
use zwirn.Adls.Parser.{is_multiple_of, add_at, read_u16, require_range}
use zwirn.Adls.Parser.Reads.{or_malformed-eq-ok, add_at-eq-ok, require-eq-ok, read_u16-eq-ok}
use zwirn.Adls.Table.{Table, steps_by_two, check_unshared, field_at, field}
use zwirn.Adls.Table.Entries.{IsTable, IsField}

checked_add-eq-some : (a b : ℕ) {c : ℕ} → checked_add a b ≡ some c → c ≡ a + b
checked_add-eq-some a b h = ground arith

checked_mul_add-eq-some :
    (a : ℕ) {c : ℕ} → and_then (checked_mul a 2) (checked_add 4) ≡ some c → c ≡ 4 + 2 * a
checked_mul_add-eq-some a h = ground arith

ok-none : {location : ℕ} → ¬ (◌≡◌ {A = Result Error (Option ℕ)} (ok none) (ok (some location)))
ok-none h = cc

-- The offset that a read of an entry gives, when it is not 0.
field_offset-le :
    (bytes : Text) (t : Table) (k entry_location field_offset : ℕ) (structure : String)
    → IsTable bytes t
    → entry_location ≡ t.vtable_location + (4 + 2 * k)
    → k < steps_by_two 4 t.vtable_length
    → read_u16 bytes entry_location structure ≡ ok field_offset
    → (field_offset == 0) ≡ false
    → 4 ≤ field_offset
field_offset-le bytes t k entry_location field_offset structure w e l r z =
    let (read, g, v) = read_u16-eq-ok bytes entry_location structure r in
    let cases = w.entries k l read (subst (λ n. get_range bytes n (n + 2) ≡ some read) e g) in
    ground arith

field_at-IsField :
    (bytes : Text) (t : Table) (entry_offset entry_location field_offset width alignment : ℕ)
    (structure : String) {location : ℕ}
    → 4 ≤ field_offset
    → field_at bytes t entry_offset entry_location field_offset width alignment structure
      ≡ ok (some location)
    → IsField t alignment width location
unfolding field_at
field_at-IsField bytes t entry_offset entry_location field_offset width alignment structure
      {location} low h =
    let misplaced : ℕ → Error = λ offset. malformed offset structure in
    >>=-elim (or_malformed (checked_add field_offset width) entry_location structure) _ h
      λ field_end e h1.
        >>=-elim (require (leb field_end t.object_length) (misplaced entry_location)) _ h1
          λ _ inside h2.
            >>=-elim
              (check_unshared bytes (steps_by_two 4 t.vtable_length) 4 t entry_offset field_offset
                field_end structure)
              _ h2
              λ _ _ h3.
                >>=-elim (add_at t.location field_offset entry_location structure) _ h3
                  λ field_location sum h4.
                    >>=-elim
                      (require (is_multiple_of field_location alignment) (misplaced field_location))
                      _ h4
                      λ _ aligned h5.
                        >>=-elim (require_range bytes field_location width structure) _ h5 λ _ _ h6.
                          let same : field_location ≡ location = cc in
                          let limit = leb→le field_end t.object_length (
                            require-eq-ok (leb field_end t.object_length) (misplaced entry_location)
                              inside) in
                          let end = checked_add-eq-some field_offset width (
                            or_malformed-eq-ok (checked_add field_offset width) entry_location
                              structure e) in
                          let (total, _) =
                            add_at-eq-ok t.location field_offset entry_location structure sum in
                          let multiple : field_location % alignment ≡ 0 =
                            (==_iff (field_location % alignment) 0).0 (
                              require-eq-ok (is_multiple_of field_location alignment)
                                (misplaced field_location) aligned) in
                          subst (IsField t alignment width) same (record {
                            behind = omega arith;
                            inside = omega arith;
                            aligned = multiple;
                          })

pub field-IsField :
    (bytes : Text) (t : Table) (field_index width alignment : ℕ) (structure : String) {location : ℕ}
    → IsTable bytes t
    → field bytes t field_index width alignment structure ≡ ok (some location)
    → IsField t alignment width location
unfolding field
field-IsField bytes t field_index width alignment structure w h =
    >>=-elim
      (or_malformed (and_then (checked_mul field_index 2) (checked_add 4)) t.vtable_location
        structure)
      _ h
      λ entry_offset e h1.
        >>=-elim (or_malformed (checked_add entry_offset 2) t.vtable_location structure) _ h1
          λ entry_end f h2.
            let offset = checked_mul_add-eq-some field_index (
              or_malformed-eq-ok (and_then (checked_mul field_index 2) (checked_add 4))
                t.vtable_location structure e) in
            let end =
              checked_add-eq-some entry_offset 2
                (or_malformed-eq-ok (checked_add entry_offset 2) t.vtable_location structure f) in
            elim (Bool-cases (ltb t.vtable_length entry_end)) [
              | inl c ↦ absurd (ok-none (rw c at h2))
              | inr c ↦
                  >>=-elim (add_at t.vtable_location entry_offset t.vtable_location structure) _
                    (rw c at h2)
                    λ entry_location g h3.
                      >>=-elim (read_u16 bytes entry_location structure) _ h3 λ field_offset r h4.
                        elim (Bool-cases (field_offset == 0)) [
                          | inl z ↦ absurd (ok-none (rw z at h4))
                          | inr z ↦
                              let (total, _) =
                                add_at-eq-ok t.vtable_location entry_offset t.vtable_location
                                  structure g in
                              let fits : entry_end ≤ t.vtable_length = ground (arith, c) in
                              let low : 4 ≤ field_offset =
                                field_offset-le bytes t field_index entry_location field_offset
                                  structure w (omega (arith, total, offset)) (omega arith) r z in
                              field_at-IsField bytes t entry_offset entry_location field_offset
                                width alignment structure low (rw z at h4)
                        ]
            ]
