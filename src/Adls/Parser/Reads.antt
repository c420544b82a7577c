-- ===== src/Adls/Parser/Reads.antt =====
-- src/adls.rs: what the parser's reads give, in terms of ranges of the bytes.
use Prim.Native.String.{String}
use zwirn.Prelude.{
  ℕ, ◌+◌, ◌%◌, ◌≤◌, ◌<◌, Bool, true, false, ◌≡◌, refl, arith, Option, none, some, length, usize_mod,
  ok, require, not, ◌==◌, >>=-eq-ok,
}
use zwirn.Text.{Text}
use zwirn.Text.Range.{get_range}
use zwirn.Adls.Error.{or_malformed, malformed}
use zwirn.Adls.Parser.{
  from_le_bytes, is_multiple_of, add_at, array, read_u16, read_u32, require_range, follow_uoffset,
}

pub or_malformed-eq-ok {ℓ} :
    {A : Type ℓ} (o : Option A) (offset : ℕ) (structure : String) {a : A}
    → or_malformed o offset structure ≡ ok a
    → o ≡ some a
or_malformed-eq-ok none offset structure h = cc
or_malformed-eq-ok (some a) offset structure h = cc

pub add_at-eq-ok :
    (left right offset : ℕ) (structure : String) {sum : ℕ}
    → add_at left right offset structure ≡ ok sum
    → (sum ≡ left + right) × (sum < usize_mod)
unfolding add_at
add_at-eq-ok left right offset structure h = ground (arith)

pub require-eq-ok {ℓ} :
    {E : Type ℓ} (b : Bool) (e : E) {u : Unit {0}} → require b e ≡ ok u → b ≡ true
require-eq-ok true e h = refl
require-eq-ok false e h = cc

-- At `location` stand four bytes, the distance to `target`.
pub record IsPointer (bytes : Text) (location alignment target : ℕ) : Type 0 where
  pub pointer : Text
  pub holds : get_range bytes location (location + 4) ≡ some pointer
  pub sum : target ≡ location + from_le_bytes pointer
  pub aligned : location % 4 ≡ 0
  pub target_aligned : target % alignment ≡ 0
  pub ahead : location < target
  pub inside : target < length bytes

module _ (bytes : Text) where
  pub array-eq-ok :
      (size location : ℕ) (structure : String) {read : Text}
      → array bytes size location structure ≡ ok read
      → get_range bytes location (location + size) ≡ some read
  unfolding array
  array-eq-ok size location structure h = ground arith

  pub read_u16-eq-ok :
      (location : ℕ) (structure : String) {n : ℕ}
      → read_u16 bytes location structure ≡ ok n
      → (read : Text) × (get_range bytes location (location + 2) ≡ some read)
        × (n ≡ from_le_bytes read)
  unfolding read_u16
  read_u16-eq-ok location structure h =
      let (read, e, k) = >>=-eq-ok (array bytes 2 location structure) _ h in
      (read, array-eq-ok 2 location structure e, cc)

  pub read_u32-eq-ok :
      (location : ℕ) (structure : String) {n : ℕ}
      → read_u32 bytes location structure ≡ ok n
      → (read : Text) × (get_range bytes location (location + 4) ≡ some read)
        × (n ≡ from_le_bytes read)
  unfolding read_u32
  read_u32-eq-ok location structure h =
      let (read, e, k) = >>=-eq-ok (array bytes 4 location structure) _ h in
      (read, array-eq-ok 4 location structure e, cc)

  pub require_range-eq-ok :
      (location size : ℕ) (structure : String) {u : Unit {0}}
      → require_range bytes location size structure ≡ ok u
      → location + size ≤ length bytes
  unfolding require_range
  require_range-eq-ok location size structure h = ground arith

  pub follow_uoffset-eq-ok :
      (location alignment : ℕ) (structure : String) {target : ℕ}
      → follow_uoffset bytes location alignment structure ≡ ok target
      → IsPointer bytes location alignment target
  unfolding follow_uoffset
  follow_uoffset-eq-ok location alignment structure h =
      let (_, aligned, h1) =
        >>=-eq-ok (require (is_multiple_of location 4) (malformed location structure)) _ h in
      let (relative, e, h2) = >>=-eq-ok (read_u32 bytes location structure) _ h1 in
      let (read, g, k) = read_u32-eq-ok location structure e in
      let (_, positive, h3) =
        >>=-eq-ok (require (not (relative == 0)) (malformed location structure)) _ h2 in
      let (found, sum, h4) = >>=-eq-ok (add_at location relative location structure) _ h3 in
      let (total, _) = add_at-eq-ok location relative location structure sum in
      record {
        pointer = read;
        holds = g;
        sum = ground arith;
        aligned = ground arith;
        target_aligned = ground arith;
        ahead = ground arith;
        inside = ground arith;
      }
