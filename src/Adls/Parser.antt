-- ===== src/Adls/Parser.antt =====
-- src/adls.rs: `Parser`, which reads numbers and offsets of the document's bytes.
pub mod Total
pub mod Reads
use Prim.Native.String.{String}
use zwirn.Prelude.{
  ℕ, zero, suc, ◌+◌, ◌-◌, ◌*◌, ◌/◌, ◌%◌, ◌^◌, Bool, not, ◌&&◌, ◌||◌, [], ◌∷◌, Option, none, some,
  if◌then◌else◌, ltb, leb, ◌==◌, length, Result, ok, err, ◌>>=◌, ◌>>◌, require, true, false,
  checked_sub, checked_add, checked_mul, and_then,
}
use zwirn.Text.{Text}
use zwirn.Text.Range.{get_range}
use zwirn.Adls.Error.{Error, malformed, or_malformed}

-- `from_le_bytes` of `u16` and `u32`.
abbrev pub from_le_bytes : Text → ℕ
from_le_bytes [] = 0
from_le_bytes (b ∷ bytes) = b + 256 * from_le_bytes bytes

-- `location.is_multiple_of(alignment)`, for an alignment that is not 0.
abbrev pub is_multiple_of : ℕ → ℕ → Bool
is_multiple_of location alignment = location % alignment == 0

-- `checked_add` of the parser.
unfoldable pub add_at : ℕ → ℕ → ℕ → String → Result Error ℕ
add_at left right error_location structure =
    or_malformed (checked_add left right) error_location structure

module _ (bytes : Text) where
  unfoldable pub array : ℕ → ℕ → String → Result Error Text
  unfolding get_range
  array size location structure = do
    end ← or_malformed (checked_add location size) location structure
    or_malformed (get_range bytes location end) location structure

  unfoldable pub read_u16 : ℕ → String → Result Error ℕ
  unfolding array
  read_u16 location structure = do read ← array 2 location structure; ok (from_le_bytes read)

  -- `read_i32` reads the bit pattern of an `i32` in the same way.
  unfoldable pub read_u32 : ℕ → String → Result Error ℕ
  unfolding array
  read_u32 location structure = do read ← array 4 location structure; ok (from_le_bytes read)

  unfoldable pub require_range : ℕ → ℕ → String → Result Error (Unit {0})
  require_range location size structure = do
    end ← or_malformed (checked_add location size) location structure
    require (leb end (length bytes)) (malformed location structure)

  -- `usize` has 64 bits, so that a `u32` always is one.
  unfoldable pub follow_uoffset : ℕ → ℕ → String → Result Error ℕ
  unfolding read_u32 add_at
  follow_uoffset location alignment structure = do
    require (is_multiple_of location 4) (malformed location structure)
    relative ← read_u32 location structure
    require (not (relative == 0)) (malformed location structure)
    target ← add_at location relative location structure
    require (is_multiple_of target alignment && ltb target (length bytes))
        (malformed location structure)
    ok target
