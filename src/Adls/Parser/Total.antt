-- ===== src/Adls/Parser/Total.antt =====
-- src/adls.rs: the parser's reads return a value or an error, whatever the bytes.
use Prim.Native.String.{String}
use zwirn.Prelude.{
  ℕ, ◌≢◌, Option, none, some, checked_add, panic, >>=-ne-panic, require-ne-panic, ok-ne-panic,
}
use zwirn.Text.{Text}
use zwirn.Text.Range.{get_range}
use zwirn.Adls.Error.{or_malformed}
use zwirn.Adls.Parser.{add_at, array, read_u16, read_u32, require_range, follow_uoffset}

pub or_malformed-ne-panic {ℓ} :
    {A : Type ℓ} (o : Option A) (offset : ℕ) (structure : String)
    → or_malformed o offset structure ≢ panic
or_malformed-ne-panic none offset structure = λ q. cc
or_malformed-ne-panic (some a) offset structure = λ q. cc

pub add_at-ne-panic :
    (left right offset : ℕ) (structure : String) → add_at left right offset structure ≢ panic
unfolding add_at
add_at-ne-panic left right offset structure =
    or_malformed-ne-panic (checked_add left right) offset structure

module _ (bytes : Text) where
  array-ne-panic :
      (size location : ℕ) (structure : String) → array bytes size location structure ≢ panic
  unfolding array
  array-ne-panic size location structure =
      >>=-ne-panic _ _ (or_malformed-ne-panic (checked_add location size) location structure)
        λ end. or_malformed-ne-panic (get_range bytes location end) location structure

  pub read_u16-ne-panic :
      (location : ℕ) (structure : String) → read_u16 bytes location structure ≢ panic
  unfolding read_u16
  read_u16-ne-panic location structure =
      >>=-ne-panic _ _ (array-ne-panic 2 location structure) λ read. ok-ne-panic _

  pub read_u32-ne-panic :
      (location : ℕ) (structure : String) → read_u32 bytes location structure ≢ panic
  unfolding read_u32
  read_u32-ne-panic location structure =
      >>=-ne-panic _ _ (array-ne-panic 4 location structure) λ read. ok-ne-panic _

  pub require_range-ne-panic :
      (location size : ℕ) (structure : String) → require_range bytes location size structure ≢ panic
  unfolding require_range
  require_range-ne-panic location size structure =
      >>=-ne-panic _ _ (or_malformed-ne-panic (checked_add location size) location structure)
        λ end. require-ne-panic _ _

  pub follow_uoffset-ne-panic :
      (location alignment : ℕ) (structure : String)
      → follow_uoffset bytes location alignment structure ≢ panic
  unfolding follow_uoffset
  follow_uoffset-ne-panic location alignment structure =
      >>=-ne-panic _ _ (require-ne-panic _ _) λ _.
        >>=-ne-panic _ _ (read_u32-ne-panic location structure) λ relative.
          >>=-ne-panic _ _ (require-ne-panic _ _) λ _.
            >>=-ne-panic _ _ (add_at-ne-panic location relative location structure)
              λ target. >>=-ne-panic _ _ (require-ne-panic _ _) λ _. ok-ne-panic _
