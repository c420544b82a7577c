-- ===== src/Text/Range.antt =====
-- Ranges of a text or of bytes, with what the code gets for one that is not there.
pub mod Laws
use zwirn.Prelude.{
  ℕ, ◌+◌, ◌++◌, take, drop, ◌&&◌, Option, none, some, if◌then◌else◌, leb, length, Result, ok, panic,
}
use zwirn.Text.{Text, slice}

-- `&source[from..to]`, which panics on a range that is not one of the text.
unfoldable pub index_range {ℓ} : {E : Type ℓ} → Text → ℕ → ℕ → Result E Text
index_range source from to =
    if leb from to && leb to (length source) then ok (slice source from to) else panic

-- `bytes.get(from..to)`.
unfoldable pub get_range : Text → ℕ → ℕ → Option Text
get_range bytes from to =
    if leb from to && leb to (length bytes) then some (slice bytes from to) else none

-- `output[from..from + bytes.len()].copy_from_slice(bytes)`.
unfoldable pub copy_at {ℓ} : {E : Type ℓ} → Text → ℕ → Text → Result E Text
copy_at output from bytes =
    if leb (from + length bytes) (length output)
    then ok (take from output ++ (bytes ++ drop (from + length bytes) output))
    else panic
