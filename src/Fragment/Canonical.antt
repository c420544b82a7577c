-- ===== src/Fragment/Canonical.antt =====
-- src/fragment.rs: `CanonicalSource` and `canonicalize_source`.
pub mod Laws
use zwirn.Prelude.{
  ℕ, Bool, true, false, not, ◌&&◌, [], ◌∷◌, ◌++◌, ◌==◌, if◌then◌else◌, Result, ok, err,
}
use zwirn.Text.{Text, text_eq, is_empty, starts_with, ends_with, contains, byte_order_mark}

-- The string inside; `try_from` and `from_validated` make one.
pub record CanonicalSource : Type 0 where
  pub text : Text

abbrev pub source_eq : CanonicalSource → CanonicalSource → Bool
source_eq a b = text_eq a.text b.text

pub data CanonicalSourceError : Type 0 where
  byte_order_mark_error : CanonicalSourceError

-- The loop over `bytes`. `segment` is `value[segment_start..index]`, and the last argument is
-- `bytes[index..]`.
normalize : Text → Text → Text → Text
normalize normalized segment [] = normalized ++ segment
normalize normalized segment (b ∷ []) =
    if b == b'\r'
    then (normalized ++ segment) ++ (b'\n' ∷ [])
    else normalized ++ (segment ++ (b ∷ []))
normalize normalized segment (b ∷ c ∷ rest) = elim (b == b'\r') [
  | true ↦ elim (c == b'\n') [
    | true ↦ normalize ((normalized ++ segment) ++ (b'\n' ∷ [])) [] rest
    | false ↦ normalize ((normalized ++ segment) ++ (b'\n' ∷ [])) [] (c ∷ rest)
  ]
  | false ↦ normalize normalized (segment ++ (b ∷ [])) (c ∷ rest)
]

-- The `push('\n')` at the end.
terminate : Text → Text
terminate value =
    if not (is_empty value) && not (ends_with value b'\n') then value ++ (b'\n' ∷ []) else value

unfoldable pub canonicalize_source : Text → Text
unfolding normalize terminate
canonicalize_source value =
    let normalized = normalize [] [] value in
    terminate (if contains value b'\r' then normalized else value)

-- `TryFrom<String>`.
unfoldable pub try_from : Text → Result CanonicalSourceError CanonicalSource
unfolding canonicalize_source
try_from value =
    if starts_with value byte_order_mark
    then err byte_order_mark_error
    else ok (record { text = canonicalize_source value })

-- `from_validated`, whose assertion is a debug build's.
abbrev pub from_validated : Text → CanonicalSource
from_validated value = record { text = canonicalize_source value }
