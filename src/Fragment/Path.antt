-- ===== src/Fragment/Path.antt =====
-- src/fragment.rs: `FragmentPath` and its validation.
pub mod Valid
use zwirn.Prelude.{
  ℕ, Bool, true, false, not, List, [], ◌∷◌, ◌≡◌, arith, if◌then◌else◌, Result, ok, err, ◌>>=◌, ◌>>◌,
  require,
}
use zwirn.Text.{Text, ascii, text_eq, is_empty, starts_with, ends_with, contains, has_whitespace}
use zwirn.Text.Split.{split}

-- The string inside; only `try_from` makes one.
pub record FragmentPath : Type 0 where
  pub text : Text

abbrev pub path_eq : FragmentPath → FragmentPath → Bool
path_eq a b = text_eq a.text b.text

pub data FragmentPathError : Type 0 where
  empty leading_slash trailing_slash backslash whitespace : FragmentPathError
  empty_segment current_directory_segment parent_directory_segment : FragmentPathError

-- The `match` on one segment.
validate_segment : Text → Result FragmentPathError (Unit {0})
validate_segment segment =
    if text_eq segment (ascii "")
    then err empty_segment
    else if text_eq segment (ascii ".")
    then err current_directory_segment
    else if text_eq segment (ascii "..")
    then err parent_directory_segment
    else ok tt

validate_segments : List Text → Result FragmentPathError (Unit {0})
validate_segments [] = ok tt
validate_segments (segment ∷ rest) = do validate_segment segment; validate_segments rest

unfoldable pub validate_fragment_path : Text → Result FragmentPathError (Unit {0})
unfolding validate_segment validate_segments
validate_fragment_path value = do
  require (not (is_empty value)) empty
  require (not (starts_with value (ascii "/"))) leading_slash
  require (not (ends_with value b'/')) trailing_slash
  require (not (contains value b'\\')) backslash
  require (not (has_whitespace value)) whitespace
  validate_segments (split b'/' value)

-- `TryFrom<String>`, which the other conversions call.
unfoldable pub try_from : Text → Result FragmentPathError FragmentPath
unfolding validate_fragment_path
try_from value = do validate_fragment_path value; ok (record { text = value })
