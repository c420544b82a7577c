-- ===== src/Fragment/Marker.antt =====
-- src/fragment.rs: `parse_marker` on one physical line, and the errors of parsing.
pub mod Bounds
pub mod Total
use zwirn.Prelude.{
  ℕ, suc, ◌+◌, Bool, true, false, not, ◌&&◌, ◌||◌, List, [], ◌∷◌, Option, none, some, ◌==◌,
  if◌then◌else◌, length, drop, Result, ok, err, panic, ◌>>=◌, map_err,
}
use zwirn.Text.{Text, ascii, text_eq, starts_with}
use zwirn.Text.Range.{index_range}
use zwirn.Adls.Kind.{NodeKind, shader, canvas, dsp, lyte_dsp}
use zwirn.Fragment.Path.{FragmentPath, FragmentPathError}
use zwirn.Fragment.Path
use zwirn.Fragment.Hash.{BaselineHash, BaselineHashError}
use zwirn.Fragment.Hash
use zwirn.Fragment.Canonical.{CanonicalSourceError}
use zwirn.Fragment.Lines.{PhysicalLine}

-- The range of the recorded hash in the source, or the position where one goes.
pub data HashLocation : Type 0 where
  present : ℕ → ℕ → HashLocation
  missing : ℕ → HashLocation

pub data Marker : Type 0 where
  open_marker : FragmentPath → Marker
  close_marker : FragmentPath → Option BaselineHash → HashLocation → Marker

-- Fields in the order of the source, the line first.
pub data ParseError : Type 0 where
  missing_path : ℕ → ParseError
  unexpected_tokens : ℕ → ParseError
  invalid_path : ℕ → FragmentPathError → ParseError
  invalid_hash : ℕ → BaselineHashError → ParseError
  nested_opening : ℕ → ℕ → ParseError
  orphaned_closing : ℕ → ParseError
  mismatched_closing_path : ℕ → ℕ → FragmentPath → FragmentPath → ParseError
  unterminated : ℕ → FragmentPath → ParseError
  invalid_fragment_source : ℕ → FragmentPath → CanonicalSourceError → ParseError

unfoldable pub marker_comment : NodeKind → Text
marker_comment canvas = ascii "--"
marker_comment dsp = ascii "--"
marker_comment shader = ascii "//"
marker_comment lyte_dsp = ascii "//"

abbrev pub is_horizontal : ℕ → Bool
is_horizontal b = b == b' ' || b == b'\t'

-- The loops of `skip_horizontal` and `token_end`, on the bytes from `position` on.
skip_from : Text → ℕ → ℕ
skip_from [] position = position
skip_from (b ∷ bytes) position =
    if is_horizontal b then skip_from bytes (position + 1) else position

token_from : Text → ℕ → ℕ
token_from [] position = position
token_from (b ∷ bytes) position =
    if is_horizontal b then position else token_from bytes (position + 1)

unfoldable pub skip_horizontal : Text → ℕ → ℕ
unfolding skip_from
skip_horizontal bytes position = skip_from (drop position bytes) position

unfoldable pub token_end : Text → ℕ → ℕ
unfolding token_from
token_end bytes position = token_from (drop position bytes) position

-- From `hash_start` on, for a closing marker with a hash.
parse_hash : PhysicalLine → FragmentPath → ℕ → Result ParseError (Option Marker)
parse_hash line path hash_start =
    let bytes = line.content in
    let hash_end = token_end bytes hash_start in
    let position = skip_horizontal bytes hash_end in
    do
      text ← index_range bytes hash_start hash_end
      baseline ← map_err (invalid_hash line.number) (Hash.from_str text)
      if not (position == length bytes)
          then err (unexpected_tokens line.number)
          else ok (
              some (
                close_marker path (some baseline)
                  (present (line.start + hash_start) (line.start + hash_end))))

-- From the end of the path on.
parse_after_path : PhysicalLine → Bool → FragmentPath → ℕ → Result ParseError (Option Marker)
parse_after_path line opening path path_end =
    let bytes = line.content in
    let position = skip_horizontal bytes path_end in
    if opening
    then (if not (position == length bytes)
        then err (unexpected_tokens line.number)
        else ok (some (open_marker path)))
    else if position == length bytes
    then ok (some (close_marker path none (missing (line.start + path_end))))
    else parse_hash line path position

-- From the end of the marker token on.
parse_path : PhysicalLine → Bool → ℕ → Result ParseError (Option Marker)
parse_path line opening separator =
    let bytes = line.content in
    let path_start = skip_horizontal bytes separator in
    let path_end = token_end bytes path_start in
    if path_start == separator || path_start == length bytes
    then err (missing_path line.number)
    else do
      text ← index_range bytes path_start path_end
      path ← map_err (invalid_path line.number) (Path.try_from text)
      parse_after_path line opening path path_end

-- The `match` on the marker token.
parse_token : PhysicalLine → Text → ℕ → Result ParseError (Option Marker)
parse_token line marker_token position =
    if text_eq marker_token (ascii "@{")
    then parse_path line true position
    else if text_eq marker_token (ascii "@}")
    then parse_path line false position
    else ok none

unfoldable pub parse_marker : Text → PhysicalLine → Result ParseError (Option Marker)
unfolding parse_token parse_path parse_after_path parse_hash
parse_marker comment line =
    let bytes = line.content in
    let indent = skip_horizontal bytes 0 in
    let separator = indent + length comment in
    let marker_start = skip_horizontal bytes separator in
    let marker_end = token_end bytes marker_start in
    do
      behind ← index_range bytes indent (length bytes)
      if not (starts_with behind comment) || marker_start == separator then ok none else do
        marker_token ← index_range bytes marker_start marker_end
        parse_token line marker_token marker_end
