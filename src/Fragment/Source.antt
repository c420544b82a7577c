-- ===== src/Fragment/Source.antt =====
-- src/fragment.rs: `ParsedSource::parse` and the fragments that it finds.
pub mod Spans
pub mod Total
use zwirn.Prelude.{
  ℕ, ◌+◌, Bool, true, false, not, ◌&&◌, List, [], ◌∷◌, ◌++◌, map, Option, none, some, if◌then◌else◌,
  leb, length, Result, ok, err, panic, ◌>>=◌,
}
use zwirn.Text.{Text, starts_with, byte_order_mark}
unfoldable pub use zwirn.Text.Range.{index_range}
use zwirn.Adls.Kind.{NodeKind}
use zwirn.Fragment.Path.{FragmentPath, path_eq}
use zwirn.Fragment.Hash.{BaselineHash}
use zwirn.Fragment.Canonical.{byte_order_mark_error}
use zwirn.Fragment.Lines.{PhysicalLine, physical_lines}
use zwirn.Fragment.Marker.{
  HashLocation, Marker, open_marker, close_marker, ParseError, nested_opening, orphaned_closing,
  mismatched_closing_path, unterminated, invalid_fragment_source, marker_comment, parse_marker,
}

-- `source_span` is the range from `span_start` to `span_end`.
pub record ParsedFragment : Type 0 where
  pub path : FragmentPath
  pub baseline : Option BaselineHash
  pub span_start : ℕ
  pub span_end : ℕ
  pub hash_location : HashLocation

pub record ParsedSource : Type 0 where
  pub source : Text
  pub fragments : List ParsedFragment

pub record OpenFragment : Type 0 where
  pub path : FragmentPath
  pub line : ℕ
  pub source_start : ℕ

-- The variables `fragments` and `open` of the loop.
pub record Scan : Type 0 where
  pub fragments : List ParsedFragment
  pub opened : Option OpenFragment

-- The arm for an opening marker.
scan_open : Scan → PhysicalLine → FragmentPath → Option OpenFragment → Result ParseError Scan
scan_open scan line path (some opened) = err (nested_opening line.number opened.line)
scan_open scan line path none = ok (record scan {
  opened = some (record { path = path; line = line.number; source_start = line.end });
})

-- The arm for a closing marker, once `open.take()` gave the open fragment.
scan_close :
    Text
    → Scan
    → PhysicalLine
    → FragmentPath
    → Option BaselineHash
    → HashLocation
    → OpenFragment
    → Result ParseError Scan
scan_close source scan line path baseline hash_location opened =
    if not (path_eq path opened.path)
    then err (mismatched_closing_path line.number opened.line opened.path path)
    else do
      text ← index_range source opened.source_start line.start
      if starts_with text byte_order_mark
          then err (invalid_fragment_source (opened.line + 1) opened.path byte_order_mark_error)
          else ok (record {
            fragments =
                scan.fragments
                ++ (record {
                  path = opened.path;
                  baseline = baseline;
                  span_start = opened.source_start;
                  span_end = line.start;
                  hash_location = hash_location;
                }
                    ∷ []);
            opened = none;
          })

-- The `match` on a marker.
scan_marker : Text → Scan → PhysicalLine → Option Marker → Result ParseError Scan
scan_marker source scan line none = ok scan
scan_marker source scan line (some (open_marker path)) = scan_open scan line path scan.opened
scan_marker source scan line (some (close_marker path baseline hash_location)) = elim scan.opened [
  | none ↦ err (orphaned_closing line.number)
  | some opened ↦ scan_close source scan line path baseline hash_location opened
]

-- The body of the loop.
scan_line : Text → Text → Scan → PhysicalLine → Result ParseError Scan
unfolding scan_open scan_close scan_marker
scan_line comment source scan line = do
  marker ← parse_marker comment line
  scan_marker source scan line marker

scan_lines : Text → Text → Scan → List PhysicalLine → Result ParseError Scan
scan_lines comment source scan [] = ok scan
scan_lines comment source scan (line ∷ rest) = do
  after ← scan_line comment source scan line
  scan_lines comment source after rest

-- What follows the loop.
finish : Text → Scan → Option OpenFragment → Result ParseError ParsedSource
finish source scan (some opened) = err (unterminated opened.line opened.path)
finish source scan none = ok (record { source = source; fragments = scan.fragments })

unfoldable pub parse : NodeKind → Text → Result ParseError ParsedSource
unfolding scan_line scan_lines finish
parse kind source = do
  lines ← physical_lines source
  scan ← scan_lines (marker_comment kind) source (record { fragments = []; opened = none }) lines
  finish source scan scan.opened

-- One item of `ParsedSource::fragments`.
pub record Fragment : Type 0 where
  pub path : FragmentPath
  pub baseline : Option BaselineHash
  pub source : Text

fragment_of {ℓ} : {E : Type ℓ} → Text → ParsedFragment → Result E Fragment
unfolding index_range
fragment_of source fragment = do
  text ← index_range source fragment.span_start fragment.span_end
  ok (record { path = fragment.path; baseline = fragment.baseline; source = text })

fragments_of {ℓ} : {E : Type ℓ} → Text → List ParsedFragment → Result E (List Fragment)
fragments_of source [] = ok []
fragments_of source (f ∷ rest) = do
  first ← fragment_of source f
  others ← fragments_of source rest
  ok (first ∷ others)

-- `ParsedSource::fragments`, the whole iteration.
unfoldable pub fragments {ℓ} : {E : Type ℓ} → ParsedSource → Result E (List Fragment)
unfolding fragments_of fragment_of
fragments parsed = fragments_of parsed.source parsed.fragments
