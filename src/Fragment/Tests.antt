-- ===== src/Fragment/Tests.antt =====
-- Runs of the fragment code, and its theorems at concrete inputs.
pub mod Rewrites
use zwirn.Prelude.{
  ℕ, zero, suc, ◌+◌, ◌%◌, ◌<◌, Bool, true, false, List, [], ◌∷◌, ◌++◌, ◌≡◌, ◌≢◌, ◌↔◌, ◌⊎◌, inl, inr,
  refl, arith, Option, none, some, length, replicate, if◌then◌else◌, not, ◌&&◌, All, Result, ok,
  err, panic,
}
use zwirn.Text.{Text, ascii, contains, has_whitespace, is_empty, ends_with, byte_order_mark}
use zwirn.Text
use zwirn.Text.Split.{split}
use zwirn.Text.Order.{text_lt}
use zwirn.TreeMap
use zwirn.Adls.Kind.{NodeKind, dsp, shader}
use zwirn.Fragment.Path.{FragmentPath, validate_fragment_path}
use zwirn.Fragment.Path
use zwirn.Fragment.Path.Valid.{IsComponent, validate_fragment_path_iff}
use zwirn.Fragment.Hash.{
  BaselineHash, BaselineHashError, invalid_length, invalid_character, display, from_str,
}
use zwirn.Fragment.Hash.RoundTrip.{from_str-display, display-from_str}
use zwirn.Fragment.Hash.Errors.{FirstBad, from_str-FirstBad}
use zwirn.Fragment.Canonical.{CanonicalSource, canonicalize_source}
use zwirn.Fragment.Canonical
use zwirn.Fragment.Canonical.Laws.{
  unify_newlines, canonicalize_source-unify, IsCanonical, canonicalize_source-IsCanonical,
}
use zwirn.Fragment.Lines.{PhysicalLine, physical_lines}
use zwirn.Fragment.Lines.Tiles.{Tiles, physical_lines-Tiles}
use zwirn.Fragment.Marker.{
  present, missing, marker_comment, parse_marker, skip_horizontal, token_end,
}
use zwirn.Fragment.Source.{ParsedFragment, ParsedSource, parse, index_range}
use zwirn.Fragment.Source.Spans.{IsParse, parse-IsParse}
use zwirn.Fragment.Rewrite.{
  FragmentUpdate, record_update, replace_update, Rewritten, owned, borrowed, rewritten_text,
  rewrite,
}
use zwirn.Fragment.Rewrite.Requests.{requested_by}
use zwirn.Fragment.Rewrite.Surgical.{surgical}
use zwirn.Fragment.Rewrite.Faithful.{rewrite-surgical, rewrite-ne-panic}

-- A stand-in for SHA-256 with 32 bytes.
abbrev pub sum : Text → ℕ
sum [] = 0
sum (b ∷ s) = b + sum s

abbrev pub sum_digest : Text → List ℕ
sum_digest s = replicate 32 (sum s % 256)

abbrev pub always : ℕ → Bool
always n = true

abbrev hash_text : Text
hash_text = ascii "9238d3dc5eb11d81"

abbrev hash : BaselineHash
hash = record { bytes = 0x92 ∷ 0x38 ∷ 0xd3 ∷ 0xdc ∷ 0x5e ∷ 0xb1 ∷ 0x1d ∷ 0x81 ∷ [] }

from_str-hash : from_str hash_text ≡ ok hash
unfolding from_str
from_str-hash = refl

from_str-display_example : from_str (display hash) ≡ ok hash
from_str-display_example = from_str-display hash refl (omega arith)

display-from_str_example :
    (length hash.bytes ≡ 8) × All (λ b. b < 256) hash.bytes × (display hash ≡ hash_text)
display-from_str_example = display-from_str hash_text hash from_str-hash

abbrev bad_hash : Text
bad_hash = ascii "923Xd3dc5eb11d81"

from_str_bad : from_str bad_hash ≡ err (invalid_character 3)
unfolding from_str
from_str_bad = refl

from_str-FirstBad_example :
    ((length bad_hash ≢ 16) × (invalid_character 3 ≡ invalid_length (length bad_hash)))
    ⊎ ((length bad_hash ≡ 16)
        × ((i : ℕ) × (invalid_character 3 ≡ invalid_character i) × FirstBad bad_hash i))
from_str-FirstBad_example = from_str-FirstBad bad_hash (invalid_character 3) from_str_bad

validate_fragment_path_iff_example : (validate_fragment_path (ascii "src/a.lua") ≡ ok tt) ↔ (
    (contains (ascii "src/a.lua") b'\\' ≡ false)
    × (has_whitespace (ascii "src/a.lua") ≡ false)
    × All IsComponent (split b'/' (ascii "src/a.lua")))
validate_fragment_path_iff_example = validate_fragment_path_iff (ascii "src/a.lua")

path_runs :
    (Path.try_from (ascii "src/a.lua") ≡ ok (record { text = ascii "src/a.lua" }))
    × (Path.try_from (ascii "a/../b") ≡ err Path.parent_directory_segment)
    × (Path.try_from (ascii "a//b") ≡ err Path.empty_segment)
    × (Path.try_from (0x61 ∷ 0xc2 ∷ 0xa0 ∷ []) ≡ err Path.whitespace)
unfolding Path.try_from Text.has_whitespace Text.contains Text.ends_with Text.starts_with
    Text.text_eq split
path_runs = (refl, refl, refl, refl)

abbrev mixed : Text
mixed = ascii "a\r\nb\rc"

canonicalize_source-mixed : canonicalize_source mixed ≡ ascii "a\nb\nc\n"
unfolding canonicalize_source Text.contains Text.ends_with
canonicalize_source-mixed = refl

canonicalize_source-unify_example : canonicalize_source mixed ≡ (
    let u = unify_newlines mixed in
    if not (is_empty u) && not (ends_with u b'\n') then u ++ (b'\n' ∷ []) else u)
canonicalize_source-unify_example = canonicalize_source-unify mixed

canonicalize_source-IsCanonical_example :
    IsCanonical (canonicalize_source mixed)
    × ((canonicalize_source mixed ≡ mixed) ↔ IsCanonical mixed)
canonicalize_source-IsCanonical_example = canonicalize_source-IsCanonical mixed

try_from-mixed : Canonical.try_from mixed ≡ ok (record { text = ascii "a\nb\nc\n" })
unfolding Canonical.try_from Text.contains Text.ends_with Text.starts_with
try_from-mixed = refl
