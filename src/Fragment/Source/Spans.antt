-- ===== src/Fragment/Source/Spans.antt =====
-- Where the fragments of a parsed source lie, and that no slice of the parser panics.
use mathlib.Core.Path.{subst}
use zwirn.Prelude.{
  ℕ, ◌+◌, ◌≤◌, List, [], ◌∷◌, ◌++◌, ◌≡◌, refl, sym, arith, Option, none, some, length,
  length-append, Result, ok, err, panic, ◌>>=◌, Bool-cases, inl, inr,
}
use zwirn.Text.{Text, starts_with, slice, byte_order_mark}
use zwirn.Text.Range.Laws.{index_range_of}
use zwirn.Adls.Kind.{NodeKind}
use zwirn.Fragment.Path.{FragmentPath, path_eq}
use zwirn.Fragment.Hash.{BaselineHash}
use zwirn.Fragment.Lines.{PhysicalLine}
use zwirn.Fragment.Lines.Tiles.{Tiles, done, tile, physical_lines-Tiles}
use zwirn.Fragment.Marker.{
  HashLocation, Marker, open_marker, close_marker, ParseError, marker_comment, parse_marker,
}
use zwirn.Fragment.Marker.Bounds.{
  location_start, location_end, CloseBounds, parse_marker-CloseBounds,
}
use zwirn.Fragment.Marker.Total.{parse_marker-ne-panic}
use zwirn.Fragment.Source.{
  ParsedFragment, ParsedSource, OpenFragment, Scan, scan_open, scan_close, scan_marker, scan_line,
  scan_lines, finish, parse,
}

-- From `pos` on, lines that follow one another up to the end of the source.
abbrev Follow : ℕ → ℕ → List PhysicalLine → Type 0
Follow size pos [] = pos ≡ size
Follow size pos (line ∷ lines) =
    (line.start ≡ pos)
    × (line.start + length line.content ≤ line.end)
    × (line.end ≤ size)
    × Follow size line.end lines

Tiles-Follow :
    {source before : Text} {n : ℕ} {lines : List PhysicalLine}
    → Tiles source before n lines
    → (length before ≤ length source) × Follow (length source) (length before) lines
Tiles-Follow (done n) = (omega arith, refl)
Tiles-Follow (tile {before} content terminator rest e clean end full more) =
    let (le, follow) = Tiles-Follow more in
    let width = length-append before (content ++ terminator) in
    let parts = length-append content terminator in (omega arith, (refl, omega arith, le, follow))

-- Fragments one behind the other between `low` and `high`, each with its hash behind its source.
abbrev pub Chain : ℕ → List ParsedFragment → ℕ → Type 0
Chain low [] high = low ≤ high
Chain low (f ∷ rest) high =
    (low ≤ f.span_start)
    × (f.span_start ≤ f.span_end)
    × (f.span_end ≤ location_start f.hash_location)
    × (location_start f.hash_location ≤ location_end f.hash_location)
    × Chain (location_end f.hash_location) rest high

pub Chain-bounds : (low high : ℕ) (fs : List ParsedFragment) → Chain low fs high → low ≤ high
Chain-bounds low high [] c = c
Chain-bounds low high (f ∷ fs) (a, b, c, d, rest) =
    omega (arith, Chain-bounds (location_end f.hash_location) high fs rest)

Chain-le :
    (low high top : ℕ) (fs : List ParsedFragment)
    → Chain low fs high
    → high ≤ top
    → Chain low fs top
Chain-le low high top [] c h = omega arith
Chain-le low high top (f ∷ fs) (a, b, c, d, rest) h = (a, b, c, d, Chain-le _ high top fs rest h)

Chain-snoc :
    (low middle high : ℕ) (fs : List ParsedFragment) (f : ParsedFragment)
    → Chain low fs middle
    → Chain middle (f ∷ []) high
    → Chain low (fs ++ (f ∷ [])) high
Chain-snoc low middle high [] f c (a, k₁, k₂, k₃, k₄) = (omega arith, k₁, k₂, k₃, k₄)
Chain-snoc low middle high (g ∷ fs) f (a, b, c, d, rest) k =
    (a, b, c, d, Chain-snoc _ middle high fs f rest k)

-- The loop's state at position `pos`: what an open fragment has seen lies behind the last hash.
abbrev OpenAt : List ParsedFragment → ℕ → Option OpenFragment → Type 0
OpenAt fs pos none = Chain 0 fs pos
OpenAt fs pos (some opened) = Chain 0 fs opened.source_start × (opened.source_start ≤ pos)

abbrev Ready : ℕ → Scan → Type 0
Ready pos scan = OpenAt scan.fragments pos scan.opened

-- A result that is no panic, and whose state is ready for `pos`.
abbrev Returns : ℕ → Result ParseError Scan → Type 0
Returns pos (ok scan) = Ready pos scan
Returns pos (err e) = Unit
Returns pos panic = ⊥

OpenAt-le :
    (pos top : ℕ) (fs : List ParsedFragment) (o : Option OpenFragment)
    → OpenAt fs pos o
    → pos ≤ top
    → OpenAt fs top o
OpenAt-le pos top fs none c h = Chain-le 0 pos top fs c h
OpenAt-le pos top fs (some opened) (c, k) h = (c, omega arith)

module _ (source : Text) (fs : List ParsedFragment) (line : PhysicalLine)
    (wide : line.start + length line.content ≤ line.end) (inside : line.end ≤ length source) where
  scan_close-Returns :
      (opened : OpenFragment) (path : FragmentPath) (baseline : Option BaselineHash)
      (location : HashLocation) (o : Option OpenFragment)
      → OpenAt fs line.start (some opened)
      → CloseBounds line (some (close_marker path baseline location))
      → Returns line.end (
          scan_close source
            (record { fragments = fs; opened = o })
            line
            path
            baseline
            location
            opened)
  unfolding scan_close
  scan_close-Returns opened path baseline location o (c, k) (l₁, l₂, l₃) =
      let read =
        index_range_of {E = ParseError} source opened.source_start line.start k (omega arith) in
      elim (Bool-cases (path_eq path opened.path)) [
        | inr e ↦ rw e tt
        | inl e ↦ rw e (
            rw read
              (elim (Bool-cases
                (starts_with (slice source opened.source_start line.start) byte_order_mark)) [
                  | inl b ↦ rw b tt
                  | inr b ↦ rw b (
                      Chain-snoc 0 opened.source_start line.end fs
                        (record {
                          path = opened.path;
                          baseline = baseline;
                          span_start = opened.source_start;
                          span_end = line.start;
                          hash_location = location;
                        })
                        c (omega arith))
                ]))
      ]

  scan_marker-Returns :
      (o : Option OpenFragment) (m : Option Marker)
      → OpenAt fs line.start o
      → CloseBounds line m
      → Returns line.end (scan_marker source (record { fragments = fs; opened = o }) line m)
  unfolding scan_marker scan_open
  scan_marker-Returns o none r b = OpenAt-le line.start line.end fs o r (omega arith)
  scan_marker-Returns none (some (open_marker path)) r b =
      (Chain-le 0 line.start line.end fs r (omega arith), omega arith)
  scan_marker-Returns (some opened) (some (open_marker path)) r b = tt
  scan_marker-Returns none (some (close_marker path baseline location)) r b = tt
  scan_marker-Returns (some opened) (some (close_marker path baseline location)) r b =
      scan_close-Returns opened path baseline location (some opened) r b

scan_line-Returns :
    (comment source : Text) (scan : Scan) (line : PhysicalLine)
    → line.start + length line.content ≤ line.end
    → line.end ≤ length source
    → Ready line.start scan
    → Returns line.end (scan_line comment source scan line)
unfolding scan_line
scan_line-Returns comment source scan line wide inside ready =
    after_marker (parse_marker comment line) refl
  where
    after_marker :
        (m : Result ParseError (Option Marker))
        → parse_marker comment line ≡ m
        → Returns line.end (m >>= λ marker. scan_marker source scan line marker)
    after_marker (ok m) e =
        scan_marker-Returns source scan.fragments line wide inside scan.opened m ready
          (parse_marker-CloseBounds comment line m e)
    after_marker (err e') e = tt
    after_marker panic e = parse_marker-ne-panic comment line e

scan_lines-Returns :
    (comment source : Text) (scan : Scan) (pos : ℕ) (lines : List PhysicalLine)
    → Follow (length source) pos lines
    → Ready pos scan
    → Returns (length source) (scan_lines comment source scan lines)
unfolding scan_lines
scan_lines-Returns comment source scan pos [] end ready = rw (← end) ready
scan_lines-Returns comment source scan pos (line ∷ lines) (starts, wide, inside, follow) ready =
    after_line (scan_line comment source scan line)
      (scan_line-Returns comment source scan line wide inside
        (subst (λ p. Ready p scan) (sym starts) ready))
      (λ next r. scan_lines-Returns comment source next line.end lines follow r)
  where
    after_line :
        (m : Result ParseError Scan)
        → Returns line.end m
        → ((next : Scan)
            → Ready line.end next
            → Returns (length source) (scan_lines comment source next lines))
        → Returns (length source) (m >>= λ next. scan_lines comment source next lines)
    after_line (ok next) r go = go next r
    after_line (err e) r go = tt
    after_line panic r go = r

-- A whole parse: no panic, and fragments of the given source that lie in it one behind the other.
abbrev pub IsParse : Text → Result ParseError ParsedSource → Type 0
IsParse source (ok parsed) = (parsed.source ≡ source) × Chain 0 parsed.fragments (length source)
IsParse source (err e) = Unit
IsParse source panic = ⊥

finish-IsParse :
    (source : Text) (m : Result ParseError Scan)
    → Returns (length source) m
    → IsParse source (m >>= λ scan. finish source scan scan.opened)
unfolding finish
finish-IsParse source (ok scan) r = by_opened scan.opened refl
  where
    by_opened : (o : Option OpenFragment) → scan.opened ≡ o → IsParse source (finish source scan o)
    by_opened none e = (refl, rw e at r)
    by_opened (some opened) e = tt
finish-IsParse source (err e) r = tt
finish-IsParse source panic r = r

-- Parsing never panics. The fragments that it finds lie in the source one behind the other: each
-- span before its hash location, and the next span behind that.
pub parse-IsParse : (kind : NodeKind) (source : Text) → IsParse source (parse kind source)
unfolding parse
parse-IsParse kind source =
    let (lines, run, tiles) = physical_lines-Tiles {E = ParseError} source in
    rw run (
      finish-IsParse source
        (scan_lines (marker_comment kind) source (record { fragments = []; opened = none }) lines)
        (scan_lines-Returns (marker_comment kind) source (record { fragments = []; opened = none })
          0 lines (Tiles-Follow tiles).1 (omega arith)))
