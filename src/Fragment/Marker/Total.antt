-- ===== src/Fragment/Marker/Total.antt =====
-- No line makes `parse_marker` panic.
use zwirn.Prelude.{
  ℕ, ◌≤◌, ok-ne-panic, none, inl, inr, Bool-cases, >>=-ne-panic_of, ◌+◌, Bool, true, false, not,
  ◌||◌, ◌≢◌, arith, ◌==◌, if◌then◌else◌, length, Result, panic, >>=-ne-panic, map_err-ne-panic,
}
use zwirn.Text.{Text, starts_with}
use zwirn.Text.Range.Laws.{index_range-ne-panic}
use zwirn.Fragment.Marker.Bounds.{separator_bounds, skip_horizontal_bounds, token_end_bounds}
use zwirn.Fragment.Path.{FragmentPath}
use zwirn.Fragment.Path
use zwirn.Fragment.Path.Valid.{try_from-ne-panic}
use zwirn.Fragment.Hash
use zwirn.Fragment.Hash.Errors.{from_str-ne-panic}
use zwirn.Fragment.Lines.{PhysicalLine}
use zwirn.Fragment.Marker.{
  ParseError, invalid_hash, invalid_path, skip_horizontal, token_end, parse_hash, parse_after_path,
  parse_path, parse_token, parse_marker,
}

-- A test with two branches that cannot panic.
if-ne-panic {ℓ} :
    {A : Type ℓ} (b : Bool) (x y : Result ParseError A)
    → x ≢ panic
    → y ≢ panic
    → (if b then x else y) ≢ panic
if-ne-panic true x y h k = h
if-ne-panic false x y h k = k

parse_hash-ne-panic :
    (line : PhysicalLine) (path : FragmentPath) (p : ℕ)
    → p ≤ length line.content
    → parse_hash line path p ≢ panic
unfolding parse_hash
parse_hash-ne-panic line path p h =
    let bytes = line.content in
    let (l, k) = token_end_bounds bytes p h in
    >>=-ne-panic _ _ (index_range-ne-panic bytes p (token_end bytes p) l k) λ text.
      >>=-ne-panic _ _
        (map_err-ne-panic (invalid_hash line.number) (Hash.from_str text) (from_str-ne-panic text))
        λ baseline.
          if-ne-panic (not (skip_horizontal bytes (token_end bytes p) == length bytes)) _ _
            (λ q. cc) (λ q. cc)

parse_after_path-ne-panic :
    (line : PhysicalLine) (opening : Bool) (path : FragmentPath) (p : ℕ)
    → p ≤ length line.content
    → parse_after_path line opening path p ≢ panic
unfolding parse_after_path
parse_after_path-ne-panic line opening path p h =
    let rest =
      parse_hash-ne-panic line path (skip_horizontal line.content p)
        (skip_horizontal_bounds line.content p h).1 in
    ground (arith, rest)

parse_path-ne-panic :
    (line : PhysicalLine) (opening : Bool) (p : ℕ)
    → p ≤ length line.content
    → parse_path line opening p ≢ panic
unfolding parse_path
parse_path-ne-panic line opening p h =
    let bytes = line.content in
    let start = skip_horizontal bytes p in
    let end = token_end bytes start in
    let (l, k) = token_end_bounds bytes start (skip_horizontal_bounds bytes p h).1 in
    if-ne-panic (start == p || start == length bytes) _ _ (λ q. cc)
      (>>=-ne-panic _ _ (index_range-ne-panic bytes start end l k) λ text.
        >>=-ne-panic _ _
          (map_err-ne-panic (invalid_path line.number) (Path.try_from text)
            (try_from-ne-panic text))
          λ path. parse_after_path-ne-panic line opening path end k)

parse_token-ne-panic :
    (line : PhysicalLine) (token : Text) (p : ℕ)
    → p ≤ length line.content
    → parse_token line token p ≢ panic
unfolding parse_token
parse_token-ne-panic line token p h =
    ground (arith, parse_path-ne-panic line true p h, parse_path-ne-panic line false p h)

pub parse_marker-ne-panic :
    (comment : Text) (line : PhysicalLine) → parse_marker comment line ≢ panic
unfolding parse_marker
parse_marker-ne-panic comment line =
    let bytes = line.content in
    let indent = skip_horizontal bytes 0 in
    let separator = indent + length comment in
    let marker_start = skip_horizontal bytes separator in
    let marker_end = token_end bytes marker_start in
    let whole = (skip_horizontal_bounds bytes 0 (omega arith)).1 in
    >>=-ne-panic_of _ _ (index_range-ne-panic bytes indent (length bytes) whole (omega arith))
      λ behind t.
        elim (Bool-cases (not (starts_with behind comment) || marker_start == separator)) [
          | inl c ↦ rw c (ok-ne-panic none)
          | inr c ↦
              let inside = separator_bounds bytes behind comment indent t (ground arith) in
              let (l, k) =
                token_end_bounds bytes marker_start
                  (skip_horizontal_bounds bytes separator inside).1 in
              rw c (
                >>=-ne-panic _ _ (index_range-ne-panic bytes marker_start marker_end l k)
                  λ token. parse_token-ne-panic line token marker_end k)
        ]
