-- ===== src/Fragment/Marker/Bounds.antt =====
-- Where the positions of a parsed marker lie.
use zwirn.Prelude.{
  ℕ, ◌+◌, ◌≤◌, Bool, true, false, ◌||◌, [], ◌∷◌, ◌≡◌, arith, Option, none, some, ◌==◌, length, drop,
  length-drop, ok, >>=-elim, ap, not, map_err, Bool-cases, inl, inr,
}
use zwirn.Text.{Text, starts_with}
use zwirn.Text.Slice.{length-slice}
use zwirn.Text.Range.{index_range}
use zwirn.Text.Range.Laws.{index_range-bounds}
use zwirn.Fragment.Path.{FragmentPath}
use zwirn.Fragment.Path
use zwirn.Fragment.Hash
use zwirn.Fragment.Lines.{PhysicalLine}
use zwirn.Fragment.Marker.{
  ParseError, HashLocation, present, missing, Marker, open_marker, close_marker, invalid_hash,
  invalid_path, skip_from, token_from, skip_horizontal, token_end, parse_hash, parse_after_path,
  parse_path, parse_token, parse_marker,
}

skip_from_bounds : (s : Text) (p : ℕ) → (p ≤ skip_from s p) × (skip_from s p ≤ p + length s)
unfolding skip_from
skip_from_bounds [] p = omega arith
skip_from_bounds (b ∷ s) p = ground (arith, skip_from_bounds s (p + 1))

token_from_bounds : (s : Text) (p : ℕ) → (p ≤ token_from s p) × (token_from s p ≤ p + length s)
unfolding token_from
token_from_bounds [] p = omega arith
token_from_bounds (b ∷ s) p = ground (arith, token_from_bounds s (p + 1))

pub skip_horizontal_bounds :
    (s : Text) (p : ℕ) → p ≤ length s → (p ≤ skip_horizontal s p) × (skip_horizontal s p ≤ length s)
unfolding skip_horizontal
skip_horizontal_bounds s p h = omega (arith, skip_from_bounds (drop p s) p, length-drop p s)

pub token_end_bounds :
    (s : Text) (p : ℕ) → p ≤ length s → (p ≤ token_end s p) × (token_end s p ≤ length s)
unfolding token_end
token_end_bounds s p h = omega (arith, token_from_bounds (drop p s) p, length-drop p s)

abbrev pub location_start : HashLocation → ℕ
location_start (present from to) = from
location_start (missing insertion) = insertion

abbrev pub location_end : HashLocation → ℕ
location_end (present from to) = to
location_end (missing insertion) = insertion

-- The location in a closing marker is a range of its line's content.
abbrev pub CloseBounds : PhysicalLine → Option Marker → Type 0
CloseBounds line none = Unit
CloseBounds line (some (open_marker path)) = Unit
CloseBounds line (some (close_marker path baseline location)) =
    (line.start ≤ location_start location)
    × (location_start location ≤ location_end location)
    × (location_end location ≤ line.start + length line.content)

parse_hash-CloseBounds :
    (line : PhysicalLine) (path : FragmentPath) (hash_start : ℕ) (m : Option Marker)
    → hash_start ≤ length line.content
    → parse_hash line path hash_start ≡ ok m
    → CloseBounds line m
unfolding parse_hash
parse_hash-CloseBounds line path p none h e = tt
parse_hash-CloseBounds line path p (some (open_marker q)) h e = tt
parse_hash-CloseBounds line path p (some (close_marker q b l)) h e =
    let hash_end = token_end line.content p in
    >>=-elim (index_range line.content p hash_end) _ e λ text t e₁.
      >>=-elim (map_err (invalid_hash line.number) (Hash.from_str text)) _ e₁
        λ baseline b₁ r. ground (arith, token_end_bounds line.content p h)

parse_after_path-CloseBounds :
    (line : PhysicalLine) (opening : Bool) (path : FragmentPath) (path_end : ℕ) (m : Option Marker)
    → path_end ≤ length line.content
    → parse_after_path line opening path path_end ≡ ok m
    → CloseBounds line m
unfolding parse_after_path
parse_after_path-CloseBounds line opening path p none h e = tt
parse_after_path-CloseBounds line opening path p (some (open_marker q)) h e = tt
parse_after_path-CloseBounds line opening path p (some (close_marker q b l)) h e = ground (
  arith,
  skip_horizontal_bounds line.content p h,
  parse_hash-CloseBounds line path (skip_horizontal line.content p) (some (close_marker q b l)),
)

parse_path-CloseBounds :
    (line : PhysicalLine) (opening : Bool) (separator : ℕ) (m : Option Marker)
    → separator ≤ length line.content
    → parse_path line opening separator ≡ ok m
    → CloseBounds line m
unfolding parse_path
parse_path-CloseBounds line opening p m h e =
    let path_start = skip_horizontal line.content p in
    let path_end = token_end line.content path_start in
    let b₁ = skip_horizontal_bounds line.content p h in
    let b₂ = token_end_bounds line.content path_start b₁.1 in
    elim (Bool-cases (path_start == p || path_start == length line.content)) [
      | inl c ↦ absurd (cc (rw c at e))
      | inr c ↦ >>=-elim (index_range line.content path_start path_end) _ (rw c at e) λ text t e₁.
          >>=-elim (map_err (invalid_path line.number) (Path.try_from text)) _ e₁
            λ path q r. parse_after_path-CloseBounds line opening path path_end m b₂.1 r
    ]

parse_token-CloseBounds :
    (line : PhysicalLine) (token : Text) (position : ℕ) (m : Option Marker)
    → position ≤ length line.content
    → parse_token line token position ≡ ok m
    → CloseBounds line m
unfolding parse_token
parse_token-CloseBounds line token p none h e = tt
parse_token-CloseBounds line token p (some m) h e = ground (
  arith,
  parse_path-CloseBounds line true p (some m),
  parse_path-CloseBounds line false p (some m),
)

starts_with-length : (s p : Text) → starts_with s p ≡ true → length p ≤ length s
unfolding starts_with
starts_with-length s [] h = omega arith
starts_with-length [] (b ∷ p) h = absurd (cc)
starts_with-length (a ∷ s) (b ∷ p) h = ground (arith, starts_with-length s p)

-- Behind the comment of a line the positions are still positions of the line.
pub separator_bounds :
    (bytes behind comment : Text) (indent : ℕ)
    → index_range {E = ParseError} bytes indent (length bytes) ≡ ok behind
    → starts_with behind comment ≡ true
    → indent + length comment ≤ length bytes
separator_bounds bytes behind comment indent t h =
    let (l, k, e) = index_range-bounds bytes behind indent (length bytes) t in
    omega (
      arith,
      starts_with-length behind comment h,
      ap length e,
      length-slice bytes indent (length bytes) l k,
    )

-- Wherever a marker is found on a line, its hash location is a range of that line's content.
pub parse_marker-CloseBounds :
    (comment : Text) (line : PhysicalLine) (m : Option Marker)
    → parse_marker comment line ≡ ok m
    → CloseBounds line m
unfolding parse_marker
parse_marker-CloseBounds comment line none e = tt
parse_marker-CloseBounds comment line (some m) e =
    let bytes = line.content in
    let indent = skip_horizontal bytes 0 in
    let separator = indent + length comment in
    let marker_start = skip_horizontal bytes separator in
    let marker_end = token_end bytes marker_start in
    >>=-elim (index_range bytes indent (length bytes)) _ e λ behind t e₁.
      elim (Bool-cases (not (starts_with behind comment) || marker_start == separator)) [
        | inl c ↦ absurd (cc (rw c at e₁))
        | inr c ↦
            let inside = separator_bounds bytes behind comment indent t (ground arith) in
            let b₁ = skip_horizontal_bounds bytes separator inside in
            let b₂ = token_end_bounds bytes marker_start b₁.1 in
            >>=-elim (index_range bytes marker_start marker_end) _ (rw c at e₁)
              λ token q r. parse_token-CloseBounds line token marker_end (some m) b₂.1 r
      ]
