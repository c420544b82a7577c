-- ===== src/Fragment/Lines/Tiles.antt =====
-- The physical lines of a source tile it.
use native.Mathlib.Nat.{add-zero}
use mathlib.Core.Path.{subst}
use zwirn.Prelude.{
  ok, ==_iff, eq→==, ne→==, ℕ, zero, suc, ◌+◌, ◌≤◌, ◌<◌, true, false, List, [], ◌∷◌, ◌++◌,
  append-nil, append_assoc, ◌≡◌, ◌≢◌, inl, inr, refl, sym, ap, ◌∙◌, arith, none, some, ◌==◌,
  if◌then◌else◌, length, get_elem?, All, Bool-cases, length-append, drop-append,
}
use zwirn.Text.{Text, slice-append}
use zwirn.Text.Range.{index_range}
use zwirn.Text.Range.Laws.{index_range_of}
use zwirn.Fragment.Lines.{
  PhysicalLine, PhysicalLines, is_newline, content_end_from, line_end, is_line_feed, next, collect,
  physical_lines,
}

-- The bytes before the first CR or LF, and those from there on.
abbrev content_of : Text → Text
content_of [] = []
content_of (b ∷ s) = if is_newline b then [] else b ∷ content_of s

abbrev after_content : Text → Text
after_content [] = []
after_content (b ∷ s) = if is_newline b then b ∷ s else after_content s

content_of-append : (s : Text) → content_of s ++ after_content s ≡ s
content_of-append [] = refl
content_of-append (b ∷ s) = ground (arith, content_of-append s)

content_end_from-length : (s : Text) (p : ℕ) → content_end_from s p ≡ p + length (content_of s)
unfolding content_end_from
content_end_from-length [] p = sym (add-zero p)
content_end_from-length (b ∷ s) p = ground (arith, content_end_from-length s (p + 1))

-- Neither a CR nor an LF.
abbrev pub IsInLine : ℕ → Type 0
IsInLine b = (b ≢ 13) × (b ≢ 10)

is_newline-false : (b : ℕ) → is_newline b ≡ false → IsInLine b
is_newline-false b h = ((λ e. ground arith), (λ e. ground arith))

content_of-All : (s : Text) → All IsInLine (content_of s)
content_of-All [] = tt
content_of-All (b ∷ s) = elim (Bool-cases (is_newline b)) [
  | inl e ↦ rw e tt
  | inr e ↦ rw e (is_newline-false b e, content_of-All s)
]

-- A line's terminator, with the text behind it: a CR is alone only if no LF follows, and there
-- is none only at the end of the source.
pub data Terminator : Text → Text → Type 0 where
  crlf : (rest : Text) → Terminator (b'\r' ∷ b'\n' ∷ []) rest
  cr : (rest : Text) → is_line_feed (get_elem? rest 0) ≡ false → Terminator (b'\r' ∷ []) rest
  lf : (rest : Text) → Terminator (b'\n' ∷ []) rest
  eof : Terminator [] []

-- From `before` on, the source is cut into these lines, numbered from `n`: each starts where the
-- one before it ended and is its content, free of CR and LF, and a terminator.
pub data Tiles (source : Text) : Text → ℕ → List PhysicalLine → Type 0 where
  done : (n : ℕ) → Tiles source source n []
  tile :
      {before : Text} {n : ℕ} {lines : List PhysicalLine} (content terminator rest : Text)
      → source ≡ before ++ (content ++ (terminator ++ rest))
      → All IsInLine content
      → Terminator terminator rest
      → content ++ terminator ≢ []
      → Tiles source (before ++ (content ++ terminator)) (n + 1) lines
      → Tiles source before n (
          record {
            number = n;
            start = length before;
            end = length (before ++ (content ++ terminator));
            content = content;
          }
          ∷ lines)

abbrev HeadIsNewline : Text → Type 0
HeadIsNewline [] = Unit
HeadIsNewline (b ∷ s) = is_newline b ≡ true

after_content-HeadIsNewline : (s : Text) → HeadIsNewline (after_content s)
after_content-HeadIsNewline [] = tt
after_content-HeadIsNewline (b ∷ s) = elim (Bool-cases (is_newline b)) [
  | inl e ↦ rw e e
  | inr e ↦ rw e (after_content-HeadIsNewline s)
]

-- Text that starts with a newline, or is empty, splits at its first terminator.
abbrev Split : Text → Type 0
Split s =
    (terminator : Text) × (rest : Text) × (s ≡ terminator ++ rest) × Terminator terminator rest

cr-Split : (s : Text) → Split (b'\r' ∷ s)
cr-Split [] = (b'\r' ∷ [], [], refl, cr [] refl)
cr-Split (c ∷ s) = elim (Bool-cases (c == b'\n')) [
  | inl e ↦ (b'\r' ∷ b'\n' ∷ [], s, rw ((==_iff c b'\n').0 e), crlf s)
  | inr e ↦ (b'\r' ∷ [], c ∷ s, refl, cr (c ∷ s) e)
]

terminator-Split : (s : Text) → HeadIsNewline s → Split s
terminator-Split [] h = ([], [], refl, eof)
terminator-Split (b ∷ s) h = elim (Bool-cases (b == b'\r')) [
  | inl e ↦ subst (λ (c : ℕ). Split (c ∷ s)) (sym ((==_iff b b'\r').0 e)) (cr-Split s)
  | inr e ↦
      let f : b ≡ b'\n' = ground arith in
      subst (λ (c : ℕ). Split (c ∷ s)) (sym f) (b'\n' ∷ [], s, refl, lf s)
]

get_elem?-append_here : (p s : Text) → get_elem? (p ++ s) (length p) ≡ get_elem? s 0
get_elem?-append_here [] s = refl
get_elem?-append_here (a ∷ p) s = get_elem?-append_here p s

get_elem?-append_next :
    (p s : Text) (b : ℕ) → get_elem? (p ++ (b ∷ s)) (length p + 1) ≡ get_elem? s 0
get_elem?-append_next [] s b = refl
get_elem?-append_next (a ∷ p) s b =
    let e : suc (length p) + 1 ≡ suc (length p + 1) = omega arith in
    rw e (get_elem?-append_next p s b)

line_end-Terminator :
    (p : Text) {t rest : Text}
    → Terminator t rest
    → line_end (p ++ (t ++ rest)) (length p) ≡ length p + length t
unfolding line_end
line_end-Terminator p (crlf rest) = ground (
  arith,
  get_elem?-append_here p (b'\r' ∷ b'\n' ∷ rest),
  get_elem?-append_next p (b'\n' ∷ rest) b'\r',
)
line_end-Terminator p (cr rest h) =
    ground (arith, get_elem?-append_here p (b'\r' ∷ rest), get_elem?-append_next p rest b'\r')
line_end-Terminator p (lf rest) = ground (arith, get_elem?-append_here p (b'\n' ∷ rest))
line_end-Terminator p eof = ground (arith, get_elem?-append_here p [])

nil_of_length : (s : Text) → length s ≡ 0 → s ≡ []
nil_of_length [] h = refl
nil_of_length (b ∷ s) h = absurd (omega arith)

module _ (before content terminator rest : Text) (n : ℕ) (end : Terminator terminator rest) where
  abbrev whole : Text
  whole = before ++ (content ++ (terminator ++ rest))

  line_end-whole :
      line_end whole (length before + length content) ≡ length (before ++ (content ++ terminator))
  line_end-whole =
      let lengths : length before + length content ≡ length (before ++ content) =
        sym (length-append before content) in
      let total : length (before ++ content) + length terminator
          ≡ length (before ++ (content ++ terminator)) =
        omega (
          arith,
          length-append before content,
          length-append content terminator,
          length-append before (content ++ terminator),
        ) in
      let regroup = append_assoc before content (terminator ++ rest) in
      rw (lengths, ← regroup) (line_end-Terminator (before ++ content) end ∙ total)

  shorter : content ++ terminator ≢ [] → ¬ (length before ≡ length whole)
  shorter full same = full (
      nil_of_length (content ++ terminator) (
        omega (
          arith,
          length-append before (content ++ (terminator ++ rest)),
          length-append content (terminator ++ rest),
          length-append terminator rest,
          length-append content terminator,
        )))

  -- `next` at the start of a line that is laid out so.
  next-tile {ℓ} :
      {E : Type ℓ}
      → content_of (content ++ (terminator ++ rest)) ≡ content
      → content ++ terminator ≢ []
      → next {E = E} (record { source = whole; next = length before; number = n })
        ≡ ok (
            some (
              record {
                number = n;
                start = length before;
                end = length (before ++ (content ++ terminator));
                content = content;
              },
              record {
                source = whole;
                next = length (before ++ (content ++ terminator));
                number = n + 1;
              },
            ))
  unfolding next
  next-tile {E = E} clean full =
      let at_start = drop-append before (content ++ (terminator ++ rest)) in
      let stop : content_end_from (content ++ (terminator ++ rest)) (length before)
          ≡ length before + length content =
        rw clean at (content_end_from-length (content ++ (terminator ++ rest)) (length before)) in
      let inside : length before + length content ≤ length whole = omega (
        arith,
        length-append before (content ++ (terminator ++ rest)),
        length-append content (terminator ++ rest),
      ) in
      let read : index_range {E = E} whole (length before) (length before + length content)
          ≡ ok content =
        index_range_of whole (length before) (length before + length content) (omega arith) inside
        ∙ ap ok (
            slice-append before content (terminator ++ rest) (length before)
              (length before + length content) refl refl) in
      let more : (length before == length whole) ≡ false = ne→== _ _ (shorter full) in
      rw (at_start, stop, read, line_end-whole, more)

next-tile_at {ℓ} :
    {E : Type ℓ} (source before content terminator rest : Text) (n : ℕ)
    → source ≡ before ++ (content ++ (terminator ++ rest))
    → Terminator terminator rest
    → content_of (content ++ (terminator ++ rest)) ≡ content
    → content ++ terminator ≢ []
    → next {E = E} (record { source = source; next = length before; number = n })
      ≡ ok (
          some (
            record {
              number = n;
              start = length before;
              end = length (before ++ (content ++ terminator));
              content = content;
            },
            record {
              source = source;
              next = length (before ++ (content ++ terminator));
              number = n + 1;
            },
          ))
next-tile_at source before content terminator rest n e end clean full =
    rw e (next-tile before content terminator rest n end clean full)

rest_shorter :
    (content t rest text : Text) (fuel : ℕ)
    → content ++ (t ++ rest) ≡ text
    → content ++ t ≢ []
    → length text < suc fuel
    → length rest < fuel
rest_shorter content t rest text fuel parts full h =
    let e = append_assoc content t rest ∙ parts in
    let some_byte : ¬ (length (content ++ t) ≡ 0) = λ z. full (nil_of_length (content ++ t) z) in
    omega (arith, ap length e, length-append (content ++ t) rest)

-- A line takes a byte: of text that is not empty.
tile-ne-nil :
    (content : Text) {terminator rest : Text}
    → Terminator terminator rest
    → content ++ (terminator ++ rest) ≢ []
    → content ++ terminator ≢ []
tile-ne-nil content eof h = h
tile-ne-nil [] (crlf rest) h = λ q. cc
tile-ne-nil [] (cr rest e) h = λ q. cc
tile-ne-nil [] (lf rest) h = λ q. cc
tile-ne-nil (b ∷ content) t h = λ q. cc

next-done {ℓ} :
    {E : Type ℓ} (source : Text) (n : ℕ)
    → next {E = E} (record { source = source; next = length source; number = n }) ≡ ok none
unfolding next
next-done source n = rw (eq→== (length source) (length source) refl)

collect-cons {ℓ} :
    {E : Type ℓ} (fuel : ℕ) (lines : PhysicalLines) (line : PhysicalLine) (after : PhysicalLines)
    (others : List PhysicalLine)
    → next {E = E} lines ≡ ok (some (line, after))
    → collect {E = E} fuel after ≡ ok others
    → collect {E = E} (suc fuel) lines ≡ ok (line ∷ others)
unfolding collect
collect-cons fuel lines line after others e f = rw (e, collect) (rw f refl)

collect-nil {ℓ} :
    {E : Type ℓ} (fuel : ℕ) (lines : PhysicalLines)
    → next {E = E} lines ≡ ok none
    → collect {E = E} fuel lines ≡ ok []
unfolding collect
collect-nil zero lines e = refl
collect-nil (suc fuel) lines e = rw (e, collect)

-- The run from `before` on ends without a panic, in lines that tile what is left.
abbrev CutFrom {ℓ} : Type ℓ → ℕ → Text → Text → ℕ → Type ℓ
CutFrom E fuel source before n =
    (lines : List PhysicalLine) × (collect {E = E} fuel
        (record { source = source; next = length before; number = n })
      ≡ ok lines)
    × Tiles source before n lines

collect-Tiles {ℓ} :
    {E : Type ℓ} (fuel : ℕ) (source before s : Text) (n : ℕ)
    → length s < fuel
    → source ≡ before ++ s
    → CutFrom E fuel source before n
collect-Tiles zero source before s n h e = elim h [ ]
collect-Tiles {E = E} (suc fuel) source before [] n h e =
    let same : source ≡ before = e ∙ append-nil before in
    subst (λ b. CutFrom E (suc fuel) source b n) same
      ([], collect-nil (suc fuel) _ (next-done source n), done n)
collect-Tiles {E = E} (suc fuel) source before (b ∷ s) n h e =
    let text = b ∷ s in
    let content = content_of text in
    let (t, rest, split, end) =
      terminator-Split (after_content text) (after_content-HeadIsNewline text) in
    let parts : content ++ (t ++ rest) ≡ text =
      ap (◌++◌ content) (sym split) ∙ content_of-append text in
    let full = tile-ne-nil content end (λ q. cc (sym parts ∙ q)) in
    let clean : content_of (content ++ (t ++ rest)) ≡ content = ap content_of parts in
    let laid : source ≡ before ++ (content ++ (t ++ rest)) = e ∙ ap (◌++◌ before) (sym parts) in
    let follows : source ≡ (before ++ (content ++ t)) ++ rest = laid ∙ simp append_assoc in
    let first = next-tile_at {E = E} source before content t rest n laid end clean full in
    let less = rest_shorter content t rest text fuel parts full h in
    let (others, run, tiles) =
      collect-Tiles {E = E} fuel source (before ++ (content ++ t)) rest (n + 1) less follows in
    (
      _,
      collect-cons fuel _ _ _ others first run,
      tile content t rest laid (content_of-All text) end full tiles,
    )

pub physical_lines-Tiles {ℓ} :
    {E : Type ℓ} (source : Text)
    → (lines : List PhysicalLine) × (physical_lines {E = E} source ≡ ok lines)
      × Tiles source [] 1 lines
unfolding physical_lines
physical_lines-Tiles source =
    collect-Tiles (suc (length source)) source [] source 1 (omega arith) refl
