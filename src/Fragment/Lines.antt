-- ===== src/Fragment/Lines.antt =====
-- src/fragment.rs: `PhysicalLine` and the iterator `PhysicalLines`.
pub mod Tiles
use zwirn.Prelude.{
  ℕ, zero, suc, ◌+◌, ◌-◌, Bool, true, false, ◌||◌, List, [], ◌∷◌, Option, none, some, ◌==◌,
  if◌then◌else◌, length, get_elem?, drop, Result, ok, ◌>>=◌,
}
use zwirn.Text.{Text}
use zwirn.Text.Range.{index_range}

pub record PhysicalLine : Type 0 where
  pub number : ℕ
  pub start : ℕ
  pub end : ℕ
  pub content : Text

pub record PhysicalLines : Type 0 where
  pub source : Text
  pub next : ℕ
  pub number : ℕ

-- `PhysicalLines::new`.
abbrev pub new : Text → PhysicalLines
new source = record { source = source; next = 0; number = 1 }

abbrev pub is_newline : ℕ → Bool
is_newline b = b == b'\r' || b == b'\n'

-- The `while` over `content_end`, on the bytes from there on.
content_end_from : Text → ℕ → ℕ
content_end_from [] content_end = content_end
content_end_from (b ∷ bytes) content_end =
    if is_newline b then content_end else content_end_from bytes (content_end + 1)

abbrev is_line_feed : Option ℕ → Bool
is_line_feed none = false
is_line_feed (some b) = b == b'\n'

-- The `match` on `bytes.get(content_end)`.
line_end : Text → ℕ → ℕ
line_end bytes content_end = elim (get_elem? bytes content_end) [
  | none ↦ content_end
  | some b ↦
      if b == b'\r'
      then (if is_line_feed (get_elem? bytes (content_end + 1))
          then content_end + 2
          else content_end + 1)
      else if b == b'\n'
      then content_end + 1
      else content_end
]

-- `Iterator::next`, with the iterator behind it.
next {ℓ} : {E : Type ℓ} → PhysicalLines → Result E (Option (PhysicalLine × PhysicalLines))
next lines =
    let start = lines.next in
    let content_end = content_end_from (drop start lines.source) start in
    let end = line_end lines.source content_end in
    if lines.next == length lines.source then ok none else do
      content ← index_range lines.source start content_end
      ok (
          some (
            record { number = lines.number; start = start; end = end; content = content },
            record lines { next = end; number = lines.number + 1 },
          ))

-- The lines that a `for` loop sees, on fuel. A panic of `next` is one of the whole loop.
collect {ℓ} : {E : Type ℓ} → ℕ → PhysicalLines → Result E (List PhysicalLine)
collect zero lines = ok []
collect (suc fuel) lines = do
  item ← next lines
  elim item [ none ↦ ok [] | some (line, rest) ↦ do others ← collect fuel rest; ok (line ∷ others) ]

-- Each line takes at least one byte, so the fuel is enough.
unfoldable pub physical_lines {ℓ} : {E : Type ℓ} → Text → Result E (List PhysicalLine)
unfolding collect next content_end_from line_end
physical_lines source = collect (suc (length source)) (new source)
