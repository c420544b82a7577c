-- ===== src/Text/Utf8.antt =====
-- `str::from_utf8` of the standard library: whether bytes are the encoding of a string.
use zwirn.Prelude.{
  ℕ, zero, suc, Bool, true, false, ◌&&◌, [], ◌∷◌, Option, none, some, if◌then◌else◌, leb, ◌==◌,
}
use zwirn.Text.{Text}

-- What follows a first byte: how many bytes, and the range of the next one.
record Tail : Type 0 where
  count : ℕ
  low : ℕ
  high : ℕ

tail_of : ℕ → ℕ → ℕ → Option Tail
tail_of count low high = some (record { count = count; low = low; high = high })

first_byte : ℕ → Option Tail
unfolding tail_of
first_byte b =
    if leb b 0x7f
    then tail_of 0 0 0
    else if leb 0xc2 b && leb b 0xdf
    then tail_of 1 0x80 0xbf
    else if b == 0xe0
    then tail_of 2 0xa0 0xbf
    else if b == 0xed
    then tail_of 2 0x80 0x9f
    else if leb 0xe1 b && leb b 0xef
    then tail_of 2 0x80 0xbf
    else if b == 0xf0
    then tail_of 3 0x90 0xbf
    else if leb 0xf1 b && leb b 0xf3
    then tail_of 3 0x80 0xbf
    else if b == 0xf4
    then tail_of 3 0x80 0x8f
    else none

is_utf8_from : ℕ → ℕ → ℕ → Text → Bool
unfolding first_byte
is_utf8_from zero low high [] = true
is_utf8_from (suc n) low high [] = false
is_utf8_from zero low high (b ∷ s) = elim (first_byte b) [
  | none ↦ false
  | some tail ↦ is_utf8_from tail.count tail.low tail.high s
]
is_utf8_from (suc n) low high (b ∷ s) = elim (leb low b && leb b high) [
  | true ↦ is_utf8_from n 0x80 0xbf s
  | false ↦ false
]

unfoldable pub is_utf8 : Text → Bool
unfolding is_utf8_from
is_utf8 bytes = is_utf8_from 0 0 0 bytes
