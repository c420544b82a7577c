-- ===== src/Text.antt =====
-- Rust strings and byte slices as lists of bytes, with what the program uses of `str`: comparison,
-- `starts_with`, `ends_with`, `contains`, `split` at one ASCII byte and `char::is_whitespace`.
-- A string is its UTF-8 encoding. Every byte the program searches for is ASCII, and the two
-- multi-byte searches (white space, the byte-order mark) look for whole encodings.
pub mod Split
pub mod Search
pub mod Order
pub mod Slice
pub mod Range
pub mod Utf8
pub mod Cow
use Prim.Native.Char.{code}
use Prim.Native.String.{String}
use zwirn.Prelude.{
  ℕ, Bool, true, false, ◌&&◌, ◌||◌, List, [], ◌∷◌, ◌++◌, ◌≡◌, ◌↔◌, refl, arith, leb, ◌==◌,
  if◌then◌else◌, ◌+◌, ◌-◌, length, take, drop, drop-append, take-append,
}

abbrev pub Text : Type 0
Text = List ℕ

-- The bytes of an ASCII literal.
abbrev pub ascii : String → Text
ascii String.[] = []
ascii (String.◌∷◌ c s) = code c ∷ ascii s

unfoldable pub text_eq : Text → Text → Bool
text_eq [] [] = true
text_eq (a ∷ s) (b ∷ t) = a == b && text_eq s t
text_eq _ _ = false

pub text_eq_iff : (s t : Text) → (text_eq s t ≡ true) ↔ (s ≡ t)
unfolding text_eq
text_eq_iff (a ∷ s) (b ∷ t) = ground (arith, text_eq_iff s t)
text_eq_iff _ _ = ground arith

pub text_eq_refl : (s : Text) → text_eq s s ≡ true
text_eq_refl s = (text_eq_iff s s).1 refl

abbrev pub is_empty : Text → Bool
is_empty [] = true
is_empty (b ∷ s) = false

-- `value.starts_with(prefix)`.
unfoldable pub starts_with : Text → Text → Bool
starts_with s [] = true
starts_with [] (p ∷ ps) = false
starts_with (b ∷ s) (p ∷ ps) = b == p && starts_with s ps

-- `value.ends_with(byte)`.
unfoldable pub ends_with : Text → ℕ → Bool
ends_with [] c = false
ends_with (b ∷ []) c = b == c
ends_with (b ∷ d ∷ s) c = ends_with (d ∷ s) c

unfoldable pub contains : Text → ℕ → Bool
contains [] c = false
contains (b ∷ s) c = b == c || contains s c

-- `&s[from..to]`, where `from <= to` and `to` is at most the length.
abbrev pub slice : Text → ℕ → ℕ → Text
slice s from to = take (to - from) (drop from s)

pub slice-append :
    (a b c : Text) (from to : ℕ)
    → from ≡ length a
    → to ≡ length a + length b
    → slice (a ++ (b ++ c)) from to ≡ b
slice-append a b c from to h k =
    let e : to - from ≡ length b = omega arith in
    rw (e, h) (rw (drop-append a (b ++ c)) (take-append b c))

-- U+FEFF.
abbrev pub byte_order_mark : Text
byte_order_mark = 0xef ∷ 0xbb ∷ 0xbf ∷ []

-- The encodings of the three-byte characters with the property White_Space.
is_whitespace_triple : ℕ → ℕ → ℕ → Bool
is_whitespace_triple b c d =
    (b == 0xe1 && c == 0x9a && d == 0x80)
    || (b == 0xe2 && c == 0x80 && (leb 0x80 d && leb d 0x8a || d == 0xa8 || d == 0xa9 || d == 0xaf))
    || (b == 0xe2 && c == 0x81 && d == 0x9f)
    || (b == 0xe3 && c == 0x80 && d == 0x80)

is_whitespace_pair : ℕ → ℕ → Bool
is_whitespace_pair b c = b == 0xc2 && (c == 0x85 || c == 0xa0)

is_whitespace_byte : ℕ → Bool
is_whitespace_byte b = leb 9 b && leb b 13 || b == b' '

-- The text begins with a character of the property White_Space.
starts_with_whitespace : Text → Bool
starts_with_whitespace [] = false
starts_with_whitespace (b ∷ []) = is_whitespace_byte b
starts_with_whitespace (b ∷ c ∷ []) = is_whitespace_byte b || is_whitespace_pair b c
starts_with_whitespace (b ∷ c ∷ d ∷ s) =
    is_whitespace_byte b || is_whitespace_pair b c || is_whitespace_triple b c d

-- `value.chars().any(char::is_whitespace)`.
unfoldable pub has_whitespace : Text → Bool
unfolding starts_with_whitespace is_whitespace_byte is_whitespace_pair is_whitespace_triple
has_whitespace [] = false
has_whitespace (b ∷ s) = starts_with_whitespace (b ∷ s) || has_whitespace s
