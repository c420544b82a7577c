-- ===== src/Fragment/Hash.antt =====
-- src/fragment.rs: `BaselineHash`. The SHA-256 of the crate `sha2` is a parameter.
pub mod RoundTrip
pub mod Errors
use Prim.Native.Nat.{bit_or}
use zwirn.Prelude.{
  ℕ, ◌+◌, ◌-◌, ◌*◌, ◌/◌, ◌%◌, ◌≡◌, Bool, true, false, not, ◌&&◌, List, [], ◌∷◌, ◌++◌, Option, none,
  some, arith, leb, ltb, ◌==◌, if◌then◌else◌, length, take, Result, ok, err, ◌>>=◌, ◌>>◌, require,
}
use zwirn.Text.{Text, text_eq}

pub record BaselineHash : Type 0 where
  pub bytes : List ℕ

abbrev pub hash_eq : BaselineHash → BaselineHash → Bool
hash_eq a b = text_eq a.bytes b.bytes

-- `from_source`, on the bytes of the canonical source.
abbrev pub from_source : (Text → List ℕ) → Text → BaselineHash
from_source digest source = record { bytes = take 8 (digest source) }

-- One digit of `{byte:02x}`.
hex_digit : ℕ → ℕ
hex_digit n = if ltb n 10 then b'0' + n else b'a' + (n - 10)

display_bytes : List ℕ → Text
display_bytes [] = []
display_bytes (byte ∷ rest) = hex_digit (byte / 16) ∷ hex_digit (byte % 16) ∷ display_bytes rest

-- `fmt::Display`.
unfoldable pub display : BaselineHash → Text
unfolding display_bytes hex_digit
display hash = display_bytes hash.bytes

pub data BaselineHashError : Type 0 where
  invalid_length : ℕ → BaselineHashError
  invalid_character : ℕ → BaselineHashError

unfoldable pub lowercase_hex_value : ℕ → Option ℕ
lowercase_hex_value byte =
    if leb b'0' byte && leb byte b'9'
    then some (byte - b'0')
    else if leb b'a' byte && leb byte b'f'
    then some (byte - b'a' + 10)
    else none

-- `.ok_or(error)?`.
abbrev hex_or : Option ℕ → ℕ → Result BaselineHashError ℕ
hex_or none index = err (invalid_character index)
hex_or (some v) index = ok v

-- The loop over `chunks_exact(2)`; an odd byte at the end is no chunk. `high << 4` is a `u8`.
parse_pairs : ℕ → Text → Result BaselineHashError (List ℕ)
parse_pairs index [] = ok []
parse_pairs index (a ∷ []) = ok []
parse_pairs index (a ∷ b ∷ rest) = do
  high ← hex_or (lowercase_hex_value a) (index * 2)
  low ← hex_or (lowercase_hex_value b) (index * 2 + 1)
  bytes ← parse_pairs (index + 1) rest
  ok (bit_or (high * 16 % 256) low ∷ bytes)

-- `from_str`, which `try_from` calls.
unfoldable pub from_str : Text → Result BaselineHashError BaselineHash
unfolding parse_pairs lowercase_hex_value
from_str value = do
  require (length value == 16) (invalid_length (length value))
  bytes ← parse_pairs 0 value
  ok (record { bytes = bytes })
