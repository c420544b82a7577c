-- ===== src/Fragment/Hash/RoundTrip.antt =====
-- Printing and parsing a baseline hash are inverse to one another.
use Prim.Native.Nat.{bit_or}
use zwirn.Prelude.{
  if◌then◌else◌, ℕ, zero, suc, ◌+◌, ◌-◌, ◌*◌, ◌/◌, ◌%◌, ◌<◌, ◌≡◌, refl, List, [], ◌∷◌, Option, none,
  some, arith, ◌==◌, length, Result, ok, >>=-eq-ok, require, All,
}
use zwirn.Text.{Text}
use zwirn.Fragment.Hash.{
  BaselineHash, BaselineHashError, invalid_length, hex_digit, display_bytes, display,
  lowercase_hex_value, hex_or, parse_pairs, from_str,
}

pack : ℕ → ℕ
pack byte = bit_or (byte / 16 * 16 % 256) (byte % 16)

-- How many numbers below `limit` differ from their packed nibbles.
misses : ℕ → ℕ
unfolding pack
misses zero = 0
misses (suc limit) = if pack limit == limit then misses limit else suc (misses limit)

misses-zero : (limit byte : ℕ) → misses limit ≡ 0 → byte < limit → pack byte ≡ byte
unfolding misses
misses-zero zero byte none_missed below = absurd (omega arith)
misses-zero (suc limit) byte none_missed below = ground (arith, misses-zero limit byte)

misses-256 : misses 256 ≡ 0
unfolding misses
misses-256 = refl

-- The two nibbles of a byte, put together again.
pack_nibbles : (x : ℕ) → x < 256 → bit_or (x / 16 * 16 % 256) (x % 16) ≡ x
unfolding pack
pack_nibbles x below = misses-zero 256 x misses-256 below

pack-add : (h l : ℕ) → h < 16 → l < 16 → bit_or (h * 16 % 256) l ≡ h * 16 + l
pack-add h l p q =
    let e : (h * 16 + l) / 16 ≡ h = omega arith in
    let f : (h * 16 + l) % 16 ≡ l = omega arith in
    rw (e, f) at (pack_nibbles (h * 16 + l) (omega arith))

value-hex_digit : (n : ℕ) → n < 16 → lowercase_hex_value (hex_digit n) ≡ some n
unfolding lowercase_hex_value hex_digit
value-hex_digit n h = ground arith

hex_digit-value : (b v : ℕ) → lowercase_hex_value b ≡ some v → (v < 16) × (hex_digit v ≡ b)
unfolding lowercase_hex_value hex_digit
hex_digit-value b v h = ground arith

parse_pairs-display :
    (index : ℕ) (bytes : List ℕ)
    → All (λ b. b < 256) bytes
    → parse_pairs index (display_bytes bytes) ≡ ok bytes
unfolding parse_pairs display_bytes
parse_pairs-display index [] h = refl
parse_pairs-display index (b ∷ bytes) h =
    rw (value-hex_digit (b / 16) (omega arith), value-hex_digit (b % 16) (omega arith))
      (rw (parse_pairs-display (index + 1) bytes h.1) (rw (pack_nibbles b h.0)))

length-display_bytes : (bytes : List ℕ) → length (display_bytes bytes) ≡ 2 * length bytes
unfolding display_bytes
length-display_bytes [] = refl
length-display_bytes (b ∷ bytes) = omega (arith, length-display_bytes bytes)

-- Eight bytes printed as a baseline hash are parsed to the same eight bytes.
pub from_str-display :
    (hash : BaselineHash)
    → length hash.bytes ≡ 8
    → All (λ b. b < 256) hash.bytes
    → from_str (display hash) ≡ ok hash
unfolding from_str display
from_str-display hash h k =
    ground (arith, length-display_bytes hash.bytes, parse_pairs-display 0 hash.bytes k)

hex_or-eq-ok : (o : Option ℕ) (index v : ℕ) → hex_or o index ≡ ok v → o ≡ some v
hex_or-eq-ok none index v h = cc
hex_or-eq-ok (some w) index v h = cc

pairs_cons :
    (a b high low n : ℕ) (bytes tail rest : List ℕ)
    → (high < 16) × (hex_digit high ≡ a)
    → (low < 16) × (hex_digit low ≡ b)
    → ◌≡◌ {A = Result BaselineHashError (List ℕ)}
        (ok (bit_or (high * 16 % 256) low ∷ tail))
        (ok bytes)
    → length (a ∷ b ∷ rest) ≡ 2 * n
    → (length tail ≡ n - 1) × All (λ b. b < 256) tail × (display_bytes tail ≡ rest)
    → (length bytes ≡ n) × All (λ b. b < 256) bytes × (display_bytes bytes ≡ a ∷ b ∷ rest)
unfolding display_bytes
pairs_cons a b high low n bytes tail rest va vb e h ih =
    let byte = high * 16 + low in
    let eb : bytes ≡ byte ∷ tail = rw (← pack-add high low va.0 vb.0) (cc) in
    let hi : byte / 16 ≡ high = omega arith in
    let lo : byte % 16 ≡ low = omega arith in
    rw eb (omega arith, (omega arith, ih.1), rw (hi, lo, va.1, vb.1, ih.2))

-- What the loop reads is the printed form of the bytes that it returns.
parse_pairs-inv :
    (index n : ℕ) (value : Text) (bytes : List ℕ)
    → length value ≡ 2 * n
    → parse_pairs index value ≡ ok bytes
    → (length bytes ≡ n) × All (λ b. b < 256) bytes × (display_bytes bytes ≡ value)
unfolding parse_pairs display_bytes
parse_pairs-inv index n [] bytes h e = ground arith
parse_pairs-inv index n (a ∷ []) bytes h e = absurd (omega arith)
parse_pairs-inv index n (a ∷ b ∷ rest) bytes h e =
    let (high, ea, e₁) = >>=-eq-ok (hex_or (lowercase_hex_value a) (index * 2)) _ e in
    let (low, eb, e₂) = >>=-eq-ok (hex_or (lowercase_hex_value b) (index * 2 + 1)) _ e₁ in
    let (tail, er, e₃) = >>=-eq-ok (parse_pairs (index + 1) rest) _ e₂ in
    let va = hex_digit-value a high (hex_or-eq-ok _ _ high ea) in
    let vb = hex_digit-value b low (hex_or-eq-ok _ _ low eb) in
    pairs_cons a b high low n bytes tail rest va vb e₃ h
      (parse_pairs-inv (index + 1) (n - 1) rest tail (omega arith) er)

-- A string that is accepted is exactly the printed form of the hash that it gives, which has
-- eight bytes.
pub display-from_str :
    (value : Text) (hash : BaselineHash)
    → from_str value ≡ ok hash
    → (length hash.bytes ≡ 8) × All (λ b. b < 256) hash.bytes × (display hash ≡ value)
unfolding from_str display
display-from_str value hash h =
    let (_, el, e₁) =
      >>=-eq-ok (require (length value == 16) (invalid_length (length value))) _ h in
    let (bytes, ep, e₂) = >>=-eq-ok (parse_pairs 0 value) _ e₁ in
    let l : length value ≡ 16 = ground arith in
    let eh : bytes ≡ hash.bytes = cc in rw (← eh) (parse_pairs-inv 0 8 value bytes l ep)
