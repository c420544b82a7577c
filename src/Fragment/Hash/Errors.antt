-- ===== src/Fragment/Hash/Errors.antt =====
-- Which position an error of `from_str` names.
use zwirn.Prelude.{
  ℕ, suc, ◌≤◌, ◌+◌, ◌*◌, ◌≡◌, ◌≢◌, ◌⊎◌, ◌∙◌, ap, zero, refl, Bool-cases, >>=-eq-err, >>=-ne-panic,
  require-ne-panic, panic, [], ◌∷◌, Option, none, some, arith, ◌==◌, length, ok, err, require, inl,
  inr,
}
use zwirn.Text.{Text}
use zwirn.Fragment.Hash.{
  BaselineHashError, invalid_length, invalid_character, lowercase_hex_value, hex_or, parse_pairs,
  from_str,
}

-- `0` to `9` and `a` to `f`.
abbrev pub IsHexDigit : ℕ → Type 0
IsHexDigit b = ((48 ≤ b) × (b ≤ 57)) ⊎ ((97 ≤ b) × (b ≤ 102))

-- The byte at `i` is no lowercase hexadecimal digit, and every byte before it is one.
abbrev pub FirstBad : Text → ℕ → Type 0
FirstBad [] i = ⊥
FirstBad (b ∷ s) zero = ¬ IsHexDigit b
FirstBad (b ∷ s) (suc i) = IsHexDigit b × FirstBad s i

lowercase_hex_value-none : (b : ℕ) → lowercase_hex_value b ≡ none → ¬ IsHexDigit b
unfolding lowercase_hex_value
lowercase_hex_value-none b h = λ d. ground arith

lowercase_hex_value-some : (b : ℕ) → lowercase_hex_value b ≢ none → IsHexDigit b
unfolding lowercase_hex_value
lowercase_hex_value-some b h = ground arith

hex_or-eq-err :
    (o : Option ℕ) (index : ℕ) (e : BaselineHashError)
    → hex_or o index ≡ err e
    → (o ≡ none) × (e ≡ invalid_character index)
hex_or-eq-err none index e h = (refl, cc)
hex_or-eq-err (some v) index e h = absurd (cc)

hex_or-ok : (o : Option ℕ) (index : ℕ) (v : ℕ) → hex_or o index ≡ ok v → o ≢ none
hex_or-ok none index v h = λ e. cc
hex_or-ok (some w) index v h = λ e. cc

parse_pairs-FirstBad :
    (index : ℕ) (value : Text) (e : BaselineHashError)
    → parse_pairs index value ≡ err e
    → (i : ℕ) × (e ≡ invalid_character (index * 2 + i)) × FirstBad value i
unfolding parse_pairs
parse_pairs-FirstBad index [] e h = absurd (cc)
parse_pairs-FirstBad index (a ∷ []) e h = absurd (cc)
parse_pairs-FirstBad index (a ∷ b ∷ rest) e h =
    elim (>>=-eq-err (hex_or (lowercase_hex_value a) (index * 2)) _ h) [
      | inl h₁ ↦
          let (n₁, q₁) = hex_or-eq-err _ _ e h₁ in
          (0, q₁ ∙ ap invalid_character (omega arith), lowercase_hex_value-none a n₁)
      | inr (high, o₁, r₁) ↦
          let p₁ = lowercase_hex_value-some a (hex_or-ok _ _ high o₁) in
          elim (>>=-eq-err (hex_or (lowercase_hex_value b) (index * 2 + 1)) _ r₁) [
            | inl h₂ ↦
                let (n₂, q₂) = hex_or-eq-err _ _ e h₂ in
                (1, q₂, (p₁, lowercase_hex_value-none b n₂))
            | inr (low, o₂, r₂) ↦
                let p₂ = lowercase_hex_value-some b (hex_or-ok _ _ low o₂) in
                elim (>>=-eq-err (parse_pairs (index + 1) rest) _ r₂) [
                  | inl h₃ ↦
                      let (i, q, f) = parse_pairs-FirstBad (index + 1) rest e h₃ in
                      (suc (suc i), q ∙ ap invalid_character (omega arith), (p₁, (p₂, f)))
                  | inr (tail, o₃, r₃) ↦ absurd (cc)
                ]
          ]
    ]

-- A string that is refused has a length other than 16, which the error holds, or it has 16 bytes
-- and the error holds the index of the first byte that is no lowercase hexadecimal digit.
pub from_str-FirstBad :
    (value : Text) (e : BaselineHashError)
    → from_str value ≡ err e
    → ((length value ≢ 16) × (e ≡ invalid_length (length value)))
      ⊎ ((length value ≡ 16) × ((i : ℕ) × (e ≡ invalid_character i) × FirstBad value i))
unfolding from_str
from_str-FirstBad value e h = elim (Bool-cases (length value == 16)) [
  | inr l ↦ inl (ground arith, ground arith)
  | inl l ↦ elim (>>=-eq-err (parse_pairs 0 value) _ (rw l at h)) [
    | inl h₁ ↦
        let (i, q, f) = parse_pairs-FirstBad 0 value e h₁ in
        inr (ground arith, (i, q ∙ ap invalid_character (omega arith), f))
    | inr (bytes, o, r) ↦ absurd (cc)
  ]
]

hex_or-ne-panic : (o : Option ℕ) (index : ℕ) → hex_or o index ≢ panic
hex_or-ne-panic none index = λ q. cc
hex_or-ne-panic (some v) index = λ q. cc

parse_pairs-ne-panic : (index : ℕ) (value : Text) → parse_pairs index value ≢ panic
unfolding parse_pairs
parse_pairs-ne-panic index [] = λ q. cc
parse_pairs-ne-panic index (a ∷ []) = λ q. cc
parse_pairs-ne-panic index (a ∷ b ∷ rest) =
    >>=-ne-panic (hex_or (lowercase_hex_value a) (index * 2)) _
      (hex_or-ne-panic (lowercase_hex_value a) (index * 2))
      (λ high.
        >>=-ne-panic (hex_or (lowercase_hex_value b) (index * 2 + 1)) _
          (hex_or-ne-panic (lowercase_hex_value b) (index * 2 + 1))
          (λ low.
            >>=-ne-panic (parse_pairs (index + 1) rest) _ (parse_pairs-ne-panic (index + 1) rest)
              (λ tail q. cc)))

pub from_str-ne-panic : (value : Text) → from_str value ≢ panic
unfolding from_str
from_str-ne-panic value =
    >>=-ne-panic (require (length value == 16) _) _ (require-ne-panic (length value == 16) _)
      (λ _. >>=-ne-panic (parse_pairs 0 value) _ (parse_pairs-ne-panic 0 value) (λ bytes q. cc))
