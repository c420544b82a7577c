-- ===== src/Text/Slice.antt =====
-- Ranges of a text that follow one another.
use Prim.Native.Nat.add
use native.Mathlib.Nat.{zero-add}
use zwirn.Prelude.{
  ℕ, zero, suc, ◌+◌, ◌-◌, ◌≤◌, [], ◌∷◌, ◌++◌, ◌≡◌, refl, sym, ap, ◌∙◌, arith, length, take, drop,
  drop-drop, take-append-drop, length-take_of_le, length-drop,
}
use zwirn.Text.{Text, slice}

take-nil : (n : ℕ) → take {A = ℕ} n [] ≡ []
take-nil zero = refl
take-nil (suc n) = refl

take-add : (m n : ℕ) (s : Text) → take (m + n) s ≡ take m s ++ take n (drop m s)
take-add zero n s = rw zero-add
take-add (suc m) n [] = take-nil (suc m + n) ∙ sym (take-nil n)
take-add (suc m) n (b ∷ s) = rw add.suc (ap (◌∷◌ b) (take-add m n s))

drop-later : (s : Text) (from to : ℕ) → from ≤ to → drop (to - from) (drop from s) ≡ drop to s
drop-later s from to h =
    let e : from + (to - from) ≡ to = omega arith in rw (drop-drop from (to - from) s) (rw e)

pub slice-split : (s : Text) (a b c : ℕ) → a ≤ b → b ≤ c → slice s a c ≡ slice s a b ++ slice s b c
slice-split s a b c h k =
    let e : c - a ≡ (b - a) + (c - b) = omega arith in
    rw e (take-add (b - a) (c - b) (drop a s) ∙ rw (drop-later s a b h))

pub drop-split : (s : Text) (a b : ℕ) → a ≤ b → drop a s ≡ slice s a b ++ drop b s
drop-split s a b h = sym (rw (← drop-later s a b h) (take-append-drop (b - a) (drop a s)))

take_all : (n : ℕ) (t : Text) → length t ≡ n → take n t ≡ t
take_all zero [] h = refl
take_all zero (b ∷ t) h = absurd (omega arith)
take_all (suc n) [] h = refl
take_all (suc n) (b ∷ t) h = ap (◌∷◌ b) (take_all n t (omega arith))

pub slice-length : (s : Text) (a : ℕ) → slice s a (length s) ≡ drop a s
slice-length s a = take_all (length s - a) (drop a s) (length-drop a s)

pub length-slice : (s : Text) (a b : ℕ) → a ≤ b → b ≤ length s → length (slice s a b) ≡ b - a
length-slice s a b h k = length-take_of_le (b - a) (drop a s) (omega (arith, length-drop a s))
