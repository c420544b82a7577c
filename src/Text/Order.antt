-- ===== src/Text/Order.antt =====
-- The order of Rust strings: bytewise, a proper prefix first.
use zwirn.Prelude.{Bool, true, false, ◌||◌, ◌&&◌, [], ◌∷◌, ◌≡◌, ◌⊎◌, refl, arith, ltb, ◌==◌}
use zwirn.Text.{Text}

-- `left < right`.
unfoldable pub text_lt : Text → Text → Bool
text_lt [] [] = false
text_lt [] (b ∷ t) = true
text_lt (a ∷ s) [] = false
text_lt (a ∷ s) (b ∷ t) = ltb a b || (a == b && text_lt s t)

pub text_lt_irrefl : (s : Text) → text_lt s s ≡ false
unfolding text_lt
text_lt_irrefl [] = refl
text_lt_irrefl (a ∷ s) = ground (arith, text_lt_irrefl s)

pub text_lt_trans : (s t u : Text) → text_lt s t ≡ true → text_lt t u ≡ true → text_lt s u ≡ true
unfolding text_lt
text_lt_trans (a ∷ s) (b ∷ t) (c ∷ u) h k = ground (arith, text_lt_trans s t u)
text_lt_trans _ _ _ h k = ground arith

pub text_lt_total : (s t : Text) → (text_lt s t ≡ true) ⊎ (s ≡ t) ⊎ (text_lt t s ≡ true)
unfolding text_lt
text_lt_total (a ∷ s) (b ∷ t) = ground (arith, text_lt_total s t)
text_lt_total _ _ = ground arith
