-- ===== src/Fragment/Rewrite/Borrowed.antt =====
-- src/fragment.rs: a rewrite that borrows gives the source it was given.
use zwirn.Prelude.{
  ℕ, Bool, List, [], ◌∷◌, ◌≡◌, sym, ap, Result, ok, ok-injective, require, >>=-elim, length,
}
use zwirn.TreeMap.{keys}
use zwirn.Text.{Text}
use zwirn.Fragment.Source.{ParsedSource}
use zwirn.Fragment.Rewrite.{
  FragmentUpdate, RewriteError, allocation_failed, TextEdit, Rewritten, borrowed, owned, path_key,
  rewritten_text, collect_requests, check_requests, all_edits, fold_length, apply_edits,
  write_edits, rewrite_batch, rewrite,
}

not_borrowed :
    {t s : Text} → ¬ (◌≡◌ {A = Result RewriteError Rewritten} (ok (owned t)) (ok (borrowed s)))
not_borrowed h = cc

write_edits-borrowed :
    (digest : Text → List ℕ) (can_reserve : ℕ → Bool) (source : Text) (edits : List TextEdit)
    {t : Text}
    → write_edits digest can_reserve source edits ≡ ok (borrowed t)
    → t ≡ source
unfolding write_edits
write_edits-borrowed digest can_reserve source [] h = sym (ap rewritten_text (ok-injective h))
write_edits-borrowed digest can_reserve source (edit ∷ rest) h =
    >>=-elim (fold_length (length source) (edit ∷ rest)) _ h λ final_length _ h1.
      >>=-elim (require (can_reserve final_length) allocation_failed) _ h1 λ _ _ h2.
        >>=-elim (apply_edits source [] 0 (edit ∷ rest)) _ h2
          λ rewritten _ h3. absurd (not_borrowed h3)

pub rewrite-borrowed :
    (digest : Text → List ℕ) (can_reserve : ℕ → Bool) (parsed : ParsedSource)
    (updates : List FragmentUpdate) {t : Text}
    → rewrite digest can_reserve parsed updates ≡ ok (borrowed t)
    → t ≡ parsed.source
unfolding rewrite rewrite_batch
rewrite-borrowed digest can_reserve parsed [] h = sym (ap rewritten_text (ok-injective h))
rewrite-borrowed digest can_reserve parsed (update ∷ rest) h =
    >>=-elim (collect_requests [] (update ∷ rest)) _ h λ requested _ h1.
      >>=-elim (check_requests (keys requested) parsed.fragments) _ h1 λ _ _ h2.
        >>=-elim (all_edits digest parsed.source requested parsed.fragments) _ h2
          λ edits _ h3. write_edits-borrowed digest can_reserve parsed.source edits h3
