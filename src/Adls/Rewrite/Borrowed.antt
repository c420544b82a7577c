-- ===== src/Adls/Rewrite/Borrowed.antt =====
-- src/adls.rs: a rewrite that borrows gives the bytes of the document.
use zwirn.Prelude.{
  ℕ, Bool, List, [], ◌∷◌, ◌≡◌, sym, ap, none, Result, ok, ok-injective, require, >>=-elim, length,
  replicate,
}
use zwirn.Text.{Text}
use zwirn.Text.Cow.{Rewritten, borrowed, owned, rewritten_text}
use zwirn.Adls.Error.{NodeHandle, Error, allocation_failed}
use zwirn.Adls.Document.{Document, parse}
use zwirn.Adls.Rewrite.{
  Change, plan_rewrite_size, replacement_lengths, write_changes, request_all, collect_changes,
  apply_changes, rewrite,
}

not_borrowed : {t s : Text} → ¬ (◌≡◌ {A = Result Error Rewritten} (ok (owned t)) (ok (borrowed s)))
not_borrowed h = cc

apply_changes-borrowed :
    (can_reserve : ℕ → Bool) (fresh : ℕ) (bytes : Text) (changes : List Change) {t : Text}
    → apply_changes can_reserve fresh bytes changes ≡ ok (borrowed t)
    → t ≡ bytes
unfolding apply_changes
apply_changes-borrowed can_reserve fresh bytes [] h = sym (ap rewritten_text (ok-injective h))
apply_changes-borrowed can_reserve fresh bytes (change ∷ changes) h =
    >>=-elim (plan_rewrite_size (length bytes) (replacement_lengths (change ∷ changes))) _ h
      λ size _ h1. >>=-elim (require (can_reserve size) allocation_failed) _ h1 λ _ _ h2.
        >>=-elim (write_changes bytes (change ∷ changes)) _ h2
          λ output _ h3. >>=-elim (parse fresh output) _ h3 λ parsed _ h4. absurd (not_borrowed h4)

pub adls_rewrite-borrowed :
    (can_reserve : ℕ → Bool) (fresh : ℕ) (document : Document)
    (replacements : List (NodeHandle × Text)) {t : Text}
    → rewrite can_reserve fresh document replacements ≡ ok (borrowed t)
    → t ≡ document.bytes
unfolding rewrite
adls_rewrite-borrowed can_reserve fresh document [] h = sym (ap rewritten_text (ok-injective h))
adls_rewrite-borrowed can_reserve fresh document (replacement ∷ replacements) h =
    >>=-elim
      (request_all document.sources (replicate (length document.sources) none)
        (replacement ∷ replacements))
      _ h
      λ requested _ h1.
        >>=-elim (collect_changes document.sources document.source_field_locations requested) _ h1
          λ changes _ h2. apply_changes-borrowed can_reserve fresh document.bytes changes h2
