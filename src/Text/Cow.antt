-- ===== src/Text/Cow.antt =====
-- The `Cow` that a rewrite of a source or of a document returns.
use zwirn.Text.{Text}

-- The result of a rewrite: `Cow::Borrowed` or `Cow::Owned`.
pub data Rewritten : Type 0 where
  borrowed : Text → Rewritten
  owned : Text → Rewritten

abbrev pub rewritten_text : Rewritten → Text
rewritten_text (borrowed t) = t
rewritten_text (owned t) = t
