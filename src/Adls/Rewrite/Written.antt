-- ===== src/Adls/Rewrite/Written.antt =====
-- src/adls.rs: all changes of a batch, written one after the other.
use mathlib.Core.Path.{subst}
use zwirn.Prelude.{
  ℕ, ◌+◌, ◌%◌, ◌^◌, ◌≤◌, ◌<◌, List, [], ◌∷◌, ◌++◌, ◌≡◌, inl, inr, refl, sym, ap, ◌∙◌, arith, Option,
  none, some, length, All, All-map, Pairwise, Both, Both-map_All, Result, ok, ok-injective,
  >>=-elim, Bool-cases,
}
use zwirn.Text.{Text, text_eq, text_eq_iff}
use zwirn.Text.Range.{get_range}
use zwirn.Adls.Error.{Error}
use zwirn.Adls.Document.{SourceNode}
use zwirn.Adls.Document.Nodes.{AreApart}
use zwirn.Adls.Document.Parsed.{HasSource}
use zwirn.Adls.Rewrite.{
  to_u32, or_size_limit, Change, change_one, collect_changes, write_change, write_changes,
}
use zwirn.Adls.Rewrite.Size.{length-padded, write_change-IsWritten}
use zwirn.Adls.Rewrite.Kept.{
  IsKept, IsWritten-IsKept, IsWritten-length, IsWritten-HasSource, HasSource-kept,
}

-- The source that a node is to have.
abbrev pub wanted : SourceNode → Option Text → Text
wanted node none = node.source
wanted node (some replacement) = replacement

abbrev pub all_wanted : List SourceNode → List (Option Text) → List Text
all_wanted (node ∷ sources) (replacement ∷ requested) =
    wanted node replacement ∷ all_wanted sources requested
all_wanted _ _ = []

-- A node either keeps its source, and nothing is written, or gets one change.
data IsChange (node : SourceNode) (location : ℕ) (replacement : Option Text)
    : List Change → Type 0 where
  same : wanted node replacement ≡ node.source → IsChange node location replacement []
  changed :
      (change : Change)
      → change.field_location ≡ location
      → change.replacement ≡ wanted node replacement
      → change.replacement_length ≡ length change.replacement
      → change.replacement_length < 2 ^ 32
      → IsChange node location replacement (change ∷ [])

change_one-IsChange :
    (node : SourceNode) (location : ℕ) (replacement : Option Text) {changes : List Change}
    → change_one node location replacement ≡ ok changes
    → IsChange node location replacement changes
unfolding change_one
change_one-IsChange node location none h =
    subst (IsChange node location none) (ok-injective h) (IsChange.same refl)
change_one-IsChange node location (some replacement) h =
    elim (Bool-cases (text_eq replacement node.source)) [
      | inl e ↦
          subst (IsChange node location (some replacement)) (ok-injective (rw e at h))
            (IsChange.same ((text_eq_iff replacement node.source).0 e))
      | inr e ↦ >>=-elim (or_size_limit (to_u32 (length replacement))) _ (rw e at h) λ size s h1.
          let fits = to_u32-eq (length replacement) s in
          subst (IsChange node location (some replacement)) (ok-injective h1)
            (IsChange.changed _ refl refl fits.0 fits.1)
    ]
  where
    to_u32-eq : (n : ℕ) {m : ℕ} → or_size_limit (to_u32 n) ≡ ok m → (m ≡ n) × (m < 2 ^ 32)
    to_u32-eq n h = ground arith

-- What the written bytes have in common with those before: the wanted sources, and all that
-- overlaps no field that may be written to.
pub record AreWritten (fields : List ℕ) (sources : List SourceNode) (locations : List ℕ)
    (requested : List (Option Text)) (before after : Text) : Type 0 where
  pub readable :
      Both (λ source f. HasSource after fields f source) (all_wanted sources requested) locations
  pub kept : IsKept before after locations
  pub grown : length before ≤ length after

-- What is written for one node, before the rest of the changes.
record IsStep (fields : List ℕ) (location : ℕ) (source : Text) (rest : List Change)
    (before after : Text) : Type 0 where
  middle : Text
  continues : write_changes middle rest ≡ ok after
  present : HasSource middle fields location source
  kept : IsKept before middle (location ∷ [])
  grown : length before ≤ length middle

IsChange-IsStep :
    (fields : List ℕ) (node : SourceNode) (location : ℕ) (replacement : Option Text)
    (changes rest : List Change) (before : Text) {after : Text}
    → IsChange node location replacement changes
    → HasSource before fields location node.source
    → All (λ g. g + 4 ≤ length before) fields
    → location + 4 ≤ length before
    → write_changes before (changes ++ rest) ≡ ok after
    → IsStep fields location (wanted node replacement) rest before after
unfolding write_changes
IsChange-IsStep fields node location replacement [] rest before (IsChange.same e) present inside
      in_bytes w =
    record {
      middle = before;
      continues = w;
      present = subst (HasSource before fields location) (sym e) present;
      kept = λ from to range clear g. g;
      grown = omega arith;
    }
IsChange-IsStep fields node location replacement (change ∷ []) rest before
      (IsChange.changed _ e r n l) present inside in_bytes w =
    >>=-elim (write_change before change) _ w λ middle a w1.
      let written = write_change-IsWritten before change a in
      let aligned = present.source_at.points.aligned in
      record {
        middle = middle;
        continues = w1;
        present =
            subst (λ f. HasSource middle fields f (wanted node replacement)) e
              (subst (HasSource middle fields change.field_location) r (
                IsWritten-HasSource before change middle fields written n l
                  (ap (λ f. f % 4) e ∙ aligned) (omega arith) inside));
        kept =
            subst (λ f. IsKept before middle (f ∷ [])) e
              (IsWritten-IsKept before change middle written);
        grown =
            omega (arith, IsWritten-length before change middle written, (length-padded before).0);
      }
IsChange-IsStep fields node location replacement (change ∷ _ ∷ _) rest before x present inside
      in_bytes w =
    elim x [ ]

swap : {f g : ℕ} → AreApart f g → AreApart g f
swap (inl l) = inr l
swap (inr l) = inl l

same_bytes :
    {before after : Text} {changes : List Change}
    → ◌≡◌ {A = Result Error (List Change)} (ok []) (ok changes)
    → write_changes before changes ≡ ok after
    → before ≡ after
unfolding write_changes
same_bytes h w = ok-injective (ap (write_changes _) (ok-injective h) ∙ w)

pub collect_changes-AreWritten :
    (fields : List ℕ) (sources : List SourceNode) (locations : List ℕ)
    (requested : List (Option Text)) (before : Text) {changes : List Change} {after : Text}
    → length requested ≡ length sources
    → collect_changes sources locations requested ≡ ok changes
    → write_changes before changes ≡ ok after
    → Both (λ (node : SourceNode) f. HasSource before fields f node.source) sources locations
    → Pairwise AreApart locations
    → All (λ g. g + 4 ≤ length before) fields
    → ((P : ℕ → Type 0) → All P fields → All P locations)
    → AreWritten fields sources locations requested before after
unfolding collect_changes write_changes
collect_changes-AreWritten fields [] [] [] before e h w r p inside sub = record {
  readable = tt;
  kept = λ from to range clear g. subst (λ t. get_range t from to ≡ some range) (same_bytes h w) g;
  grown = omega (arith, ap length (same_bytes h w));
}
collect_changes-AreWritten fields (node ∷ sources) (location ∷ locations) (replacement ∷ requested)
      before {after = after} e h w r p inside sub =
    >>=-elim (change_one node location replacement) _ h λ change c h1.
      >>=-elim (collect_changes sources locations requested) _ h1 λ rest d h2.
        let step =
          IsChange-IsStep fields node location replacement change rest before
            (change_one-IsChange node location replacement c) r.0 inside
            (sub (λ g. g + 4 ≤ length before) inside).0
            (ap (write_changes before) (ok-injective h2) ∙ w) in
        let others =
          Both-map_All (λ (m : SourceNode) f. HasSource before fields f m.source)
            (AreApart location) (λ (m : SourceNode) f. HasSource step.middle fields f m.source)
            sources locations
            (λ m f present apart.
              HasSource-kept before step.middle fields (location ∷ []) f m.source step.kept
                step.grown (swap apart, tt) present ((sub _ present.clear).0, tt))
            r.1 p.0 in
        let last =
          collect_changes-AreWritten fields sources locations requested step.middle (omega arith) d
            step.continues others p.1
            (All-map (λ g. g + 4 ≤ length before) _ fields (λ g l. omega (arith, step.grown))
              inside)
            (λ P all. (sub P all).1) in
        record {
          readable = (
            HasSource-kept step.middle after fields locations location (wanted node replacement)
                last.kept last.grown p.0 step.present (sub _ step.present.clear).1,
            last.readable,
          );
          kept = λ from to range clear g.
              last.kept from to range clear.1 (step.kept from to range (clear.0, tt) g);
          grown = omega (arith, step.grown, last.grown);
        }
collect_changes-AreWritten fields [] [] (replacement ∷ requested) before e h w r p inside sub =
    absurd (omega arith)
collect_changes-AreWritten fields (node ∷ sources) _ [] before e h w r p inside sub =
    absurd (omega arith)
collect_changes-AreWritten fields [] (location ∷ locations) _ before e h w r p inside sub =
    elim r [ ]
collect_changes-AreWritten fields (node ∷ sources) [] _ before e h w r p inside sub = elim r [ ]
