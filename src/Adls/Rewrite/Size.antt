-- ===== src/Adls/Rewrite/Size.antt =====
-- src/adls.rs: the planned size of a rewritten document, and that the writing reaches it.
use mathlib.Core.Path.{subst}
use zwirn.Prelude.{
  err-ne-ok, ℕ, zero, suc, ◌+◌, ◌-◌, ◌%◌, ◌^◌, ◌≤◌, ◌<◌, List, [], ◌∷◌, ◌++◌, ◌≡◌, inl, inr, refl,
  sym, ap, ◌∙◌, arith, Option, none, some, ltb, length, length-append, replicate, checked_sub,
  and_then, All, All-map, ok, ok-injective, ◌>>=◌, >>=-elim, Bool-cases, Option-cases,
}
use zwirn.Text.{Text}
use zwirn.Text.Range.{copy_at}
use zwirn.Text.Range.Laws.{copy_at_total, length-copy_at}
use zwirn.Adls.Error.{Error}
use zwirn.Adls.Rewrite.{
  max_rewritten_adls_size, padding_of, to_le_bytes, or_size_limit, to_u32, next_size, plan_sizes,
  plan_rewrite_size, Change, write_change, write_changes, replacement_lengths,
}

pub length-replicate {ℓ} : {A : Type ℓ} (n : ℕ) (a : A) → length (replicate n a) ≡ n
length-replicate zero a = refl
length-replicate (suc n) a = ap suc (length-replicate n a)

next_size-eq-some :
    (size n : ℕ) {m : ℕ}
    → next_size size n ≡ some m
    → (m ≡ size + padding_of size + 4 + n + 1) × (m ≤ max_rewritten_adls_size)
unfolding next_size
next_size-eq-some size n h = ground arith

-- The bytes with the padding that one change adds.
abbrev pub padded : Text → Text
padded output = output ++ replicate (padding_of (length output)) 0

abbrev pub string_bytes : Change → Text
string_bytes change = to_le_bytes change.replacement_length ++ (change.replacement ++ (0 ∷ []))

pub length-padded :
    (output : Text)
    → (length (padded output) ≡ length output + padding_of (length output))
      × (length (padded output) % 4 ≡ 0)
length-padded output =
    let e : length (padded output) ≡ length output + padding_of (length output) =
      length-append output (replicate (padding_of (length output)) 0)
      ∙ ap (λ n. length output + n) (length-replicate (padding_of (length output)) 0) in
    (e, omega (arith, e))

pub length-grown :
    (output : Text) (change : Change)
    → length (padded output ++ string_bytes change)
      ≡ length output + padding_of (length output) + 4 + length change.replacement + 1
length-grown output change = omega (
  arith,
  (length-padded output).0,
  length-append (padded output) (string_bytes change),
  length-append change.replacement (0 ∷ []),
)

-- What the body of the loop does.
pub record IsWritten (output : Text) (change : Change) (next : Text) : Type 0 where
  pub relative : ℕ
  pub reaches : change.field_location + relative ≡ length (padded output)
  pub small : relative < 2 ^ 32
  pub copied :
      copy_at {E = Error}
        (padded output ++ string_bytes change)
        change.field_location
        (to_le_bytes relative)
      ≡ ok next

relative-eq-some :
    (a b : ℕ) {c : ℕ} → and_then (checked_sub a b) to_u32 ≡ some c → (b + c ≡ a) × (c < 2 ^ 32)
relative-eq-some a b h = ground arith

pub write_change-IsWritten :
    (output : Text) (change : Change) {next : Text}
    → write_change output change ≡ ok next
    → IsWritten output change next
unfolding write_change
write_change-IsWritten output change h =
    >>=-elim
      (or_size_limit (and_then (checked_sub (length (padded output)) change.field_location) to_u32))
      _ h
      λ relative e h1.
        let (a, b) =
          relative-eq-some (length (padded output)) change.field_location
            (or_size_limit-eq-ok _ e) in
        record { relative = relative; reaches = a; small = b; copied = h1 }
  where
    or_size_limit-eq-ok : (o : Option ℕ) {n : ℕ} → or_size_limit o ≡ ok n → o ≡ some n
    or_size_limit-eq-ok none h = cc
    or_size_limit-eq-ok (some n) h = cc

relative-some : (a b : ℕ) → b ≤ a → a ≤ 2 ^ 31 → and_then (checked_sub a b) to_u32 ≡ some (a - b)
relative-some a b h k = ground arith

-- One change whose size was planned is written, and the bytes get that size.
write_change_total :
    (output : Text) (change : Change) {size : ℕ}
    → change.field_location + 4 ≤ length output
    → next_size (length output) (length change.replacement) ≡ some size
    → (next : Text) × (write_change output change ≡ ok next) × (length next ≡ size)
unfolding write_change
write_change_total output change {size} inside h =
    let (e, m) = next_size-eq-some (length output) (length change.replacement) h in
    let (p, _) = length-padded output in
    let grown = length-grown output change in
    let relative = length (padded output) - change.field_location in
    let (next, c) =
      copy_at_total {E = Error} (padded output ++ string_bytes change) (to_le_bytes relative)
        change.field_location (omega arith) in
    let fits =
      relative-some (length (padded output)) change.field_location (omega arith) (omega arith) in
    (
      next,
      ap
            (λ o. or_size_limit o >>= λ relative.
              copy_at (padded output ++ string_bytes change) change.field_location
                (to_le_bytes relative))
            fits
          ∙ c,
      length-copy_at (padded output ++ string_bytes change) (to_le_bytes relative) next
            change.field_location c
          ∙ grown
          ∙ sym e,
    )

write_changes_total :
    (output : Text) (changes : List Change) {size : ℕ}
    → length output ≤ max_rewritten_adls_size
    → All (λ (change : Change). change.field_location + 4 ≤ length output) changes
    → plan_sizes (length output) (replacement_lengths changes) ≡ ok size
    → (final : Text) × (write_changes output changes ≡ ok final)
      × (length final ≡ size)
      × (size ≤ max_rewritten_adls_size)
unfolding plan_sizes write_changes
write_changes_total output [] l inside h =
    (output, refl, ok-injective h, subst (λ n. n ≤ max_rewritten_adls_size) (ok-injective h) l)
write_changes_total output (change ∷ changes) l inside h =
    elim (Option-cases (next_size (length output) (length change.replacement))) [
      | inl z ↦ absurd (err-ne-ok (rw z at h))
      | inr (middle, z) ↦
          let (next, w, e) = write_change_total output change inside.0 z in
          let (grow, limit) = next_size-eq-some (length output) (length change.replacement) z in
          let (final, r, t, b) =
            write_changes_total next changes (omega arith)
              (All-map (λ (change : Change). change.field_location + 4 ≤ length output) _ changes
                (λ c k. omega arith) inside.1)
              (rw (← e) at (rw z at h)) in
          (final, rw w r, t, b)
    ]

-- When the size of a batch of changes can be planned, and the fields are inside the document, the
-- changes are written, with no panic and no offset too large, and the bytes have the planned size,
-- which is at most 2^31.
pub write_changes-plan_rewrite_size :
    (bytes : Text) (changes : List Change) {size : ℕ}
    → All (λ (change : Change). change.field_location + 4 ≤ length bytes) changes
    → plan_rewrite_size (length bytes) (replacement_lengths changes) ≡ ok size
    → (output : Text) × (write_changes bytes changes ≡ ok output)
      × (length output ≡ size)
      × (size ≤ max_rewritten_adls_size)
unfolding plan_rewrite_size
write_changes-plan_rewrite_size bytes changes inside h =
    elim (Bool-cases (ltb max_rewritten_adls_size (length bytes))) [
      | inl z ↦ absurd (err-ne-ok (rw z at h))
      | inr z ↦ write_changes_total bytes changes (ground (arith, z)) inside (rw z at h)
    ]
