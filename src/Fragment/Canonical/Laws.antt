-- ===== src/Fragment/Canonical/Laws.antt =====
-- What `canonicalize_source` computes: the reference definition, the canonical form, idempotence.
use zwirn.Prelude.{
  ℕ, true, false, not, ◌&&◌, ◌||◌, [], ◌∷◌, ◌++◌, ◌≡◌, ◌↔◌, ◌⊎◌, inl, inr, refl, sym, ap, ◌∙◌,
  arith, ◌==◌, if◌then◌else◌, Bool-cases, Result, ok, append-nil, append_assoc,
}
use mathlib.Core.Path.{subst}
use zwirn.Text.{Text, is_empty, starts_with, ends_with, contains, byte_order_mark}
use zwirn.Fragment.Canonical.{
  CanonicalSource, CanonicalSourceError, normalize, terminate, canonicalize_source, try_from,
}

-- The reference: CRLF and CR become LF, by plain recursion.
abbrev pub unify_newlines : Text → Text
unify_newlines [] = []
unify_newlines (b ∷ []) = (if b == b'\r' then b'\n' else b) ∷ []
unify_newlines (b ∷ c ∷ rest) = elim (b == b'\r') [
  | true ↦
      b'\n' ∷ elim (c == b'\n') [ true ↦ unify_newlines rest | false ↦ unify_newlines (c ∷ rest) ]
  | false ↦ b ∷ unify_newlines (c ∷ rest)
]

-- One step of the loop, from the three ways in which it goes on.
normalize_step :
    (b c : ℕ) (rest n s : Text)
    → normalize ((n ++ s) ++ (b'\n' ∷ [])) [] rest ≡ n ++ (s ++ (b'\n' ∷ unify_newlines rest))
    → normalize ((n ++ s) ++ (b'\n' ∷ [])) [] (c ∷ rest)
      ≡ n ++ (s ++ (b'\n' ∷ unify_newlines (c ∷ rest)))
    → normalize n (s ++ (b ∷ [])) (c ∷ rest) ≡ n ++ (s ++ (b ∷ unify_newlines (c ∷ rest)))
    → normalize n s (b ∷ c ∷ rest) ≡ n ++ (s ++ unify_newlines (b ∷ c ∷ rest))
unfolding normalize
normalize_step b c rest n s h₁ h₂ h₃ = ground (arith, h₁, h₂, h₃)

normalize-unify :
    (value normalized segment : Text)
    → normalize normalized segment value ≡ normalized ++ (segment ++ unify_newlines value)
unfolding normalize
normalize-unify [] n s = rw append-nil
normalize-unify (b ∷ []) n s = elim (Bool-cases (b == b'\r')) [
  | inl e ↦ rw e (append_assoc n s (b'\n' ∷ []))
  | inr e ↦ rw e
]
normalize-unify (b ∷ c ∷ rest) n s =
    normalize_step b c rest n s
      (normalize-unify rest ((n ++ s) ++ (b'\n' ∷ [])) [] ∙ simp append_assoc)
      (normalize-unify (c ∷ rest) ((n ++ s) ++ (b'\n' ∷ [])) [] ∙ simp append_assoc)
      (normalize-unify (c ∷ rest) n (s ++ (b ∷ [])) ∙ simp append_assoc)

unify_newlines-of_clean : (v : Text) → contains v b'\r' ≡ false → unify_newlines v ≡ v
unfolding contains
unify_newlines-of_clean [] h = refl
unify_newlines-of_clean (b ∷ []) h = ground arith
unify_newlines-of_clean (b ∷ c ∷ rest) h = ground (arith, unify_newlines-of_clean (c ∷ rest))

-- The loop with its shortcut for text without CR computes the reference: newlines unified, and a
-- newline added to a text that is not empty and does not end in one.
pub canonicalize_source-unify :
    (v : Text)
    → canonicalize_source v ≡ (
        let u = unify_newlines v in
        if not (is_empty u) && not (ends_with u b'\n') then u ++ (b'\n' ∷ []) else u)
unfolding canonicalize_source
canonicalize_source-unify v = elim (Bool-cases (contains v b'\r')) [
  | inl e ↦ rw e (ap terminate (normalize-unify v [] []))
  | inr e ↦ rw e (ap terminate (sym (unify_newlines-of_clean v e)))
]

contains-unify_newlines : (v : Text) → contains (unify_newlines v) b'\r' ≡ false
unfolding contains
contains-unify_newlines [] = refl
contains-unify_newlines (b ∷ []) = ground arith
contains-unify_newlines (b ∷ c ∷ rest) =
    ground (arith, contains-unify_newlines rest, contains-unify_newlines (c ∷ rest))

contains-append : (v w : Text) (c : ℕ) → contains (v ++ w) c ≡ (contains v c || contains w c)
unfolding contains
contains-append [] w c = refl
contains-append (b ∷ v) w c = ground (arith, contains-append v w c)

ends_with-append : (v : Text) (c : ℕ) → ends_with (v ++ (c ∷ [])) c ≡ true
unfolding ends_with
ends_with-append [] c = ground arith
ends_with-append (b ∷ []) c = ground arith
ends_with-append (b ∷ d ∷ v) c = ends_with-append (d ∷ v) c

-- The canonical form: no CR, and empty or ending in a newline.
abbrev pub IsCanonical : Text → Type 0
IsCanonical v = (contains v b'\r' ≡ false) × ((v ≡ []) ⊎ (ends_with v b'\n' ≡ true))

terminate-IsCanonical : (v : Text) → contains v b'\r' ≡ false → IsCanonical (terminate v)
unfolding terminate
terminate-IsCanonical [] h = (h, inl refl)
terminate-IsCanonical (b ∷ v) h = elim (Bool-cases (ends_with (b ∷ v) b'\n')) [
  | inl e ↦ rw e (h, inr e)
  | inr e ↦ rw e (
    contains-append (b ∷ v) (b'\n' ∷ []) b'\r' ∙ rw h (unfold contains in refl),
    inr (ends_with-append (b ∷ v) b'\n'),
  )
]

terminate_of_IsCanonical : (v : Text) → IsCanonical v → terminate v ≡ v
unfolding terminate
terminate_of_IsCanonical [] h = refl
terminate_of_IsCanonical (b ∷ v) h = ground arith

canonicalize_source-terminate : (v : Text) → canonicalize_source v ≡ terminate (unify_newlines v)
unfolding terminate
canonicalize_source-terminate v = canonicalize_source-unify v

-- Every result is in canonical form, and exactly the texts in canonical form are left as they are.
pub canonicalize_source-IsCanonical :
    (v : Text) → IsCanonical (canonicalize_source v) × ((canonicalize_source v ≡ v) ↔ IsCanonical v)
canonicalize_source-IsCanonical v = (canonical, (there, back))
  where
    canonical : IsCanonical (canonicalize_source v)
    canonical =
        rw canonicalize_source-terminate
          (terminate-IsCanonical (unify_newlines v) (contains-unify_newlines v))

    there : canonicalize_source v ≡ v → IsCanonical v
    there h = subst IsCanonical h canonical

    back : IsCanonical v → canonicalize_source v ≡ v
    back h =
        canonicalize_source-terminate v
        ∙ rw (unify_newlines-of_clean v h.0) (terminate_of_IsCanonical v h)

starts_with-unify_newlines :
    (v : Text) → starts_with (unify_newlines v) byte_order_mark ≡ starts_with v byte_order_mark
unfolding starts_with
starts_with-unify_newlines [] = refl
starts_with-unify_newlines (a ∷ []) = ground arith
starts_with-unify_newlines (a ∷ b ∷ []) = ground arith
starts_with-unify_newlines (a ∷ b ∷ c ∷ []) = ground arith
starts_with-unify_newlines (a ∷ b ∷ c ∷ d ∷ v) = ground arith

starts_with-terminate :
    (v : Text) → starts_with (terminate v) byte_order_mark ≡ starts_with v byte_order_mark
unfolding starts_with terminate
starts_with-terminate [] = refl
starts_with-terminate (a ∷ []) = ground arith
starts_with-terminate (a ∷ b ∷ []) = ground arith
starts_with-terminate (a ∷ b ∷ c ∷ v) = ground arith

starts_with-canonicalize_source :
    (v : Text) → starts_with (canonicalize_source v) byte_order_mark ≡ starts_with v byte_order_mark
starts_with-canonicalize_source v =
    rw canonicalize_source-terminate
      (starts_with-terminate (unify_newlines v) ∙ starts_with-unify_newlines v)

try_from-eq-ok :
    (v : Text) (s : CanonicalSource)
    → try_from v ≡ ok s
    → (starts_with v byte_order_mark ≡ false) × (canonicalize_source v ≡ s.text)
unfolding try_from
try_from-eq-ok v s h = elim (Bool-cases (starts_with v byte_order_mark)) [
  | inl e ↦ absurd (cc (rw e at h))
  | inr e ↦ (e, ok-injective (rw e at h))
]
  where
    ok-injective :
        ◌≡◌ {A = Result CanonicalSourceError CanonicalSource}
          (ok (record { text = canonicalize_source v }))
          (ok s)
        → canonicalize_source v ≡ s.text
    ok-injective e = cc

try_from_of_canonical :
    (v : Text)
    → starts_with v byte_order_mark ≡ false
    → canonicalize_source v ≡ v
    → try_from v ≡ ok (record { text = v })
unfolding try_from
try_from_of_canonical v h e = rw (h, e)

-- A source that was accepted is accepted again as it is: its text is in canonical form, and has
-- no byte-order mark in front.
try_from-try_from :
    (v : Text) (s : CanonicalSource)
    → try_from v ≡ ok s
    → IsCanonical s.text × (try_from s.text ≡ ok s)
try_from-try_from v s h =
    let (unmarked, e) = try_from-eq-ok v s h in
    let canonical = subst IsCanonical e (canonicalize_source-IsCanonical v).0 in
    (
      canonical,
      try_from_of_canonical s.text
          (ap (λ t. starts_with t byte_order_mark) (sym e)
            ∙ starts_with-canonicalize_source v
            ∙ unmarked)
          ((canonicalize_source-IsCanonical s.text).1.1 canonical),
    )
