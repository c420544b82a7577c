-- ===== src/Prelude/Lists.antt =====
-- Lists measured and cut by native numbers, and predicates on every element.
use Prim.Native.Nat.{ℕ, zero, suc, ◌+◌, ◌-◌, ◌≤◌}
use Prim.Native.Nat.add
use native.Mathlib.Nat.{zero-add}
use mathlib.Core.Path.{◌≡◌, refl, sym, ap, ◌∙◌}
use mathlib.Core.List.{List, [], ◌∷◌, ◌++◌}
use mathlib.Core.Bool.{Bool, true, false}
use mathlib.Core.Option.{Option, none, some}
use native.Mathlib.Omega.{arith}

module _ {ℓ} {A : Type ℓ} where
  abbrev pub length : List A → ℕ
  length [] = 0
  length (x ∷ xs) = suc (length xs)

  abbrev pub get_elem? : List A → ℕ → Option A
  get_elem? [] i = none
  get_elem? (x ∷ xs) zero = some x
  get_elem? (x ∷ xs) (suc i) = get_elem? xs i

  abbrev pub take : ℕ → List A → List A
  take zero xs = []
  take (suc n) [] = []
  take (suc n) (x ∷ xs) = x ∷ take n xs

  abbrev pub drop : ℕ → List A → List A
  drop zero xs = xs
  drop (suc n) [] = []
  drop (suc n) (x ∷ xs) = drop n xs

  abbrev pub replicate : ℕ → A → List A
  replicate zero a = []
  replicate (suc n) a = a ∷ replicate n a

module _ {ℓ} {A : Type ℓ} where
  abbrev pub is_nil : List A → Bool
  is_nil [] = true
  is_nil (x ∷ xs) = false

  pub length-append : (xs ys : List A) → length (xs ++ ys) ≡ length xs + length ys
  length-append [] ys = omega arith
  length-append (x ∷ xs) ys = omega (arith, length-append xs ys)

  pub length-drop : (n : ℕ) (xs : List A) → length (drop n xs) ≡ length xs - n
  length-drop zero xs = omega arith
  length-drop (suc n) [] = omega arith
  length-drop (suc n) (x ∷ xs) = omega (arith, length-drop n xs)

  pub length-take_of_le : (n : ℕ) (xs : List A) → n ≤ length xs → length (take n xs) ≡ n
  length-take_of_le zero xs h = refl
  length-take_of_le (suc n) [] h = absurd (omega arith)
  length-take_of_le (suc n) (x ∷ xs) h = ap suc (length-take_of_le n xs (omega arith))

  pub drop-append : (xs ys : List A) → drop (length xs) (xs ++ ys) ≡ ys
  drop-append [] ys = refl
  drop-append (x ∷ xs) ys = drop-append xs ys

  pub take-append : (xs ys : List A) → take (length xs) (xs ++ ys) ≡ xs
  take-append [] ys = refl
  take-append (x ∷ xs) ys = ap (◌∷◌ x) (take-append xs ys)

  drop-nil : (n : ℕ) → drop {A = A} n [] ≡ []
  drop-nil zero = refl
  drop-nil (suc n) = refl

  pub drop-drop : (m n : ℕ) (xs : List A) → drop n (drop m xs) ≡ drop (m + n) xs
  drop-drop zero n xs = rw zero-add
  drop-drop (suc m) n [] = drop-nil n ∙ sym (drop-nil (suc m + n))
  drop-drop (suc m) n (x ∷ xs) = rw add.suc (drop-drop m n xs)

  pub take-append-drop : (n : ℕ) (xs : List A) → take n xs ++ drop n xs ≡ xs
  take-append-drop zero xs = refl
  take-append-drop (suc n) [] = refl
  take-append-drop (suc n) (x ∷ xs) = ap (◌∷◌ x) (take-append-drop n xs)

-- Every element has the property.
abbrev pub All {ℓ κ} : {A : Type ℓ} → (A → Type κ) → List A → Type κ
All P [] = Unit
All P (x ∷ xs) = P x × All P xs

pub All-append {ℓ κ} :
    {A : Type ℓ} (P : A → Type κ) (xs ys : List A) → All P xs → All P ys → All P (xs ++ ys)
All-append P [] ys h k = k
All-append P (x ∷ xs) ys h k = (h.0, All-append P xs ys h.1 k)

pub All-map {ℓ κ ι} :
    {A : Type ℓ} (P : A → Type κ) (Q : A → Type ι) (xs : List A)
    → ((x : A) → P x → Q x)
    → All P xs
    → All Q xs
All-map P Q [] f h = tt
All-map P Q (x ∷ xs) f h = (f x h.0, All-map P Q xs f h.1)

-- Each element stands in the relation to all those behind it.
abbrev pub Pairwise {ℓ κ} : {A : Type ℓ} → (A → A → Type κ) → List A → Type κ
Pairwise R [] = Unit
Pairwise R (x ∷ xs) = All (R x) xs × Pairwise R xs

pub Pairwise-append {ℓ κ} :
    {A : Type ℓ} (R : A → A → Type κ) (xs : List A) (y : A)
    → Pairwise R xs
    → All (λ x. R x y) xs
    → Pairwise R (xs ++ (y ∷ []))
Pairwise-append R [] y h k = (tt, tt)
Pairwise-append R (x ∷ xs) y h k =
    (All-append (R x) xs (y ∷ []) h.0 (k.0, tt), Pairwise-append R xs y h.1 k.1)

-- Two lists of one length, with the relation between the elements at each place.
abbrev pub Both {ℓ κ} : {A : Type ℓ} {B : Type κ} → (A → B → Type 0) → List A → List B → Type 0
Both R [] [] = Unit
Both R (x ∷ xs) (y ∷ ys) = R x y × Both R xs ys
Both R _ _ = ⊥

pub Both-append {ℓ κ} :
    {A : Type ℓ} {B : Type κ} (R : A → B → Type 0) (xs : List A) (ys : List B) (x : A) (y : B)
    → Both R xs ys
    → R x y
    → Both R (xs ++ (x ∷ [])) (ys ++ (y ∷ []))
Both-append R [] [] x y h k = (k, tt)
Both-append R (a ∷ xs) (b ∷ ys) x y h k = (h.0, Both-append R xs ys x y h.1 k)
Both-append R [] (b ∷ ys) x y h k = elim h [ ]
Both-append R (a ∷ xs) [] x y h k = elim h [ ]

pub Both-map {ℓ κ} :
    {A : Type ℓ} {B : Type κ} (R : A → B → Type 0) (S : A → B → Type 0) (xs : List A) (ys : List B)
    → ((x : A) (y : B) → R x y → S x y)
    → Both R xs ys
    → Both S xs ys
Both-map R S [] [] f h = tt
Both-map R S (x ∷ xs) (y ∷ ys) f h = (f x y h.0, Both-map R S xs ys f h.1)
Both-map R S [] (y ∷ ys) f h = elim h [ ]
Both-map R S (x ∷ xs) [] f h = elim h [ ]

-- What the right list has everywhere by the relation.
pub Both-All {ℓ κ} :
    {A : Type ℓ} {B : Type κ} (R : A → B → Type 0) (P : B → Type 0) (xs : List A) (ys : List B)
    → ((x : A) (y : B) → R x y → P y)
    → Both R xs ys
    → All P ys
Both-All R P [] [] f h = tt
Both-All R P (x ∷ xs) (y ∷ ys) f h = (f x y h.0, Both-All R P xs ys f h.1)
Both-All R P [] (y ∷ ys) f h = elim h [ ]
Both-All R P (x ∷ xs) [] f h = elim h [ ]

pub Both-All_left {ℓ κ} :
    {A : Type ℓ} {B : Type κ} (R : A → B → Type 0) (P : A → Type 0) (xs : List A) (ys : List B)
    → ((x : A) (y : B) → R x y → P x)
    → Both R xs ys
    → All P xs
Both-All_left R P [] [] f h = tt
Both-All_left R P (x ∷ xs) (y ∷ ys) f h = (f x y h.0, Both-All_left R P xs ys f h.1)
Both-All_left R P [] (y ∷ ys) f h = elim h [ ]
Both-All_left R P (x ∷ xs) [] f h = elim h [ ]

pub Both-map_All {ℓ κ} :
    {A : Type ℓ} {B : Type κ} (R : A → B → Type 0) (P : B → Type 0) (S : A → B → Type 0)
    (xs : List A) (ys : List B)
    → ((x : A) (y : B) → R x y → P y → S x y)
    → Both R xs ys
    → All P ys
    → Both S xs ys
Both-map_All R P S [] [] f h k = tt
Both-map_All R P S (x ∷ xs) (y ∷ ys) f h k = (f x y h.0 k.0, Both-map_All R P S xs ys f h.1 k.1)
Both-map_All R P S [] (y ∷ ys) f h k = elim h [ ]
Both-map_All R P S (x ∷ xs) [] f h k = elim h [ ]

pub Both-map_left {ℓ κ} :
    {A : Type ℓ} {B : Type κ} (R : A → B → Type 0) (P : A → Type 0) (S : A → B → Type 0)
    (xs : List A) (ys : List B)
    → ((x : A) (y : B) → R x y → P x → S x y)
    → Both R xs ys
    → All P xs
    → Both S xs ys
Both-map_left R P S [] [] f h k = tt
Both-map_left R P S (x ∷ xs) (y ∷ ys) f h k = (f x y h.0 k.0, Both-map_left R P S xs ys f h.1 k.1)
Both-map_left R P S [] (y ∷ ys) f h k = elim h [ ]
Both-map_left R P S (x ∷ xs) [] f h k = elim h [ ]

All-heads {ℓ κ} :
    {A : Type ℓ} (R : A → A → Type κ) (x : A) (xs ys : List A)
    → All (λ y. All (λ z. R z y) (x ∷ xs)) ys
    → All (R x) ys × All (λ y. All (λ z. R z y) xs) ys
All-heads R x xs [] h = (tt, tt)
All-heads R x xs (y ∷ ys) h = let (a, b) = All-heads R x xs ys h.1 in ((h.0.0, a), (h.0.1, b))

-- Two lists one behind the other.
pub Pairwise-lists {ℓ κ} :
    {A : Type ℓ} (R : A → A → Type κ) (xs ys : List A)
    → Pairwise R xs
    → Pairwise R ys
    → All (λ y. All (λ x. R x y) xs) ys
    → Pairwise R (xs ++ ys)
Pairwise-lists R [] ys p q h = q
Pairwise-lists R (x ∷ xs) ys p q h =
    let (a, b) = All-heads R x xs ys h in
    (All-append (R x) xs ys p.0 a, Pairwise-lists R xs ys p.1 q b)
