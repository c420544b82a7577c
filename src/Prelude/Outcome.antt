-- ===== src/Prelude/Outcome.antt =====
-- Results of Rust code: a value, an error, or a panic (`unreachable!`, `expect`, a bad index).
use mathlib.Core.Path.{◌≡◌, refl}
use mathlib.Core.Logic.{◌≢◌, ◌⊎◌, inl, inr}
use mathlib.Core.Bool.{Bool, true, false}

pub data Result {ℓ κ} (E : Type ℓ) (A : Type κ) : Type (ℓ ⊔ κ) where
  ok : A → Result E A
  err : E → Result E A
  panic : Result E A

-- The `?` operator.
infixl 5 ◌>>=◌ ◌>>◌
abbrev pub ◌>>=◌ {ℓ κ ι} :
    {E : Type ℓ} {A : Type κ} {B : Type ι} → Result E A → (A → Result E B) → Result E B
panic >>= next = panic
err e >>= next = err e
ok value >>= next = next value

abbrev pub ◌>>◌ {ℓ κ} : {E : Type ℓ} {B : Type κ} → Result E (Unit {0}) → Result E B → Result E B
m >> k = m >>= λ _. k

abbrev pub map_err {ℓ κ ι} :
    {E : Type ℓ} {F : Type κ} {A : Type ι} → (E → F) → Result E A → Result F A
map_err f (ok a) = ok a
map_err f (err e) = err (f e)
map_err f panic = panic

-- `if !test { return Err(e) }`.
abbrev pub require {ℓ} : {E : Type ℓ} → Bool → E → Result E (Unit {0})
require true e = ok tt
require false e = err e

pub >>=-eq-ok {ℓ κ ι} :
    {E : Type ℓ} {A : Type κ} {B : Type ι} (run : Result E A) (next : A → Result E B) {result : B}
    → (run >>= next) ≡ ok result
    → (value : A) × (run ≡ ok value) × (next value ≡ ok result)
>>=-eq-ok panic next h = cc
>>=-eq-ok (err e) next h = cc
>>=-eq-ok (ok value) next h = (value, refl, h)

pub >>=-eq-err {ℓ κ ι} :
    {E : Type ℓ} {A : Type κ} {B : Type ι} (run : Result E A) (next : A → Result E B) {e : E}
    → (run >>= next) ≡ err e
    → (run ≡ err e) ⊎ ((value : A) × (run ≡ ok value) × (next value ≡ err e))
>>=-eq-err panic next h = inl cc
>>=-eq-err (err e) next h = inl cc
>>=-eq-err (ok value) next h = inr (value, refl, h)

pub map_err-eq-ok {ℓ κ ι} :
    {E : Type ℓ} {F : Type κ} {A : Type ι} (f : E → F) (m : Result E A) {a : A}
    → map_err f m ≡ ok a
    → m ≡ ok a
map_err-eq-ok f (ok a) h = cc
map_err-eq-ok f (err e) h = cc
map_err-eq-ok f panic h = cc

-- What cannot panic.
pub >>=-ne-panic {ℓ κ ι} :
    {E : Type ℓ} {A : Type κ} {B : Type ι} (m : Result E A) (f : A → Result E B)
    → m ≢ panic
    → ((a : A) → f a ≢ panic)
    → (m >>= f) ≢ panic
>>=-ne-panic (ok a) f h k = k a
>>=-ne-panic (err e) f h k = λ q. cc
>>=-ne-panic panic f h k = absurd (h refl)

pub map_err-ne-panic {ℓ κ ι} :
    {E : Type ℓ} {F : Type κ} {A : Type ι} (f : E → F) (m : Result E A)
    → m ≢ panic
    → map_err f m ≢ panic
map_err-ne-panic f (ok a) h = λ q. cc
map_err-ne-panic f (err e) h = λ q. cc
map_err-ne-panic f panic h = absurd (h refl)

pub require-ne-panic {ℓ} : {E : Type ℓ} (b : Bool) (e : E) → require b e ≢ panic
require-ne-panic true e = λ q. cc
require-ne-panic false e = λ q. cc

-- The same with the rest of a proof as an argument: the value and what is left to run.
pub >>=-elim {ℓ κ ι ν} :
    {E : Type ℓ} {A : Type κ} {B : Type ι} {C : Type ν} (run : Result E A) (next : A → Result E B)
    {result : B}
    → (run >>= next) ≡ ok result
    → ((value : A) → run ≡ ok value → next value ≡ ok result → C)
    → C
>>=-elim run next h go = let (value, e, k) = >>=-eq-ok run next h in go value e k

pub ok-injective {ℓ κ} :
    {E : Type ℓ} {A : Type κ} {a b : A} → ◌≡◌ {A = Result E A} (ok a) (ok b) → a ≡ b
ok-injective h = cc

-- The same where what follows needs that the first step gave its value.
pub >>=-ne-panic_of {ℓ κ ι} :
    {E : Type ℓ} {A : Type κ} {B : Type ι} (m : Result E A) (f : A → Result E B)
    → m ≢ panic
    → ((a : A) → m ≡ ok a → f a ≢ panic)
    → (m >>= f) ≢ panic
>>=-ne-panic_of (ok a) f h k = k a refl
>>=-ne-panic_of (err e) f h k = λ q. cc
>>=-ne-panic_of panic f h k = absurd (h refl)

pub ok-ne-panic {ℓ κ} : {E : Type ℓ} {A : Type κ} (a : A) → ◌≢◌ {A = Result E A} (ok a) panic
ok-ne-panic a = λ q. cc

pub err-ne-panic {ℓ κ} : {E : Type ℓ} {A : Type κ} (e : E) → ◌≢◌ {A = Result E A} (err e) panic
err-ne-panic e = λ q. cc

pub err-ne-ok {ℓ κ} :
    {E : Type ℓ} {A : Type κ} {e : E} {a : A} → ¬ (◌≡◌ {A = Result E A} (err e) (ok a))
err-ne-ok h = cc
