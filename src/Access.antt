-- ===== src/Access.antt =====
-- src/access.rs: the policy around one complete named read or write.
use zwirn.Prelude.{Option, none, some, Result, ok, err, panic}
use zwirn.Text.{Text}

pub data AccessKind : Type 0 where
  read write : AccessKind

-- `AccessPolicy`: the policy's state and its answer, an error or leave to run the body. The body
-- runs only behind that answer, and its value is passed on unchanged.
pub record AccessPolicy {ℓ κ} (S : Type ℓ) (E : Type κ) : Type (ℓ ⊔ κ) where
  pub establish : AccessKind → Text → S → S × Option E

-- `DirectAccess`, whose error type is empty.
abbrev pub direct_access : AccessPolicy (Unit {0}) ⊥
direct_access = record { establish = λ kind path state. (state, none) }

pub data PolicyFailure {ℓ κ} (A : Type ℓ) (O : Type κ) : Type (ℓ ⊔ κ) where
  access_failure : A → PolicyFailure A O
  operation_failure : O → PolicyFailure A O

-- `flatten`, on the results of a policy access.
abbrev pub flatten {ℓ κ ι} :
    {T : Type ℓ} {A : Type κ} {B : Type ι} → Result A (Result B T) → Result (PolicyFailure A B) T
flatten (ok (ok value)) = ok value
flatten (ok (err e)) = err (operation_failure e)
flatten (ok panic) = panic
flatten (err e) = err (access_failure e)
flatten panic = panic

-- `direct_result`.
abbrev pub direct_result {ℓ κ} :
    {T : Type ℓ} {E : Type κ} → Result (PolicyFailure ⊥ E) T → Result E T
direct_result (ok value) = ok value
direct_result (err (operation_failure e)) = err e
direct_result (err (access_failure e)) = elim e [ ]
direct_result panic = panic

-- A policy and what its bodies work on, side by side.
pub record World {ℓ κ} (S : Type ℓ) (F : Type κ) : Type (ℓ ⊔ κ) where
  pub access : S
  pub filesystem : F

module _ {S F E R : Type 0} (policy : AccessPolicy S E) (body : F → F × R) where
  unfoldable pub run_body : S × Option E → F → World S F × Result E R
  run_body (s, some e) f = (record { access = s; filesystem = f }, err e)
  run_body (s, none) f =
      let (after, value) = body f in (record { access = s; filesystem = after }, ok value)

  -- A whole access: the body runs once, or not at all.
  unfoldable pub access_with : AccessKind → Text → World S F → World S F × Result E R
  unfolding run_body
  access_with kind path world = run_body (policy.establish kind path world.access) world.filesystem

-- `PolicyFailure::map_access` and `PolicyFailure::map_operation`.
abbrev pub map_access {ℓ κ ι} :
    {A : Type ℓ} {U : Type κ} {O : Type ι} → (A → U) → PolicyFailure A O → PolicyFailure U O
map_access f (access_failure e) = access_failure (f e)
map_access f (operation_failure e) = operation_failure e

abbrev pub map_operation {ℓ κ ι} :
    {A : Type ℓ} {O : Type κ} {U : Type ι} → (O → U) → PolicyFailure A O → PolicyFailure A U
map_operation f (access_failure e) = access_failure e
map_operation f (operation_failure e) = operation_failure (f e)
