-- ===== src/Adls/Error.antt =====
-- src/adls.rs: node handles and the errors.
use Prim.Native.String.{String}
use zwirn.Prelude.{ℕ, Bool, ◌&&◌, ◌==◌, Option, none, some, Result, ok, err}

-- `document` is the number of the parsed document.
pub record NodeHandle : Type 0 where
  pub index : ℕ
  pub document : ℕ

abbrev pub handle_eq : NodeHandle → NodeHandle → Bool
handle_eq a b = a.index == b.index && a.document == b.document

-- `InvalidSourceUtf8` without the `Utf8Error` inside, which only the text of the error shows.
pub data Error : Type 0 where
  invalid_header invalid_identifier : Error
  malformed : ℕ → String → Error
  missing_patch_object_pool : Error
  duplicate_patch_object_table : ℕ → ℕ → Error
  invalid_source_utf8 : NodeHandle → Error
  unknown_node_handle : NodeHandle → Error
  duplicate_replacement : NodeHandle → Error
  allocation_failed size_limit_exceeded : Error

-- `option.ok_or_else(|| Error::malformed(offset, structure))`.
abbrev pub or_malformed {ℓ} : {A : Type ℓ} → Option A → ℕ → String → Result Error A
or_malformed none offset structure = err (malformed offset structure)
or_malformed (some a) offset structure = ok a
