-- ===== src/Commit.antt =====
-- src/commit.rs: prepared files are written in the order of their paths, then the document.
pub mod Stages
pub mod Outcome
pub mod Order
pub mod Report
pub mod Safety
pub mod Tests
use zwirn.Prelude.{
  ℕ, Bool, true, false, not, List, [], ◌∷◌, ◌++◌, Option, none, some, if◌then◌else◌, length, Result,
  ok, err, panic, ◌>>=◌, ◌>>◌, require, map_err,
}
use zwirn.Text.{Text, is_empty}
use zwirn.Text.Order.{text_lt}
use zwirn.Access.{
  AccessPolicy, AccessKind, PolicyFailure, access_failure, operation_failure, flatten, World,
  access_with,
}
use zwirn.Access
use zwirn.Fragment.Path.{FragmentPath}

pub data ExternalWrite : Type 0 where
  create_new create_or_truncate : ExternalWrite

pub record ExternalOutput : Type 0 where
  pub path : FragmentPath
  pub bytes : Text
  pub write : ExternalWrite

pub record DocumentOutput : Type 0 where
  pub destination : Text
  pub bytes : Text

pub record CommitAccessFailure (A : Type 0) : Type 0 where
  pub source : A
  pub completed : List FragmentPath

-- `I` is the error type of the file system.
pub data CommitFailure (I : Type 0) : Type 0 where
  allocation_failed : CommitFailure I
  external_order : FragmentPath → FragmentPath → CommitFailure I
  create_external_parent : FragmentPath → Text → I → CommitFailure I
  write_external_failed : FragmentPath → Text → I → CommitFailure I
  created_target_alias : FragmentPath → FragmentPath → CommitFailure I
  write_document_failed : Text → I → CommitFailure I

pub record CommitError (I : Type 0) : Type 0 where
  pub completed : List FragmentPath
  pub failure : CommitFailure I

-- `CommitFilesystem`.
pub record CommitFilesystem (F I : Type 0) : Type 0 where
  pub external_destination : F → FragmentPath → Text
  pub create_dir_all : Text → F → F × Result I (Unit {0})
  pub write_external :
      FragmentPath
      → Text
      → ExternalWrite
      → List FragmentPath
      → F
      → F × Result I (Option FragmentPath)
  pub write_document : Text → Text → F → F × Result I (Unit {0})

abbrev pub path_lt : FragmentPath → FragmentPath → Bool
path_lt a b = text_lt a.text b.text

-- The loop over `windows(2)`, behind its first path.
validate_after :
    {I : Type 0} → FragmentPath → List ExternalOutput → Result (CommitError I) (Unit {0})
validate_after previous [] = ok tt
validate_after previous (output ∷ rest) =
    if path_lt previous output.path
    then validate_after output.path rest
    else err (record { completed = []; failure = external_order previous output.path })

unfoldable pub validate_order :
    {I : Type 0} → List ExternalOutput → Result (CommitError I) (Unit {0})
unfolding validate_after
validate_order [] = ok tt
validate_order (output ∷ rest) = validate_after output.path rest

-- The effects up to the first error, with the state that they leave.
abbrev pub and_run {ℓ κ ι μ} :
    {W : Type ℓ} {E : Type κ} {A : Type ι} {B : Type μ}
    → W × Result E A
    → (W → A → W × Result E B)
    → W × Result E B
and_run (world, ok a) next = next world a
and_run (world, err e) next = (world, err e)
and_run (world, panic) next = (world, panic)

-- `Path::parent` of the standard library is `parent`.
module _ (parent : Text → Option Text) where
  abbrev keep_nonempty : Option Text → Option Text
  keep_nonempty none = none
  keep_nonempty (some path) = if not (is_empty path) then some path else none

  abbrev pub nonempty_parent : Text → Option Text
  nonempty_parent path = keep_nonempty (parent path)

-- The type of a failed commit.
abbrev pub Failure : Type 0 → Type 0 → Type 0
Failure A I = PolicyFailure (CommitAccessFailure A) (CommitError I)

-- `CommitFailure::after`.
abbrev pub failed_after {ℓ} :
    {T : Type ℓ} {A I : Type 0} → CommitFailure I → List FragmentPath → Result (Failure A I) T
failed_after failure completed =
    err (operation_failure (record { completed = completed; failure = failure }))

abbrev pub refused_after {ℓ} :
    {T : Type ℓ} {A I : Type 0} → A → List FragmentPath → Result (Failure A I) T
refused_after source completed =
    err (access_failure (record { source = source; completed = completed }))

module _ {S A F I : Type 0} (policy : AccessPolicy S A) (files : CommitFilesystem F I)
    (parent : Text → Option Text) where
  -- The call of `create_dir_all`, where there is a parent.
  create_parent : Option Text → F → F × Result I (Unit {0})
  create_parent none f = (f, ok tt)
  create_parent (some path) f = files.create_dir_all path f

  -- What the loop does with the value of a write: `completed` grows before an alias is reported.
  after_alias :
      ExternalOutput
      → List FragmentPath
      → Option FragmentPath
      → Result (Failure A I) (List FragmentPath)
  after_alias output completed none = ok (completed ++ (output.path ∷ []))
  after_alias output completed (some other) =
      failed_after (created_target_alias output.path other) (completed ++ (output.path ∷ []))

  after_write :
      ExternalOutput
      → List FragmentPath
      → Text
      → Result (PolicyFailure A I) (Option FragmentPath)
      → Result (Failure A I) (List FragmentPath)
  after_write output completed destination (ok aliased_target) =
      after_alias output completed aliased_target
  after_write output completed destination (err (access_failure source)) =
      refused_after source completed
  after_write output completed destination (err (operation_failure source)) =
      failed_after (write_external_failed output.path destination source) completed
  after_write output completed destination panic = panic

  module _ (absent_targets : List FragmentPath) where
    after_parent :
        ExternalOutput
        → List FragmentPath
        → World S F
        → Result I (Unit {0})
        → World S F × Result (Failure A I) (List FragmentPath)
    unfolding after_write after_alias
    after_parent output completed world (ok made) =
        let destination = files.external_destination world.filesystem output.path in
        let (after, written) =
          access_with policy
            (files.write_external output.path output.bytes output.write absent_targets)
            AccessKind.write destination world in
        (after, after_write output completed destination (flatten written))
    after_parent output completed world (err source) = (
      world,
      failed_after
          (create_external_parent output.path
            (files.external_destination world.filesystem output.path) source)
          completed,
    )
    after_parent output completed world panic = (world, panic)

    -- The body of the loop, with the new value of `completed`.
    unfoldable pub write_output :
        ExternalOutput
        → List FragmentPath
        → World S F
        → World S F × Result (Failure A I) (List FragmentPath)
    unfolding create_parent after_parent
    write_output output completed world =
        let (after, made) =
          create_parent (nonempty_parent parent output.path.text) world.filesystem in
        after_parent output completed (record world { filesystem = after }) made

    unfoldable pub write_outputs :
        List ExternalOutput
        → List FragmentPath
        → World S F
        → World S F × Result (Failure A I) (List FragmentPath)
    write_outputs [] completed world = (world, ok completed)
    write_outputs (output ∷ rest) completed world =
        and_run (write_output output completed world) (λ after done. write_outputs rest done after)

  -- The last write.
  after_document :
      DocumentOutput
      → List FragmentPath
      → Result (PolicyFailure A I) (Unit {0})
      → Result (Failure A I) (Unit {0})
  after_document document completed (ok written) = ok tt
  after_document document completed (err (access_failure source)) = refused_after source completed
  after_document document completed (err (operation_failure source)) =
      failed_after (write_document_failed document.destination source) completed
  after_document document completed panic = panic

  unfoldable pub write_last :
      Option DocumentOutput
      → World S F
      → List FragmentPath
      → World S F × Result (Failure A I) (Unit {0})
  unfolding after_document
  write_last none world completed = (world, ok tt)
  write_last (some document) world completed =
      let (after, written) =
        access_with policy (files.write_document document.destination document.bytes)
          AccessKind.write document.destination world in
      (after, after_document document completed (flatten written))

  -- `commit_using`; `can_reserve` is the allocator's answer.
  unfoldable pub commit_using :
      (ℕ → Bool)
      → List ExternalOutput
      → List FragmentPath
      → Option DocumentOutput
      → World S F
      → World S F × Result (Failure A I) (Unit {0})
  commit_using can_reserve external absent_targets document world =
      and_run (world, map_err operation_failure (validate_order external))
        (λ world _.
          and_run {0, 0, 0, 0}
            (
              world,
              if can_reserve (length external) then ok tt else failed_after allocation_failed [],
            )
            (λ world _.
              and_run (write_outputs absent_targets external [] world) (write_last document)))
