-- ===== src/Commit/Safety.antt =====
-- What a failed commit has left alone.
use mathlib.Core.Path.{subst}
use zwirn.Prelude.{ℕ, Bool, List, map, ◌≡◌, Option, none, some, err}
use zwirn.Text.{Text}
use zwirn.Access.{AccessPolicy, access_failure, operation_failure, World}
use zwirn.Fragment.Path.{FragmentPath}
use zwirn.Commit.{
  ExternalWrite, ExternalOutput, DocumentOutput, CommitFilesystem, Failure, commit_using,
  write_document_failed,
}
use zwirn.Commit.Stages.{
  output_path, ParentReady, not_needed, created, WrittenOne, written_one, Written, none_written,
  one_more, OutputFails, parent_fails, output_refused, write_fails, aliased, at_output,
  document_refused, document_fails,
}
use zwirn.Commit.Report.{
  CommitFails, out_of_order, out_of_memory, in_outputs, in_document, CommitOutcome,
  commit_using-CommitOutcome,
}

-- The write of the document was begun, and failed.
abbrev pub IsDocumentFailure : {A I : Type 0} → Failure A I → Type 0
IsDocumentFailure (access_failure f) = ⊥
IsDocumentFailure (operation_failure e) = elim e.failure [
  | write_document_failed destination source ↦ Unit
  | _ ↦ ⊥
]

module _ {F I : Type 0} (files : CommitFilesystem F I) (parent : Text → Option Text)
    (absent_targets : List FragmentPath) where
  module _ (P : F → Type 0) (dirs : (path : Text) (f : F) → P f → P (files.create_dir_all path f).0)
      (writes : (path : FragmentPath) (bytes : Text) (write : ExternalWrite) (f : F)
        → P f
        → P (files.write_external path bytes write absent_targets f).0) where
    ParentReady-keeps :
        (o : ExternalOutput) (f after : F)
        → ParentReady files parent absent_targets o f after
        → P f
        → P after
    ParentReady-keeps o f _ (not_needed _ q) h = h
    ParentReady-keeps o f _ (created _ after path q r) h = subst (λ m. P m.0) r (dirs path f h)

    WrittenOne-keeps :
        (o : ExternalOutput) (alias : Option FragmentPath) (f after : F)
        → WrittenOne files parent absent_targets o alias f after
        → P f
        → P after
    WrittenOne-keeps o alias f _ (written_one _ ready after p q) h =
        subst (λ m. P m.0) q (writes o.path o.bytes o.write ready (ParentReady-keeps o f ready p h))

    Written-keeps :
        (os : List ExternalOutput) (f after : F)
        → Written files parent absent_targets os f after
        → P f
        → P after
    Written-keeps _ f _ (none_written _) h = h
    Written-keeps _ f _ (one_more o rest _ middle after w ws) h =
        Written-keeps rest middle after ws (WrittenOne-keeps o none f middle w h)

    OutputFails-keeps :
        {A : Type 0} (o : ExternalOutput) (done : List FragmentPath) (f after : F) (e : Failure A I)
        → OutputFails files parent absent_targets o done f e after
        → P f
        → P after
    OutputFails-keeps o done f _ _ (parent_fails path after i q r) h =
        subst (λ m. P m.0) r (dirs path f h)
    OutputFails-keeps o done f _ _ (output_refused ready source p) h =
        ParentReady-keeps o f ready p h
    OutputFails-keeps o done f _ _ (write_fails ready after i p q) h =
        subst (λ m. P m.0) q (writes o.path o.bytes o.write ready (ParentReady-keeps o f ready p h))
    OutputFails-keeps o done f _ _ (aliased after other w) h =
        WrittenOne-keeps o (some other) f after w h

module _ {S A F I : Type 0} (policy : AccessPolicy S A) (files : CommitFilesystem F I)
    (parent : Text → Option Text) (can_reserve : ℕ → Bool) (absent_targets : List FragmentPath)
    (external : List ExternalOutput) (document : Option DocumentOutput) (world after : World S F)
    (e : Failure A I)
    (fails : commit_using policy files parent can_reserve external absent_targets document world
      ≡ (after, err e)) where
  commit_using-CommitFails :
      CommitFails files parent can_reserve absent_targets external document world.filesystem e
        after.filesystem
  commit_using-CommitFails =
      subst
        (CommitOutcome files parent can_reserve absent_targets external document policy
          world.filesystem)
        fails
        (commit_using-CommitOutcome files parent can_reserve absent_targets external document policy
          world)

  -- Unless the write of the document itself failed, a failed commit has not begun it: whatever the
  -- creation of directories and the writes of outputs preserve still holds.
  pub commit_using_frame :
      (P : F → Type 0)
      → ((path : Text) (f : F) → P f → P (files.create_dir_all path f).0)
      → ((path : FragmentPath) (bytes : Text) (write : ExternalWrite) (f : F)
          → P f
          → P (files.write_external path bytes write absent_targets f).0)
      → ¬ IsDocumentFailure e
      → P world.filesystem
      → P after.filesystem
  commit_using_frame P dirs writes other h =
      by_stage e after.filesystem commit_using-CommitFails other
    where
      by_stage :
          (e : Failure A I) (f : F)
          → CommitFails files parent can_reserve absent_targets external document world.filesystem e
              f
          → ¬ IsDocumentFailure e
          → P f
      by_stage _ _ (out_of_order _ d) other = h
      by_stage _ _ (out_of_memory ordered r) other = h
      by_stage e f (in_outputs _ _ ordered (at_output before o rest m _ _ q ws o_fails)) other =
          OutputFails-keeps files parent absent_targets P dirs writes o (map output_path before) m f
            e o_fails
            (Written-keeps files parent absent_targets P dirs writes before world.filesystem m ws h)
      by_stage _ _ (in_document last m _ _ d ordered ws (document_refused source)) other =
          Written-keeps files parent absent_targets P dirs writes external world.filesystem m ws h
      by_stage _ _ (in_document last m _ _ d ordered ws (document_fails after i q)) other =
          absurd (other tt)
