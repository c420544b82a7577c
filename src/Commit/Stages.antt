-- ===== src/Commit/Stages.antt =====
-- How far a commit got: the files that were written, and the stage at which it failed.
use zwirn.Prelude.{List, [], ◌∷◌, ◌++◌, map, ◌≡◌, Option, none, some, ok, err}
use zwirn.Text.{Text}
use zwirn.Access.{access_failure, operation_failure}
use zwirn.Fragment.Path.{FragmentPath}
use zwirn.Commit.{
  ExternalOutput, DocumentOutput, create_external_parent, write_external_failed,
  created_target_alias, write_document_failed, CommitFilesystem, Failure, nonempty_parent,
}

abbrev pub output_path : ExternalOutput → FragmentPath
output_path o = o.path

-- The paths that a failure reports as written.
abbrev pub reported : {A I : Type 0} → Failure A I → List FragmentPath
reported (access_failure f) = f.completed
reported (operation_failure e) = e.completed

module _ {F I : Type 0} (files : CommitFilesystem F I) (parent : Text → Option Text)
    (absent_targets : List FragmentPath) where
  -- The parent of an output is there: none is needed, or it was created.
  pub data ParentReady (output : ExternalOutput) : F → F → Type 0 where
    not_needed : (f : F) → nonempty_parent parent output.path.text ≡ none → ParentReady output f f
    created :
        (f after : F) (path : Text)
        → nonempty_parent parent output.path.text ≡ some path
        → files.create_dir_all path f ≡ (after, ok tt)
        → ParentReady output f after

  -- The write of one output, with the alias that it reports.
  pub data WrittenOne (output : ExternalOutput) (alias : Option FragmentPath) : F → F → Type 0 where
    written_one :
        (f ready after : F)
        → ParentReady output f ready
        → files.write_external output.path output.bytes output.write absent_targets ready
          ≡ (after, ok alias)
        → WrittenOne output alias f after

  -- All of these outputs are written in this order, and none is an alias.
  pub data Written : List ExternalOutput → F → F → Type 0 where
    none_written : (f : F) → Written [] f f
    one_more :
        (output : ExternalOutput) (rest : List ExternalOutput) (f middle after : F)
        → WrittenOne output none f middle
        → Written rest middle after
        → Written (output ∷ rest) f after

  -- Why the output that follows the completed ones failed, and the state that this leaves. Only a
  -- write that failed itself, or the creation of the parent, has changed anything.
  pub data OutputFails {A : Type 0} (output : ExternalOutput) (done : List FragmentPath) (f : F)
      : Failure A I → F → Type 0 where
    parent_fails :
        (path : Text) (after : F) (e : I)
        → nonempty_parent parent output.path.text ≡ some path
        → files.create_dir_all path f ≡ (after, err e)
        → OutputFails output done f
            (operation_failure (record {
              completed = done;
              failure =
                  create_external_parent output.path
                    (files.external_destination after output.path)
                    e;
            }))
            after
    output_refused :
        (ready : F) (source : A)
        → ParentReady output f ready
        → OutputFails output done f
            (access_failure (record { source = source; completed = done }))
            ready
    write_fails :
        (ready after : F) (e : I)
        → ParentReady output f ready
        → files.write_external output.path output.bytes output.write absent_targets ready
          ≡ (after, err e)
        → OutputFails output done f
            (operation_failure (record {
              completed = done;
              failure =
                  write_external_failed output.path
                    (files.external_destination ready output.path)
                    e;
            }))
            after
    aliased :
        (after : F) (other : FragmentPath)
        → WrittenOne output (some other) f after
        → OutputFails output done f
            (operation_failure (record {
              completed = done ++ (output.path ∷ []);
              failure = created_target_alias output.path other;
            }))
            after

  -- A failure among the external outputs: those before it are written and reported as completed.
  pub data OutputsFail {A : Type 0} (external : List ExternalOutput) (done : List FragmentPath)
      (f : F) : Failure A I → F → Type 0 where
    at_output :
        (before : List ExternalOutput) (output : ExternalOutput) (rest : List ExternalOutput)
        (middle after : F) (e : Failure A I)
        → external ≡ before ++ (output ∷ rest)
        → Written before f middle
        → OutputFails output (done ++ map output_path before) middle e after
        → OutputsFail external done f e after

  pub data DocumentFails {A : Type 0} (document : DocumentOutput) (done : List FragmentPath) (f : F)
      : Failure A I → F → Type 0 where
    document_refused :
        (source : A)
        → DocumentFails document done f
            (access_failure (record { source = source; completed = done }))
            f
    document_fails :
        (after : F) (e : I)
        → files.write_document document.destination document.bytes f ≡ (after, err e)
        → DocumentFails document done f
            (operation_failure
              (record { completed = done; failure = write_document_failed document.destination e }))
            after

  -- The document is written, where there is one.
  pub data DocumentWritten : Option DocumentOutput → F → F → Type 0 where
    no_document : (f : F) → DocumentWritten none f f
    document_written :
        (document : DocumentOutput) (f after : F)
        → files.write_document document.destination document.bytes f ≡ (after, ok tt)
        → DocumentWritten (some document) f after
