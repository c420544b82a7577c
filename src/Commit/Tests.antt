-- ===== src/Commit/Tests.antt =====
-- Runs of a commit, and its theorems at concrete inputs.
use Prim.Native.String.{String}
use zwirn.Prelude.{
  arith, ℕ, List, [], ◌∷◌, ◌≡◌, refl, Option, none, some, if◌then◌else◌, Result, ok, err,
}
use zwirn.Text.{Text, ascii, text_eq}
use zwirn.Text.Order.{text_lt}
use zwirn.Access.{World, direct_access, access_with, operation_failure}
use zwirn.Fragment.Path.{FragmentPath}
use zwirn.Fragment.Tests.{always}
use zwirn.Commit.{
  ExternalOutput, ExternalWrite, create_or_truncate, DocumentOutput, CommitFilesystem, Failure,
  write_external_failed, write_output, write_outputs, write_last, commit_using, validate_order,
}
use zwirn.Commit.Report.{CommitOutcome, commit_using-CommitOutcome}
use zwirn.Commit.Safety.{commit_using_frame}

-- A disk that knows the files written and the document; it has no room for the file `b`.
record Disk : Type 0 where
  files : List Text
  document : Text

abbrev write_file :
    FragmentPath
    → Text
    → ExternalWrite
    → List FragmentPath
    → Disk
    → Disk × Result ℕ (Option FragmentPath)
write_file path bytes write absent disk =
    if text_eq path.text (ascii "b")
    then (disk, err 28)
    else (record disk { files = path.text ∷ disk.files }, ok none)

abbrev full_disk : CommitFilesystem Disk ℕ
full_disk = record {
  external_destination = λ disk path. path.text;
  create_dir_all = λ path disk. (record disk { files = path ∷ disk.files }, ok tt);
  write_external = write_file;
  write_document = λ path bytes disk. (record disk { document = bytes }, ok tt);
}

abbrev no_parent : Text → Option Text
no_parent path = some []

abbrev output : String → ExternalOutput
output name = record {
  path = record { text = ascii name };
  bytes = ascii "x\n";
  write = create_or_truncate;
}

abbrev outputs : List ExternalOutput
outputs = output "a" ∷ output "b" ∷ output "c" ∷ []

abbrev document : Option DocumentOutput
document = some (record { destination = ascii "doc"; bytes = ascii "new" })

abbrev before : World (Unit {0}) Disk
before = record { access = tt; filesystem = record { files = []; document = ascii "old" } }

abbrev after : World (Unit {0}) Disk
after = record {
  access = tt;
  filesystem = record { files = ascii "a" ∷ []; document = ascii "old" };
}

abbrev failure : Failure ⊥ ℕ
failure = operation_failure (record {
  completed = record { text = ascii "a" } ∷ [];
  failure = write_external_failed (record { text = ascii "b" }) (ascii "b") 28;
})

commit_outputs :
    commit_using direct_access full_disk no_parent always outputs [] document before
    ≡ (after, err failure)
unfolding commit_using validate_order write_outputs write_output write_last access_with text_lt
    text_eq
commit_outputs = refl

commit_using-CommitOutcome_example :
    CommitOutcome full_disk no_parent always [] outputs document direct_access before.filesystem
      (commit_using direct_access full_disk no_parent always outputs [] document before)
commit_using-CommitOutcome_example =
    commit_using-CommitOutcome full_disk no_parent always [] outputs document direct_access before

write_file_keeps :
    (path : FragmentPath) (bytes : Text) (write : ExternalWrite) (disk : Disk)
    → disk.document ≡ ascii "old"
    → ((write_file path bytes write [] disk).0).document ≡ ascii "old"
write_file_keeps path bytes write disk h = ground arith

commit_using_frame_example : after.filesystem.document ≡ ascii "old"
commit_using_frame_example =
    commit_using_frame direct_access full_disk no_parent always [] outputs document before after
      failure commit_outputs (λ (disk : Disk). disk.document ≡ ascii "old") (λ path disk h. h)
      write_file_keeps (λ (h : ⊥). h) refl
