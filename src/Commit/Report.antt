-- ===== src/Commit/Report.antt =====
-- A whole commit: what it has done when it returns, and what its error reports.
use zwirn.Prelude.{
  ℕ, Bool, false, List, [], map, ◌≡◌, inl, inr, refl, Option, none, some, Result, ok, err, panic,
  map_err, length, Bool-cases, if◌then◌else◌,
}
use zwirn.Text.{Text}
use zwirn.Access.{AccessPolicy, operation_failure, flatten, World, access_with, run_body}
use zwirn.Fragment.Path.{FragmentPath}
use zwirn.Commit.{
  ExternalOutput, DocumentOutput, allocation_failed, CommitError, CommitFilesystem, Failure,
  and_run, after_document, write_outputs, write_last, commit_using, failed_after, validate_order,
}
use zwirn.Commit.Stages.{
  output_path, Written, OutputsFail, DocumentFails, document_refused, document_fails,
  DocumentWritten, no_document, document_written,
}
use zwirn.Commit.Outcome.{ManyOutcome, write_outputs-ManyOutcome}
use zwirn.Commit.Order.{Ascending, Descent, validate_order_iff, validate_order-Descent}

module _ {F I : Type 0} (files : CommitFilesystem F I) (parent : Text → Option Text)
    (can_reserve : ℕ → Bool) (absent_targets : List FragmentPath) (external : List ExternalOutput)
    (document : Option DocumentOutput) where
  -- The stages at which a commit fails, from the state `f` on.
  pub data CommitFails {A : Type 0} (f : F) : Failure A I → F → Type 0 where
    out_of_order : (e : CommitError I) → Descent external e → CommitFails f (operation_failure e) f
    out_of_memory :
        Ascending external
        → can_reserve (length external) ≡ false
        → CommitFails f
            (operation_failure (record { completed = []; failure = allocation_failed }))
            f
    in_outputs :
        (e : Failure A I) (after : F)
        → Ascending external
        → OutputsFail files parent absent_targets external [] f e after
        → CommitFails f e after
    in_document :
        (last : DocumentOutput) (middle after : F) (e : Failure A I)
        → document ≡ some last
        → Ascending external
        → Written files parent absent_targets external f middle
        → DocumentFails files parent absent_targets last (map output_path external) middle e after
        → CommitFails f e after

  -- All outputs are in order and written, and then the document.
  abbrev pub CommitSucceeds : F → F → Type 0
  CommitSucceeds f after =
      Ascending external
      × ((middle : F) × Written files parent absent_targets external f middle
          × DocumentWritten files parent absent_targets document middle after)

  module _ {S A : Type 0} (policy : AccessPolicy S A) where
    abbrev pub CommitOutcome : F → World S F × Result (Failure A I) (Unit {0}) → Type 0
    CommitOutcome f (world, ok u) = CommitSucceeds f world.filesystem
    CommitOutcome f (world, err e) = CommitFails f e world.filesystem
    CommitOutcome f (world, panic) = Unit

    module _ (ordered : Ascending external) (f middle : F)
        (ws : Written files parent absent_targets external f middle) where
      written-CommitOutcome :
          (last : DocumentOutput)
          → document ≡ some last
          → (s : S) (result : F × Result I (Unit {0}))
          → files.write_document last.destination last.bytes middle ≡ result
          → CommitOutcome f (
            record { access = s; filesystem = result.0 },
            after_document policy files parent last
                (map output_path external)
                (flatten (ok result.1)),
          )
      unfolding after_document
      written-CommitOutcome last d s (after, ok u) q =
          (ordered, (middle, ws, rw d (document_written last middle after q)))
      written-CommitOutcome last d s (after, err i) q =
          in_document last middle after _ d ordered ws (document_fails after i q)
      written-CommitOutcome last d s (after, panic) q = tt

      answered-CommitOutcome :
          (last : DocumentOutput)
          → document ≡ some last
          → (answer : S × Option A)
          → CommitOutcome f (
              let (after, written) =
                run_body policy (files.write_document last.destination last.bytes) answer middle in
              (
                after,
                after_document policy files parent last
                    (map output_path external)
                    (flatten written),
              ))
      unfolding run_body after_document
      answered-CommitOutcome last d (s, some refusal) =
          in_document last middle middle _ d ordered ws (document_refused refusal)
      answered-CommitOutcome last d (s, none) = written-CommitOutcome last d s _ refl

      last-CommitOutcome :
          (s : S) (place : Option DocumentOutput)
          → document ≡ place
          → CommitOutcome f (
              write_last policy files parent place
                (record { access = s; filesystem = middle })
                (map output_path external))
      unfolding write_last access_with
      last-CommitOutcome s none d = (ordered, (middle, ws, rw d (no_document middle)))
      last-CommitOutcome s (some last) d = answered-CommitOutcome last d _

    outputs-CommitOutcome :
        Ascending external
        → (f : F) (result : World S F × Result (Failure A I) (List FragmentPath))
        → ManyOutcome policy files parent absent_targets external [] f result
        → CommitOutcome f (and_run result (write_last policy files parent document))
    outputs-CommitOutcome ordered f (world, ok next) (e, ws) =
        rw e (last-CommitOutcome ordered f world.filesystem ws world.access document refl)
    outputs-CommitOutcome ordered f (world, err e) fails =
        in_outputs e world.filesystem ordered fails
    outputs-CommitOutcome ordered f (world, panic) h = tt

    reserved-CommitOutcome :
        Ascending external
        → (world : World S F)
        → CommitOutcome world.filesystem (
            and_run {0, 0, 0, 0}
              (
                world,
                if can_reserve (length external) then ok tt else failed_after allocation_failed [],
              )
              (λ world _.
                and_run
                  (write_outputs policy files parent absent_targets external [] world)
                  (write_last policy files parent document)))
    reserved-CommitOutcome ordered world = elim (Bool-cases (can_reserve (length external))) [
      | inl e ↦ rw e (
          outputs-CommitOutcome ordered world.filesystem
            (write_outputs policy files parent absent_targets external [] world)
            (write_outputs-ManyOutcome policy files parent absent_targets external [] world))
      | inr e ↦ rw e (out_of_memory ordered e)
    ]

    -- A commit that succeeds had outputs in order, and wrote them in that order, with no alias,
    -- and then the document. One that fails did so at one of its stages, with the file system as
    -- that stage left it: nothing is done for outputs out of order, all outputs before the one
    -- that failed are written and reported, none behind it is, and the document is written only
    -- behind all of them.
    pub commit_using-CommitOutcome :
        (world : World S F)
        → CommitOutcome world.filesystem
            (commit_using policy files parent can_reserve external absent_targets document world)
    unfolding commit_using
    commit_using-CommitOutcome world = by_order (validate_order external) refl
      where
        by_order :
            (order : Result (CommitError I) (Unit {0}))
            → validate_order external ≡ order
            → CommitOutcome world.filesystem (
                and_run
                  (world, map_err operation_failure order)
                  (λ world _.
                    and_run {0, 0, 0, 0}
                      (
                        world,
                        if can_reserve (length external)
                            then ok tt
                            else failed_after allocation_failed [],
                      )
                      (λ world _.
                        and_run
                          (write_outputs policy files parent absent_targets external [] world)
                          (write_last policy files parent document))))
        by_order (ok u) e = reserved-CommitOutcome ((validate_order_iff external).0 e) world
        by_order (err f) e = out_of_order f (validate_order-Descent external f e)
        by_order panic e = tt
