-- ===== src/Commit/Outcome.antt =====
-- Every run of a commit is one of the stages.
use mathlib.Core.Path.{subst}
use zwirn.Prelude.{
  List, [], ◌∷◌, ◌++◌, map, ◌≡◌, refl, sym, ap, ◌∙◌, Option, none, some, append_assoc, append-nil,
  Result, ok, err, panic,
}
use zwirn.Text.{Text}
use zwirn.Access.{AccessPolicy, flatten, World, access_with, run_body}
use zwirn.Fragment.Path.{FragmentPath}
use zwirn.Commit.{
  ExternalOutput, CommitFilesystem, Failure, nonempty_parent, and_run, create_parent, after_alias,
  after_write, after_parent, write_output, write_outputs,
}
use zwirn.Commit.Stages.{
  output_path, ParentReady, not_needed, created, WrittenOne, written_one, Written, none_written,
  one_more, OutputFails, parent_fails, output_refused, write_fails, aliased, OutputsFail, at_output,
}

module _ {S A F I : Type 0} (policy : AccessPolicy S A) (files : CommitFilesystem F I)
    (parent : Text → Option Text) (absent_targets : List FragmentPath) where
  -- What one turn of the loop may come to, from the state `f` on.
  abbrev OneOutcome :
      ExternalOutput
      → List FragmentPath
      → F
      → World S F × Result (Failure A I) (List FragmentPath)
      → Type 0
  OneOutcome output done f (world, ok next) =
      (next ≡ done ++ (output.path ∷ []))
      × WrittenOne files parent absent_targets output none f world.filesystem
  OneOutcome output done f (world, err e) =
      OutputFails files parent absent_targets output done f e world.filesystem
  OneOutcome output done f (world, panic) = Unit

  module _ (output : ExternalOutput) (done : List FragmentPath) (f : F) where
    written-OneOutcome :
        (s : S) (ready : F)
        → ParentReady files parent absent_targets output f ready
        → (result : F × Result I (Option FragmentPath))
        → files.write_external output.path output.bytes output.write absent_targets ready ≡ result
        → OneOutcome output done f (
          record { access = s; filesystem = result.0 },
          after_write policy files parent output done
              (files.external_destination ready output.path)
              (flatten (ok result.1)),
        )
    unfolding after_write after_alias
    written-OneOutcome s ready p (after, ok none) e = (refl, written_one f ready after p e)
    written-OneOutcome s ready p (after, ok (some other)) e =
        aliased after other (written_one f ready after p e)
    written-OneOutcome s ready p (after, err i) e = write_fails ready after i p e
    written-OneOutcome s ready p (after, panic) e = tt

    answered-OneOutcome :
        (ready : F)
        → ParentReady files parent absent_targets output f ready
        → (answer : S × Option A)
        → OneOutcome output done f (
            let (after, written) =
              run_body policy
                (files.write_external output.path output.bytes output.write absent_targets)
                answer
                ready in
            (
              after,
              after_write policy files parent output done
                  (files.external_destination ready output.path)
                  (flatten written),
            ))
    unfolding run_body after_write
    answered-OneOutcome ready p (s, some refusal) = output_refused ready refusal p
    answered-OneOutcome ready p (s, none) = written-OneOutcome s ready p _ refl

    made-OneOutcome :
        (s : S) (result : F × Result I (Unit {0}))
        → ((u : Unit {0})
            → result.1 ≡ ok u
            → ParentReady files parent absent_targets output f result.0)
        → ((i : I)
            → result.1 ≡ err i
            → (path : Text) × (nonempty_parent parent output.path.text ≡ some path)
              × (files.create_dir_all path f ≡ (result.0, err i)))
        → OneOutcome output done f (
            after_parent policy files parent absent_targets output done
              (record { access = s; filesystem = result.0 })
              result.1)
    unfolding after_parent access_with
    made-OneOutcome s (ready, ok u) good bad = answered-OneOutcome ready (good u refl) _
    made-OneOutcome s (after, err i) good bad =
        let (path, e, q) = bad i refl in parent_fails path after i e q
    made-OneOutcome s (after, panic) good bad = tt

    parent-OneOutcome :
        (s : S) (place : Option Text)
        → nonempty_parent parent output.path.text ≡ place
        → OneOutcome output done f (
            let (after, made) = create_parent policy files parent place f in
            after_parent policy files parent absent_targets output done
              (record { access = s; filesystem = after })
              made)
    unfolding create_parent
    parent-OneOutcome s none e =
        made-OneOutcome s (f, ok tt) (λ u _. not_needed f e) (λ i q. absurd cc)
    parent-OneOutcome s (some path) e = by_result (files.create_dir_all path f) refl
      where
        by_result :
            (result : F × Result I (Unit {0}))
            → files.create_dir_all path f ≡ result
            → OneOutcome output done f (
                after_parent policy files parent absent_targets output done
                  (record { access = s; filesystem = result.0 })
                  result.1)
        by_result (after, made) q =
            made-OneOutcome s (after, made)
              (λ u r. created f after path e (q ∙ ap (λ m. (after, m)) r))
              (λ i r. (path, e, q ∙ ap (λ m. (after, m)) r))

  write_output-OneOutcome :
      (output : ExternalOutput) (done : List FragmentPath) (world : World S F)
      → OneOutcome output done world.filesystem
          (write_output policy files parent absent_targets output done world)
  unfolding write_output
  write_output-OneOutcome output done world =
      parent-OneOutcome output done world.filesystem world.access
        (nonempty_parent parent output.path.text) refl

  abbrev pub ManyOutcome :
      List ExternalOutput
      → List FragmentPath
      → F
      → World S F × Result (Failure A I) (List FragmentPath)
      → Type 0
  ManyOutcome external done f (world, ok next) =
      (next ≡ done ++ map output_path external)
      × Written files parent absent_targets external f world.filesystem
  ManyOutcome external done f (world, err e) =
      OutputsFail files parent absent_targets external done f e world.filesystem
  ManyOutcome external done f (world, panic) = Unit

  module _ (output : ExternalOutput) (rest : List ExternalOutput) (done : List FragmentPath)
      (f : F) where
    later-ManyOutcome :
        (middle : F)
        → WrittenOne files parent absent_targets output none f middle
        → (result : World S F × Result (Failure A I) (List FragmentPath))
        → ManyOutcome rest (done ++ (output.path ∷ [])) middle result
        → ManyOutcome (output ∷ rest) done f result
    later-ManyOutcome middle w (world, ok next) (e, ws) = (
      e ∙ append_assoc done (output.path ∷ []) (map output_path rest),
      one_more output rest f middle world.filesystem w ws,
    )
    later-ManyOutcome middle w (world, err e) (at_output before o os m _ _ q ws fails) =
        at_output (output ∷ before) o os m world.filesystem e (ap (◌∷◌ output) q)
          (one_more output before f middle m w ws)
          (subst (λ d. OutputFails files parent absent_targets o d m e world.filesystem)
            (append_assoc done (output.path ∷ []) (map output_path before)) fails)
    later-ManyOutcome middle w (world, panic) h = tt

    first-ManyOutcome :
        (first : World S F × Result (Failure A I) (List FragmentPath))
        → OneOutcome output done f first
        → ((world : World S F)
            → ManyOutcome rest (done ++ (output.path ∷ [])) world.filesystem (
                write_outputs policy files parent absent_targets rest
                  (done ++ (output.path ∷ []))
                  world))
        → ManyOutcome (output ∷ rest) done f (
            and_run first
              (λ after next. write_outputs policy files parent absent_targets rest next after))
    first-ManyOutcome (world, ok next) (e, w) later = rw e (
        later-ManyOutcome world.filesystem w
          (write_outputs policy files parent absent_targets rest (done ++ (output.path ∷ [])) world)
          (later world))
    first-ManyOutcome (world, err e) fails later =
        at_output [] output rest f world.filesystem e refl (none_written f)
          (rw (append-nil done) fails)
    first-ManyOutcome (world, panic) h later = tt

  pub write_outputs-ManyOutcome :
      (external : List ExternalOutput) (done : List FragmentPath) (world : World S F)
      → ManyOutcome external done world.filesystem
          (write_outputs policy files parent absent_targets external done world)
  unfolding write_outputs
  write_outputs-ManyOutcome [] done world = (sym (append-nil done), none_written world.filesystem)
  write_outputs-ManyOutcome (output ∷ rest) done world =
      first-ManyOutcome output rest done world.filesystem _
        (write_output-OneOutcome output done world)
        (λ after. write_outputs-ManyOutcome rest (done ++ (output.path ∷ [])) after)
