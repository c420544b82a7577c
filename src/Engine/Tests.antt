-- ===== src/Engine/Tests.antt =====
-- Runs of the engine's part, and its theorems at concrete inputs.
use mathlib.Core.List.{Forall₂}
use zwirn.Prelude.{Option, ℕ, true, false, List, [], ◌∷◌, map, ◌≡◌, ◌↔◌, refl, none, some, ok, err}
use zwirn.Text.{Text, ascii}
use zwirn.Text
use zwirn.Text.Order.{text_lt}
use zwirn.TreeMap
use zwirn.Fragment.Canonical.{CanonicalSource}
use zwirn.Fragment.Hash.{from_source}
use zwirn.Fragment.Tests.{sum_digest, always}
use zwirn.Fragment.Rewrite.{replace_update, record_update}
use zwirn.Reconcile.{
  State, Classification, Operation, all, explicit, Action, Decision, settled, act, unresolved,
  PlanError, classify, plan, plan_one,
}
use zwirn.Reconcile
use zwirn.Reconcile.States.{classify_copies}
use zwirn.Access.{World, direct_access, access_with}
use zwirn.Engine.Mutate.{report_of, write_gathered}
use zwirn.Commit.{
  CommitFilesystem, commit_using, write_outputs, write_output, write_last, validate_order,
}
use zwirn.Engine.{
  absent_targets, InventoryEntry, EngineError, Gathered, action_entry, synchronized, exit_state,
  gather, nothing_gathered, external_outputs, map_plan_error,
}
use zwirn.Inventory.Select.{IsPathSorted}
use zwirn.Engine.Exit.{copies_of, EndsSynchronized, gather-EndsSynchronized}
use zwirn.Engine.Outputs.{validate_order-external_outputs}
use zwirn.Engine.Errors.{classification_of, NamesOther, map_plan_error-NamesOther}

abbrev old_text : CanonicalSource
old_text = record { text = ascii "a\n" }

abbrev new_text : CanonicalSource
new_text = record { text = ascii "b\n" }

-- The file of `a` was changed; `b` has no file yet; the copies of `c` agree.
abbrev entry_a : InventoryEntry
entry_a = record {
  path = record { text = ascii "a" };
  node_index = 3;
  embedded = old_text;
  baseline = some (from_source sum_digest old_text.text);
  target = ascii "a";
  filesystem = some new_text;
}

abbrev entry_b : InventoryEntry
entry_b = record {
  path = record { text = ascii "b" };
  node_index = 3;
  embedded = new_text;
  baseline = none;
  target = ascii "b";
  filesystem = none;
}

abbrev entry_c : InventoryEntry
entry_c = record entry_a {
  path = record { text = ascii "c" };
  target = ascii "c";
  filesystem = some old_text;
}

abbrev entries : List InventoryEntry
entries = entry_a ∷ entry_b ∷ entry_c ∷ []

abbrev decisions : List Decision
decisions = act Action.embed ∷ act Action.extract ∷ settled ∷ []

abbrev gathered : Gathered
gathered = record {
  node_updates = (3, replace_update entry_a.path new_text ∷ record_update entry_b.path ∷ []) ∷ [];
  extracted = entry_b ∷ [];
  entries = action_entry entry_a.path Action.embed ∷ action_entry entry_b.path Action.extract ∷ [];
  attention = false;
}

plan-entries :
    plan always Operation.sync all (map (classify_copies sum_digest) (map copies_of entries))
    ≡ ok decisions
unfolding plan classify plan_one Text.text_eq
plan-entries = refl

gather-entries : gather entries decisions nothing_gathered ≡ ok gathered
unfolding gather TreeMap.get TreeMap.insert
gather-entries = refl

gather-EndsSynchronized_example :
    (h : Gathered) × (gather entries decisions nothing_gathered ≡ ok h)
    × ((exit_state h.attention ≡ synchronized)
        ↔ Forall₂ (EndsSynchronized sum_digest) entries decisions)
gather-EndsSynchronized_example =
    gather-EndsSynchronized sum_digest always Operation.sync all entries decisions plan-entries

entries-IsPathSorted : IsPathSorted entries
unfolding text_lt
entries-IsPathSorted = ((refl, (refl, tt)), ((refl, tt), (tt, tt)))

validate_order-external_outputs_example :
    validate_order {I = ℕ} (external_outputs gathered.extracted) ≡ ok tt
validate_order-external_outputs_example =
    validate_order-external_outputs {I = ℕ} entries decisions gathered entries-IsPathSorted
      gather-entries

abbrev batch : List (InventoryEntry × Classification)
batch = (entry_a, Classification.conflict) ∷ (entry_b, Classification.embed) ∷ []

plan-batch :
    plan always (Operation.embed true) explicit (map classification_of batch)
    ≡ err (Reconcile.invalid_forced_state 1 State.embed)
unfolding plan
plan-batch = refl

map_plan_error-NamesOther_example :
    (f : EngineError) × (map_plan_error (Reconcile.invalid_forced_state 1 State.embed) batch ≡ ok f)
    × NamesOther batch f
map_plan_error-NamesOther_example =
    map_plan_error-NamesOther always (Operation.embed true) explicit batch
      (Reconcile.invalid_forced_state 1 State.embed) plan-batch

-- A disk that lists what was written, the latest first.
abbrev pub disk : CommitFilesystem (List Text) ℕ
disk = record {
  external_destination = λ log path. path.text;
  create_dir_all = λ path log. (path ∷ log, ok tt);
  write_external = λ path bytes write absent log. (path.text ∷ log, ok none);
  write_document = λ path bytes log. (path ∷ log, ok tt);
}

abbrev pub no_parent : Text → Option Text
no_parent path = none

abbrev pub empty_disk : World (Unit {0}) (List Text)
empty_disk = record { access = tt; filesystem = [] }

abbrev written_disk : World (Unit {0}) (List Text)
written_disk = record { access = tt; filesystem = ascii "doc" ∷ ascii "b" ∷ [] }

write_gathered-disk :
    write_gathered direct_access disk no_parent always
      (ascii "doc")
      entries
      gathered
      (some (ascii "new"))
      empty_disk
    ≡ (written_disk, ok (report_of gathered))
unfolding write_gathered external_outputs absent_targets commit_using validate_order write_outputs
    write_output write_last access_with
write_gathered-disk = refl
