-- ===== src/Engine/Run/Tests.antt =====
-- A file that a request creates for the fragment of a small document.
use zwirn.Prelude.{true, List, [], ◌∷◌, ◌≡◌, ◌≢◌, refl, none, some, ok, panic}
use zwirn.Text.{Text, ascii}
use zwirn.TreeMap
use zwirn.Access.{World, direct_access, access_with}
use zwirn.Fragment.Tests.{sum_digest, always}
use zwirn.Fragment.Tests.Rewrites.{path_a, new_text}
use zwirn.Reconcile.{Operation, all, explicit, Action, plan, plan_one, classify}
use zwirn.Commit.{commit_using, validate_order, write_outputs, write_output, write_last}
use zwirn.Engine.{
  InventoryEntry, Report, synchronized, action_entry, gather, external_outputs, absent_targets,
}
use zwirn.Engine.Mutate.{write_gathered}
use zwirn.Engine.Tests.{disk, no_parent, empty_disk}
use zwirn.Engine.Materialize.Tests.{bytes}
use zwirn.Engine.Run.{prepare, mutate_with_access}
use zwirn.Engine.Run.CarriedOut.{IsCarriedOut, mutate_with_access-IsCarriedOut}
use zwirn.Engine.Run.Classified.{classified_of}
use zwirn.Engine.Run.Total.{prepare-ne-panic}

-- The fragment has no hash, and its file another source.
abbrev entry : InventoryEntry
entry = record {
  path = path_a;
  node_index = 1;
  embedded = record { text = ascii "x\n" };
  baseline = none;
  target = ascii "a";
  filesystem = some new_text;
}

-- The same fragment without a file.
abbrev new_entry : InventoryEntry
new_entry = record entry { filesystem = none }

abbrev written_disk : World (Unit {0}) (List Text)
written_disk = record { access = tt; filesystem = ascii "doc" ∷ ascii "a" ∷ [] }

abbrev report : Report
report = record { entries = action_entry path_a Action.extract ∷ []; exit = synchronized }

mutate-small :
    mutate_with_access sum_digest always direct_access disk no_parent
      (ascii "doc")
      (new_entry ∷ [])
      1
      2
      3
      bytes
      (classified_of sum_digest (new_entry ∷ []))
      all
      Operation.sync
      empty_disk
    ≡ (written_disk, ok report)
unfolding mutate_with_access prepare plan plan_one gather classify zwirn.Adls.Document.parse
    zwirn.Engine.Materialize.materialize_document write_gathered external_outputs absent_targets
    commit_using validate_order write_outputs write_output write_last access_with zwirn.Text.text_eq
    zwirn.Adls.Layout.add zwirn.TreeMap.get zwirn.TreeMap.last_below zwirn.TreeMap.first_from
    zwirn.Adls.Parser.follow_uoffset zwirn.Adls.Table.table zwirn.Adls.Parser.read_u16
    zwirn.Adls.Parser.require_range zwirn.Adls.Layout.add_table zwirn.TreeMap.insert
    zwirn.Adls.Table.field zwirn.Adls.Kind.from_type_id zwirn.Text.Utf8.is_utf8
    zwirn.Fragment.Source.parse zwirn.Fragment.Lines.physical_lines
    zwirn.Fragment.Marker.marker_comment zwirn.Fragment.Marker.parse_marker
    zwirn.Fragment.Marker.skip_horizontal zwirn.Fragment.Marker.token_end
    zwirn.Fragment.Path.try_from zwirn.Fragment.Hash.from_str zwirn.Fragment.Source.fragments
    zwirn.Text.Range.index_range zwirn.Text.Split.split zwirn.Text.contains zwirn.Text.ends_with
    zwirn.Text.has_whitespace zwirn.Text.starts_with zwirn.Fragment.Rewrite.rewrite
    zwirn.Adls.Rewrite.find_index zwirn.Adls.Rewrite.rewrite zwirn.TreeMap.keys
    zwirn.Fragment.Canonical.canonicalize_source zwirn.Fragment.Hash.display
    zwirn.Text.Order.text_lt
mutate-small = refl

mutate_with_access-IsCarriedOut_example :
    IsCarriedOut sum_digest always direct_access disk no_parent
      (ascii "doc")
      (new_entry ∷ [])
      1
      bytes
      (new_entry ∷ [])
      all
      Operation.sync
      empty_disk
      written_disk
      report
mutate_with_access-IsCarriedOut_example =
    mutate_with_access-IsCarriedOut sum_digest always direct_access disk no_parent (ascii "doc")
      (new_entry ∷ []) 1 2 3 bytes (new_entry ∷ []) all Operation.sync empty_disk written_disk
      report mutate-small

prepare-ne-panic_example :
    prepare sum_digest always 1 2 3 bytes
      (classified_of sum_digest (entry ∷ []))
      explicit
      (Operation.embed true)
    ≢ panic
prepare-ne-panic_example =
    prepare-ne-panic sum_digest always 1 2 3 bytes (entry ∷ []) explicit (Operation.embed true)
