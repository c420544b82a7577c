-- ===== src/Inventory/Tests.antt =====
-- Runs of the checks on discovered fragments.
use Prim.Native.String.{String}
use zwirn.TreeMap
use zwirn.Fragment.Path.{FragmentPath}
use zwirn.Inventory.Select.{IsPathSorted, HasEntry, select-IsPathSorted}
use zwirn.Prelude.{All, ℕ, List, [], ◌∷◌, ◌≡◌, ◌↔◌, refl, none, ok, err}
use zwirn.Text.{ascii}
use zwirn.Text
use zwirn.Text.Order.{text_lt}
use zwirn.Inventory.{
  validate_path_prefixes, path_prefix_conflict, find_fragment, validate_ancestors, InventoryEntry,
  select, DiscoveredFragment, duplicate_fragment, sort_by_path, validate_uniqueness,
}
use zwirn.Inventory.Prefixes.{IsAncestor, validate_path_prefixes_iff}
use zwirn.Inventory.Discover.{discover_fragments, AreDiscovered, discover_fragments-AreDiscovered}
use zwirn.Adls.Document
use zwirn.Engine.Materialize.Tests.{bytes}
use zwirn.Inventory.Unique.{Distinct, IsAscending, validate_uniqueness-Distinct}

abbrev found : String → ℕ → DiscoveredFragment
found path node_index = record {
  node_index = node_index;
  path = record { text = ascii path };
  embedded = record { text = ascii "x\n" };
  baseline = none;
}

abbrev twice : List DiscoveredFragment
twice = found "b" 1 ∷ found "a" 2 ∷ found "b" 3 ∷ []

validate_uniqueness-twice :
    validate_uniqueness (sort_by_path twice)
    ≡ err (duplicate_fragment (record { text = ascii "b" }) 1 3)
unfolding validate_uniqueness sort_by_path text_lt Text.text_eq
validate_uniqueness-twice = refl

validate_uniqueness-Distinct_example :
    ((validate_uniqueness (sort_by_path twice) ≡ ok tt) ↔ Distinct twice)
    × (validate_uniqueness (sort_by_path twice) ≡ ok tt → IsAscending (sort_by_path twice))
validate_uniqueness-Distinct_example = validate_uniqueness-Distinct twice

abbrev entry : String → InventoryEntry
entry path = record {
  node_index = 0;
  path = record { text = ascii path };
  embedded = record { text = ascii "x\n" };
  baseline = none;
  target = ascii path;
  filesystem = none;
}

abbrev inventory : List InventoryEntry
inventory = entry "a" ∷ entry "b" ∷ entry "c" ∷ []

abbrev selectors : List FragmentPath
selectors =
    record { text = ascii "c" } ∷ record { text = ascii "a" } ∷ record { text = ascii "c" } ∷ []

abbrev selected : List InventoryEntry
selected = entry "a" ∷ entry "c" ∷ []

select-inventory : select inventory selectors ≡ ok selected
unfolding select TreeMap.insert TreeMap.keys text_lt Text.text_eq
select-inventory = refl

inventory-IsPathSorted : IsPathSorted inventory
unfolding text_lt
inventory-IsPathSorted = ((refl, (refl, tt)), ((refl, tt), (tt, tt)))

select-IsPathSorted_example :
    IsPathSorted selected × All (λ (e : InventoryEntry). HasEntry e inventory) selected
select-IsPathSorted_example =
    select-IsPathSorted inventory selectors selected inventory-IsPathSorted select-inventory

abbrev nested : List DiscoveredFragment
nested = found "a" 1 ∷ found "b" 2 ∷ found "b/c" 3 ∷ []

validate_path_prefixes-nested :
    validate_path_prefixes nested
    ≡ err (path_prefix_conflict (record { text = ascii "b" }) (record { text = ascii "b/c" }))
unfolding validate_path_prefixes find_fragment validate_ancestors Text.text_eq
validate_path_prefixes-nested = refl

validate_path_prefixes_iff_example :
    (validate_path_prefixes nested ≡ ok tt)
    ↔ All
        (λ (e : DiscoveredFragment).
          All (λ (a : DiscoveredFragment). ¬ IsAncestor a e.path.text) nested)
        nested
unfolding text_lt
validate_path_prefixes_iff_example =
    validate_path_prefixes_iff nested ((refl, (refl, tt)), ((refl, tt), (tt, tt)))

-- The fragment of the small document.
abbrev discovered : List DiscoveredFragment
discovered = found "a" 1 ∷ []

discover_fragments-small : discover_fragments 1 bytes ≡ ok discovered
unfolding discover_fragments validate_uniqueness sort_by_path validate_path_prefixes find_fragment
    validate_ancestors Document.parse zwirn.Text.text_eq zwirn.Adls.Layout.add zwirn.TreeMap.get
    zwirn.TreeMap.last_below zwirn.TreeMap.first_from zwirn.Adls.Parser.follow_uoffset
    zwirn.Adls.Table.table zwirn.Adls.Parser.read_u16 zwirn.Adls.Parser.require_range
    zwirn.Adls.Layout.add_table zwirn.TreeMap.insert zwirn.Adls.Table.field
    zwirn.Adls.Kind.from_type_id zwirn.Text.Utf8.is_utf8 zwirn.Fragment.Source.parse
    zwirn.Fragment.Lines.physical_lines zwirn.Fragment.Marker.marker_comment
    zwirn.Fragment.Marker.parse_marker zwirn.Fragment.Marker.skip_horizontal
    zwirn.Fragment.Marker.token_end zwirn.Fragment.Path.try_from zwirn.Fragment.Hash.from_str
    zwirn.Fragment.Source.fragments zwirn.Text.Range.index_range zwirn.Text.Split.split
    zwirn.Text.contains zwirn.Text.ends_with zwirn.Text.has_whitespace zwirn.Text.starts_with
    zwirn.Fragment.Canonical.try_from
discover_fragments-small = refl

discover_fragments-AreDiscovered_example :
    (document : Document.Document) × (all : List DiscoveredFragment) × (Document.parse 1 bytes
      ≡ ok document)
    × AreDiscovered document.sources all
    × (discovered ≡ sort_by_path all)
    × IsAscending discovered
    × All
        (λ (e : DiscoveredFragment).
          All (λ (a : DiscoveredFragment). ¬ IsAncestor a e.path.text) discovered)
        discovered
discover_fragments-AreDiscovered_example =
    discover_fragments-AreDiscovered 1 bytes discovered discover_fragments-small
