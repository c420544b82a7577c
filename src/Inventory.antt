-- ===== src/Inventory.antt =====
-- src/inventory.rs: the discovered fragments, sorted, the checks of their paths, and selection.
pub mod Unique
pub mod Select
pub mod Prefixes
pub mod Discover
pub mod Tests
use zwirn.Prelude.{
  some, none, zero, suc, ◌+◌, ◌/◌, length, get_elem?, take, drop, ◌>>=◌, ◌>>◌, ◌++◌, ◌==◌, ℕ, Bool,
  true, false, List, [], ◌∷◌, Option, if◌then◌else◌, Result, ok, err,
}
use zwirn.Text.Order.{text_lt}
use zwirn.Text.Search.{binary_search}
use zwirn.Text.{Text, text_eq}
use zwirn.TreeMap.{TreeMap, insert, keys}
use zwirn.Fragment.Rewrite.{path_key}
use zwirn.Fragment.Path.{FragmentPath, path_eq}
use zwirn.Fragment.Canonical.{CanonicalSource, CanonicalSourceError}
use zwirn.Fragment.Marker.{ParseError}
use zwirn.Adls.Error.{Error}
use zwirn.Fragment.Hash.{BaselineHash}

pub record DiscoveredFragment : Type 0 where
  pub node_index : ℕ
  pub path : FragmentPath
  pub embedded : CanonicalSource
  pub baseline : Option BaselineHash

-- The errors of the document and of the checks on its fragments.
pub data InventoryError : Type 0 where
  invalid_document : Error → InventoryError
  invalid_markers : ℕ → ParseError → InventoryError
  invalid_embedded_source : ℕ → FragmentPath → CanonicalSourceError → InventoryError
  duplicate_fragment : FragmentPath → ℕ → ℕ → InventoryError
  path_prefix_conflict : FragmentPath → FragmentPath → InventoryError

abbrev pub before : DiscoveredFragment → DiscoveredFragment → Bool
before left right = text_lt left.path.text right.path.text

-- `sort_by` on the paths, which is stable: what is found earlier stays before its equals.
insert_sorted : DiscoveredFragment → List DiscoveredFragment → List DiscoveredFragment
insert_sorted fragment [] = fragment ∷ []
insert_sorted fragment (other ∷ rest) =
    if before other fragment then other ∷ insert_sorted fragment rest else fragment ∷ other ∷ rest

unfoldable pub sort_by_path : List DiscoveredFragment → List DiscoveredFragment
unfolding insert_sorted
sort_by_path [] = []
sort_by_path (fragment ∷ rest) = insert_sorted fragment (sort_by_path rest)

-- The loop over `windows(2)`, behind its first fragment.
unique_after : DiscoveredFragment → List DiscoveredFragment → Result InventoryError (Unit {0})
unique_after previous [] = ok tt
unique_after previous (fragment ∷ rest) =
    if path_eq previous.path fragment.path
    then err (duplicate_fragment previous.path previous.node_index fragment.node_index)
    else unique_after fragment rest

unfoldable pub validate_uniqueness : List DiscoveredFragment → Result InventoryError (Unit {0})
unfolding unique_after
validate_uniqueness [] = ok tt
validate_uniqueness (fragment ∷ rest) = unique_after fragment rest

-- `binary_search_by` with the order of the paths, and the fragment at the index that it gives.
unfoldable pub find_fragment : Text → List DiscoveredFragment → Option DiscoveredFragment
unfolding binary_search
find_fragment path fragments =
    binary_search (λ (d : DiscoveredFragment). d.path.text) path fragments

-- The loop over `match_indices('/')`, with what stands in front of the position.
unfoldable pub validate_ancestors :
    List DiscoveredFragment → FragmentPath → Text → Text → Result InventoryError (Unit {0})
validate_ancestors discovered path front [] = ok tt
validate_ancestors discovered path front (byte ∷ rest) =
    let later = validate_ancestors discovered path (front ++ (byte ∷ [])) rest in
    if byte == 47
    then elim (find_fragment front discovered) [
      | some found ↦ err (path_prefix_conflict found.path path)
      | none ↦ later
    ]
    else later

-- The loop over the fragments, all of which are `discovered`.
unfoldable pub validate_prefixes_of :
    List DiscoveredFragment → List DiscoveredFragment → Result InventoryError (Unit {0})
unfolding validate_ancestors
validate_prefixes_of discovered [] = ok tt
validate_prefixes_of discovered (fragment ∷ rest) = do
  validate_ancestors discovered fragment.path [] fragment.path.text
  validate_prefixes_of discovered rest

unfoldable pub validate_path_prefixes : List DiscoveredFragment → Result InventoryError (Unit {0})
unfolding validate_prefixes_of
validate_path_prefixes discovered = validate_prefixes_of discovered discovered

pub record InventoryEntry : Type 0 where
  pub node_index : ℕ
  pub path : FragmentPath
  pub embedded : CanonicalSource
  pub baseline : Option BaselineHash
  pub target : Text
  pub filesystem : Option CanonicalSource

-- The error of a selection.
pub data SelectorError : Type 0 where
  unknown_path : FragmentPath → SelectorError

-- The `BTreeSet` of the selectors.
selector_set : List FragmentPath → TreeMap FragmentPath (Unit {0})
selector_set [] = []
selector_set (selector ∷ rest) = insert selector tt (selector_set rest)

-- `binary_search_by` with the order of the paths, and the entry at the index that it gives.
find_entry : FragmentPath → List InventoryEntry → Option InventoryEntry
unfolding binary_search
find_entry path entries = binary_search (λ (e : InventoryEntry). e.path.text) path.text entries

-- The body of the loop, from what the search finds.
found_entry : FragmentPath → Option InventoryEntry → Result SelectorError InventoryEntry
found_entry selector (some entry) = ok entry
found_entry selector none = err (unknown_path selector)

select_each : List FragmentPath → List InventoryEntry → Result SelectorError (List InventoryEntry)
unfolding find_entry found_entry
select_each [] entries = ok []
select_each (selector ∷ rest) entries = do
  entry ← found_entry selector (find_entry selector entries)
  selected ← select_each rest entries
  ok (entry ∷ selected)

-- `Inventory::select`.
unfoldable pub select :
    List InventoryEntry → List FragmentPath → Result SelectorError (List InventoryEntry)
unfolding selector_set select_each
select entries [] = ok entries
select entries (selector ∷ selectors) =
    select_each (keys (selector_set (selector ∷ selectors))) entries
