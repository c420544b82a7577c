-- ===== src/Inventory/Select.antt =====
-- A selection is in the order of the paths, and holds the selectors' entries and no others.
use zwirn.Prelude.{
  true, List, [], ◌∷◌, map, ◌≡◌, ◌⊎◌, inl, inr, refl, ap, ◌∙◌, Option, none, some, ok, >>=-eq-ok,
  All,
}
use zwirn.Text.Order.{text_lt}
use zwirn.Text.Search.Found.{binary_search-All}
use zwirn.TreeMap.{TreeMap, keys}
use zwirn.TreeMap.Laws.{IsSorted, insert-IsSorted}
use zwirn.Fragment.Path.{FragmentPath}
use zwirn.Fragment.Rewrite.{path_key, path_eq_iff}
use zwirn.Inventory.{InventoryEntry, selector_set, find_entry, found_entry, select_each, select}

abbrev EntryBelow : FragmentPath → List InventoryEntry → Type 0
EntryBelow path es = All (λ (f : InventoryEntry). text_lt path.text f.path.text ≡ true) es

-- Entries in the order of their paths, without repetition.
abbrev pub IsPathSorted : List InventoryEntry → Type 0
IsPathSorted [] = Unit
IsPathSorted (e ∷ es) = EntryBelow e.path es × IsPathSorted es

abbrev pub HasEntry : InventoryEntry → List InventoryEntry → Type 0
HasEntry e [] = ⊥
HasEntry e (f ∷ fs) = (f ≡ e) ⊎ HasEntry e fs

HasEntry-weaken :
    (f : InventoryEntry) (fs es : List InventoryEntry)
    → All (λ (e : InventoryEntry). HasEntry e fs) es
    → All (λ (e : InventoryEntry). HasEntry e (f ∷ fs)) es
HasEntry-weaken f fs [] h = tt
HasEntry-weaken f fs (e ∷ es) h = (inr h.0, HasEntry-weaken f fs es h.1)

HasEntry-each : (es : List InventoryEntry) → All (λ (e : InventoryEntry). HasEntry e es) es
HasEntry-each [] = tt
HasEntry-each (e ∷ es) = (inl refl, HasEntry-weaken e es es (HasEntry-each es))

find_entry-HasEntry :
    (path : FragmentPath) (es : List InventoryEntry) (e : InventoryEntry)
    → find_entry path es ≡ some e
    → (e.path ≡ path) × HasEntry e es
unfolding find_entry
find_entry-HasEntry path es e h =
    let (member, same) =
      binary_search-All (λ (f : InventoryEntry). f.path.text)
        (λ (f : InventoryEntry). HasEntry f es) path.text es e (HasEntry-each es) h in
    ((path_eq_iff e.path path).0 same, member)

found_entry-HasEntry :
    (path : FragmentPath) (es : List InventoryEntry) (e : InventoryEntry)
    → (o : Option InventoryEntry) → find_entry path es ≡ o
    → found_entry path o ≡ ok e
    → (e.path ≡ path) × HasEntry e es
unfolding found_entry
found_entry-HasEntry path es e none q h = absurd cc
found_entry-HasEntry path es e (some f) q h =
    let same : f ≡ e = cc in find_entry-HasEntry path es e (q ∙ ap some same)

abbrev entry_path : InventoryEntry → FragmentPath
entry_path e = e.path

-- The entries found for the paths, one for each and in their order.
select_each-paths :
    (paths : List FragmentPath) (es selected : List InventoryEntry)
    → select_each paths es ≡ ok selected
    → (map entry_path selected ≡ paths) × All (λ (e : InventoryEntry). HasEntry e es) selected
unfolding select_each
select_each-paths [] es [] h = (refl, tt)
select_each-paths [] es (e ∷ rest) h = absurd cc
select_each-paths (path ∷ paths) es selected h =
    let (e, found, r) = >>=-eq-ok (found_entry path (find_entry path es)) _ h in
    let (rest, others, r') = >>=-eq-ok (select_each paths es) _ r in
    let (p, m) = found_entry-HasEntry path es e (find_entry path es) refl found in
    let (ps, ms) = select_each-paths paths es rest others in
    let whole : e ∷ rest ≡ selected = cc in
    rw (← whole) (ap (λ x. x ∷ map entry_path rest) p ∙ ap (◌∷◌ path) ps, (m, ms))

abbrev Rising : List FragmentPath → Type 0
Rising [] = Unit
Rising (p ∷ ps) = All (λ (q : FragmentPath). text_lt p.text q.text ≡ true) ps × Rising ps

keys-Rising : (m : TreeMap FragmentPath (Unit {0})) → IsSorted m → Rising (keys m)
unfolding keys
keys-Rising [] s = tt
keys-Rising ((k, v) ∷ m) s = (s.0, keys-Rising m s.1)

selector_set-IsSorted : (selectors : List FragmentPath) → IsSorted (selector_set selectors)
unfolding selector_set
selector_set-IsSorted [] = tt
selector_set-IsSorted (s ∷ ss) = insert-IsSorted s tt (selector_set ss) (selector_set-IsSorted ss)

EntryBelow-paths :
    (path : FragmentPath) (es : List InventoryEntry)
    → All (λ (q : FragmentPath). text_lt path.text q.text ≡ true) (map entry_path es)
    → EntryBelow path es
EntryBelow-paths path [] h = tt
EntryBelow-paths path (e ∷ es) h = (h.0, EntryBelow-paths path es h.1)

Rising-IsPathSorted : (es : List InventoryEntry) → Rising (map entry_path es) → IsPathSorted es
Rising-IsPathSorted [] h = tt
Rising-IsPathSorted (e ∷ es) h = (EntryBelow-paths e.path es h.0, Rising-IsPathSorted es h.1)

-- If the entries of the inventory are in the order of their paths, without repetition, so is every
-- selection from them, whatever the order of the selectors and however often each is given, and
-- it holds entries of the inventory only.
pub select-IsPathSorted :
    (es : List InventoryEntry) (selectors : List FragmentPath) (selected : List InventoryEntry)
    → IsPathSorted es
    → select es selectors ≡ ok selected
    → IsPathSorted selected × All (λ (e : InventoryEntry). HasEntry e es) selected
unfolding select
select-IsPathSorted es [] selected sorted h =
    let same : es ≡ selected = cc in rw (← same) (sorted, HasEntry-each es)
select-IsPathSorted es (s ∷ ss) selected sorted h =
    let (paths, members) = select_each-paths (keys (selector_set (s ∷ ss))) es selected h in
    (
      Rising-IsPathSorted selected
          (rw paths (keys-Rising (selector_set (s ∷ ss)) (selector_set-IsSorted (s ∷ ss)))),
      members,
    )
