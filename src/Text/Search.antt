-- ===== src/Text/Search.antt =====
-- `binary_search_by` on slices that are sorted by a text.
pub mod Found
use zwirn.Prelude.{
  ℕ, zero, suc, ◌/◌, List, Option, none, some, if◌then◌else◌, length, get_elem?, take, drop,
}
use zwirn.Text.{Text, text_eq}
use zwirn.Text.Order.{text_lt}

module _ {A : Type 0} (key : A → Text) where
  -- The half of a slice that the search goes on with, behind or in front of its middle.
  unfoldable pub search_in : Text → ℕ → A → List A → List A
  search_in path middle item items =
      if text_lt (key item) path then drop (suc middle) items else take middle items

  -- The search on fuel. On items that are not sorted it may miss one, as any binary search may.
  unfoldable pub search_from : ℕ → Text → List A → Option A
  unfolding search_in
  search_from zero path items = none
  search_from (suc fuel) path items =
      let middle = length items / 2 in
      elim (get_elem? items middle) [
        | none ↦ none
        | some item ↦
            let rest = search_from fuel path (search_in path middle item items) in
            if text_eq (key item) path then some item else rest
      ]

  -- The item at the index that the search gives, or `none`. A step leaves fewer items, so their
  -- number is fuel enough.
  unfoldable pub binary_search : Text → List A → Option A
  unfolding search_from
  binary_search path items = search_from (length items) path items
