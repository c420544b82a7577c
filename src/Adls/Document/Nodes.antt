-- ===== src/Adls/Document/Nodes.antt =====
-- src/adls.rs: what the loop over the patch objects keeps.
use zwirn.Prelude.{
  ℕ, ◌+◌, ◌≤◌, ◌<◌, [], ◌∷◌, ◌++◌, ◌≡◌, ◌≢◌, ◌⊎◌, inl, inr, arith, some, All, All-append, All-map,
  Pairwise, Pairwise-append, Both, Both-append, Both-map,
}
use zwirn.Text.{Text}
use zwirn.TreeMap.{TreeMap, get}
use zwirn.TreeMap.Nat.{nat_key}
use zwirn.Adls.Table.{Table}
use zwirn.Adls.Table.Entries.{IsField}
use zwirn.Adls.Layout.{Layout, table_region, string_region}
use zwirn.Adls.Layout.Neighbours.{IsApart, region_of}
use zwirn.Adls.Layout.Apart.{IsLater, get-disjoint}
use zwirn.Adls.Layout.Tables.{IsTableAdded}
use zwirn.Adls.Document.{SourceNode, Objects}
use zwirn.Adls.Document.Strings.{IsSourceAt, string_size}

-- Two ranges of four bytes that do not overlap.
abbrev pub AreApart : ℕ → ℕ → Type 0
AreApart f g = (f + 4 ≤ g) ⊎ (g + 4 ≤ f)

abbrev pub IsBefore : SourceNode → SourceNode → Type 0
IsBefore m n = m.handle.index < n.handle.index

-- The field lies in a table of the layout.
pub record IsFieldIn (layout : Layout) (f : ℕ) : Type 0 where
  pub location : ℕ
  pub end : ℕ
  pub stands : get location layout ≡ some (region_of end table_region)
  pub behind : location + 4 ≤ f
  pub inside : f + 4 ≤ end

-- What the loop knows of a node that it has found, and of its field.
pub record IsNode (bytes : Text) (document : ℕ) (layout : Layout) (node : SourceNode) (f : ℕ)
    : Type 0 where
  pub numbered : node.handle.document ≡ document
  pub start : ℕ
  pub source_at : IsSourceAt bytes f start node.source
  pub stands : get start layout ≡ some (region_of (start + string_size node.source) string_region)
  pub field_in : IsFieldIn layout f

-- The invariant of the loop before the object at `index`.
pub record IsObjects (bytes : Text) (document index : ℕ) (objects : Objects) : Type 0 where
  pub apart : IsApart 0 objects.layout
  pub nodes :
      Both (IsNode bytes document objects.layout) objects.sources objects.source_field_locations
  pub spread : Pairwise AreApart objects.source_field_locations
  pub rising : Pairwise IsBefore objects.sources
  pub below : All (λ (node : SourceNode). node.handle.index < index) objects.sources

IsFieldIn-later :
    (layout next : Layout) (f : ℕ) → IsLater layout next → IsFieldIn layout f → IsFieldIn next f
IsFieldIn-later layout next f later w = record {
  location = w.location;
  end = w.end;
  stands = later w.location _ w.stands;
  behind = w.behind;
  inside = w.inside;
}

IsNode-later :
    (bytes : Text) (document : ℕ) (layout next : Layout) (node : SourceNode) (f : ℕ)
    → IsLater layout next
    → IsNode bytes document layout node f
    → IsNode bytes document next node f
IsNode-later bytes document layout next node f later w = record {
  numbered = w.numbered;
  start = w.start;
  source_at = w.source_at;
  stands = later w.start _ w.stands;
  field_in = IsFieldIn-later layout next f later w.field_in;
}

-- A field of a new table is apart from the fields of the others.
pub IsFieldIn-AreApart :
    (layout next : Layout) (t : Table) (f g : ℕ)
    → IsTableAdded layout next t
    → IsField t 4 4 f
    → IsFieldIn layout g
    → AreApart g f
IsFieldIn-AreApart layout next t f g added w v =
    let other = added.later v.location _ v.stands in
    let new : v.location ≢ t.location = λ e. cc in
    elim (get-disjoint v.location t.location _ _ next added.apart other added.stands new) [
      | inl l ↦ inl (omega (arith, l, v.inside, w.behind))
      | inr l ↦ inr (omega (arith, l, w.inside, v.behind))
    ]

-- The invariant holds again when regions are added and the index rises.
pub IsObjects-later :
    (bytes : Text) (document index : ℕ) (objects : Objects) (layout : Layout)
    (object_indexes : TreeMap ℕ ℕ)
    → IsLater objects.layout layout
    → IsApart 0 layout
    → IsObjects bytes document index objects
    → IsObjects bytes document
        (index + 1)
        (record objects { layout = layout; object_indexes = object_indexes })
IsObjects-later bytes document index objects layout object_indexes later apart w = record {
  apart = apart;
  nodes =
      Both-map (IsNode bytes document objects.layout) (IsNode bytes document layout) objects.sources
        objects.source_field_locations
        (λ node f. IsNode-later bytes document objects.layout layout node f later) w.nodes;
  spread = w.spread;
  rising = w.rising;
  below =
      All-map (λ (node : SourceNode). node.handle.index < index) _ objects.sources
        (λ node l. omega arith) w.below;
}

-- A node for the object at `index` is added.
pub IsObjects-added :
    (bytes : Text) (document index : ℕ) (objects : Objects) (layout : Layout)
    (object_indexes : TreeMap ℕ ℕ) (node : SourceNode) (f : ℕ)
    → IsObjects bytes document index objects
    → IsLater objects.layout layout
    → IsApart 0 layout
    → node.handle.index ≡ index
    → IsNode bytes document layout node f
    → All (λ g. AreApart g f) objects.source_field_locations
    → IsObjects bytes document (index + 1) (record objects {
      layout = layout;
      object_indexes = object_indexes;
      sources = objects.sources ++ (node ∷ []);
      source_field_locations = objects.source_field_locations ++ (f ∷ []);
    })
IsObjects-added bytes document index objects layout object_indexes node f w later apart e n spread =
    record {
      apart = apart;
      nodes =
          Both-append (IsNode bytes document layout) objects.sources objects.source_field_locations
            node f
            (Both-map (IsNode bytes document objects.layout) (IsNode bytes document layout)
              objects.sources objects.source_field_locations
              (λ m g. IsNode-later bytes document objects.layout layout m g later) w.nodes)
            n;
      spread = Pairwise-append AreApart objects.source_field_locations f w.spread spread;
      rising = Pairwise-append IsBefore objects.sources node w.rising (
          All-map (λ (m : SourceNode). m.handle.index < index) (λ m. IsBefore m node)
            objects.sources (λ m l. omega arith) w.below);
      below =
          All-append (λ (m : SourceNode). m.handle.index < index + 1) objects.sources (node ∷ [])
            (All-map (λ (m : SourceNode). m.handle.index < index) _ objects.sources
              (λ m l. omega arith) w.below)
            (omega arith, tt);
    }
