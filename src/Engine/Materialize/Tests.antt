-- ===== src/Engine/Materialize/Tests.antt =====
-- A small document with one marked source, prepared.
use zwirn.Prelude.{ℕ, List, [], ◌∷◌, ◌++◌, ◌≡◌, refl, some, ok, replicate, Both, Pairwise}
use zwirn.Text.{Text, ascii}
use zwirn.TreeMap.{TreeMap}
use zwirn.Fragment.Source.{Fragment}
use zwirn.Fragment.Rewrite.{FragmentUpdate, replace_update}
use zwirn.Fragment.Tests.{sum_digest, always}
use zwirn.Fragment.Tests.Rewrites.{marked, updates}
use zwirn.Adls.Document.{SourceNode}
use zwirn.Adls.Document
use zwirn.Adls.Document.Parsed.{HasSource}
use zwirn.Adls.Rewrite.Kept.{IsKept}
use zwirn.Adls.Tests.{front}
use zwirn.Engine.Materialize.{materialize_document, validate_prepared_document}
use zwirn.Engine.Materialize.Written.{IsUpdated, materialize_document-IsUpdated}
use zwirn.Engine.Materialize.Distinct.{AreFragments, Differ, validate_prepared_document-Differ}

-- The second object is a DSP node.
abbrev objects : Text
objects =
    26
    ∷ 0
    ∷ 12
    ∷ 0
    ∷ 4
    ∷ 0
    ∷ (replicate 18 0
        ++ (8 ∷ 0 ∷ 4 ∷ 0 ∷ 4 ∷ 0 ∷ 0 ∷ 0 ∷ 6 ∷ 0 ∷ 0 ∷ 0 ∷ 36 ∷ 0 ∷ 0 ∷ 0 ∷ 79 ∷ 0 ∷ 0 ∷ 0 ∷ []))

abbrev pub bytes : Text
bytes = front ++ (objects ++ (4 ∷ 0 ∷ 0 ∷ 0 ∷ 20 ∷ 0 ∷ 0 ∷ 0 ∷ (marked ++ (0 ∷ []))))

abbrev node_updates : TreeMap ℕ (List FragmentUpdate)
node_updates = (1, updates) ∷ []

-- The new source stands behind the old bytes, three of which pad them.
abbrev pub prepared : Text
prepared =
    front
    ++ (objects
        ++ (32
            ∷ 0
            ∷ 0
            ∷ 0
            ∷ 20
            ∷ 0
            ∷ 0
            ∷ 0
            ∷ (marked
                ++ (0
                    ∷ 0
                    ∷ 0
                    ∷ 0
                    ∷ 37
                    ∷ 0
                    ∷ 0
                    ∷ 0
                    ∷ (ascii "-- @{ a\nz\n-- @} a 8484848484848484\ny\n" ++ (0 ∷ []))))))

pub materialize_small :
    materialize_document sum_digest always 1 2 3 bytes node_updates ≡ ok (some prepared)
unfolding materialize_document Document.parse zwirn.Text.text_eq zwirn.Adls.Layout.add
    zwirn.TreeMap.get zwirn.TreeMap.last_below zwirn.TreeMap.first_from
    zwirn.Adls.Parser.follow_uoffset zwirn.Adls.Table.table zwirn.Adls.Parser.read_u16
    zwirn.Adls.Parser.require_range zwirn.Adls.Layout.add_table zwirn.TreeMap.insert
    zwirn.Adls.Table.field zwirn.Adls.Kind.from_type_id zwirn.Text.Utf8.is_utf8
    zwirn.Fragment.Source.parse zwirn.Fragment.Lines.physical_lines
    zwirn.Fragment.Marker.marker_comment zwirn.Fragment.Marker.parse_marker
    zwirn.Fragment.Marker.skip_horizontal zwirn.Fragment.Marker.token_end
    zwirn.Fragment.Path.try_from zwirn.Fragment.Hash.from_str zwirn.Fragment.Source.fragments
    zwirn.Text.Range.index_range zwirn.Text.Split.split zwirn.Text.contains zwirn.Text.ends_with
    zwirn.Text.has_whitespace zwirn.Text.starts_with zwirn.Fragment.Rewrite.rewrite
    zwirn.Adls.Rewrite.find_index zwirn.Adls.Rewrite.rewrite zwirn.TreeMap.keys
    zwirn.Fragment.Hash.display zwirn.Text.Order.text_lt
materialize_small = refl

validate_small : validate_prepared_document 3 prepared ≡ ok tt
unfolding validate_prepared_document Document.parse zwirn.Text.text_eq zwirn.Adls.Layout.add
    zwirn.TreeMap.get zwirn.TreeMap.last_below zwirn.TreeMap.first_from
    zwirn.Adls.Parser.follow_uoffset zwirn.Adls.Table.table zwirn.Adls.Parser.read_u16
    zwirn.Adls.Parser.require_range zwirn.Adls.Layout.add_table zwirn.TreeMap.insert
    zwirn.Adls.Table.field zwirn.Adls.Kind.from_type_id zwirn.Text.Utf8.is_utf8
    zwirn.Fragment.Source.parse zwirn.Fragment.Lines.physical_lines
    zwirn.Fragment.Marker.marker_comment zwirn.Fragment.Marker.parse_marker
    zwirn.Fragment.Marker.skip_horizontal zwirn.Fragment.Marker.token_end
    zwirn.Fragment.Path.try_from zwirn.Fragment.Hash.from_str zwirn.Fragment.Source.fragments
    zwirn.Text.Range.index_range zwirn.Text.Split.split zwirn.Text.contains zwirn.Text.ends_with
    zwirn.Text.has_whitespace zwirn.Text.starts_with
validate_small = refl

materialize_document-IsUpdated_example :
    (parsed : Document.Document) × (Document.parse 1 bytes ≡ ok parsed)
    × Both
        (λ (node : SourceNode) f.
          (final : Text) × IsUpdated sum_digest always node_updates node final
          × HasSource prepared parsed.source_field_locations f final)
        parsed.sources
        parsed.source_field_locations
    × IsKept bytes prepared parsed.source_field_locations
unfolding zwirn.TreeMap.keys
materialize_document-IsUpdated_example =
    materialize_document-IsUpdated sum_digest always 1 2 3 bytes node_updates (tt, tt)
      materialize_small

validate_prepared_document-Differ_example :
    (parsed : Document.Document) × (Document.parse 3 prepared ≡ ok parsed)
    × (all : List Fragment) × AreFragments parsed.sources all
    × Pairwise Differ all
validate_prepared_document-Differ_example =
    validate_prepared_document-Differ 3 prepared validate_small
