-- ===== src/Adls/Tests.antt =====
-- src/adls.rs: a small document with one source, read and rewritten.
use zwirn.Prelude.{
  ℕ, ◌-◌, ◌<◌, ◌≤◌, ◌↔◌, ◌≢◌, Both, panic, Bool, true, [], ◌∷◌, ◌++◌, ◌≡◌, refl, arith, replicate,
  length, ok, err,
}
use zwirn.Text.{Text, ascii, text_eq}
use zwirn.Text.Cow.{owned}
use zwirn.Text.Utf8.{is_utf8}
use zwirn.TreeMap.{get, insert, last_below, first_from}
use zwirn.TreeMap.Nat.{nat_key}
use zwirn.Adls.Kind.{canvas, from_type_id}
use zwirn.Adls.Parser.{follow_uoffset, read_u16, require_range}
use zwirn.Adls.Table.{table, field}
use zwirn.Adls.Layout.{
  Layout, add, add_table, header_region, table_region, vtable_region, string_region,
}
use zwirn.Adls.Layout.Neighbours.{IsAdded, region_of, add-IsAdded}
use zwirn.Adls.Document.Parsed.{HasSource, IsDocument, parse-IsDocument}
use zwirn.Adls.Document.Total.{parse-ne-panic}
use zwirn.Adls.Error.{NodeHandle, unknown_node_handle, duplicate_replacement, size_limit_exceeded}
use zwirn.Adls.Document.{SourceNode, Document, parse}
use zwirn.Adls.Rewrite.{
  Change, plan_rewrite_size, replacement_lengths, max_rewritten_adls_size, write_changes, rewrite,
}
use zwirn.Adls.Rewrite.Size.{write_changes-plan_rewrite_size}
use zwirn.Adls.Rewrite.Kept.{IsKept}
use zwirn.Adls.Rewrite.Faithful.{final_source, rewrite-HasSource}

-- The header, the root table behind its vtable, and the vector of two objects.
abbrev pub front : Text
front =
    16 ∷ 0 ∷ 0 ∷ 0 ∷ b'A' ∷ b'D' ∷ b'L' ∷ b'S' ∷ 6 ∷ 0 ∷ 8 ∷ 0 ∷ 4 ∷ 0 ∷ 0 ∷ 0 ∷ 8 ∷ 0 ∷ 0 ∷ 0 ∷ 4
    ∷ 0 ∷ 0 ∷ 0 ∷ 2 ∷ 0 ∷ 0 ∷ 0 ∷ 40 ∷ 0 ∷ 0 ∷ 0 ∷ 40 ∷ 0 ∷ 0 ∷ 0 ∷ []

-- The vtables of the two objects, and the objects; the second one is a canvas.
abbrev objects : Text
objects =
    26
    ∷ 0
    ∷ 12
    ∷ 0
    ∷ 4
    ∷ 0
    ∷ (replicate 18 0
        ++ (8 ∷ 0 ∷ 4 ∷ 0 ∷ 4 ∷ 0 ∷ 0 ∷ 0 ∷ 6 ∷ 0 ∷ 0 ∷ 0 ∷ 36 ∷ 0 ∷ 0 ∷ 0 ∷ 78 ∷ 0 ∷ 0 ∷ 0 ∷ []))

abbrev small : Text
small = front ++ (objects ++ (4 ∷ 0 ∷ 0 ∷ 0 ∷ 2 ∷ 0 ∷ 0 ∷ 0 ∷ b'h' ∷ b'i' ∷ 0 ∷ []))

abbrev handle : NodeHandle
handle = record { index = 1; document = 7 }

abbrev parsed : Document
parsed = record {
  bytes = small;
  sources = record { handle = handle; kind = canvas; source = ascii "hi" } ∷ [];
  source_field_locations = 80 ∷ [];
}

parse_small : parse 7 small ≡ ok parsed
unfolding parse text_eq add get last_below first_from follow_uoffset table read_u16 require_range
    add_table insert field from_type_id is_utf8
parse_small = refl

abbrev always : ℕ → Bool
always size = true

-- The new string stands behind the old bytes, one of which pads them.
abbrev rewritten : Text
rewritten =
    front
    ++ (objects
        ++ (12
            ∷ 0
            ∷ 0
            ∷ 0
            ∷ 2
            ∷ 0
            ∷ 0
            ∷ 0
            ∷ b'h'
            ∷ b'i'
            ∷ 0
            ∷ 0
            ∷ 5
            ∷ 0
            ∷ 0
            ∷ 0
            ∷ (ascii "hello" ++ (0 ∷ []))))

rewrite_small : rewrite always 8 parsed ((handle, ascii "hello") ∷ []) ≡ ok (owned rewritten)
unfolding rewrite parse text_eq add get last_below first_from follow_uoffset table read_u16
    require_range add_table insert field from_type_id is_utf8
rewrite_small = refl

-- A handle of another parse, and one handle twice.
rewrite_unknown :
    rewrite always 8 parsed ((record { index = 1; document = 6 }, ascii "x") ∷ [])
    ≡ err (unknown_node_handle (record { index = 1; document = 6 }))
unfolding rewrite
rewrite_unknown = refl

rewrite_twice :
    rewrite always 8 parsed ((handle, ascii "x") ∷ (handle, ascii "y") ∷ [])
    ≡ err (duplicate_replacement handle)
unfolding rewrite
rewrite_twice = refl

-- The test of the source: the size at the limit.
plan_at_limit :
    (plan_rewrite_size (max_rewritten_adls_size - 8) (3 ∷ []) ≡ ok max_rewritten_adls_size)
    × (plan_rewrite_size (max_rewritten_adls_size - 8) (4 ∷ []) ≡ err size_limit_exceeded)
unfolding plan_rewrite_size
plan_at_limit = (refl, refl)

-- The layout of the header, a vtable and its table.
abbrev layout : Layout
layout =
    (0, region_of 8 header_region)
    ∷ (8, region_of 14 vtable_region)
    ∷ (16, region_of 24 table_region)
    ∷ []

add-IsAdded_example :
    (add layout 14 16 string_region "source string"
      ≡ ok (insert 14 (region_of 16 string_region) layout))
    ↔ ((14 < 16)
        × IsAdded layout 14 16 string_region (insert 14 (region_of 16 string_region) layout))
add-IsAdded_example =
    add-IsAdded 14 16 string_region "source string" layout
      (insert 14 (region_of 16 string_region) layout)
      (omega arith, omega arith, (omega arith, omega arith, (omega arith, omega arith, tt)))

parse-IsDocument_example : (parsed.bytes ≡ small) × IsDocument 7 parsed
parse-IsDocument_example = parse-IsDocument 7 small parse_small

parse-ne-panic_example : parse 7 small ≢ panic
parse-ne-panic_example = parse-ne-panic 7 small

abbrev change : Change
change = record { field_location = 80; replacement = ascii "hello"; replacement_length = 5 }

plan_small : plan_rewrite_size (length small) (replacement_lengths (change ∷ [])) ≡ ok 102
unfolding plan_rewrite_size
plan_small = refl

write_changes-plan_rewrite_size_example :
    (output : Text) × (write_changes small (change ∷ []) ≡ ok output)
    × (length output ≡ 102)
    × (102 ≤ max_rewritten_adls_size)
write_changes-plan_rewrite_size_example =
    write_changes-plan_rewrite_size small (change ∷ []) (omega arith, tt) plan_small

rewrite-HasSource_example :
    Both
      (λ (node : SourceNode) f.
        HasSource rewritten (80 ∷ []) f (final_source ((handle, ascii "hello") ∷ []) node))
      parsed.sources
      (80 ∷ [])
    × IsKept small rewritten (80 ∷ [])
rewrite-HasSource_example =
    rewrite-HasSource always 8 7 parsed ((handle, ascii "hello") ∷ [])
      (parse-IsDocument 7 small parse_small).1 rewrite_small
