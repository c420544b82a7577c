-- ===== src/Adls/Document/Total.antt =====
-- src/adls.rs: `Document::parse` returns a document or an error, whatever the bytes.
use Prim.Native.String.{String}
use zwirn.Prelude.{
  ℕ, zero, suc, ◌+◌, ◌^◌, ◌≤◌, not, ◌&&◌, [], ◌≢◌, arith, Option, none, some, ltb, leb, leb→le,
  ◌==◌, inl, inr, length, get_elem?, checked_add, checked_mul, panic, >>=-ne-panic, >>=-ne-panic_of,
  require-ne-panic, ok-ne-panic, err-ne-panic, Option-cases,
}
use zwirn.Text.{Text, text_eq, ascii}
use zwirn.Text.Range.{index_range}
use zwirn.Text.Utf8.{is_utf8}
use zwirn.TreeMap.{get}
use zwirn.TreeMap.Nat.{nat_key}
use zwirn.Adls.Kind.{NodeKind, from_type_id}
use zwirn.Adls.Error.{
  NodeHandle, Error, malformed, invalid_header, invalid_identifier, invalid_source_utf8,
  duplicate_patch_object_table,
}
use zwirn.Adls.Parser.Reads.{require_range-eq-ok, require-eq-ok}
use zwirn.Adls.Parser.Total.{
  or_malformed-ne-panic, add_at-ne-panic, read_u32-ne-panic, require_range-ne-panic,
  follow_uoffset-ne-panic,
}
use zwirn.Adls.Table.{Table}
use zwirn.Adls.Table.Total.{if-ne-panic, table-ne-panic, field-ne-panic}
use zwirn.Adls.Layout.{
  RegionKind, Layout, header_region, table_region, vtable_region, vector_region, string_region,
  kind_eq, can_share, add_between, add, add_table,
}
use zwirn.Adls.Document.{
  Objects, parse_vector, or_missing, parse_pool, read_string, or_zero, push_source, parse_kind,
  parse_table, parse_object, parse_objects, parse,
}

add_between-ne-panic :
    (layout : Layout) (start end : ℕ) (kind : RegionKind) (structure : String)
    → add_between layout start end kind structure ≢ panic
unfolding add_between
add_between-ne-panic layout start end kind structure = ground arith

add-ne-panic :
    (layout : Layout) (start end : ℕ) (kind : RegionKind) (structure : String)
    → add layout start end kind structure ≢ panic
unfolding add
add-ne-panic layout start end kind structure =
    if-ne-panic (leb end start) _ _ (err-ne-panic _) (elim (Option-cases (get start layout)) [
      | inl e ↦ rw e (add_between-ne-panic layout start end kind structure)
      | inr (existing, e) ↦ rw e (
          if-ne-panic (existing.end == end && kind_eq existing.kind kind && can_share kind) _ _
            (ok-ne-panic _) (err-ne-panic _))
    ])

add_table-ne-panic :
    (layout : Layout) (t : Table) (structure : String) → add_table layout t structure ≢ panic
unfolding add_table
add_table-ne-panic layout t structure =
    >>=-ne-panic _ _
      (or_malformed-ne-panic (checked_add t.location t.object_length) t.location structure)
      λ table_end.
        >>=-ne-panic _ _ (add-ne-panic layout t.location table_end table_region structure)
          λ with_table.
            >>=-ne-panic _ _
              (or_malformed-ne-panic (checked_add t.vtable_location t.vtable_length)
                t.vtable_location structure)
              λ vtable_end.
                add-ne-panic with_table t.vtable_location vtable_end vtable_region structure

pub index_range-ne-panic :
    (bytes : Text) (from to : ℕ)
    → from ≤ to
    → to ≤ length bytes
    → index_range {E = Error} bytes from to ≢ panic
unfolding index_range
index_range-ne-panic bytes from to h k = λ q. absurd (ground arith)

module _ (bytes : Text) where
  parse_vector-ne-panic :
      (layout : Layout) (pool_location : ℕ) → parse_vector bytes layout pool_location ≢ panic
  unfolding parse_vector
  parse_vector-ne-panic layout pool_location =
      let structure : String = "patch-object vector" in
      >>=-ne-panic _ _ (read_u32-ne-panic bytes pool_location structure) λ object_count.
        >>=-ne-panic _ _
          (require-ne-panic (not (object_count == 0)) (malformed pool_location structure))
          λ _.
            >>=-ne-panic _ _ (add_at-ne-panic pool_location 4 pool_location structure)
              λ elements_location.
                >>=-ne-panic _ _
                  (or_malformed-ne-panic (checked_mul object_count 4) pool_location structure)
                  λ elements_size.
                    >>=-ne-panic _ _
                      (require_range-ne-panic bytes elements_location elements_size structure)
                      λ _.
                        >>=-ne-panic _ _
                          (add_at-ne-panic elements_location elements_size pool_location structure)
                          λ pool_end.
                            >>=-ne-panic _ _
                              (add-ne-panic layout pool_location pool_end vector_region structure)
                              λ with_vector. ok-ne-panic _

  or_missing-ne-panic : (location : Option ℕ) → or_missing bytes location ≢ panic
  or_missing-ne-panic none = err-ne-panic _
  or_missing-ne-panic (some location) = ok-ne-panic _

  parse_pool-ne-panic : parse_pool bytes ≢ panic
  unfolding parse_pool
  parse_pool-ne-panic = >>=-ne-panic _ _ (add-ne-panic [] 0 8 header_region "ADLS header") λ header.
      >>=-ne-panic _ _ (follow_uoffset-ne-panic bytes 0 4 "root table") λ root_location.
        >>=-ne-panic _ _ (table-ne-panic bytes root_location "root table") λ root.
          >>=-ne-panic _ _ (add_table-ne-panic header root "root table") λ layout.
            >>=-ne-panic _ _ (field-ne-panic bytes root 0 4 4 "root f0") λ root_field.
              >>=-ne-panic _ _ (or_missing-ne-panic root_field) λ pool_field.
                >>=-ne-panic _ _ (follow_uoffset-ne-panic bytes pool_field 4 "patch-object vector")
                  λ pool_location. parse_vector-ne-panic layout pool_location

  -- The slice of the source is checked before.
  read_string-ne-panic :
      (handle : NodeHandle) (layout : Layout) (f : ℕ) → read_string bytes handle layout f ≢ panic
  unfolding read_string
  read_string-ne-panic handle layout f =
      let structure : String = "source string" in
      >>=-ne-panic _ _ (follow_uoffset-ne-panic bytes f 4 structure) λ start.
        >>=-ne-panic _ _ (read_u32-ne-panic bytes start structure) λ n.
          >>=-ne-panic _ _ (add_at-ne-panic start 4 start structure) λ body.
            >>=-ne-panic _ _ (add_at-ne-panic body n start structure) λ terminator_location.
              >>=-ne-panic_of _ _ (require_range-ne-panic bytes body n structure) λ _ r.
                >>=-ne-panic _ _
                  (or_malformed-ne-panic (get_elem? bytes terminator_location) terminator_location
                    "source string terminator")
                  λ terminator.
                    >>=-ne-panic _ _
                      (require-ne-panic (terminator == 0)
                        (malformed terminator_location "source string terminator"))
                      λ _.
                        >>=-ne-panic _ _ (add_at-ne-panic terminator_location 1 start structure)
                          λ end.
                            >>=-ne-panic _ _ (add-ne-panic layout start end string_region structure)
                              λ with_string.
                                >>=-ne-panic _ _
                                  (index_range-ne-panic bytes body (body + n) (omega arith)
                                    (require_range-eq-ok bytes body n structure r))
                                  λ source.
                                    >>=-ne-panic _ _
                                      (require-ne-panic (is_utf8 source)
                                        (invalid_source_utf8 handle))
                                      λ _. ok-ne-panic _

  push_source-ne-panic :
      (handle : NodeHandle) (kind : NodeKind) (objects : Objects) (f : Option ℕ)
      → push_source bytes handle kind objects f ≢ panic
  unfolding push_source
  push_source-ne-panic handle kind objects none = ok-ne-panic _
  push_source-ne-panic handle kind objects (some f) =
      >>=-ne-panic _ _ (read_string-ne-panic handle objects.layout f) λ read. ok-ne-panic _

  parse_kind-ne-panic :
      (handle : NodeHandle) (object : Table) (kind : Option NodeKind) (objects : Objects)
      → parse_kind bytes handle object kind objects ≢ panic
  unfolding parse_kind
  parse_kind-ne-panic handle object none objects = ok-ne-panic _
  parse_kind-ne-panic handle object (some kind) objects =
      >>=-ne-panic _ _ (field-ne-panic bytes object 10 4 4 "patch object f10")
        (push_source-ne-panic handle kind objects)

  or_zero-ne-panic : (f : Option ℕ) → or_zero bytes f ≢ panic
  or_zero-ne-panic none = ok-ne-panic _
  or_zero-ne-panic (some f) = read_u32-ne-panic bytes f "patch object f0"

  parse_table-ne-panic :
      (handle : NodeHandle) (object_location : ℕ) (objects : Objects)
      → parse_table bytes handle object_location objects ≢ panic
  unfolding parse_table
  parse_table-ne-panic handle object_location objects =
      >>=-ne-panic _ _ (table-ne-panic bytes object_location "patch object") λ object.
        >>=-ne-panic _ _ (add_table-ne-panic objects.layout object "patch object") λ layout.
          >>=-ne-panic _ _ (field-ne-panic bytes object 0 4 4 "patch object f0") λ type_field.
            >>=-ne-panic _ _ (or_zero-ne-panic type_field) λ type_id.
              >>=-ne-panic _ _
                (require-ne-panic (not (handle.index == 0 && not (type_id == 0)))
                  (malformed object_location "root patch object"))
                λ _. parse_kind-ne-panic handle object (from_type_id type_id) _

  parse_object-ne-panic :
      (document elements_location index : ℕ) (objects : Objects)
      → parse_object bytes document elements_location index objects ≢ panic
  unfolding parse_object
  parse_object-ne-panic document elements_location index objects =
      >>=-ne-panic _ _
        (or_malformed-ne-panic (checked_mul index 4) elements_location "patch-object vector")
        λ offset.
          >>=-ne-panic _ _
            (add_at-ne-panic elements_location offset elements_location "patch-object vector")
            λ element.
              >>=-ne-panic _ _ (follow_uoffset-ne-panic bytes element 4 "patch object")
                λ object_location.
                  >>=-ne-panic _ _
                    (require-ne-panic (ltb index (2 ^ 32)) (malformed element "patch-object index"))
                    λ _. elim (Option-cases (get object_location objects.object_indexes)) [
                      | inl e ↦ rw e (
                          parse_table-ne-panic (record { index = index; document = document })
                            object_location objects)
                      | inr (first, e) ↦
                          rw e (err-ne-panic (duplicate_patch_object_table first index))
                    ]

  parse_objects-ne-panic :
      (document elements_location count index : ℕ) (objects : Objects)
      → parse_objects bytes document elements_location count index objects ≢ panic
  unfolding parse_objects
  parse_objects-ne-panic document elements_location zero index objects = ok-ne-panic _
  parse_objects-ne-panic document elements_location (suc count) index objects =
      >>=-ne-panic _ _ (parse_object-ne-panic document elements_location index objects)
        λ next. parse_objects-ne-panic document elements_location count (index + 1) next

-- Whatever the bytes, `parse` does not panic: no slice and no index is out of range, and it returns
-- a document or an error.
pub parse-ne-panic : (document : ℕ) (bytes : Text) → parse document bytes ≢ panic
unfolding parse
parse-ne-panic document bytes =
    >>=-ne-panic_of _ _ (require-ne-panic (leb 8 (length bytes)) invalid_header) λ _ long.
      let enough : 8 ≤ length bytes =
        leb→le 8 (length bytes) (require-eq-ok (leb 8 (length bytes)) invalid_header long) in
      >>=-ne-panic _ _ (index_range-ne-panic bytes 4 8 (omega arith) enough) λ identifier.
        >>=-ne-panic _ _ (require-ne-panic (text_eq identifier (ascii "ADLS")) invalid_identifier)
          λ _. >>=-ne-panic _ _ (parse_pool-ne-panic bytes) λ pool.
            >>=-ne-panic _ _
              (parse_objects-ne-panic bytes document pool.elements_location pool.object_count 0 _)
              λ objects. ok-ne-panic _
