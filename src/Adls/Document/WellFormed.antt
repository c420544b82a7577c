-- ===== src/Adls/Document/WellFormed.antt =====
-- src/adls.rs: what a parsed document is.
use mathlib.Core.Path.{subst}
use zwirn.Prelude.{
  err-ne-ok, ℕ, zero, suc, ◌+◌, ◌^◌, not, ◌&&◌, ◌≡◌, inl, inr, refl, ap, ◌∙◌, Option, none, some,
  ltb, ◌==◌, checked_mul, Both-All, ok, ok-injective, require, >>=-elim, Option-cases,
}
use zwirn.Text.{Text}
use zwirn.TreeMap.{TreeMap, get}
use zwirn.TreeMap.Nat.{nat_key}
use zwirn.Adls.Kind.{NodeKind, from_type_id}
use zwirn.Adls.Error.{NodeHandle, malformed, or_malformed}
use zwirn.Adls.Parser.{add_at, follow_uoffset}
use zwirn.Adls.Table.{Table, table, field}
use zwirn.Adls.Table.Entries.{IsTable, table-IsTable}
use zwirn.Adls.Table.Fields.{field-IsField}
use zwirn.Adls.Layout.{Layout, add_table}
use zwirn.Adls.Layout.Tables.{IsTableAdded, add_table-IsTableAdded}
use zwirn.Adls.Document.{
  Objects, read_string, or_zero, push_source, parse_kind, parse_table, parse_object, parse_objects,
}
use zwirn.Adls.Document.Strings.{read_string-IsSourceAt}
use zwirn.Adls.Document.Nodes.{
  IsNode, AreApart, IsObjects, IsFieldIn-AreApart, IsObjects-later, IsObjects-added,
}

module _ (bytes : Text) (document index : ℕ) (objects : Objects)
    (w : IsObjects bytes document index objects) where
  -- The end of the body, with the layout that has the object's table.
  parse_kind-IsObjects :
      (handle : NodeHandle) (object : Table) (kind : Option NodeKind) (layout : Layout)
      (object_indexes : TreeMap ℕ ℕ) {next : Objects}
      → handle.index ≡ index
      → handle.document ≡ document
      → IsTableAdded objects.layout layout object
      → IsTable bytes object
      → parse_kind bytes handle object kind
          (record objects { layout = layout; object_indexes = object_indexes })
        ≡ ok next
      → IsObjects bytes document (index + 1) next
  unfolding parse_kind push_source
  parse_kind-IsObjects handle object none layout object_indexes i d added t h =
      subst (IsObjects bytes document (index + 1)) (ok-injective h) (
        IsObjects-later bytes document index objects layout object_indexes added.later added.apart
          w)
  parse_kind-IsObjects handle object (some kind) layout object_indexes i d added t h =
      >>=-elim (field bytes object 10 4 4 "patch object f10") _ h λ source_field e h1.
        elim (Option-cases source_field) [
          | inl z ↦ subst (IsObjects bytes document (index + 1)) (ok-injective (rw z at h1)) (
              IsObjects-later bytes document index objects layout object_indexes added.later
                added.apart w)
          | inr (f, z) ↦ >>=-elim (read_string bytes handle layout f) _ (rw z at h1) λ read r h2.
              let is_field = field-IsField bytes object 10 4 4 "patch object f10" t (e ∙ ap ok z) in
              let (start, source_at, grown) =
                read_string-IsSourceAt bytes handle layout f added.apart r in
              subst (IsObjects bytes document (index + 1)) (ok-injective h2) (
                IsObjects-added bytes document index objects read.0 object_indexes
                  (record { handle = handle; kind = kind; source = read.1 }) f w
                  (λ s q k. grown.later s q (added.later s q k)) grown.apart i
                  (record {
                    numbered = d;
                    start = start;
                    source_at = source_at;
                    stands = grown.stands;
                    field_in = record {
                      location = object.location;
                      end = object.location + object.object_length;
                      stands = grown.later object.location _ added.stands;
                      behind = is_field.behind;
                      inside = is_field.inside;
                    };
                  })
                  (Both-All (IsNode bytes document objects.layout) (λ g. AreApart g f)
                    objects.sources objects.source_field_locations
                    (λ node g n.
                      IsFieldIn-AreApart objects.layout layout object f g added is_field n.field_in)
                    w.nodes))
        ]

  parse_table-IsObjects :
      (handle : NodeHandle) (object_location : ℕ) {next : Objects}
      → handle.index ≡ index
      → handle.document ≡ document
      → parse_table bytes handle object_location objects ≡ ok next
      → IsObjects bytes document (index + 1) next
  unfolding parse_table
  parse_table-IsObjects handle object_location i d h =
      >>=-elim (table bytes object_location "patch object") _ h λ object t h1.
        >>=-elim (add_table objects.layout object "patch object") _ h1 λ layout a h2.
          >>=-elim (field bytes object 0 4 4 "patch object f0") _ h2 λ type_field _ h3.
            >>=-elim (or_zero bytes type_field) _ h3 λ type_id _ h4.
              >>=-elim
                (require (not (handle.index == 0 && not (type_id == 0)))
                  (malformed object_location "root patch object"))
                _ h4
                λ _ _ h5.
                  let (_, is_table) = table-IsTable bytes object_location "patch object" t in
                  parse_kind-IsObjects handle object (from_type_id type_id) layout _ i d
                    (add_table-IsTableAdded object "patch object" objects.layout w.apart a) is_table
                    h5

  parse_object-IsObjects :
      (elements_location : ℕ) {next : Objects}
      → parse_object bytes document elements_location index objects ≡ ok next
      → IsObjects bytes document (index + 1) next
  unfolding parse_object
  parse_object-IsObjects elements_location h =
      >>=-elim (or_malformed (checked_mul index 4) elements_location "patch-object vector") _ h
        λ element_offset _ h1.
          >>=-elim (add_at elements_location element_offset elements_location "patch-object vector")
            _ h1
            λ element_location _ h2.
              >>=-elim (follow_uoffset bytes element_location 4 "patch object") _ h2
                λ object_location _ h3.
                  >>=-elim
                    (require (ltb index (2 ^ 32)) (malformed element_location "patch-object index"))
                    _ h3
                    λ _ _ h4. elim (Option-cases (get object_location objects.object_indexes)) [
                      | inl z ↦
                          parse_table-IsObjects (record { index = index; document = document })
                            object_location refl refl (rw z at h4)
                      | inr (first, z) ↦ absurd (err-ne-ok (rw z at h4))
                    ]

pub parse_objects-IsObjects :
    (bytes : Text) (document elements_location count index : ℕ) (objects : Objects) {next : Objects}
    → IsObjects bytes document index objects
    → parse_objects bytes document elements_location count index objects ≡ ok next
    → (end : ℕ) × IsObjects bytes document end next
unfolding parse_objects
parse_objects-IsObjects bytes document elements_location zero index objects w h =
    (index, subst (IsObjects bytes document index) (ok-injective h) w)
parse_objects-IsObjects bytes document elements_location (suc count) index objects w h =
    >>=-elim (parse_object bytes document elements_location index objects) _ h λ middle e h1.
      parse_objects-IsObjects bytes document elements_location count (index + 1) middle
        (parse_object-IsObjects bytes document index objects w elements_location e) h1
