-- ===== src/Adls/Document/Parsed.antt =====
-- src/adls.rs: the document that `Document::parse` returns.
use mathlib.Core.Path.{subst}
use zwirn.Prelude.{
  ℕ, ◌+◌, ◌≤◌, not, List, [], ◌≡◌, ◌≢◌, ◌⊎◌, inl, inr, refl, sym, ap, ◌∙◌, arith, some, length, leb,
  ◌==◌, checked_mul, All, All-map, Pairwise, Both, Both-map, Both-All, Both-All_left, ok,
  ok-injective, require, >>=-elim,
}
use zwirn.Text.{Text, text_eq, ascii}
use zwirn.Text.Range.{index_range}
use zwirn.TreeMap.{get}
use zwirn.TreeMap.Nat.{nat_key}
use zwirn.Adls.Error.{malformed, or_malformed, invalid_header, invalid_identifier}
use zwirn.Adls.Parser.{add_at, read_u32, require_range, follow_uoffset}
use zwirn.Adls.Table.{table, field}
use zwirn.Adls.Layout.{
  Layout, table_region, string_region, header_region, vector_region, add, add_table,
}
use zwirn.Adls.Layout.Neighbours.{IsApart, region_of}
use zwirn.Adls.Layout.Apart.{add-IsGrown, get-disjoint}
use zwirn.Adls.Layout.Tables.{add_table-IsTableAdded}
use zwirn.Adls.Document.{
  SourceNode, Document, Pool, Objects, parse_vector, or_missing, parse_pool, parse_objects, parse,
}
use zwirn.Adls.Document.Strings.{IsSourceAt, string_size}
use zwirn.Adls.Document.Nodes.{IsNode, AreApart, IsBefore, IsFieldIn, IsObjects}
use zwirn.Adls.Document.WellFormed.{parse_objects-IsObjects}

-- The bytes from `start` to `end` overlap none of the fields.
abbrev pub IsClearOf : List ℕ → ℕ → ℕ → Type 0
IsClearOf fields start end = All (λ g. (g + 4 ≤ start) ⊎ (end ≤ g)) fields

-- The field at `f` points to `source`, whose bytes overlap none of the fields.
pub record HasSource (bytes : Text) (fields : List ℕ) (f : ℕ) (source : Text) : Type 0 where
  pub start : ℕ
  pub source_at : IsSourceAt bytes f start source
  pub clear : IsClearOf fields start (start + string_size source)

-- A document with the number `id`: its nodes rise by their index and have that number, each has a
-- field that points to its source, and the fields and the sources overlap no other field.
pub record IsDocument (id : ℕ) (document : Document) : Type 0 where
  pub rising : Pairwise IsBefore document.sources
  pub numbered : All (λ (node : SourceNode). node.handle.document ≡ id) document.sources
  pub spread : Pairwise AreApart document.source_field_locations
  pub readable :
      Both
        (λ (node : SourceNode) f.
          HasSource document.bytes document.source_field_locations f node.source)
        document.sources
        document.source_field_locations

parse_vector-IsApart :
    (bytes : Text) (layout : Layout) (pool_location : ℕ) {pool : Pool}
    → IsApart 0 layout
    → parse_vector bytes layout pool_location ≡ ok pool
    → IsApart 0 pool.layout
unfolding parse_vector
parse_vector-IsApart bytes layout pool_location w h =
    >>=-elim (read_u32 bytes pool_location "patch-object vector") _ h λ object_count _ h1.
      >>=-elim (require (not (object_count == 0)) (malformed pool_location "patch-object vector")) _
        h1
        λ _ _ h2.
          >>=-elim (add_at pool_location 4 pool_location "patch-object vector") _ h2
            λ elements_location _ h3.
              >>=-elim
                (or_malformed (checked_mul object_count 4) pool_location "patch-object vector") _ h3
                λ elements_size _ h4.
                  >>=-elim
                    (require_range bytes elements_location elements_size "patch-object vector") _ h4
                    λ _ _ h5.
                      >>=-elim
                        (add_at elements_location elements_size pool_location "patch-object vector")
                        _ h5
                        λ pool_end _ h6.
                          >>=-elim
                            (add layout pool_location pool_end vector_region "patch-object vector")
                            _ h6
                            λ next a h7.
                              let grown =
                                add-IsGrown pool_location pool_end vector_region
                                  "patch-object vector" layout next w a in
                              subst (λ (pool : Pool). IsApart 0 pool.layout) (ok-injective h7)
                                grown.apart

parse_pool-IsApart :
    (bytes : Text) {pool : Pool} → parse_pool bytes ≡ ok pool → IsApart 0 pool.layout
unfolding parse_pool
parse_pool-IsApart bytes h = >>=-elim (add [] 0 8 header_region "ADLS header") _ h λ header a h1.
    >>=-elim (follow_uoffset bytes 0 4 "root table") _ h1 λ root_location _ h2.
      >>=-elim (table bytes root_location "root table") _ h2 λ root _ h3.
        >>=-elim (add_table header root "root table") _ h3 λ layout b h4.
          >>=-elim (field bytes root 0 4 4 "root f0") _ h4 λ root_field _ h5.
            >>=-elim (or_missing bytes root_field) _ h5 λ pool_field _ h6.
              >>=-elim (follow_uoffset bytes pool_field 4 "patch-object vector") _ h6
                λ pool_location _ h7.
                  let grown = add-IsGrown 0 8 header_region "ADLS header" [] header tt a in
                  parse_vector-IsApart bytes layout pool_location
                    (add_table-IsTableAdded root "root table" header grown.apart b).apart h7

kinds : {a b : ℕ} → ¬ (some (region_of a table_region) ≡ some (region_of b string_region))
kinds h = cc

abbrev start_of : Pool → Objects
start_of pool = record {
  layout = pool.layout;
  object_indexes = [];
  sources = [];
  source_field_locations = [];
}

IsObjects-fields :
    (bytes : Text) (id end : ℕ) (objects : Objects)
    → IsObjects bytes id end objects
    → All (IsFieldIn objects.layout) objects.source_field_locations
IsObjects-fields bytes id end objects w =
    Both-All (IsNode bytes id objects.layout) (IsFieldIn objects.layout) objects.sources
      objects.source_field_locations (λ node f n. n.field_in) w.nodes

-- A string and a field of the layout do not overlap, since the one lies in a string region and the
-- other in a table region.
string-IsClearOf :
    (bytes : Text) (document : ℕ) (layout : Layout) (node : SourceNode) (f : ℕ) (fields : List ℕ)
    → IsApart 0 layout
    → (n : IsNode bytes document layout node f) → All (IsFieldIn layout) fields
    → IsClearOf fields n.start (n.start + string_size node.source)
string-IsClearOf bytes document layout node f fields w n h =
    All-map (IsFieldIn layout) _ fields
      (λ g v.
        let new : v.location ≢ n.start =
          λ e. absurd (kinds (sym v.stands ∙ ap (λ i. get i layout) e ∙ n.stands)) in
        elim (get-disjoint v.location n.start _ _ layout w v.stands n.stands new) [
          | inl l ↦ inl (omega (arith, l, v.inside))
          | inr l ↦ inr (omega (arith, l, v.behind))
        ])
      h

-- What `parse` returns is a document over the bytes it was given, with the number it was given:
-- the nodes rise by their index and have that number, each source stands, with its size and its
-- terminator, at an aligned place inside the bytes to which its field points, no two of these
-- fields overlap, and no field overlaps a source.
pub parse-IsDocument :
    (id : ℕ) (bytes : Text) {document : Document}
    → parse id bytes ≡ ok document
    → (document.bytes ≡ bytes) × IsDocument id document
unfolding parse
parse-IsDocument id bytes {document} h =
    >>=-elim (require (leb 8 (length bytes)) invalid_header) _ h λ _ _ h1.
      >>=-elim (index_range bytes 4 8) _ h1 λ identifier _ h2.
        >>=-elim (require (text_eq identifier (ascii "ADLS")) invalid_identifier) _ h2 λ _ _ h3.
          >>=-elim (parse_pool bytes) _ h3 λ pool p h4.
            >>=-elim
              (parse_objects bytes id pool.elements_location pool.object_count 0 (start_of pool)) _
              h4
              λ objects o h5.
                let (end, w) =
                  parse_objects-IsObjects bytes id pool.elements_location pool.object_count 0
                    (start_of pool)
                    (record {
                      apart = parse_pool-IsApart bytes p;
                      nodes = tt;
                      spread = tt;
                      rising = tt;
                      below = tt;
                    })
                    o in
                subst (λ (document : Document). (document.bytes ≡ bytes) × IsDocument id document)
                  (ok-injective h5)
                  (
                    refl,
                    record {
                      rising = w.rising;
                      numbered =
                          Both-All_left (IsNode bytes id objects.layout) _ objects.sources
                            objects.source_field_locations (λ node f n. n.numbered) w.nodes;
                      spread = w.spread;
                      readable =
                          Both-map (IsNode bytes id objects.layout) _ objects.sources
                            objects.source_field_locations
                            (λ node f n. record {
                              start = n.start;
                              source_at = n.source_at;
                              clear =
                                  string-IsClearOf bytes id objects.layout node f
                                    objects.source_field_locations w.apart n
                                    (IsObjects-fields bytes id end objects w);
                            })
                            w.nodes;
                    },
                  )
