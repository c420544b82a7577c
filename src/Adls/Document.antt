-- ===== src/Adls/Document.antt =====
-- src/adls.rs: `Document::parse`.
pub mod Nodes
pub mod Total
pub mod Parsed
pub mod WellFormed
pub mod Strings
use zwirn.Prelude.{
  ℕ, zero, suc, ◌+◌, ◌^◌, Bool, not, ◌&&◌, List, [], ◌∷◌, ◌++◌, Option, none, some, ltb, leb, ◌==◌,
  length, get_elem?, checked_mul, Result, ok, err, panic, ◌>>=◌, ◌>>◌, require,
}
use zwirn.Text.{Text, ascii, text_eq}
use zwirn.Text.Range.{index_range}
use zwirn.Text.Utf8.{is_utf8}
use zwirn.TreeMap.{TreeMap, get, insert}
use zwirn.TreeMap.Nat.{nat_key}
use zwirn.Adls.Kind.{NodeKind, from_type_id}
use zwirn.Adls.Error.{
  NodeHandle, Error, invalid_header, invalid_identifier, malformed, missing_patch_object_pool,
  duplicate_patch_object_table, invalid_source_utf8, or_malformed,
}
use zwirn.Adls.Parser.{add_at, read_u32, require_range, follow_uoffset}
use zwirn.Adls.Table.{Table, table, field}
use zwirn.Adls.Layout.{Layout, header_region, vector_region, string_region, add, add_table}

pub record SourceNode : Type 0 where
  pub handle : NodeHandle
  pub kind : NodeKind
  pub source : Text

pub record Document : Type 0 where
  pub bytes : Text
  pub sources : List SourceNode
  pub source_field_locations : List ℕ

-- What the loop over the patch objects starts with: the layout with the header, the root table and
-- the vector, and where the elements of the vector are.
pub record Pool : Type 0 where
  pub layout : Layout
  pub elements_location : ℕ
  pub object_count : ℕ

-- The variables of the loop.
pub record Objects : Type 0 where
  pub layout : Layout
  pub object_indexes : TreeMap ℕ ℕ
  pub sources : List SourceNode
  pub source_field_locations : List ℕ

module _ (bytes : Text) where
  -- From the vector's location on.
  unfoldable pub parse_vector : Layout → ℕ → Result Error Pool
  parse_vector layout pool_location = do
    object_count ← read_u32 bytes pool_location "patch-object vector"
    require (not (object_count == 0)) (malformed pool_location "patch-object vector")
    elements_location ← add_at pool_location 4 pool_location "patch-object vector"
    elements_size ← or_malformed (checked_mul object_count 4) pool_location "patch-object vector"
    require_range bytes elements_location elements_size "patch-object vector"
    pool_end ← add_at elements_location elements_size pool_location "patch-object vector"
    with_vector ← add layout pool_location pool_end vector_region "patch-object vector"
    ok (record {
      layout = with_vector;
      elements_location = elements_location;
      object_count = object_count;
    })

  abbrev or_missing : Option ℕ → Result Error ℕ
  or_missing none = err missing_patch_object_pool
  or_missing (some location) = ok location

  unfoldable pub parse_pool : Result Error Pool
  unfolding parse_vector
  parse_pool = do
    header ← add [] 0 8 header_region "ADLS header"
    root_location ← follow_uoffset bytes 0 4 "root table"
    root ← table bytes root_location "root table"
    layout ← add_table header root "root table"
    root_field ← field bytes root 0 4 4 "root f0"
    pool_field ← or_missing root_field
    pool_location ← follow_uoffset bytes pool_field 4 "patch-object vector"
    parse_vector layout pool_location

  -- The source string to which a field points, with the layout that has its region.
  unfoldable pub read_string : NodeHandle → Layout → ℕ → Result Error (Layout × Text)
  unfolding index_range
  read_string handle layout source_field_location = do
    source_location ← follow_uoffset bytes source_field_location 4 "source string"
    source_length ← read_u32 bytes source_location "source string"
    source_bytes_location ← add_at source_location 4 source_location "source string"
    terminator_location ← add_at source_bytes_location source_length source_location "source string"
    require_range bytes source_bytes_location source_length "source string"
    terminator ←
        or_malformed (get_elem? bytes terminator_location) terminator_location
          "source string terminator"
    require (terminator == 0) (malformed terminator_location "source string terminator")
    source_end ← add_at terminator_location 1 source_location "source string"
    with_string ← add layout source_location source_end string_region "source string"
    source ← index_range bytes source_bytes_location (source_bytes_location + source_length)
    require (is_utf8 source) (invalid_source_utf8 handle)
    ok (with_string, source)

  abbrev or_zero : Option ℕ → Result Error ℕ
  or_zero none = ok 0
  or_zero (some location) = read_u32 bytes location "patch object f0"

  -- The end of the body, for a node whose source field was looked up.
  unfoldable pub push_source : NodeHandle → NodeKind → Objects → Option ℕ → Result Error Objects
  unfolding read_string
  push_source handle kind objects none = ok objects
  push_source handle kind objects (some source_field_location) = do
    (layout, source) ← read_string handle objects.layout source_field_location
    ok (record objects {
      layout = layout;
      sources = objects.sources ++ (record { handle = handle; kind = kind; source = source } ∷ []);
      source_field_locations = objects.source_field_locations ++ (source_field_location ∷ []);
    })

  -- The same from `type_id` on.
  unfoldable pub parse_kind : NodeHandle → Table → Option NodeKind → Objects → Result Error Objects
  unfolding push_source
  parse_kind handle object none objects = ok objects
  parse_kind handle object (some kind) objects = do
    source_field ← field bytes object 10 4 4 "patch object f10"
    push_source handle kind objects source_field

  -- The middle of the body: the table, which is new, and its type.
  unfoldable pub parse_table : NodeHandle → ℕ → Objects → Result Error Objects
  unfolding parse_kind
  parse_table handle object_location objects = do
    object ← table bytes object_location "patch object"
    layout ← add_table objects.layout object "patch object"
    type_field ← field bytes object 0 4 4 "patch object f0"
    type_id ← or_zero type_field
    require (not (handle.index == 0 && not (type_id == 0)))
        (malformed object_location "root patch object")
    parse_kind handle object (from_type_id type_id) (record objects {
      layout = layout;
      object_indexes = insert object_location handle.index objects.object_indexes;
    })

  -- The body of the loop. `document` is what `DocumentId::fresh` gave.
  unfoldable pub parse_object : ℕ → ℕ → ℕ → Objects → Result Error Objects
  unfolding parse_table
  parse_object document elements_location index objects = do
    element_offset ← or_malformed (checked_mul index 4) elements_location "patch-object vector"
    element_location ←
        add_at elements_location element_offset elements_location "patch-object vector"
    object_location ← follow_uoffset bytes element_location 4 "patch object"
    require (ltb index (2 ^ 32)) (malformed element_location "patch-object index")
    elim (get object_location objects.object_indexes) [
      | some first_index ↦ err (duplicate_patch_object_table first_index index)
      | none ↦ parse_table (record { index = index; document = document }) object_location objects
    ]

  -- The loop from `index` on, with `count` objects left.
  unfoldable pub parse_objects : ℕ → ℕ → ℕ → ℕ → Objects → Result Error Objects
  unfolding parse_object
  parse_objects document elements_location zero index objects = ok objects
  parse_objects document elements_location (suc count) index objects = do
    next ← parse_object document elements_location index objects
    parse_objects document elements_location count (index + 1) next

unfoldable pub parse : ℕ → Text → Result Error Document
unfolding index_range parse_pool parse_objects
parse document bytes = do
  require (leb 8 (length bytes)) invalid_header
  identifier ← index_range bytes 4 8
  require (text_eq identifier (ascii "ADLS")) invalid_identifier
  pool ← parse_pool bytes
  objects ← parse_objects bytes document pool.elements_location pool.object_count 0 (record {
    layout = pool.layout;
    object_indexes = [];
    sources = [];
    source_field_locations = [];
  })
  ok (record {
    bytes = bytes;
    sources = objects.sources;
    source_field_locations = objects.source_field_locations;
  })
