-- ===== src/Adls/Document/Strings.antt =====
-- src/adls.rs: the source string to which a field of a document points.
use mathlib.Core.Path.{subst}
use zwirn.Prelude.{
  ℕ, ◌+◌, ◌<◌, [], ◌∷◌, ◌++◌, ◌≡◌, sym, ap, ◌∙◌, arith, zero, suc, ◌-◌, take, drop, some, length,
  get_elem?, ◌==◌, ==_iff, ok, require, >>=-elim,
}
use zwirn.Text.{Text, slice}
use zwirn.Text.Range.{get_range, index_range}
use zwirn.Text.Range.Laws.{get_range_of, get_range-bounds}
use zwirn.Text.Slice.{slice-split, length-slice}
use zwirn.Text.Utf8.{is_utf8}
use zwirn.Adls.Error.{NodeHandle, Error, malformed, invalid_source_utf8, or_malformed}
use zwirn.Adls.Parser.{from_le_bytes, add_at, read_u32, require_range, follow_uoffset}
use zwirn.Adls.Parser.Reads.{
  IsPointer, or_malformed-eq-ok, add_at-eq-ok, require-eq-ok, read_u32-eq-ok, follow_uoffset-eq-ok,
}
use zwirn.Adls.Layout.{Layout, string_region, add}
use zwirn.Adls.Layout.Neighbours.{IsApart}
use zwirn.Adls.Layout.Apart.{IsGrown, add-IsGrown}
use zwirn.Adls.Document.{read_string}

-- The bytes of a string in a document: its size and four bytes more, and one byte behind it.
abbrev pub string_size : Text → ℕ
string_size source = length source + 5

-- The field at `field_location` points to `start`, where the size of `source`, its bytes and a
-- terminator stand.
pub record IsSourceAt (bytes : Text) (field_location start : ℕ) (source : Text) : Type 0 where
  pub points : IsPointer bytes field_location 4 start
  pub size : Text
  pub sized : from_le_bytes size ≡ length source
  pub holds :
      get_range bytes start (start + string_size source) ≡ some (size ++ (source ++ (0 ∷ [])))

slice_one :
    (bytes : Text) (i b : ℕ)
    → get_elem? bytes i ≡ some b
    → (slice bytes i (i + 1) ≡ b ∷ []) × (i < length bytes)
slice_one [] i b h = absurd (cc)
slice_one (x ∷ bytes) zero b h = (ap (λ n. n ∷ []) (cc), omega arith)
slice_one (x ∷ bytes) (suc i) b h =
    let (e, l) = slice_one bytes i b h in
    let same : suc i + 1 - suc i ≡ i + 1 - i = omega arith in
    (ap (λ n. take n (drop i bytes)) same ∙ e, omega arith)

get_elem?-get_range :
    (bytes : Text) (i b : ℕ)
    → get_elem? bytes i ≡ some b
    → get_range bytes i (i + 1) ≡ some (b ∷ [])
get_elem?-get_range bytes i b h =
    let (e, l) = slice_one bytes i b h in
    get_range_of bytes i (i + 1) (omega arith) (omega arith) ∙ ap some e

index_range-get_range :
    (bytes : Text) (from to : ℕ) {text : Text}
    → index_range {E = Error} bytes from to ≡ ok text
    → get_range bytes from to ≡ some text
unfolding index_range get_range
index_range-get_range bytes from to h = ground arith

-- Ranges that follow one another.
get_range-join :
    (bytes a b : Text) (from middle to : ℕ)
    → get_range bytes from middle ≡ some a
    → get_range bytes middle to ≡ some b
    → get_range bytes from to ≡ some (a ++ b)
get_range-join bytes a b from middle to h k =
    let (l, m, e) = get_range-bounds bytes a from middle h in
    let (n, o, f) = get_range-bounds bytes b middle to k in
    get_range_of bytes from to (omega arith) o
    ∙ ap some (
        slice-split bytes from middle to l n
        ∙ ap (λ t. t ++ slice bytes middle to) e
        ∙ ap (λ t. a ++ t) f)

-- A size, so many bytes and a terminator make one range.
string_range :
    (bytes size text : Text) (start body terminator n : ℕ)
    → body ≡ start + 4
    → terminator ≡ body + n
    → get_range bytes start (start + 4) ≡ some size
    → get_range bytes body (body + n) ≡ some text
    → get_elem? bytes terminator ≡ some 0
    → (length text ≡ n)
      × (get_range bytes start (start + string_size text) ≡ some (size ++ (text ++ (0 ∷ []))))
string_range bytes size text start body terminator n e f g h t =
    let (low, high, cut) = get_range-bounds bytes text body (body + n) h in
    let exact : body + n - body ≡ n = omega arith in
    let long : length text ≡ n =
      ap length (sym cut) ∙ length-slice bytes body (body + n) low high ∙ exact in
    let stop : start + string_size text ≡ terminator + 1 = omega arith in
    let front : get_range bytes start body ≡ some size = rw e g in
    let middle : get_range bytes body terminator ≡ some text = rw f h in
    (
      long,
      rw stop (
          get_range-join bytes size (text ++ (0 ∷ [])) start body (terminator + 1) front (
            get_range-join bytes text (0 ∷ []) body terminator (terminator + 1) middle
              (get_elem?-get_range bytes terminator 0 t))),
    )

pub read_string-IsSourceAt :
    (bytes : Text) (handle : NodeHandle) (layout : Layout) (field_location : ℕ) {next : Layout}
    {source : Text}
    → IsApart 0 layout
    → read_string bytes handle layout field_location ≡ ok (next, source)
    → (start : ℕ) × IsSourceAt bytes field_location start source
      × IsGrown layout next start (start + string_size source) string_region
unfolding read_string
read_string-IsSourceAt bytes handle layout field_location {next} {source} w h =
    >>=-elim (follow_uoffset bytes field_location 4 "source string") _ h λ start p h1.
      >>=-elim (read_u32 bytes start "source string") _ h1 λ source_length r h2.
        >>=-elim (add_at start 4 start "source string") _ h2 λ bytes_location a h3.
          >>=-elim (add_at bytes_location source_length start "source string") _ h3
            λ terminator_location b h4.
              >>=-elim (require_range bytes bytes_location source_length "source string") _ h4
                λ _ _ h5.
                  >>=-elim
                    (or_malformed (get_elem? bytes terminator_location) terminator_location
                      "source string terminator")
                    _ h5
                    λ terminator t h6.
                      >>=-elim
                        (require (terminator == 0)
                          (malformed terminator_location "source string terminator"))
                        _ h6
                        λ _ z h7.
                          >>=-elim (add_at terminator_location 1 start "source string") _ h7
                            λ source_end c h8.
                              >>=-elim (add layout start source_end string_region "source string") _
                                h8
                                λ with_string l h9.
                                  >>=-elim
                                    (index_range bytes bytes_location
                                      (bytes_location + source_length))
                                    _ h9
                                    λ text i h10.
                                      >>=-elim (require (is_utf8 text) (invalid_source_utf8 handle))
                                        _ h10
                                        λ _ _ h11.
                                          let (size, g, v) =
                                            read_u32-eq-ok bytes start "source string" r in
                                          let (e1, _) =
                                            add_at-eq-ok start 4 start "source string" a in
                                          let (e2, _) =
                                            add_at-eq-ok bytes_location source_length start
                                              "source string" b in
                                          let (e3, _) =
                                            add_at-eq-ok terminator_location 1 start "source string"
                                              c in
                                          let zero_byte : terminator ≡ 0 = (==_iff terminator 0).0 (
                                            require-eq-ok (terminator == 0)
                                              (malformed terminator_location
                                                "source string terminator")
                                              z) in
                                          let last : get_elem? bytes terminator_location ≡ some 0 =
                                            or_malformed-eq-ok (get_elem? bytes terminator_location)
                                              terminator_location "source string terminator" t
                                            ∙ ap some zero_byte in
                                          let (long, whole) =
                                            string_range bytes size text start bytes_location
                                              terminator_location source_length e1 e2 g
                                              (index_range-get_range bytes bytes_location
                                                (bytes_location + source_length) i)
                                              last in
                                          let same : source_end ≡ start + string_size text =
                                            omega arith in
                                          let texts : text ≡ source = cc in
                                          let layouts : with_string ≡ next = cc in
                                          let grown : IsGrown layout with_string start source_end
                                              string_region =
                                            add-IsGrown start source_end string_region
                                              "source string" layout with_string w l in
                                          (
                                            start,
                                            record {
                                              points =
                                                  follow_uoffset-eq-ok bytes field_location 4
                                                    "source string" p;
                                              size = size;
                                              sized = sym v ∙ sym long ∙ ap length texts;
                                              holds = rw (← texts) whole;
                                            },
                                            subst
                                                (λ n.
                                                  IsGrown layout n start
                                                    (start + string_size source) string_region)
                                                layouts
                                                (subst
                                                  (λ n.
                                                    IsGrown layout with_string start n
                                                      string_region)
                                                  (same ∙ ap (λ t. start + string_size t) texts)
                                                  grown),
                                          )
