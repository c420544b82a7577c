-- ===== src/Fragment/Tests/Rewrites.antt =====
-- A small marked source, parsed and rewritten.
use zwirn.Prelude.{List, [], ◌∷◌, ◌≡◌, ◌≢◌, refl, none, ok, panic}
use zwirn.Text.{Text, ascii}
use zwirn.Text
use zwirn.Text.Split.{split}
use zwirn.TreeMap
use zwirn.Adls.Kind.{dsp}
use zwirn.Fragment.Path.{FragmentPath, validate_fragment_path}
use zwirn.Fragment.Path
use zwirn.Fragment.Hash
use zwirn.Fragment.Canonical.{CanonicalSource}
use zwirn.Fragment.Lines.{physical_lines}
use zwirn.Fragment.Lines.Tiles.{Tiles}
use zwirn.Fragment.Marker.{missing, marker_comment, parse_marker, skip_horizontal, token_end}
use zwirn.Fragment.Source.{ParsedFragment, ParsedSource, parse, index_range}
use zwirn.Fragment.Source.Spans.{IsParse, parse-IsParse}
use zwirn.Fragment.Rewrite.{
  FragmentUpdate, replace_update, Rewritten, owned, rewritten_text, rewrite,
}
use zwirn.Fragment.Rewrite.Requests.{requested_by}
use zwirn.Fragment.Rewrite.Surgical.{surgical}
use zwirn.Fragment.Rewrite.Faithful.{rewrite-surgical, rewrite-ne-panic}
use zwirn.Fragment.Tests.{sum_digest, always}

abbrev pub marked : Text
marked = ascii "-- @{ a\nx\n-- @} a\ny\n"

abbrev pub path_a : FragmentPath
path_a = record { text = ascii "a" }

abbrev marked_fragment : ParsedFragment
marked_fragment = record {
  path = path_a;
  baseline = none;
  span_start = 8;
  span_end = 10;
  hash_location = missing 17;
}

abbrev marked_parsed : ParsedSource
marked_parsed = record { source = marked; fragments = marked_fragment ∷ [] }

parse-marked : parse dsp marked ≡ ok marked_parsed
unfolding parse physical_lines marker_comment parse_marker skip_horizontal token_end
    Text.starts_with Path.try_from Text.has_whitespace Text.contains Text.ends_with Text.text_eq
    split index_range
parse-marked = refl

parse-IsParse_example : IsParse marked (parse dsp marked)
parse-IsParse_example = parse-IsParse dsp marked

abbrev pub new_text : CanonicalSource
new_text = record { text = ascii "z\n" }

abbrev pub updates : List FragmentUpdate
updates = replace_update path_a new_text ∷ []

abbrev rewritten : Rewritten
rewritten = owned (ascii "-- @{ a\nz\n-- @} a 8484848484848484\ny\n")

rewrite-marked : rewrite sum_digest always marked_parsed updates ≡ ok rewritten
unfolding rewrite index_range TreeMap.get TreeMap.keys TreeMap.insert Text.text_eq Hash.display
rewrite-marked = refl

rewrite-surgical_example :
    rewritten_text rewritten
    ≡ surgical sum_digest marked (requested_by updates) 0 marked_parsed.fragments
rewrite-surgical_example =
    rewrite-surgical sum_digest always dsp marked marked_parsed parse-marked updates rewritten
      rewrite-marked

rewrite-ne-panic_example : rewrite sum_digest always marked_parsed updates ≢ panic
rewrite-ne-panic_example =
    rewrite-ne-panic sum_digest always dsp marked marked_parsed parse-marked updates
