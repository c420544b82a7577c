-- ===== src/Fragment/Rewrite.antt =====
-- src/fragment.rs: `ParsedSource::rewrite`.
pub mod Edits
pub mod Surgical
pub mod Requests
pub mod Faithful
pub mod Borrowed
use zwirn.Prelude.{
  and_then, checked_sub, checked_add, ℕ, suc, ◌+◌, ◌-◌, ◌^◌, Bool, true, false, not, ◌&&◌, ◌||◌,
  List, [], ◌∷◌, ◌++◌, ◌≡◌, ◌↔◌, ◌==◌, ◌⊎◌, inl, inr, ap, Option, none, some, if◌then◌else◌, leb,
  ltb, length, Result, ok, err, panic, ◌>>=◌, ◌>>◌, require,
}
use zwirn.Text.{Text, ascii, text_eq, text_eq_iff}
use zwirn.Text.Order.{text_lt, text_lt_irrefl, text_lt_trans, text_lt_total}
pub use zwirn.Text.Cow.{Rewritten, borrowed, owned, rewritten_text}
use zwirn.TreeMap.{Key, TreeMap, get, insert, keys}
use zwirn.Fragment.Path.{FragmentPath, path_eq}
use zwirn.Fragment.Hash.{BaselineHash, hash_eq, from_source, display}
use zwirn.Fragment.Canonical.{CanonicalSource, from_validated}
use zwirn.Fragment.Marker.{HashLocation, present, missing}
use zwirn.Fragment.Source.{ParsedFragment, ParsedSource, index_range}

pub data FragmentUpdate : Type 0 where
  record_update : FragmentPath → FragmentUpdate
  replace_update : FragmentPath → CanonicalSource → FragmentUpdate

pub data RequestedSource : Type 0 where
  current : RequestedSource
  replacement : CanonicalSource → RequestedSource

pub record TextEdit : Type 0 where
  pub range_start : ℕ
  pub range_end : ℕ
  pub replacement : Text

pub data RewriteError : Type 0 where
  duplicate_update : FragmentPath → RewriteError
  unknown_path : FragmentPath → RewriteError
  ambiguous_path : FragmentPath → RewriteError
  source_too_large : RewriteError
  allocation_failed : RewriteError

pub path_lt_total :
    (a b : FragmentPath) → (text_lt a.text b.text ≡ true) ⊎ (a ≡ b) ⊎ (text_lt b.text a.text ≡ true)
path_lt_total a b = elim (text_lt_total a.text b.text) [
  | inl h ↦ inl h
  | inr (inl e) ↦ inr (inl (ap (λ t. record { text = t }) e))
  | inr (inr h) ↦ inr (inr h)
]

pub path_eq_iff : (a b : FragmentPath) → (path_eq a b ≡ true) ↔ (a ≡ b)
path_eq_iff a b = (
  λ h. ap (λ t. record { text = t }) ((text_eq_iff a.text b.text).0 h),
  λ h. (text_eq_iff a.text b.text).1 (ap (λ (p : FragmentPath). p.text) h),
)

-- The derived `Ord` of a path is that of its string.
instance abbrev pub path_key : Key FragmentPath
path_key = record {
  lt = λ a b. text_lt a.text b.text;
  eq = path_eq;
  eq_iff = path_eq_iff;
  lt_irrefl = λ a. text_lt_irrefl a.text;
  lt_trans = λ a b c. text_lt_trans a.text b.text c.text;
  lt_total = path_lt_total;
}

abbrev pub Requests : Type 0
Requests = TreeMap FragmentPath RequestedSource

-- The arms that build `requested`.
abbrev pub update_path : FragmentUpdate → FragmentPath
update_path (record_update path) = path
update_path (replace_update path source) = path

abbrev pub update_source : FragmentUpdate → RequestedSource
update_source (record_update path) = current
update_source (replace_update path source) = replacement source

pub collect_requests : Requests → List FragmentUpdate → Result RewriteError Requests
collect_requests requested [] = ok requested
collect_requests requested (update ∷ rest) = elim (get (update_path update) requested) [
  | some previous ↦ err (duplicate_update (update_path update))
  | none ↦ collect_requests (insert (update_path update) (update_source update) requested) rest
]

-- How many fragments have the path; the code asks for a first and a second one.
pub matches : FragmentPath → List ParsedFragment → ℕ
matches path [] = 0
matches path (fragment ∷ rest) =
    if path_eq fragment.path path then suc (matches path rest) else matches path rest

-- The checks for one requested path.
pub check_matches : FragmentPath → ℕ → Result RewriteError (Unit {0})
check_matches path count =
    if count == 0
    then err (unknown_path path)
    else if leb 2 count
    then err (ambiguous_path path)
    else ok tt

pub check_requests : List FragmentPath → List ParsedFragment → Result RewriteError (Unit {0})
unfolding check_matches matches
check_requests [] fragments = ok tt
check_requests (path ∷ rest) fragments = do
  check_matches path (matches path fragments)
  check_requests rest fragments

-- The edit that records `hash`.
pub hash_edit : BaselineHash → HashLocation → TextEdit
hash_edit hash (present from to) = record {
  range_start = from;
  range_end = to;
  replacement = display hash;
}
hash_edit hash (missing insertion) = record {
  range_start = insertion;
  range_end = insertion;
  replacement = ascii " " ++ display hash;
}

abbrev pub baseline_is : Option BaselineHash → BaselineHash → Bool
baseline_is none hash = false
baseline_is (some baseline) hash = hash_eq baseline hash

pub hash_edits : ParsedFragment → BaselineHash → List TextEdit
hash_edits fragment hash =
    if not (baseline_is fragment.baseline hash)
    then hash_edit hash fragment.hash_location ∷ []
    else []

-- The edit that replaces the source, when it differs.
pub source_edits : ParsedFragment → Text → CanonicalSource → List TextEdit
source_edits fragment text source =
    if not (text_eq text source.text)
    then record {
      range_start = fragment.span_start;
      range_end = fragment.span_end;
      replacement = source.text;
    }
      ∷ []
    else []

module _ (digest : Text → List ℕ) where
  -- What one fragment adds to `edits`, from the text of its span.
  pub request_edits : ParsedFragment → Text → RequestedSource → List TextEdit
  request_edits fragment text current =
      hash_edits fragment (from_source digest (from_validated text).text)
  request_edits fragment text (replacement source) =
      source_edits fragment text source ++ hash_edits fragment (from_source digest source.text)

  -- The body of the loop, from what `requested.get` finds.
  pub option_edits :
      Text → ParsedFragment → Option RequestedSource → Result RewriteError (List TextEdit)
  unfolding index_range
  option_edits source fragment none = ok []
  option_edits source fragment (some request) = do
    text ← index_range source fragment.span_start fragment.span_end
    ok (request_edits fragment text request)

  pub all_edits : Text → Requests → List ParsedFragment → Result RewriteError (List TextEdit)
  unfolding option_edits request_edits source_edits hash_edits hash_edit
  all_edits source requested [] = ok []
  all_edits source requested (fragment ∷ rest) = do
    edits ← option_edits source fragment (get fragment.path requested)
    others ← all_edits source requested rest
    ok (edits ++ others)

abbrev pub or_too_large : Option ℕ → Result RewriteError ℕ
or_too_large none = err source_too_large
or_too_large (some n) = ok n

-- The `try_fold` that gives `final_length`; the length of a range is 0 if its ends are crossed.
pub fold_length : ℕ → List TextEdit → Result RewriteError ℕ
fold_length size [] = ok size
fold_length size (edit ∷ rest) = do
  next ← or_too_large (
      and_then (checked_sub size (edit.range_end - edit.range_start))
        (λ n. checked_add n (length edit.replacement)))
  fold_length next rest

-- The loop that copies, and the push after it.
pub apply_edits : Text → Text → ℕ → List TextEdit → Result RewriteError Text
unfolding index_range
apply_edits source rewritten cursor [] = do
  text ← index_range source cursor (length source)
  ok (rewritten ++ text)
apply_edits source rewritten cursor (edit ∷ rest) = do
  text ← index_range source cursor edit.range_start
  apply_edits source ((rewritten ++ text) ++ edit.replacement) edit.range_end rest

module _ (digest : Text → List ℕ) (can_reserve : ℕ → Bool) where
  -- From the list of edits on; `can_reserve` is the allocator's answer.
  pub write_edits : Text → List TextEdit → Result RewriteError Rewritten
  write_edits source [] = ok (borrowed source)
  write_edits source (edit ∷ rest) = do
    final_length ← fold_length (length source) (edit ∷ rest)
    require (can_reserve final_length) allocation_failed
    rewritten ← apply_edits source [] 0 (edit ∷ rest)
    ok (owned rewritten)

  -- The rewrite for a batch that is not empty.
  pub rewrite_batch : ParsedSource → List FragmentUpdate → Result RewriteError Rewritten
  unfolding collect_requests check_requests all_edits write_edits fold_length apply_edits
  rewrite_batch parsed updates = do
    requested ← collect_requests [] updates
    check_requests (keys requested) parsed.fragments
    edits ← all_edits digest parsed.source requested parsed.fragments
    write_edits parsed.source edits

  unfoldable pub rewrite : ParsedSource → List FragmentUpdate → Result RewriteError Rewritten
  unfolding rewrite_batch
  rewrite parsed [] = ok (borrowed parsed.source)
  rewrite parsed (update ∷ rest) = rewrite_batch parsed (update ∷ rest)
