-- ===== src/Fragment/Rewrite/Requests.antt =====
-- What the map of requests holds after the updates of a batch were collected.
use zwirn.Prelude.{
  List, [], ◌∷◌, ◌≡◌, refl, sym, ap, ◌∙◌, Option, none, some, if◌then◌else◌, ok, Bool-cases,
  Option-cases, inl, inr,
}
use zwirn.TreeMap.{get, insert}
use zwirn.TreeMap.Laws.{get-insert}
use zwirn.Fragment.Path.{FragmentPath, path_eq}
use zwirn.Fragment.Rewrite.{
  FragmentUpdate, update_path, update_source, RequestedSource, collect_requests, path_key,
  path_eq_iff, Requests,
}

-- The source that the first update of a path asks for.
abbrev pub requested_by : List FragmentUpdate → FragmentPath → Option RequestedSource
requested_by [] path = none
requested_by (u ∷ us) path =
    if path_eq (update_path u) path then some (update_source u) else requested_by us path

abbrev or_later : Option RequestedSource → Option RequestedSource → Option RequestedSource
or_later (some r) later = some r
or_later none later = later

or_later-none : (o : Option RequestedSource) → or_later o none ≡ o
or_later-none none = refl
or_later-none (some r) = refl

get-after_insert :
    (u : FragmentUpdate) (us : List FragmentUpdate) (m : Requests) (path : FragmentPath)
    → get (update_path u) m ≡ none
    → or_later (get path (insert (update_path u) (update_source u) m)) (requested_by us path)
      ≡ or_later (get path m) (requested_by (u ∷ us) path)
get-after_insert u us m path fresh =
    rw get-insert (elim (Bool-cases (path_eq (update_path u) path)) [
      | inl e ↦
          let same = (path_eq_iff (update_path u) path).0 e in
          rw (e, ap (λ p. get p m) (sym same) ∙ fresh)
      | inr e ↦ rw e
    ])

get-collect_requests_onto :
    (us : List FragmentUpdate) (m m' : Requests) (path : FragmentPath)
    → collect_requests m us ≡ ok m'
    → get path m' ≡ or_later (get path m) (requested_by us path)
unfolding collect_requests
get-collect_requests_onto [] m m' path h =
    let same : m ≡ m' = cc in rw (← same) (sym (or_later-none (get path m)))
get-collect_requests_onto (u ∷ us) m m' path h = elim (Option-cases (get (update_path u) m)) [
  | inr (previous, e) ↦ absurd (cc (rw (e, collect_requests) at h))
  | inl fresh ↦
      get-collect_requests_onto us (insert (update_path u) (update_source u) m) m' path
        (rw (fresh, collect_requests) at h)
      ∙ get-after_insert u us m path fresh
]

-- Once the batch is collected, every path is looked up to what its first update asks for.
pub get-collect_requests :
    (us : List FragmentUpdate) (m : Requests) (path : FragmentPath)
    → collect_requests [] us ≡ ok m
    → get path m ≡ requested_by us path
get-collect_requests us m path h = get-collect_requests_onto us [] m path h ∙ unfold get in refl
