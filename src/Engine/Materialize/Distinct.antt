-- ===== src/Engine/Materialize/Distinct.antt =====
-- src/engine.rs: the fragments of a prepared document have different paths.
use zwirn.Prelude.{
  err-ne-ok, ℕ, List, [], ◌∷◌, ◌++◌, ◌≡◌, ◌≢◌, inl, inr, refl, sym, ap, ◌∙◌, Option, none, some,
  All, All-append, All-map, Pairwise, Pairwise-lists, ok, ok-injective, >>=-elim, map_err,
  map_err-eq-ok, Option-cases, Bool-cases,
}
use zwirn.Text.{Text}
use zwirn.TreeMap.{get, insert}
use zwirn.TreeMap.Laws.{get-insert}
use zwirn.Fragment.Path.{FragmentPath, path_eq}
use zwirn.Fragment.Source.{ParsedSource, Fragment, fragments}
use zwirn.Fragment.Source
use zwirn.Fragment.Rewrite.{path_key, path_eq_iff}
use zwirn.Adls.Document.{SourceNode}
use zwirn.Adls.Document
use zwirn.Engine.{EngineError, invalid_prepared_markers, document}
use zwirn.Engine.Materialize.{PathSet, insert_paths, validate_nodes, validate_prepared_document}

abbrev pub Differ : Fragment → Fragment → Type 0
Differ f g = f.path ≢ g.path

-- All fragments of the nodes, in their order.
abbrev pub AreFragments : List SourceNode → List Fragment → Type 0
AreFragments [] all = all ≡ []
AreFragments (node ∷ rest) all =
    (parsed : ParsedSource) × (found : List Fragment) × (others : List Fragment) × (Source.parse
        node.kind node.source
      ≡ ok parsed)
    × (fragments {E = EngineError} parsed ≡ ok found)
    × AreFragments rest others
    × (all ≡ found ++ others)

abbrev IsNew : PathSet → Fragment → Type 0
IsNew paths fragment = get fragment.path paths ≡ none

-- What is not in a set with one path more is another path, and was not in it before.
get-insert-eq-none :
    (p q : FragmentPath) (paths : PathSet)
    → get q (insert p tt paths) ≡ none
    → (p ≢ q) × (get q paths ≡ none)
get-insert-eq-none p q paths h =
    let e = sym (get-insert q p tt paths) ∙ h in
    elim (Bool-cases (path_eq p q)) [
      | inl same ↦ absurd (some_none (rw same at e))
      | inr other ↦ ((λ s. cc ((path_eq_iff p q).1 s, other)), rw other at e)
    ]
  where
    some_none : ¬ (◌≡◌ {A = Option (Unit {0})} (some tt) none)
    some_none h = cc

record AreInserted (paths next : PathSet) (found : List Fragment) : Type 0 where
  fresh : All (IsNew paths) found
  differ : Pairwise Differ found
  kept :
      (q : FragmentPath)
      → get q next ≡ none
      → (get q paths ≡ none) × All (λ (f : Fragment). f.path ≢ q) found

insert_paths-AreInserted :
    (paths : PathSet) (found : List Fragment) {next : PathSet}
    → insert_paths paths found ≡ ok next
    → AreInserted paths next found
unfolding insert_paths
insert_paths-AreInserted paths [] h = record {
  fresh = tt;
  differ = tt;
  kept = λ q g. (ap (get q) (ok-injective h) ∙ g, tt);
}
insert_paths-AreInserted paths (fragment ∷ rest) h = elim (Option-cases (get fragment.path paths)) [
  | inl e ↦
      let w =
        insert_paths-AreInserted (insert fragment.path tt paths) rest (rw (e, insert_paths) at h) in
      record {
        fresh = (
          e,
          All-map (IsNew (insert fragment.path tt paths)) (IsNew paths) rest
              (λ g n. (get-insert-eq-none fragment.path g.path paths n).1) w.fresh,
        );
        differ = (
          All-map (IsNew (insert fragment.path tt paths)) (Differ fragment) rest
              (λ g n. (get-insert-eq-none fragment.path g.path paths n).0) w.fresh,
          w.differ,
        );
        kept = λ q g.
            let (before, others) = w.kept q g in
            let (apart, old) = get-insert-eq-none fragment.path q paths before in
            (old, (apart, others));
      }
  | inr (found, e) ↦ absurd (err-ne-ok (rw (e, insert_paths) at h))
]

validate_nodes-Differ :
    (paths : PathSet) (nodes : List SourceNode) {next : PathSet}
    → validate_nodes paths nodes ≡ ok next
    → (all : List Fragment) × AreFragments nodes all × All (IsNew paths) all × Pairwise Differ all
unfolding validate_nodes
validate_nodes-Differ paths [] h = ([], refl, tt, tt)
validate_nodes-Differ paths (node ∷ rest) h =
    let markers = invalid_prepared_markers node.handle.index in
    >>=-elim (map_err markers (Source.parse node.kind node.source)) _ h λ parsed p h1.
      >>=-elim (fragments parsed) _ h1 λ found f h2.
        >>=-elim (insert_paths paths found) _ h2 λ middle i h3.
          let (others, are, new, differ) = validate_nodes-Differ middle rest h3 in
          let w = insert_paths-AreInserted paths found i in
          (
            found ++ others,
            (
              parsed,
              found,
              others,
              map_err-eq-ok markers (Source.parse node.kind node.source) p,
              f,
              are,
              refl,
            ),
            All-append (IsNew paths) found others w.fresh
                (All-map (IsNew middle) (IsNew paths) others (λ g n. (w.kept g.path n).0) new),
            Pairwise-lists Differ found others w.differ differ
                (All-map (IsNew middle) _ others (λ g n. (w.kept g.path n).1) new),
          )

-- A prepared document that is accepted is parsed again, the markers of each of its nodes are valid,
-- and no two fragments of all its nodes have the same path.
pub validate_prepared_document-Differ :
    (number : ℕ) (bytes : Text)
    → validate_prepared_document number bytes ≡ ok tt
    → (prepared : Document.Document) × (Document.parse number bytes ≡ ok prepared)
      × (all : List Fragment) × AreFragments prepared.sources all
      × Pairwise Differ all
unfolding validate_prepared_document
validate_prepared_document-Differ number bytes h =
    >>=-elim (map_err document (Document.parse number bytes)) _ h λ prepared e h1.
      >>=-elim (validate_nodes [] prepared.sources) _ h1 λ paths v _.
        let (all, are, _, differ) = validate_nodes-Differ [] prepared.sources v in
        (prepared, map_err-eq-ok document (Document.parse number bytes) e, all, are, differ)
