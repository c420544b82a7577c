-- ===== src/Engine/Outputs.antt =====
-- The outputs of a command are in the order that a commit asks for.
use mathlib.Core.Path.{subst}
use zwirn.Prelude.{
  true, List, [], ◌∷◌, ◌++◌, map, append_assoc, append-nil, ◌≡◌, sym, ap, ◌∙◌, ok, >>=-eq-ok, All,
}
use zwirn.Inventory.Select.{IsPathSorted}
use zwirn.Fragment.Path.{FragmentPath}
use zwirn.Reconcile.{Action, record_hash, Decision, settled, act, unresolved}
use zwirn.Commit.{ExternalOutput, path_lt, validate_order}
use zwirn.Commit.Order.{Ascending, validate_order_iff}
use zwirn.Engine.{
  InventoryEntry, state_entry, Gathered, update_of, extracted_by, gather_action, gather_one, gather,
  nothing_gathered, external_output, external_outputs,
}

abbrev extracted_one : InventoryEntry → Decision → List InventoryEntry
extracted_one entry (act action) = extracted_by action entry
extracted_one entry settled = []
extracted_one entry (unresolved state) = []

abbrev extracted_of : List InventoryEntry → List Decision → List InventoryEntry
extracted_of [] ds = []
extracted_of (e ∷ es) [] = []
extracted_of (e ∷ es) (d ∷ ds) = extracted_one e d ++ extracted_of es ds

gather_one-extracted :
    (e : InventoryEntry) (d : Decision) (g h : Gathered)
    → gather_one e d g ≡ ok h
    → h.extracted ≡ g.extracted ++ extracted_one e d
gather_one-extracted e settled g h q = cc (append-nil g.extracted)
gather_one-extracted e (unresolved state) g h q =
    let same : record g { attention = true; entries = g.entries ++ (state_entry e.path state ∷ []) }
        ≡ h =
      cc in
    sym (ap (λ (x : Gathered). x.extracted) same) ∙ sym (append-nil g.extracted)
gather_one-extracted e (act action) g h q =
    let (update, u, r) = >>=-eq-ok (update_of e action e.filesystem) _ q in
    let same : gather_action e action update g ≡ h = cc in
    sym (ap (λ (x : Gathered). x.extracted) same)

gather-extracted :
    (es : List InventoryEntry) (ds : List Decision) (g h : Gathered)
    → gather es ds g ≡ ok h
    → h.extracted ≡ g.extracted ++ extracted_of es ds
unfolding gather
gather-extracted [] ds g h q = cc (append-nil g.extracted)
gather-extracted (e ∷ es) [] g h q = cc (append-nil g.extracted)
gather-extracted (e ∷ es) (d ∷ ds) g h q =
    let (next, u, r) = >>=-eq-ok (gather_one e d g) _ q in
    gather-extracted es ds next h r
    ∙ ap (λ x. x ++ extracted_of es ds) (gather_one-extracted e d g next u)
    ∙ append_assoc g.extracted (extracted_one e d) (extracted_of es ds)

above_extracted :
    (path : FragmentPath) (es : List InventoryEntry) (ds : List Decision)
    → All (λ (f : InventoryEntry). path_lt path f.path ≡ true) es
    → All
        (λ (o : ExternalOutput). path_lt path o.path ≡ true)
        (map external_output (extracted_of es ds))
above_extracted path [] ds h = tt
above_extracted path (e ∷ es) [] h = tt
above_extracted path (e ∷ es) (settled ∷ ds) h = above_extracted path es ds h.1
above_extracted path (e ∷ es) (unresolved state ∷ ds) h = above_extracted path es ds h.1
above_extracted path (e ∷ es) (act record_hash ∷ ds) h = above_extracted path es ds h.1
above_extracted path (e ∷ es) (act Action.embed ∷ ds) h = above_extracted path es ds h.1
above_extracted path (e ∷ es) (act Action.extract ∷ ds) h = (h.0, above_extracted path es ds h.1)

extracted_of-Ascending :
    (es : List InventoryEntry) (ds : List Decision)
    → IsPathSorted es
    → Ascending (map external_output (extracted_of es ds))
extracted_of-Ascending [] ds h = tt
extracted_of-Ascending (e ∷ es) [] h = tt
extracted_of-Ascending (e ∷ es) (settled ∷ ds) h = extracted_of-Ascending es ds h.1
extracted_of-Ascending (e ∷ es) (unresolved state ∷ ds) h = extracted_of-Ascending es ds h.1
extracted_of-Ascending (e ∷ es) (act record_hash ∷ ds) h = extracted_of-Ascending es ds h.1
extracted_of-Ascending (e ∷ es) (act Action.embed ∷ ds) h = extracted_of-Ascending es ds h.1
extracted_of-Ascending (e ∷ es) (act Action.extract ∷ ds) h =
    (above_extracted e.path es ds h.0, extracted_of-Ascending es ds h.1)

-- If the entries of a command are in the order of their paths, without repetition, the outputs
-- that its decisions gather are accepted by the commit's check of their order.
pub validate_order-external_outputs :
    {I : Type 0} (es : List InventoryEntry) (ds : List Decision) (h : Gathered)
    → IsPathSorted es
    → gather es ds nothing_gathered ≡ ok h
    → validate_order {I = I} (external_outputs h.extracted) ≡ ok tt
unfolding external_outputs
validate_order-external_outputs es ds h sorted q =
    (validate_order_iff (map external_output h.extracted)).1 (
      subst (λ xs. Ascending (map external_output xs))
        (sym (gather-extracted es ds nothing_gathered h q)) (extracted_of-Ascending es ds sorted))
