-- ===== src/Engine.antt =====
-- src/engine.rs: a command's report, and what its decisions ask of the document and the files.
pub mod Outputs
pub mod Exit
pub mod Errors
pub mod Mutate
pub mod Materialize
pub mod Run
pub mod Tests
use zwirn.Prelude.{
  ℕ, Bool, true, false, not, ◌||◌, List, [], ◌∷◌, ◌++◌, map, ◌≡◌, ◌↔◌, ◌⊎◌, inl, inr, arith, Option,
  none, some, ◌==◌, ltb, if◌then◌else◌, Result, ok, err, panic, ◌>>=◌, map_err, get_elem?, ==_iff,
}
pub use zwirn.Inventory.{InventoryEntry}
use zwirn.TreeMap.Nat.{nat_key}
use zwirn.TreeMap.{Key, TreeMap, get, insert}
use zwirn.Text.{Text}
use zwirn.Fragment.Path.{FragmentPath}
use zwirn.Fragment.Canonical.{CanonicalSource}
use zwirn.Fragment.Hash.{BaselineHash}
use zwirn.Fragment.Marker.{ParseError}
use zwirn.Fragment.Rewrite.{FragmentUpdate, record_update, replace_update, RewriteError}
use zwirn.Adls.Error.{Error}
use zwirn.Reconcile.{
  State, Classification, state, classify, Operation, SelectionKind, Action, record_hash, Decision,
  settled, act, unresolved, PlanError,
}
use zwirn.Reconcile
use zwirn.Commit.{ExternalOutput, ExternalWrite, create_new, create_or_truncate}

pub data ReportEntry : Type 0 where
  state_entry : FragmentPath → State → ReportEntry
  action_entry : FragmentPath → Action → ReportEntry

pub data ExitState : Type 0 where
  synchronized attention : ExitState

pub record Report : Type 0 where
  pub entries : List ReportEntry
  pub exit : ExitState

abbrev pub exit_state : Bool → ExitState
exit_state true = attention
exit_state false = synchronized

-- The tests of `status_report`: `state() != State::Synchronized`, for some entry.
abbrev is_synchronized : State → Bool
is_synchronized State.synchronized = true
is_synchronized _ = false

abbrev any_attention : List (InventoryEntry × Classification) → Bool
any_attention [] = false
any_attention ((entry, classification) ∷ rest) =
    not (is_synchronized (state classification)) || any_attention rest

abbrev state_entry_of : InventoryEntry × Classification → ReportEntry
state_entry_of (entry, classification) = state_entry entry.path (state classification)

unfoldable pub status_report : List (InventoryEntry × Classification) → Report
status_report classified = record {
  entries = map state_entry_of classified;
  exit = exit_state (any_attention classified);
}

-- The errors of a plan, by the path of the fragment, and those of the document's preparation.
pub data EngineError : Type 0 where
  force_requires_explicit_selection : EngineError
  invalid_forced_state : FragmentPath → State → EngineError
  inconsistent_materialization_node : ℕ → EngineError
  inconsistent_materialization_markers : ℕ → ParseError → EngineError
  fragment_rewrite : ℕ → RewriteError → EngineError
  invalid_prepared_markers : ℕ → ParseError → EngineError
  duplicate_prepared_fragment : FragmentPath → EngineError
  document : Error → EngineError
  allocation : EngineError

-- `classified[index]`, which panics out of range.
abbrev forced_state_error :
    Option (InventoryEntry × Classification) → State → Result EngineError EngineError
forced_state_error (some (entry, classification)) state = ok (invalid_forced_state entry.path state)
forced_state_error none state = panic

unfoldable pub map_plan_error :
    PlanError → List (InventoryEntry × Classification) → Result EngineError EngineError
map_plan_error Reconcile.force_requires_explicit_selection classified =
    ok force_requires_explicit_selection
map_plan_error (Reconcile.invalid_forced_state index state) classified =
    forced_state_error (get_elem? classified index) state
map_plan_error Reconcile.allocation_failed classified = ok allocation

-- The variables of the loop over the decisions.
pub record Gathered : Type 0 where
  pub node_updates : TreeMap ℕ (List FragmentUpdate)
  pub extracted : List InventoryEntry
  pub entries : List ReportEntry
  pub attention : Bool

abbrev pub or_default : Option (List FragmentUpdate) → List FragmentUpdate
or_default none = []
or_default (some updates) = updates

-- `node_updates.entry(node_index).or_default().push(update)`.
abbrev pub push_update :
    ℕ → FragmentUpdate → TreeMap ℕ (List FragmentUpdate) → TreeMap ℕ (List FragmentUpdate)
push_update node_index update m =
    insert node_index (or_default (get node_index m) ++ (update ∷ [])) m

-- The update of an action; an embed action without a file panics.
abbrev pub update_of :
    InventoryEntry → Action → Option CanonicalSource → Result EngineError FragmentUpdate
update_of entry record_hash filesystem = ok (record_update entry.path)
update_of entry Action.extract filesystem = ok (record_update entry.path)
update_of entry Action.embed (some source) = ok (replace_update entry.path source)
update_of entry Action.embed none = panic

abbrev pub extracted_by : Action → InventoryEntry → List InventoryEntry
extracted_by Action.extract entry = entry ∷ []
extracted_by Action.embed entry = []
extracted_by record_hash entry = []

-- The pushes for an action.
abbrev pub gather_action : InventoryEntry → Action → FragmentUpdate → Gathered → Gathered
gather_action entry action update g = record {
  node_updates = push_update entry.node_index update g.node_updates;
  extracted = g.extracted ++ extracted_by action entry;
  entries = g.entries ++ (action_entry entry.path action ∷ []);
  attention = g.attention;
}

-- The body of the loop.
abbrev pub gather_one : InventoryEntry → Decision → Gathered → Result EngineError Gathered
gather_one entry settled g = ok g
gather_one entry (unresolved state) g =
    ok (record g { attention = true; entries = g.entries ++ (state_entry entry.path state ∷ []) })
gather_one entry (act action) g = do
  update ← update_of entry action entry.filesystem
  ok (gather_action entry action update g)

unfoldable pub gather : List InventoryEntry → List Decision → Gathered → Result EngineError Gathered
gather [] decisions g = ok g
gather (entry ∷ entries) [] g = ok g
gather (entry ∷ entries) (decision ∷ decisions) g = do
  next ← gather_one entry decision g
  gather entries decisions next

abbrev pub nothing_gathered : Gathered
nothing_gathered = record { node_updates = []; extracted = []; entries = []; attention = false }

-- `external`, the outputs of the extracted fragments.
abbrev pub write_of : Option CanonicalSource → ExternalWrite
write_of none = create_new
write_of (some source) = create_or_truncate

abbrev pub external_output : InventoryEntry → ExternalOutput
external_output entry = record {
  path = entry.path;
  bytes = entry.embedded.text;
  write = write_of entry.filesystem;
}

unfoldable pub external_outputs : List InventoryEntry → List ExternalOutput
external_outputs extracted = map external_output extracted

-- The paths of the entries without a file.
unfoldable pub absent_targets : List InventoryEntry → List FragmentPath
absent_targets [] = []
absent_targets (entry ∷ rest) = elim entry.filesystem [
  | none ↦ entry.path ∷ absent_targets rest
  | some source ↦ absent_targets rest
]
