-- ===== src/Execution.antt =====
-- `Scheduler` of internal/execution/execution.go over the SQL store: which slice is next, and the
-- calls that start and complete it.
pub mod Progress
pub mod Starting
mod Tests
use skilar.Prelude.{
  ℕ, zero, suc, ◌++◌, Bool, true, false, not, ◌&&◌, List, [], ◌∷◌, Option, none, some, Text, ◌==◌,
  if◌then◌else◌, lookup, insert_new, Result, ok, err, Action, pure, fail, gets, modify, ◌>>=◌, ◌>>◌,
  nat_eq, text_eq, pair_eq,
}
use skilar.Workflow.Types.{Error}
use skilar.Workflow.Sqlite.{SliceStatus, pending, Database, Query}
use skilar.Workflow.Sqlite.Slices.{
  MutationActivation, is_pending, is_active, is_completed, has_status, count_slices,
  activate_execution_slice, complete_execution_slice,
}
use skilar.Orchestration.Graph.{OrchestrationError, Slice, ExecutionGraph, validate_execution}
use skilar.Orchestration.Wayfinder.{text_before}

pub data ExecutionError : Type 0 where
  from_store : Error → ExecutionError
  invalid_graph : OrchestrationError → ExecutionError
  endless slice_not_ready : ExecutionError

abbrev pub Scheduled : Type 0 → Type 0
Scheduled A = Action Database ExecutionError A

abbrev pub raised : {A : Type 0} → Result Error A → Result ExecutionError A
raised (ok a) = ok a
raised (err e) = err (from_store e)

-- A call of the store.
abbrev pub call : {A : Type 0} → Query A → Scheduled A
call m d = let r = m d in (raised r.0, r.1)

abbrev pub valid_graph : Option (Result OrchestrationError (Unit {0})) → Scheduled (Unit {0})
valid_graph none = fail endless
valid_graph (some (ok u)) = pure tt
valid_graph (some (err e)) = fail (invalid_graph e)

-- INSERT OR IGNORE … 'pending' for each slice
unfoldable pub insert_pending : Text → List Slice → Database → Database
insert_pending id [] d = d
insert_pending id (s ∷ slices) d =
    insert_pending id slices
      (record d { execution_slice_state = insert_new (id, s.id) pending d.execution_slice_state })

-- `NewScheduler`, with `range` the order in which Go goes through a map.
unfoldable pub new_scheduler : (List Text → List Text) → ExecutionGraph → Scheduled (Unit {0})
new_scheduler range g = do
  valid_graph (validate_execution range g)
  modify (insert_pending g.workflow_id g.slices)

unfoldable pub insert_slice : Slice → List Slice → List Slice
insert_slice s [] = s ∷ []
insert_slice s (t ∷ slices) =
    let rest = insert_slice s slices in if text_before t.id s.id then t ∷ rest else s ∷ t ∷ slices

-- `sort.Slice` by the id.
unfoldable pub sort_slices : List Slice → List Slice
sort_slices [] = []
sort_slices (s ∷ slices) = insert_slice s (sort_slices slices)

abbrev pub status_of : ExecutionGraph → Database → Text → Option SliceStatus
status_of g d id = lookup (g.workflow_id, id) d.execution_slice_state

unfoldable pub all_completed : (Text → Option SliceStatus) → List Text → Bool
all_completed status [] = true
all_completed status (dep ∷ deps) =
    has_status is_completed (status dep) && all_completed status deps

abbrev pub is_ready : (Text → Option SliceStatus) → Slice → Bool
is_ready status s = has_status is_pending (status s.id) && all_completed status s.dependencies

unfoldable pub first_ready : (Text → Option SliceStatus) → List Slice → Option Slice
first_ready status [] = none
first_ready status (s ∷ slices) =
    let later = first_ready status slices in if is_ready status s then some s else later

unfoldable pub next_ready : ExecutionGraph → Database → Option Slice
next_ready g d =
    if count_slices g.workflow_id is_active d.execution_slice_state == 0
    then first_ready (status_of g d) (sort_slices g.slices)
    else none

-- Whether a slice was found, and is the one of the attempt.
abbrev pub is_slice : Text → Option Slice → Bool
is_slice id none = false
is_slice id (some s) = s.id == id

-- The attempt holds the version of its scheduler's graph.
unfoldable pub start : ExecutionGraph → ℕ → MutationActivation → Scheduled (Unit {0})
start g now a d =
    if is_slice a.slice_id (next_ready g d)
    then call (activate_execution_slice now (record a { graph_version = g.version })) d
    else fail slice_not_ready d

unfoldable pub complete : ExecutionGraph → ℕ → Text → Text → Scheduled (Unit {0})
complete g now workflow_id slice_id =
    call (complete_execution_slice now workflow_id slice_id g.version)
