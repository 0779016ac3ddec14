-- ===== src/Execution/Tests.antt =====
-- A run of the scheduler of internal/execution/execution.go, and the theorems at it.
use skilar.Prelude.{
  ◌≡◌, ◌≢◌, ◌⊎◌, refl, true, [], ◌∷◌, none, some, Text, codes, ok, text_beq, lookup, insert,
  insert_new, contains, count, pair_eq, text_eq,
}
use skilar.Workflow.Types.{State, state_beq, unset, Route, Risk, Workflow}
use skilar.Workflow.Requests.{same_transition}
use skilar.Workflow.Sqlite.{
  reread_request, reread_workflow, SliceStatus, pending, active, completed, Database,
  empty_database, has_event, next_sequence, update_workflow, insert_event, insert_idempotency,
  write_transition,
}
use skilar.Workflow.Sqlite.Slices.{
  MutationActivation, is_active, count_slices, activate_execution_slice, activate_slice,
  insert_attempt, has_operation, begin_execution_if_ready, begin_in_state, begin_execution,
  begin_once, start_key, decimal,
}
use skilar.Review.{has_prefix}
use skilar.Orchestration.Graph.{
  check_slices, bad_dependency, check_dependencies, links_to, links_of, indegree_of, edges_of,
  release, drain, sources_of, find_cycle, first_error, validate_execution, slice_ids,
}
use skilar.Orchestration.Orders.{depends_on, WellFormed, IsOrderable}
use skilar.Orchestration.Wayfinder.{text_before}
use skilar.Orchestration.PlanTests.{plan, in_order}
use skilar.Execution.{
  insert_pending, new_scheduler, insert_slice, sort_slices, status_of, all_completed, first_ready,
  next_ready, start,
}
use skilar.Execution.Progress.{HasRows, scheduler_progresses}
use skilar.Execution.Starting.{started_slice_is_ready, new_scheduler_prepares}

-- What a run computes with.
computing : Unit {0}
unfolding text_beq lookup insert insert_new count state_beq same_transition reread_request
    reread_workflow empty_database has_event next_sequence update_workflow insert_event
    insert_idempotency write_transition count_slices activate_execution_slice activate_slice
    insert_attempt has_operation begin_execution_if_ready begin_in_state begin_execution begin_once
    start_key decimal has_prefix check_slices bad_dependency check_dependencies links_to links_of
    indegree_of edges_of release drain sources_of find_cycle first_error validate_execution
    text_before insert_pending new_scheduler insert_slice sort_slices all_completed first_ready
    next_ready start
computing = tt

abbrev waiting : Workflow
waiting = record {
  id = codes "wf";
  state = State.ready;
  state_version = 2;
  route = Route.planned;
  minimum_risk = Risk.medium;
  basis_tree = codes "tree";
  resume_target = unset;
}

abbrev planned : Database
planned = record empty_database { workflows = (codes "wf", waiting) ∷ [] }

abbrev prepared : Database
prepared = (new_scheduler in_order plan planned).1

prepared_ok : (new_scheduler in_order plan planned).0 ≡ ok tt
unfolding computing
prepared_ok = refl

plan_is_good : WellFormed plan.slices × IsOrderable plan.slices × HasRows plan prepared
plan_is_good =
    let all = new_scheduler_prepares in_order plan planned (λ names name. refl) prepared_ok in
    (all.0, all.1, all.2)

new_scheduler_prepares_example :
    WellFormed plan.slices
    × IsOrderable plan.slices
    × HasRows plan prepared
    × ((key : Text × Text) (status : SliceStatus)
        → lookup key planned.execution_slice_state ≡ some status
        → lookup key prepared.execution_slice_state ≡ some status)
new_scheduler_prepares_example =
    new_scheduler_prepares in_order plan planned (λ names name. refl) prepared_ok

abbrev attempt : Text → MutationActivation
attempt slice_id = record {
  attempt_id = codes "attempt";
  workflow_id = codes "wf";
  slice_id = slice_id;
  worktree_id = codes "wt";
  owner = codes "ana";
  fencing_token = codes "t";
  basis_tree = codes "tree";
  allowed_paths = [];
  operation_id = codes "op";
  graph_version = 0;
}

started : (start plan 7 (attempt (codes "slice_a")) prepared).0 ≡ ok tt
unfolding computing
started = refl

started_slice_is_ready_example :
    let d' = (start plan 7 (attempt (codes "slice_a")) prepared).1 in
    (contains (codes "slice_a") (slice_ids plan.slices) ≡ true)
    × ((dep : Text)
        → depends_on plan.slices (codes "slice_a") dep ≡ true
        → status_of plan prepared dep ≡ some completed)
    × (lookup (codes "wf", codes "slice_a") prepared.execution_slice_state ≡ some pending)
    × (lookup (codes "wf", codes "slice_a") d'.execution_slice_state ≡ some active)
    × (count_slices (codes "wf") is_active d'.execution_slice_state ≡ 1)
started_slice_is_ready_example =
    started_slice_is_ready plan 7 (attempt (codes "slice_a")) prepared plan_is_good.0 started

-- The plan when its slices are done: nothing is left to start.
abbrev finished : Database
finished = record planned {
  execution_slice_state =
      ((codes "wf", codes "slice_a"), completed) ∷ ((codes "wf", codes "slice_b"), completed) ∷ [];
}

abbrev resumed : Database
resumed = (new_scheduler in_order plan finished).1

resumed_ok : (new_scheduler in_order plan finished).0 ≡ ok tt
unfolding computing
resumed_ok = refl

nothing_ready : next_ready plan resumed ≡ none
unfolding computing
nothing_ready = refl

scheduler_progresses_example :
    (count_slices (codes "wf") is_active resumed.execution_slice_state ≢ 0)
    ⊎ ((id : Text)
        → contains id (slice_ids plan.slices) ≡ true
        → status_of plan resumed id ≡ some completed)
scheduler_progresses_example =
    scheduler_progresses plan resumed plan_is_good.0 plan_is_good.1
      (new_scheduler_prepares in_order plan finished (λ names name. refl) resumed_ok).2
      nothing_ready
