-- ===== src/Workflow/Sqlite/Repair.antt =====
-- The repairs of internal/workflow/sqlite.go after a worker that died: AdoptAppliedMutation,
-- ReconcileCompletedExecution and ExecutionFenceHeld.
use skilar.Prelude.{
  ℕ, ◌++◌, Bool, true, false, not, ◌&&◌, ◌||◌, [], ◌∷◌, Option, none, some, Text, ◌==◌, is_empty,
  if◌then◌else◌, Map, lookup, insert, pure, gets, modify, fail_if, or_fail, transaction, ◌>>=◌,
  ◌>>◌, nat_eq, text_eq, pair_eq, codes, ltb,
}
use skilar.Workflow.Types.{Lease, graph_version_required, never_applied, no_rows}
use skilar.Workflow.Sqlite.{
  SliceStatus, completed, MutationAttempt, MutationOperation, OperationStatus, Database, Query,
}
use skilar.Workflow.Sqlite.Slices.{is_active, complete_slice, complete_execution_if_ready}

abbrev pub has_mutated : OperationStatus → Bool
has_mutated OperationStatus.mutated = true
has_mutated _ = false

abbrev pub has_completed : OperationStatus → Bool
has_completed OperationStatus.completed = true
has_completed _ = false

-- WHERE operation_id=? AND workflow_id=?
abbrev pub of_workflow : Text → Option MutationOperation → Option MutationOperation
of_workflow id none = none
of_workflow id (some o) = if o.workflow_id == id then some o else none

abbrev pub never_landed : MutationOperation → Bool
never_landed o =
    is_empty o.post_tree || (not (has_mutated o.status) && not (has_completed o.status))

abbrev pub completed_operation : MutationOperation → MutationOperation
completed_operation o =
    if has_mutated o.status then record o { status = OperationStatus.completed } else o

-- UPDATE mutation_attempts SET live=0 WHERE attempt_id=? AND workflow_id=? AND live=1
abbrev pub retired :
    Text → Text → Option MutationAttempt → Map Text MutationAttempt → Map Text MutationAttempt
retired workflow_id attempt_id none rows = rows
retired workflow_id attempt_id (some a) rows =
    if a.workflow_id == workflow_id && a.live
    then insert attempt_id (record a { live = false }) rows
    else rows

unfoldable pub adopt_applied_mutation : ℕ → Text → Text → Text → Text → ℕ → Query (Unit {0})
adopt_applied_mutation now workflow_id slice_id attempt_id operation_id graph_version = do
  fail_if (graph_version == 0) graph_version_required
  transaction (do
    o ←
        or_fail (← gets (λ d. of_workflow workflow_id (lookup operation_id d.mutation_operations)))
          no_rows
    fail_if (never_landed o) never_applied
    modify (λ d. record d {
      mutation_operations = insert operation_id (completed_operation o) d.mutation_operations;
      mutation_attempts =
          retired workflow_id attempt_id (lookup attempt_id d.mutation_attempts)
            d.mutation_attempts;
    })
    complete_slice workflow_id slice_id
    advanced ← complete_execution_if_ready now workflow_id graph_version
    pure tt)

-- Whether the operation of an attempt has completed, in the same workflow.
abbrev pub operation_done : MutationAttempt → Option MutationOperation → Bool
operation_done a none = false
operation_done a (some o) = o.workflow_id == a.workflow_id && has_completed o.status

-- slice_id IN (SELECT … WHERE a.live=0 AND o.status='completed')
unfoldable pub has_retired_attempt :
    Text → Text → Map Text MutationOperation → Map Text MutationAttempt → Bool
has_retired_attempt workflow_id slice_id operations [] = false
has_retired_attempt workflow_id slice_id operations ((id, a) ∷ rows) =
    (a.workflow_id == workflow_id
      && a.slice_id == slice_id
      && not a.live
      && operation_done a (lookup a.operation_id operations))
    || has_retired_attempt workflow_id slice_id operations rows

-- slice_id IN (SELECT … WHERE l.live=1)
unfoldable pub has_live_attempt : Text → Text → Map Text MutationAttempt → Bool
has_live_attempt workflow_id slice_id [] = false
has_live_attempt workflow_id slice_id ((id, a) ∷ rows) =
    (a.workflow_id == workflow_id && a.slice_id == slice_id && a.live)
    || has_live_attempt workflow_id slice_id rows

abbrev pub is_adopted : Text → Database → Text × Text → SliceStatus → Bool
is_adopted workflow_id d key status =
    key.0 == workflow_id
    && is_active status
    && has_retired_attempt workflow_id key.1 d.mutation_operations d.mutation_attempts
    && not (has_live_attempt workflow_id key.1 d.mutation_attempts)

-- The rows after the update, and whether it changed one.
unfoldable pub adopt_rows :
    Text → Database → Map (Text × Text) SliceStatus → Bool × Map (Text × Text) SliceStatus
adopt_rows workflow_id d [] = (false, [])
adopt_rows workflow_id d ((key, status) ∷ rows) =
    let rest = adopt_rows workflow_id d rows in
    if is_adopted workflow_id d key status
    then (true, (key, completed) ∷ rest.1)
    else (rest.0, (key, status) ∷ rest.1)

-- `adoptCompletedMutationSlices`
unfoldable pub adopt_completed_slices : Text → Query Bool
adopt_completed_slices workflow_id = do
  adopted ← gets (λ d. adopt_rows workflow_id d d.execution_slice_state)
  modify (λ d. record d { execution_slice_state = adopted.1 })
  pure adopted.0

unfoldable pub reconcile_completed_execution : ℕ → Text → ℕ → Query Bool
reconcile_completed_execution now workflow_id graph_version = transaction (do
  repaired ← adopt_completed_slices workflow_id
  advanced ← complete_execution_if_ready now workflow_id graph_version
  pure (repaired || advanced))

abbrev pub is_current_lease : ℕ → Option Lease → Bool
is_current_lease now none = false
is_current_lease now (some l) = ltb now l.expires_at

unfoldable pub execution_fence_resource : Text → Text
execution_fence_resource workflow_id = codes "workflow-execution:" ++ workflow_id

unfoldable pub execution_fence_held : Text → ℕ → Query Bool
execution_fence_held workflow_id now = gets (λ d.
    is_current_lease (d.unix_nano now) (lookup (execution_fence_resource workflow_id) d.leases))
