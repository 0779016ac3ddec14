-- ===== src/Workflow/Sqlite/Slices.antt =====
-- The execution slices of internal/workflow/sqlite.go: each call changes slices, attempts and the
-- state of the workflow in one transaction.
use skilar.Prelude.{
  ℕ, zero, suc, ◌+◌, ◌/◌, ◌%◌, ◌++◌, Bool, true, false, not, ◌&&◌, ◌||◌, List, [], ◌∷◌, Option,
  none, some, Text, ◌==◌, if◌then◌else◌, Map, lookup, insert, pure, fail, gets, modify, fail_if,
  or_fail, transaction, ◌>>=◌, ◌>>◌, u64, nat_eq, text_eq, pair_eq, codes,
}
use skilar.Workflow.Types.{
  State, ready, executing, verifying, unset, state_eq, Workflow, Transition, not_found,
  idempotency_reuse, graph_version_required, concurrent_writer, not_ready, slice_not_active,
  not_executing, constraint,
}
use skilar.Workflow.Requests.{same_transition}
use skilar.Workflow.Memory.{TransitionRecord, is_some}
use skilar.Workflow.Sqlite.{
  SliceStatus, pending, active, completed, MutationAttempt, Query, write_transition,
}

pub record MutationActivation : Type 0 where
  pub attempt_id : Text
  pub workflow_id : Text
  pub slice_id : Text
  pub worktree_id : Text
  pub owner : Text
  pub fencing_token : Text
  pub basis_tree : Text
  pub allowed_paths : List ℕ
  pub operation_id : Text
  pub graph_version : ℕ  -- uint64

abbrev pub is_pending : SliceStatus → Bool
is_pending pending = true
is_pending _ = false

abbrev pub is_active : SliceStatus → Bool
is_active active = true
is_active _ = false

abbrev pub is_completed : SliceStatus → Bool
is_completed completed = true
is_completed _ = false

abbrev pub has_status : (SliceStatus → Bool) → Option SliceStatus → Bool
has_status test none = false
has_status test (some status) = test status

-- SELECT COUNT(*) … WHERE workflow_id=? and a test on the status
unfoldable pub count_slices : Text → (SliceStatus → Bool) → Map (Text × Text) SliceStatus → ℕ
count_slices id test [] = 0
count_slices id test (((wid, sid), status) ∷ rows) =
    let rest = count_slices id test rows in if wid == id && test status then suc rest else rest

-- The decimal digits that `%d` writes.
decimal_from : ℕ → ℕ → Text → Text
decimal_from zero n acc = acc
decimal_from (suc fuel) n acc =
    let digits = (b'0' + n % 10) ∷ acc in
    let rest = decimal_from fuel (n / 10) digits in if n / 10 == 0 then digits else rest

unfoldable pub decimal : ℕ → Text
unfolding decimal_from
decimal n = decimal_from (suc n) n []

unfoldable pub start_key : ℕ → Text
start_key graph_version = codes "execution:start:v" ++ decimal graph_version

unfoldable pub complete_key : ℕ → Text
complete_key graph_version = codes "execution:complete:v" ++ decimal graph_version

-- The request that a slice's activation or completion makes for its workflow.
abbrev pub slice_request : Workflow → State → State → Text → Transition
slice_request w from to key = record {
  workflow_id = w.id;
  expected_state = from;
  expected_version = w.state_version;
  next_state = to;
  idempotency_key = key;
  artifact_ids = [];
  resume_target = unset;
}

abbrev pub moved_to : Workflow → State → Workflow
moved_to w to = record w { state = to; state_version = u64 (w.state_version + 1) }

-- A start that was recorded before is not repeated.
unfoldable pub begin_once : ℕ → Transition → Workflow → Option TransitionRecord → Query (Unit {0})
begin_once now req w (some previous) =
    if same_transition previous.request req then pure tt else fail idempotency_reuse
begin_once now req w none = write_transition now req w (moved_to w executing)

unfoldable pub begin_execution : ℕ → Workflow → ℕ → Query (Unit {0})
unfolding begin_once
begin_execution now w graph_version d =
    let key = start_key graph_version in
    begin_once now (slice_request w ready executing key) w (lookup (w.id, key) d.idempotency) d

unfoldable pub begin_in_state : ℕ → Workflow → ℕ → Query (Unit {0})
unfolding begin_execution
begin_in_state now w graph_version =
    if w.state == executing
    then pure tt
    else if not (w.state == ready)
    then fail not_ready
    else begin_execution now w graph_version

unfoldable pub begin_execution_if_ready : ℕ → Text → ℕ → Query (Unit {0})
unfolding begin_in_state
begin_execution_if_ready now workflow_id graph_version = do
  w ← or_fail (← gets (λ d. lookup workflow_id d.workflows)) not_found
  begin_in_state now w graph_version

-- UPDATE execution_slice_state … WHERE status is as expected; the index one_active_mutation allows
-- one active slice of a workflow.
unfoldable pub activate_slice : Text → Text → Query (Unit {0})
activate_slice workflow_id slice_id = do
  found ← gets (λ d. lookup (workflow_id, slice_id) d.execution_slice_state)
  fail_if (not (has_status is_pending found)) concurrent_writer
  others ← gets (λ d. count_slices workflow_id is_active d.execution_slice_state)
  fail_if (not (others == 0)) constraint
  modify (λ d. record d {
    execution_slice_state = insert (workflow_id, slice_id) active d.execution_slice_state;
  })

unfoldable pub complete_slice : Text → Text → Query (Unit {0})
complete_slice workflow_id slice_id = do
  found ← gets (λ d. lookup (workflow_id, slice_id) d.execution_slice_state)
  fail_if (not (has_status is_active found)) slice_not_active
  modify (λ d. record d {
    execution_slice_state = insert (workflow_id, slice_id) completed d.execution_slice_state;
  })

-- Whether an attempt has the operation: the UNIQUE clause of `mutation_attempts`.
unfoldable pub has_operation : Text → Map Text MutationAttempt → Bool
has_operation id [] = false
has_operation id ((aid, a) ∷ rows) = a.operation_id == id || has_operation id rows

unfoldable pub insert_attempt : MutationActivation → Query (Unit {0})
insert_attempt a = do
  fail_if (is_some (← gets (λ d. lookup a.attempt_id d.mutation_attempts))) constraint
  fail_if (← gets (λ d. has_operation a.operation_id d.mutation_attempts)) constraint
  modify (λ d. record d {
    mutation_attempts =
        insert a.attempt_id
          (record {
            workflow_id = a.workflow_id;
            slice_id = a.slice_id;
            worktree_id = a.worktree_id;
            owner = a.owner;
            fencing_token = a.fencing_token;
            basis_tree = a.basis_tree;
            allowed_paths = a.allowed_paths;
            operation_id = a.operation_id;
            live = true;
          })
          d.mutation_attempts;
  })

unfoldable pub activate_execution_slice : ℕ → MutationActivation → Query (Unit {0})
activate_execution_slice now a = do
  fail_if (a.graph_version == 0) graph_version_required
  transaction (do
    activate_slice a.workflow_id a.slice_id
    insert_attempt a
    begin_execution_if_ready now a.workflow_id a.graph_version)

-- The end of `completeExecutionIfReady`, when no slice is left.
unfoldable pub complete_execution : ℕ → Workflow → ℕ → Query Bool
complete_execution now w graph_version = do
  write_transition now (slice_request w executing verifying (complete_key graph_version)) w
      (moved_to w verifying)
  pure true

unfoldable pub finish_in_state : ℕ → Workflow → ℕ → Query Bool
unfolding complete_execution
finish_in_state now w graph_version =
    if w.state == verifying
    then pure false
    else if not (w.state == executing)
    then fail not_executing
    else complete_execution now w graph_version

unfoldable pub finish_execution : ℕ → Text → ℕ → Query Bool
unfolding finish_in_state
finish_execution now workflow_id graph_version = do
  w ← or_fail (← gets (λ d. lookup workflow_id d.workflows)) not_found
  finish_in_state now w graph_version

abbrev pub not_completed : SliceStatus → Bool
not_completed status = not (is_completed status)

unfoldable pub finish_if_done : ℕ → Text → ℕ → ℕ → Query Bool
unfolding finish_execution
finish_if_done now workflow_id graph_version remaining =
    if not (remaining == 0) then pure false else finish_execution now workflow_id graph_version

unfoldable pub complete_execution_if_ready : ℕ → Text → ℕ → Query Bool
unfolding finish_if_done
complete_execution_if_ready now workflow_id graph_version = do
  fail_if (graph_version == 0) graph_version_required
  remaining ← gets (λ d. count_slices workflow_id not_completed d.execution_slice_state)
  finish_if_done now workflow_id graph_version remaining

unfoldable pub complete_execution_slice : ℕ → Text → Text → ℕ → Query (Unit {0})
complete_execution_slice now workflow_id slice_id graph_version = transaction (do
  complete_slice workflow_id slice_id
  advanced ← complete_execution_if_ready now workflow_id graph_version
  pure tt)
