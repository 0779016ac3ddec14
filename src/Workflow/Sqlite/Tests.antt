-- ===== src/Workflow/Sqlite/Tests.antt =====
-- Runs of the SQL store of internal/workflow/sqlite.go, and the theorems at them.
use skilar.Prelude.{
  ◌≡◌, refl, ◌↔◌, true, false, [], ◌∷◌, some, codes, ok, lookup, text_eq, text_beq, insert,
  same_items, pair_eq,
}
use skilar.Workflow.Types.{
  created, discovering, ready, verifying, unset, state_beq, Route, Risk, Workflow, Transition,
}
use skilar.Workflow.Machine.{can_transition}
use skilar.Workflow.Requests.{same_transition, bad_block, advance}
use skilar.Workflow.Memory
use skilar.Workflow.Memory.{new_memory_store, idem_key, record_transition}
use skilar.Workflow.Sqlite
use skilar.Workflow.Sqlite.{
  reread_request, reread_workflow, SliceStatus, pending, active, completed, OperationStatus,
  Database, empty_database, has_event, next_sequence, update_workflow, insert_event,
  insert_idempotency, write_transition,
}
use skilar.Workflow.Sqlite.Slices.{
  MutationActivation, is_active, not_completed, count_slices, activate_execution_slice,
  complete_execution_slice, activate_slice, insert_attempt, has_operation, begin_execution_if_ready,
  begin_in_state, begin_execution, begin_once, complete_slice, complete_execution_if_ready,
  finish_if_done, finish_execution, finish_in_state, complete_execution, start_key, complete_key,
  decimal,
}
use skilar.Workflow.Sqlite.Refinement.{Represents, IsReadable, transition_refines}
use skilar.Workflow.Sqlite.Creation.{empty-Represents, create_refines}
use skilar.Workflow.Sqlite.Activation.{activated_slice_is_sole}
use skilar.Workflow.Sqlite.SliceLaws.{IsIn, last_slice_verifies}
use skilar.Workflow.Sqlite.Work
use skilar.Workflow.Sqlite.Repair.{
  has_retired_attempt, has_live_attempt, adopt_rows, adopt_completed_slices, adopt_applied_mutation,
  reconcile_completed_execution,
}
use skilar.Workflow.Sqlite.Repairing.{IsRepaired, repair_completes_abandoned}
use skilar.Workflow.Sqlite.WorkLaws.{SameLeases, acquire_lease_refines}

-- What a run of the store computes with.
computing : Unit {0}
unfolding Sqlite.create Sqlite.transition write_transition update_workflow insert_event
    insert_idempotency has_event next_sequence reread_request reread_workflow empty_database
    text_beq state_beq lookup insert same_items same_transition advance bad_block can_transition
    activate_execution_slice complete_execution_slice activate_slice insert_attempt has_operation
    begin_execution_if_ready begin_in_state begin_execution begin_once complete_slice
    complete_execution_if_ready finish_if_done finish_execution finish_in_state complete_execution
    count_slices start_key complete_key decimal has_retired_attempt has_live_attempt adopt_rows
    adopt_completed_slices adopt_applied_mutation reconcile_completed_execution
computing = tt

abbrev wf : Workflow
wf = record {
  id = codes "wf";
  state = unset;
  state_version = 0;
  route = Route.planned;
  minimum_risk = Risk.medium;
  basis_tree = codes "tree";
  resume_target = unset;
}

create_refines_example :
    ((v : Workflow)
      → (Memory.create wf new_memory_store).0 ≡ ok v ↔ (Sqlite.create wf empty_database).0 ≡ ok v)
    × Represents (Memory.create wf new_memory_store).1 (Sqlite.create wf empty_database).1
create_refines_example = create_refines wf new_memory_store empty_database empty-Represents

abbrev discover : Transition
discover = record {
  workflow_id = codes "wf";
  expected_state = created;
  expected_version = 0;
  next_state = discovering;
  idempotency_key = codes "a";
  artifact_ids = [];
  resume_target = unset;
}

readable :
    IsReadable
      (Sqlite.create wf empty_database).1.json
      discover
      (Memory.create wf new_memory_store).1
unfolding computing
readable = record { request = refl; basis = λ w h. refl }

transition_refines_example :
    let m = (Memory.create wf new_memory_store).1 in
    let d = (Sqlite.create wf empty_database).1 in
    ((Memory.transition 7 discover m).0 ≡ (Sqlite.transition 7 discover d).0)
    × Represents (Memory.transition 7 discover m).1 (Sqlite.transition 7 discover d).1
transition_refines_example =
    transition_refines 7 discover _ _
      (create_refines wf new_memory_store empty_database empty-Represents).1
      (λ e. cc e, (λ e. cc e, tt)) readable

transition_refines_run :
    (Sqlite.transition 7 discover (Sqlite.create wf empty_database).1).0
    ≡ ok (record wf { state = discovering; state_version = 1 })
unfolding computing
transition_refines_run = refl

abbrev waiting : Database
waiting = record empty_database {
  workflows = (codes "wf", record wf { state = ready; state_version = 2 }) ∷ [];
  execution_slice_state = ((codes "wf", codes "s1"), pending) ∷ [];
}

abbrev activation : MutationActivation
activation = record {
  attempt_id = codes "at";
  workflow_id = codes "wf";
  slice_id = codes "s1";
  worktree_id = codes "wt";
  owner = codes "o";
  fencing_token = codes "t";
  basis_tree = codes "tree";
  allowed_paths = [];
  operation_id = codes "op";
  graph_version = 1;
}

activated_slice_is_sole_example :
    let d' = (activate_execution_slice 7 activation waiting).1 in
    (lookup (codes "wf", codes "s1") waiting.execution_slice_state ≡ some pending)
    × (lookup (codes "wf", codes "s1") d'.execution_slice_state ≡ some active)
    × (count_slices (codes "wf") is_active waiting.execution_slice_state ≡ 0)
    × (count_slices (codes "wf") is_active d'.execution_slice_state ≡ 1)
unfolding computing
activated_slice_is_sole_example = activated_slice_is_sole 7 activation waiting refl

abbrev activated : Database
activated = (activate_execution_slice 7 activation waiting).1

last_slice_verifies_example :
    (lookup (codes "wf", codes "s1") activated.execution_slice_state ≡ some active)
    × (let d' = (complete_execution_slice 8 (codes "wf") (codes "s1") 1 activated).1 in
        (lookup (codes "wf", codes "s1") d'.execution_slice_state ≡ some completed)
        × (count_slices (codes "wf") not_completed d'.execution_slice_state ≡ 0
            → IsIn verifying (codes "wf") d'))
unfolding computing
last_slice_verifies_example =
    last_slice_verifies 8 (codes "wf") (codes "s1") 1 activated (λ w h. cc) refl

no_leases : SameLeases new_memory_store empty_database
unfolding computing new_memory_store
no_leases = record { same = λ x. refl; named = λ x l h. cc }

acquire_lease_refines_example :
    let m = (Memory.acquire_lease (codes "w") (codes "p") (codes "t") 10 50 new_memory_store).1 in
    let d = (Work.acquire_lease (codes "w") (codes "p") (codes "t") 10 50 empty_database).1 in
    ((Memory.acquire_lease (codes "w") (codes "p") (codes "t") 10 50 new_memory_store).0
      ≡ (Work.acquire_lease (codes "w") (codes "p") (codes "t") 10 50 empty_database).0)
    × SameLeases m d
unfolding empty_database
acquire_lease_refines_example =
    acquire_lease_refines (codes "w") (codes "p") (codes "t") 10 50 new_memory_store empty_database
      no_leases refl refl

-- The worker died after its patch was in the worktree.
abbrev interrupted : Database
interrupted = record (activate_execution_slice 7 activation waiting).1 {
  mutation_operations =
      (
        codes "op",
        record {
          workflow_id = codes "wf";
          attempt_id = codes "at";
          pre_tree = codes "tree";
          post_tree = codes "tree2";
          status = OperationStatus.mutated;
        },
      )
      ∷ [];
}

adopt_applied_mutation_run :
    let r =
      adopt_applied_mutation 9 (codes "wf") (codes "s1") (codes "at") (codes "op") 1 interrupted in
    (r.0 ≡ ok tt) × (lookup (codes "wf", codes "s1") r.1.execution_slice_state ≡ some completed)
unfolding computing
adopt_applied_mutation_run = (refl, refl)

-- The worker died after its mutation was completed and its attempt retired.
abbrev abandoned : Database
abandoned = record interrupted {
  mutation_operations =
      (
        codes "op",
        record {
          workflow_id = codes "wf";
          attempt_id = codes "at";
          pre_tree = codes "tree";
          post_tree = codes "tree2";
          status = OperationStatus.completed;
        },
      )
      ∷ [];
  mutation_attempts =
      (
        codes "at",
        record {
          workflow_id = codes "wf";
          slice_id = codes "s1";
          worktree_id = codes "wt";
          owner = codes "o";
          fencing_token = codes "t";
          basis_tree = codes "tree";
          allowed_paths = [];
          operation_id = codes "op";
          live = false;
        },
      )
      ∷ [];
}

repair_completes_abandoned_example :
    IsRepaired (codes "wf") abandoned (codes "wf", codes "s1") (some active) (some completed)
unfolding computing
repair_completes_abandoned_example =
    repair_completes_abandoned 9 (codes "wf") 1 abandoned true (codes "wf", codes "s1") (λ w h. cc)
      refl
