-- ===== src/Workflow/Sqlite.antt =====
-- SQLiteStore of internal/workflow/sqlite.go. A database is a record of its tables: a table under
-- its primary key is a map, and an insertion that a UNIQUE or PRIMARY KEY clause of the schema
-- forbids fails with `constraint`. Every method here runs under BEGIN IMMEDIATE or as one statement,
-- so it is one step. A JSON column is what encoding/json reads back of it.
pub mod Slices
pub mod SliceLaws
pub mod Activation
pub mod Creation
pub mod Writes
pub mod Work
pub mod Repair
pub mod Repairing
pub mod WorkLaws
mod Tests
pub mod Refinement
use skilar.Prelude.{
  ℕ, zero, suc, ◌+◌, ◌/◌, ◌%◌, ◌++◌, ◌≡◌, Bool, true, false, not, ◌&&◌, ◌||◌, List, [], ◌∷◌, Option,
  none, some, Text, ◌==◌, is_empty, if◌then◌else◌, Map, lookup, insert, map, Result, ok, err,
  Action, pure, fail, gets, modify, fail_if, or_fail, transaction, ◌>>=◌, ◌>>◌, u64, ltb, nat_eq,
  text_eq, pair_eq, codes, nat_beq,
}
use skilar.Workflow.Types.{
  State, created, ready, executing, verifying, unset, state_eq, Workflow, Transition, Event,
  Attempt, ResultEnvelope, Lease, Error, not_found, cas_conflict, idempotency_reuse,
  empty_idempotency_key, graph_version_required, concurrent_writer, not_ready, slice_not_active,
  not_executing, constraint, empty_id, create_not_initial, already_exists,
}
use skilar.Workflow.Requests.{same_transition, advance}
use skilar.Workflow.Memory.{TransitionRecord, is_some, with_initial_state}

pub data SliceStatus : Type 0 where
  pending active completed : SliceStatus

pub record MutationAttempt : Type 0 where
  pub workflow_id : Text
  pub slice_id : Text
  pub worktree_id : Text
  pub owner : Text
  pub fencing_token : Text
  pub basis_tree : Text
  pub allowed_paths : List ℕ
  pub operation_id : Text
  pub live : Bool

pub data OperationStatus : Type 0 where
  intended mutated completed : OperationStatus

pub record MutationOperation : Type 0 where
  pub workflow_id : Text
  pub attempt_id : Text
  pub pre_tree : Text
  pub post_tree : Text
  pub status : OperationStatus

-- The tables of schema versions 1 and 5 that the transition methods use, and the packages that the
-- store calls.
pub record Database : Type 0 where
  pub json : Text → Text  -- encoding/json: what Unmarshal gives of a string that Marshal has written
  pub unix_nano : ℕ → ℕ  -- time.Time.UnixNano; times and its int64 count from the least int64
  pub workflows : Map Text Workflow
  pub transition_events : List Event
  pub idempotency : Map (Text × Text) TransitionRecord
  pub execution_slice_state : Map (Text × Text) SliceStatus
  pub mutation_attempts : Map Text MutationAttempt
  pub mutation_operations : Map Text MutationOperation
  pub attempts : Map Text Attempt
  pub results : Map Text ResultEnvelope
  pub leases : Map Text Lease

abbrev pub Query : Type 0 → Type 0
Query A = Action Database Error A

unfoldable pub empty_database : Database
empty_database = record {
  json = λ text. text;
  unix_nano = λ time. time;
  workflows = [];
  transition_events = [];
  idempotency = [];
  execution_slice_state = [];
  mutation_attempts = [];
  mutation_operations = [];
  attempts = [];
  results = [];
  leases = [];
}

-- A request and a workflow that were written as JSON and are read back; their states and routes are
-- among the constants, which encoding/json keeps.
unfoldable pub reread_request : (Text → Text) → Transition → Transition
reread_request json req = record req {
  workflow_id = json req.workflow_id;
  idempotency_key = json req.idempotency_key;
  artifact_ids = map json req.artifact_ids;
}

unfoldable pub reread_workflow : (Text → Text) → Workflow → Workflow
reread_workflow json w = record w { id = json w.id; basis_tree = json w.basis_tree }

-- Whether a workflow has an event under the key: the UNIQUE clause of `transition_events`.
unfoldable pub has_event : Text → Text → List Event → Bool
has_event id key [] = false
has_event id key (e ∷ es) = (e.workflow_id == id && e.idempotency_key == key) || has_event id key es

-- The sequence that AUTOINCREMENT gives next.
unfoldable pub next_sequence : List Event → ℕ
next_sequence [] = 1
next_sequence (e ∷ []) = e.sequence + 1
next_sequence (e ∷ f ∷ es) = next_sequence (f ∷ es)

-- UPDATE workflows … WHERE id=? AND state=? AND state_version=?
unfoldable pub update_workflow : State → ℕ → Workflow → Query (Unit {0})
update_workflow state version w = do
  current ← or_fail (← gets (λ d. lookup w.id d.workflows)) cas_conflict
  fail_if (not (current.state == state) || not (current.state_version == version)) cas_conflict
  modify (λ d. record d { workflows = insert w.id w d.workflows })

-- INSERT INTO transition_events
unfoldable pub insert_event : ℕ → Transition → State → Workflow → Query (Unit {0})
unfolding has_event next_sequence
insert_event now req from w = do
  fail_if (← gets (λ d. has_event w.id req.idempotency_key d.transition_events)) constraint
  modify (λ d. record d {
    transition_events =
        d.transition_events
        ++ (record {
          sequence = next_sequence d.transition_events;
          workflow_id = w.id;
          from = from;
          to = w.state;
          state_version = w.state_version;
          idempotency_key = req.idempotency_key;
          artifact_ids = map d.json req.artifact_ids;
          occurred_at = now;
        })
          ∷ [];
  })

-- INSERT INTO idempotency
unfoldable pub insert_idempotency : Transition → Workflow → Query (Unit {0})
insert_idempotency req w = do
  fail_if (is_some (← gets (λ d. lookup (w.id, req.idempotency_key) d.idempotency))) constraint
  modify (λ d. record d {
    idempotency =
        insert (w.id, req.idempotency_key)
          (record { request = reread_request d.json req; result = reread_workflow d.json w })
          d.idempotency;
  })

-- The three writes of a transition from the workflow `w` to `w'`.
unfoldable pub write_transition : ℕ → Transition → Workflow → Workflow → Query (Unit {0})
write_transition now req w w' = do
  update_workflow req.expected_state req.expected_version w'
  insert_event now req w.state w'
  insert_idempotency req w'

unfoldable pub store_advanced : ℕ → Transition → Workflow → Result Error Workflow → Query Workflow
store_advanced now req w (err e) = fail e
store_advanced now req w (ok w') = write_transition now req w w' >> pure w'

unfoldable pub transition_stored : ℕ → Transition → Option Workflow → Query Workflow
unfolding store_advanced
transition_stored now req none = fail not_found
transition_stored now req (some w) = store_advanced now req w (advance w.resume_target w req)

unfoldable pub transition_answer : ℕ → Transition → Option TransitionRecord → Query Workflow
unfolding transition_stored
transition_answer now req (some previous) =
    if same_transition previous.request req then pure previous.result else fail idempotency_reuse
transition_answer now req none =
    λ d. transition_stored now req (lookup req.workflow_id d.workflows) d

unfoldable pub create : Workflow → Query Workflow
create given = do
  fail_if (is_empty given.id) empty_id
  let w = with_initial_state given
  fail_if (not (w.state == created) || not (w.state_version == 0)) create_not_initial
  fail_if (is_some (← gets (λ d. lookup w.id d.workflows))) already_exists
  modify (λ d. record d { workflows = insert w.id w d.workflows })
  pure w

unfoldable pub transition : ℕ → Transition → Query Workflow
unfolding transition_answer
transition now req = do
  fail_if (is_empty req.idempotency_key) empty_idempotency_key
  transaction (do
    previous ← gets (λ d. lookup (req.workflow_id, req.idempotency_key) d.idempotency)
    transition_answer now req previous)
