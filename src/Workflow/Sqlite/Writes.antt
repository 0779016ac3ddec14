-- ===== src/Workflow/Sqlite/Writes.antt =====
-- The three writes of a transition in internal/workflow/sqlite.go, when none of them is refused.
use skilar.Prelude.{
  ℕ, ◌++◌, ◌≡◌, ap, false, [], ◌∷◌, none, some, arith, lookup, insert, map, ok, err, nat_eq,
  text_eq, pair_eq, Result,
}
use skilar.Workflow.Types.{State, state_eq, state_beq_iff, Workflow, Transition, Event, Error}
use skilar.Workflow.Sqlite.{
  Database, has_event, next_sequence, update_workflow, insert_event, insert_idempotency,
  write_transition, store_advanced, reread_request, reread_workflow,
}

-- The event that a transition writes.
abbrev pub written_event : ℕ → Transition → State → Workflow → Database → Event
written_event now req from w d = record {
  sequence = next_sequence d.transition_events;
  workflow_id = w.id;
  from = from;
  to = w.state;
  state_version = w.state_version;
  idempotency_key = req.idempotency_key;
  artifact_ids = map d.json req.artifact_ids;
  occurred_at = now;
}

-- The database after the writes of a transition from the state `from` to the workflow `w`.
unfoldable pub written : ℕ → Transition → State → Workflow → Database → Database
written now req from w d = record d {
  workflows = insert w.id w d.workflows;
  transition_events = d.transition_events ++ written_event now req from w d ∷ [];
  idempotency =
      insert (w.id, req.idempotency_key)
        (record { request = reread_request d.json req; result = reread_workflow d.json w })
        d.idempotency;
}

-- Under an unused key, and from the state and version that the request expects, all writes succeed.
pub write_transition_lem :
    (now : ℕ) (req : Transition) (w w' : Workflow) (d : Database)
    → lookup w'.id d.workflows ≡ some w
    → w.state ≡ req.expected_state
    → w.state_version ≡ req.expected_version
    → has_event w'.id req.idempotency_key d.transition_events ≡ false
    → lookup (w'.id, req.idempotency_key) d.idempotency ≡ none
    → write_transition now req w w' d ≡ (ok tt, written now req w.state w' d)
unfolding write_transition update_workflow insert_event insert_idempotency written
write_transition_lem now req w w' d found state version fresh unused =
    ground (arith, state_beq_iff w.state req.expected_state)

pub store_advanced-write :
    (now : ℕ) (req : Transition) (w w' : Workflow) (d : Database)
    → write_transition now req w w' d ≡ (ok tt, written now req w.state w' d)
    → store_advanced now req w (ok w') d ≡ (ok w', written now req w.state w' d)
unfolding store_advanced
store_advanced-write now req w w' d h =
    ap
      (λ (b : Result Error (Unit {0}) × Database). elim b.0 [
        | ok u ↦ (ok w', b.1)
        | err e ↦ (err e, b.1)
      ])
      h

-- Writes that succeed have passed all the tests.
pub write_transition_ok :
    (now : ℕ) (req : Transition) (w w' : Workflow) (d : Database)
    → (write_transition now req w w' d).0 ≡ ok tt
    → (write_transition now req w w' d).1 ≡ written now req w.state w' d
unfolding write_transition update_workflow insert_event insert_idempotency written
write_transition_ok now req w w' d h = ground arith
