-- ===== src/Workflow/Memory/History.antt =====
-- The audit log of MemoryStore (internal/workflow/store.go) explains its workflows.
use skilar.Prelude.{
  ℕ, ◌+◌, ◌≡◌, refl, ap, ◌∙◌, List, [], ◌∷◌, ◌++◌, Option, none, some, arith, ◌==◌, Text, lookup,
  lookup-insert, if◌then◌else◌, u64, nat_eq, text_eq, text_beq_iff, ok, Result, Bool-cases, inl,
  inr,
}
use skilar.Workflow.Types.{
  State, created, blocked, state_eq, state_beq_iff, Workflow, Event, Transition, Error,
}
use skilar.Workflow.Machine.{can_transition}
use skilar.Workflow.Requests.{advance}
use skilar.Workflow.Requests.Laws.{advance-Advanced, can_transition-resume_irrelevant, block_target}
use skilar.Workflow.Replay.{Cursor, cursor, apply_event, replay, replay-snoc}
use skilar.Workflow.Memory.{
  MemoryStore, with_initial_state, create, new_memory_store, asked_resume, record_transition,
  events_of,
}
use skilar.Workflow.Memory.Frames.{
  create-cases, SameLog, register_attempt-SameLog, supersede_attempt-SameLog, accept_result-SameLog,
  acquire_lease-SameLog, heartbeat_lease-SameLog,
}
use skilar.Workflow.Memory.Calls.{Call, perform, run}
use skilar.Workflow.Memory.Steps.{Outcome, rejected, replayed, moved, transition-Outcome}

-- The event that a transition appends.
abbrev pub transition_event : ℕ → ℕ → Transition → State → Workflow → Event
transition_event sequence now req from w = record {
  sequence = sequence;
  workflow_id = w.id;
  from = from;
  to = w.state;
  state_version = w.state_version;
  idempotency_key = req.idempotency_key;
  artifact_ids = req.artifact_ids;
  occurred_at = now;
}

asked_resume_lem :
    (w : Workflow) (req : Transition) (t : State)
    → can_transition w.state t (asked_resume w req) ≡ can_transition w.state t w.resume_target
asked_resume_lem w req t = elim (Bool-cases (w.state == blocked)) [
  | inl e ↦ rw e
  | inr n ↦ rw n (
      can_transition-resume_irrelevant w.state t req.resume_target w.resume_target
        (λ p. cc ((state_beq_iff w.state blocked).1 p)))
]

-- The event of an admitted transition leads from the old workflow to the new one.
pub apply_event-advance :
    (n now : ℕ) (w w' : Workflow) (req : Transition)
    → advance (asked_resume w req) w req ≡ ok w'
    → apply_event (cursor w) (transition_event n now req w.state w') ≡ some (cursor w')
unfolding apply_event
apply_event-advance n now w w' req h =
    let a = advance-Advanced (asked_resume w req) w req h in
    ground (
      arith,
      a.new_workflow,
      a.legal,
      asked_resume_lem w req req.next_state,
      block_target w req a.well_blocked,
      state_beq_iff w.state w.state,
      state_beq_iff req.next_state blocked,
    )

-- Where a workflow starts: created at version zero.
abbrev pub starting : State → Cursor
starting r = record { state = created; resume_target = r; state_version = 0 }

-- What the log `es` says of the workflow stored under `id`, if there is one.
abbrev pub LogFits : Text → Option Workflow → List Event → Type 0
LogFits id none es = es ≡ []
LogFits id (some w) es = (w.id ≡ id) × ((r : State) × (replay (starting r) es ≡ some (cursor w)))

abbrev pub IsLogged : MemoryStore → Type 0
IsLogged s = (id : Text) → LogFits id (lookup id s.workflows) (events_of id s)

pub events_of-record_transition :
    (now : ℕ) (req : Transition) (from : State) (w : Workflow) (s : MemoryStore) (id : Text)
    → events_of id (record_transition now req from w s) ≡ (
        if w.id == id
        then events_of w.id s ++ transition_event (u64 (s.sequence + 1)) now req from w ∷ []
        else events_of id s)
unfolding record_transition
events_of-record_transition now req from w s id = ground (
  arith,
  lookup-insert w.id id
      (events_of w.id s ++ transition_event (u64 (s.sequence + 1)) now req from w ∷ []) s.events,
)

record_transition-IsLogged :
    (now : ℕ) (req : Transition) (w w' : Workflow) (s : MemoryStore)
    → lookup req.workflow_id s.workflows ≡ some w
    → advance (asked_resume w req) w req ≡ ok w'
    → IsLogged s
    → IsLogged (record_transition now req w.state w' s)
unfolding record_transition
record_transition-IsLogged now req w w' s found done logged id =
    let event = transition_event (u64 (s.sequence + 1)) now req w.state w' in
    let here : LogFits req.workflow_id (some w) (events_of req.workflow_id s) =
      rw found at (logged req.workflow_id) in
    let same_id : w'.id ≡ req.workflow_id =
      ap (λ v. v.id) (advance-Advanced (asked_resume w req) w req done).new_workflow ∙ here.0 in
    let step = apply_event-advance (u64 (s.sequence + 1)) now w w' req done in
    rw (events_of-record_transition now req w.state w' s id, lookup-insert w'.id id w' s.workflows)
      (elim (Bool-cases (w'.id == id)) [
        | inl e ↦ rw e (
          (text_beq_iff w'.id id).0 e,
          (
            here.1.0,
            replay-snoc (starting here.1.0) (events_of w'.id s) event (rw same_id here.1.1) step,
          ),
        )
        | inr n ↦ rw n (logged id)
      ])

Outcome-IsLogged :
    (now : ℕ) (req : Transition) (s : MemoryStore) {x : Result Error Workflow × MemoryStore}
    → Outcome now req s x
    → IsLogged s
    → IsLogged x.1
Outcome-IsLogged now req s (rejected e) logged = logged
Outcome-IsLogged now req s (replayed p found same) logged = logged
Outcome-IsLogged now req s (moved w w' fresh found done) logged =
    record_transition-IsLogged now req w w' s found done logged

-- A workflow that has just been stored has no events yet.
started :
    (w : Workflow) (s : MemoryStore)
    → IsLogged s
    → (id : Text) → lookup w.id s.workflows ≡ none
    → w.state_version ≡ 0
    → (with_initial_state w).state ≡ created
    → w.id ≡ id
    → replay (starting w.resume_target) (events_of id s) ≡ some (cursor (with_initial_state w))
unfolding replay
started w s logged id fresh version state e =
    let none_yet : events_of w.id s ≡ [] = rw fresh at (logged w.id) in rw (← e, none_yet) (cc)

create-IsLogged : (w : Workflow) (s : MemoryStore) → IsLogged s → IsLogged (create w s).1
create-IsLogged w s logged id = elim (create-cases w s) [
  | inl (e, same) ↦ rw same (logged id)
  | inr (fresh, version, state, stored) ↦
      rw (stored, lookup-insert w.id id (with_initial_state w) s.workflows)
        (elim (Bool-cases (w.id == id)) [
          | inl e ↦ rw e (
            (text_beq_iff w.id id).0 e,
            (
              w.resume_target,
              started w s logged id fresh version state ((text_beq_iff w.id id).0 e),
            ),
          )
          | inr n ↦ rw n (logged id)
        ])
]

IsLogged-SameLog : (s s' : MemoryStore) → SameLog s s' → IsLogged s → IsLogged s'
IsLogged-SameLog s s' same logged id = rw (same.workflows, same.events) (logged id)

perform-IsLogged : (c : Call) (s : MemoryStore) → IsLogged s → IsLogged (perform c s)
unfolding perform
perform-IsLogged (Call.create w) s = create-IsLogged w s
perform-IsLogged (Call.transition now req) s =
    Outcome-IsLogged now req s (transition-Outcome now req s)
perform-IsLogged (Call.register_attempt a) s = IsLogged-SameLog s _ (register_attempt-SameLog a s)
perform-IsLogged (Call.supersede_attempt id) s =
    IsLogged-SameLog s _ (supersede_attempt-SameLog id s)
perform-IsLogged (Call.accept_result r) s = IsLogged-SameLog s _ (accept_result-SameLog r s)
perform-IsLogged (Call.acquire_lease r o t now e) s =
    IsLogged-SameLog s _ (acquire_lease-SameLog r o t now e s)
perform-IsLogged (Call.heartbeat_lease r o t now e) s =
    IsLogged-SameLog s _ (heartbeat_lease-SameLog r o t now e s)

pub run-IsLogged : (cs : List Call) (s : MemoryStore) → IsLogged s → IsLogged (run cs s)
unfolding run
run-IsLogged [] s logged = logged
run-IsLogged (c ∷ cs) s logged = run-IsLogged cs (perform c s) (perform-IsLogged c s logged)

pub new-IsLogged : IsLogged new_memory_store
unfolding new_memory_store lookup
new-IsLogged id = refl

-- Whatever calls a new store has taken, the events of each stored workflow, replayed from a
-- workflow created at version zero, are legal one after the other and end in the stored state,
-- version and resume target; a name with no workflow has no events.
pub events_explain_workflows :
    (cs : List Call) (id : Text)
    → let s = run cs new_memory_store in LogFits id (lookup id s.workflows) (events_of id s)
events_explain_workflows cs = run-IsLogged cs new_memory_store new-IsLogged
