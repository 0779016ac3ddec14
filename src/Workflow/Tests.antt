-- ===== src/Workflow/Tests.antt =====
-- Runs of the in-memory store of internal/workflow/store.go, and the theorems at them.
use skilar.Prelude.{
  ◌↔◌, true, text_beq_iff, ℕ, ◌<◌, ◌≤◌, ◌≡◌, refl, false, List, [], ◌∷◌, some, arith, codes, Text,
  ok, err, lookup, text_eq, text_beq, insert, same_items, inl,
}
use skilar.Workflow.Types.{
  State, created, discovering, ready, executing, verifying, candidate_frozen, reviewing, receipted,
  delivered, replan_required, unset, state_beq, Route, Risk, Workflow, Transition, Attempt,
  AttemptStatus, ResultEnvelope, Lease, cas_conflict, idempotency_reuse, stale_result,
  lease_conflict,
}
use skilar.Workflow.Machine.{can_transition}
use skilar.Workflow.Machine.Documented.{IsAdmitted, can_transition-iff-IsAdmitted}
use skilar.Workflow.Requests.{same_transition, bad_block, advance}
use skilar.Workflow.Memory
use skilar.Workflow.Memory.{
  MemoryStore, new_memory_store, idem_key, record_transition, transition, acquire_lease,
  supersede_attempt, accept_result, is_stale, not_registrable, events_of,
}
use skilar.Workflow.Memory.Calls.{Call, run, perform}
use skilar.Workflow.Memory.History.{LogFits, events_explain_workflows}
use skilar.Workflow.Memory.Idempotency.{retry_returns_result, reuse_refused}
use skilar.Workflow.Memory.Versions.{second_writer_refused}
use skilar.Workflow.Memory.Leases.{granted_lease_is_exclusive}
use skilar.Workflow.Memory.Attempts.{
  result_accepted_once, superseded_never_accepted, IsAcceptable, accept_result_iff,
}
use skilar.Workflow.Memory.Errors.{succeeds, failed_call_changes_nothing}
use skilar.Workflow.Milestones.{gates_passed, delivered_passes_gates}

-- What a run of the store computes with.
computing : Unit {0}
unfolding run perform Memory.create Memory.transition Memory.register_attempt
    Memory.supersede_attempt Memory.accept_result Memory.acquire_lease Memory.heartbeat_lease
    new_memory_store text_beq state_beq lookup insert same_items idem_key record_transition
    same_transition advance bad_block can_transition is_stale not_registrable succeeds gates_passed
computing = tt

abbrev wf_id : Text
wf_id = codes "wf"

abbrev wf : Workflow
wf = record {
  id = wf_id;
  state = unset;
  state_version = 0;
  route = Route.planned;
  minimum_risk = Risk.medium;
  basis_tree = codes "tree";
  resume_target = unset;
}

abbrev request : State → State → ℕ → Text → Transition
request from to version key = record {
  workflow_id = wf_id;
  expected_state = from;
  expected_version = version;
  next_state = to;
  idempotency_key = key;
  artifact_ids = [];
  resume_target = unset;
}

abbrev move : State → State → ℕ → Text → Call
move from to version key = Call.transition 7 (request from to version key)

abbrev life : List Call
life =
    Call.create wf
    ∷ move created discovering 0 (codes "a")
    ∷ move discovering ready 1 (codes "b")
    ∷ move ready executing 2 (codes "c")
    ∷ move executing verifying 3 (codes "d")
    ∷ move verifying candidate_frozen 4 (codes "e")
    ∷ move candidate_frozen reviewing 5 (codes "f")
    ∷ move reviewing receipted 6 (codes "g")
    ∷ move receipted delivered 7 (codes "h")
    ∷ []

abbrev delivered_wf : Workflow
delivered_wf = record wf { state = delivered; state_version = 8 }

life_delivers : lookup wf_id (run life new_memory_store).workflows ≡ some delivered_wf
unfolding computing
life_delivers = refl

can_transition-iff-IsAdmitted_example :
    can_transition replan_required ready unset ≡ true ↔ IsAdmitted replan_required ready unset
can_transition-iff-IsAdmitted_example = can_transition-iff-IsAdmitted replan_required ready unset

events_explain_workflows_example :
    let s = run life new_memory_store in
    LogFits wf_id (lookup wf_id s.workflows) (events_of wf_id s)
events_explain_workflows_example = events_explain_workflows life wf_id

delivered_passes_gates_example : 4 ≤ gates_passed 0 (events_of wf_id (run life new_memory_store))
delivered_passes_gates_example = delivered_passes_gates life wf_id delivered_wf life_delivers refl

abbrev at_start : MemoryStore
at_start = run (Call.create wf ∷ []) new_memory_store

abbrev first : Transition
first = request created discovering 0 (codes "a")

abbrev discovering_wf : Workflow
discovering_wf = record wf { state = discovering; state_version = 1 }

first_succeeds : (transition 7 first at_start).0 ≡ ok discovering_wf
unfolding computing
first_succeeds = refl

abbrev next : List Call
next = move discovering ready 1 (codes "b") ∷ []

retry_returns_result_example :
    let s' = run next (transition 7 first at_start).1 in
    transition 9 first s' ≡ (ok discovering_wf, s')
retry_returns_result_example =
    retry_returns_result 7 9 first at_start discovering_wf next first_succeeds

abbrev other_target : Transition
other_target = request created State.aborted 0 (codes "a")

reuse_refused_example :
    let s' = run next (transition 7 first at_start).1 in
    transition 9 other_target s' ≡ (err idempotency_reuse, s')
reuse_refused_example =
    reuse_refused 7 9 first other_target at_start discovering_wf next first_succeeds refl refl
      (λ e. cc e)

abbrev rival : Transition
rival = request created State.aborted 0 (codes "z")

second_writer_refused_example :
    let s' = (transition 7 first at_start).1 in transition 9 rival s' ≡ (err cas_conflict, s')
unfolding computing
second_writer_refused_example =
    second_writer_refused (Call.create wf ∷ []) 7 9 first rival discovering_wf refl first_succeeds
      refl refl refl refl

abbrev lease : Lease
lease = record {
  resource = codes "w";
  owner = codes "p";
  fencing_token = codes "t";
  expires_at = 50;
}

abbrev intruders : List Call
intruders =
    Call.acquire_lease (codes "w") (codes "q") (codes "u") 20 90
    ∷ Call.heartbeat_lease (codes "w") (codes "q") (codes "u") 30 90
    ∷ Call.create wf
    ∷ []

granted_lease_is_exclusive_example :
    let s' =
      run intruders (acquire_lease (codes "w") (codes "p") (codes "t") 10 50 new_memory_store).1 in
    (lookup (codes "w") s'.leases ≡ some lease)
    × ((o' t' : Text) (now' e' : ℕ)
        → now' < 50
        → acquire_lease (codes "w") o' t' now' e' s' ≡ (err lease_conflict, s'))
unfolding computing
granted_lease_is_exclusive_example =
    granted_lease_is_exclusive (codes "w") (codes "p") (codes "t") 10 50 new_memory_store lease
      intruders refl
      (
        λ e. omega arith,
        (λ e. inl (λ p. cc ((text_beq_iff (codes "q") (codes "p")).1 p)), (tt, tt)),
      )

abbrev attempt : Attempt
attempt = record {
  id = codes "n1";
  workflow_id = wf_id;
  node_id = codes "node";
  basis_tree = codes "tree";
  live = false;
}

abbrev envelope : ResultEnvelope
envelope = record {
  workflow_id = wf_id;
  node_id = codes "node";
  attempt_id = codes "n1";
  base_candidate_oid = codes "tree";
  status = AttemptStatus.completed;
  artifact_ids = [];
  evidence_ids = [];
}

abbrev registered : List Call
registered = Call.create wf ∷ Call.register_attempt attempt ∷ []

result_accepted_once_example :
    let s' = run next (accept_result envelope (run registered new_memory_store)).1 in
    accept_result envelope s' ≡ (err stale_result, s')
unfolding computing
result_accepted_once_example = result_accepted_once registered next envelope envelope refl refl

superseded_never_accepted_example :
    let s' = run next (supersede_attempt (codes "n1") (run registered new_memory_store)).1 in
    accept_result envelope s' ≡ (err stale_result, s')
unfolding computing
superseded_never_accepted_example =
    superseded_never_accepted (codes "n1") (run registered new_memory_store) next envelope refl refl

accept_result_iff_example : IsAcceptable envelope (run registered new_memory_store)
unfolding computing
accept_result_iff_example = (accept_result_iff envelope (run registered new_memory_store)).0 refl

failed_call_changes_nothing_example :
    perform (Call.transition 9 rival) new_memory_store ≡ new_memory_store
unfolding computing
failed_call_changes_nothing_example =
    failed_call_changes_nothing (Call.transition 9 rival) new_memory_store refl
