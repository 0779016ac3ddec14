-- ===== src/Workflow/Requests.antt =====
-- What the two stores of internal/workflow share: the comparison of requests, and the decision that
-- `Transition` takes on the workflow that it has read.
pub mod Laws
use skilar.Prelude.{
  ℕ, ◌+◌, Bool, true, false, not, ◌&&◌, ◌||◌, ◌==◌, contains, same_items, if◌then◌else◌, Result, ok,
  err, u64, text_eq, nat_eq,
}
use skilar.Workflow.Types.{
  State, blocked, unset, state_eq, Workflow, Transition, Error, cas_conflict, illegal_transition,
}
use skilar.Workflow.Machine.{can_transition, blockable_states}

unfoldable pub same_transition : Transition → Transition → Bool
same_transition a b =
    a.workflow_id == b.workflow_id
    && a.expected_state == b.expected_state
    && a.expected_version == b.expected_version
    && a.next_state == b.next_state
    && a.idempotency_key == b.idempotency_key
    && a.resume_target == b.resume_target
    && same_items a.artifact_ids b.artifact_ids

-- The resume target after a step.
abbrev pub next_resume : State → State → State → State → State
next_resume from to requested current =
    if to == blocked then requested else if from == blocked then unset else current

-- A request to block must name the state that it leaves.
unfoldable pub bad_block : Workflow → Transition → Bool
bad_block w req =
    req.next_state == blocked
    && (not (contains req.resume_target blockable_states) || not (req.resume_target == w.state))

-- From the compare-and-swap test to the new workflow; `resume_target` is what the store hands to
-- `CanTransition`.
unfoldable pub advance : State → Workflow → Transition → Result Error Workflow
advance resume_target w req =
    if not (w.state == req.expected_state) || not (w.state_version == req.expected_version)
    then err cas_conflict
    else if not (can_transition w.state req.next_state resume_target)
    then err illegal_transition
    else if bad_block w req
    then err illegal_transition
    else ok (record w {
      state = req.next_state;
      state_version = u64 (w.state_version + 1);
      resume_target = next_resume w.state req.next_state req.resume_target w.resume_target;
    })
