-- ===== src/Workflow/Machine.antt =====
-- internal/workflow/machine.go: which transitions the engine admits.
pub mod Steps
pub mod Documented
use skilar.Prelude.{
  Bool, true, false, not, ◌&&◌, ◌||◌, List, [], ◌∷◌, ◌==◌, contains, if◌then◌else◌,
}
use skilar.Workflow.Types.{
  State, created, discovering, ready, executing, verifying, candidate_frozen, reviewing, receipted,
  delivered, blocked, replan_required, integration_conflict, aborted, failed, unset, state_eq,
}

unfoldable pub forward_transitions : State → List State
forward_transitions created = discovering ∷ []
forward_transitions discovering = ready ∷ []
forward_transitions ready = executing ∷ []
forward_transitions executing = verifying ∷ integration_conflict ∷ []
forward_transitions verifying = candidate_frozen ∷ []
forward_transitions candidate_frozen = reviewing ∷ []
forward_transitions reviewing = receipted ∷ []
forward_transitions receipted = delivered ∷ []
forward_transitions integration_conflict = ready ∷ []
forward_transitions replan_required = discovering ∷ ready ∷ verifying ∷ []
forward_transitions _ = []

unfoldable pub non_terminal_states : List State
non_terminal_states =
    created ∷ discovering ∷ ready ∷ executing ∷ verifying ∷ candidate_frozen ∷ reviewing ∷ receipted
    ∷ blocked ∷ replan_required ∷ integration_conflict ∷ []

unfoldable pub blockable_states : List State
blockable_states =
    discovering ∷ ready ∷ executing ∷ verifying ∷ candidate_frozen ∷ reviewing ∷ receipted ∷ []

unfoldable pub replan_states : List State
replan_states =
    discovering ∷ ready ∷ executing ∷ verifying ∷ candidate_frozen ∷ reviewing ∷ receipted ∷ blocked
    ∷ []

-- The early returns of `CanTransition`, in its order.
unfoldable pub can_transition : State → State → State → Bool
unfolding forward_transitions non_terminal_states blockable_states replan_states
can_transition from to resume_target =
    if contains to (forward_transitions from)
    then true
    else if contains from blockable_states && to == blocked
    then true
    else if contains from replan_states && to == replan_required
    then true
    else if contains from non_terminal_states && (to == aborted || to == failed)
    then true
    else if from == blocked && to == resume_target && not (resume_target == unset)
    then contains to blockable_states && not (to == blocked)
    else from == blocked && to == integration_conflict
