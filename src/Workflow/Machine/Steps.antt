-- ===== src/Workflow/Machine/Steps.antt =====
-- The transition diagram of the engine as a relation, apart from the tables of machine.go.
use mathlib.Core.Path.{subst}
use skilar.Prelude.{◌≡◌, ◌≢◌, ◌↔◌, refl, sym, true}
use skilar.Workflow.Types.{
  State, created, discovering, ready, executing, verifying, candidate_frozen, reviewing, receipted,
  delivered, blocked, replan_required, integration_conflict, aborted, failed, unset, state_beq,
  State-discrete,
}
use skilar.Workflow.Machine.{can_transition}

-- States in which work is under way: they can be blocked and resumed.
pub data IsWork : State → Type 0 where
  exploring : IsWork discovering
  prepared : IsWork ready
  running : IsWork executing
  checking : IsWork verifying
  frozen : IsWork candidate_frozen
  examined : IsWork reviewing
  approved : IsWork receipted

-- States that a workflow can still leave.
pub data IsLive : State → Type 0 where
  new : IsLive created
  working : {s : State} → IsWork s → IsLive s
  stopped : IsLive blocked
  revised : IsLive replan_required
  conflicting : IsLive integration_conflict

-- `Step s t r`: from `s` to `t`, where `r` is the target that a blocked workflow resumes at.
pub data Step : State → State → State → Type 0 where
  discover : {r : State} → Step created discovering r
  contract : {r : State} → Step discovering ready r
  activate : {r : State} → Step ready executing r
  complete : {r : State} → Step executing verifying r
  conflict : {r : State} → Step executing integration_conflict r
  freeze : {r : State} → Step verifying candidate_frozen r
  review : {r : State} → Step candidate_frozen reviewing r
  issue : {r : State} → Step reviewing receipted r
  deliver : {r : State} → Step receipted delivered r
  reconcile : {r : State} → Step integration_conflict ready r
  replan_discovery : {r : State} → Step replan_required discovering r
  replan_execution : {r : State} → Step replan_required ready r
  replan_verification : {r : State} → Step replan_required verifying r
  block : {s r : State} → IsWork s → Step s blocked r
  replan : {s r : State} → IsWork s → Step s replan_required r
  replan_blocked : {r : State} → Step blocked replan_required r
  abort : {s r : State} → IsLive s → Step s aborted r
  fail : {s r : State} → IsLive s → Step s failed r
  resume : {t r : State} → IsWork t → t ≡ r → Step blocked t r
  drift : {r : State} → r ≢ integration_conflict → Step blocked integration_conflict r

ruleset work_states = (exploring, prepared, running, checking, frozen, examined, approved)

ruleset live_states = (new, working, stopped, revised, conflicting)

ruleset steps = (
  discover, contract, activate, complete, conflict, freeze, review, issue, deliver, reconcile,
  replan_discovery, replan_execution, replan_verification, block, replan, replan_blocked, abort,
  fail,
)

-- The steps that leave a state other than `blocked`.
step_of_can : (s t r : State) → s ≢ blocked → can_transition s t r ≡ true → Step s t r
unfolding can_transition state_beq
step_of_can blocked t r n h = absurd (n refl)
step_of_can created created r n h = cc
step_of_can created t r n h = first_of (cc, search (steps, live_states, work_states))
step_of_can discovering created r n h = cc
step_of_can discovering t r n h = first_of (cc, search (steps, live_states, work_states))
step_of_can ready created r n h = cc
step_of_can ready t r n h = first_of (cc, search (steps, live_states, work_states))
step_of_can executing created r n h = cc
step_of_can executing t r n h = first_of (cc, search (steps, live_states, work_states))
step_of_can verifying created r n h = cc
step_of_can verifying t r n h = first_of (cc, search (steps, live_states, work_states))
step_of_can candidate_frozen created r n h = cc
step_of_can candidate_frozen t r n h = first_of (cc, search (steps, live_states, work_states))
step_of_can reviewing created r n h = cc
step_of_can reviewing t r n h = first_of (cc, search (steps, live_states, work_states))
step_of_can receipted created r n h = cc
step_of_can receipted t r n h = first_of (cc, search (steps, live_states, work_states))
step_of_can delivered created r n h = cc
step_of_can delivered t r n h = first_of (cc, search (steps, live_states, work_states))
step_of_can replan_required created r n h = cc
step_of_can replan_required t r n h = first_of (cc, search (steps, live_states, work_states))
step_of_can integration_conflict created r n h = cc
step_of_can integration_conflict t r n h = first_of (cc, search (steps, live_states, work_states))
step_of_can aborted created r n h = cc
step_of_can aborted t r n h = first_of (cc, search (steps, live_states, work_states))
step_of_can failed created r n h = cc
step_of_can failed t r n h = first_of (cc, search (steps, live_states, work_states))
step_of_can unset created r n h = cc
step_of_can unset t r n h = first_of (cc, search (steps, live_states, work_states))

step_of_can_blocked : (t r : State) → can_transition blocked t r ≡ true → Step blocked t r
unfolding can_transition state_beq
step_of_can_blocked integration_conflict integration_conflict h = cc
step_of_can_blocked integration_conflict r h = drift (λ e. cc)
step_of_can_blocked t created h = first_of (cc, search (steps, live_states, work_states))
step_of_can_blocked t r h =
    first_of (cc, search (steps, live_states, work_states), search (resume, work_states))

can_of_step : (s t r : State) → Step s t r → can_transition s t r ≡ true
unfolding can_transition state_beq
can_of_step _ _ r discover = refl
can_of_step _ _ r (block exploring) = refl
can_of_step _ _ r (replan exploring) = refl
can_of_step _ _ r (abort (working exploring)) = refl
can_of_step _ _ r (fail (working exploring)) = refl
can_of_step _ _ r (resume exploring e) = rw (← e)
can_of_step _ _ r (resume prepared e) = rw (← e)
can_of_step _ _ r (resume running e) = rw (← e)
can_of_step _ _ r (resume checking e) = rw (← e)
can_of_step _ _ r (resume frozen e) = rw (← e)
can_of_step _ _ r (resume examined e) = rw (← e)
can_of_step _ _ r (resume approved e) = rw (← e)
can_of_step _ _ integration_conflict (drift n) = absurd (n refl)
can_of_step _ _ r _ = refl

-- `CanTransition` admits exactly the steps of the diagram.
pub can_transition-iff-Step : (s t r : State) → (can_transition s t r ≡ true) ↔ Step s t r
can_transition-iff-Step s t r = (
  λ h. elim (State-discrete s blocked) [
    | yes e ↦
        subst (λ s'. Step s' t r) (sym e)
          (step_of_can_blocked t r (subst (λ s'. can_transition s' t r ≡ true) e h))
    | no n ↦ step_of_can s t r n h
  ],
  can_of_step s t r,
)
