-- ===== src/Workflow/Machine/Documented.antt =====
-- The transitions of docs/specs/orchestrator-v2/design-tree-revised.md against internal/workflow/machine.go.
use skilar.Prelude.{◌≡◌, ◌≢◌, ◌↔◌, ◌⊎◌, refl, true, inl, inr}
use skilar.Workflow.Types.{
  State, created, discovering, ready, executing, verifying, candidate_frozen, reviewing, receipted,
  delivered, blocked, replan_required, integration_conflict, aborted, failed,
}
use skilar.Workflow.Machine.{can_transition}
use skilar.Workflow.Machine.Steps.{
  IsWork, exploring, prepared, running, checking, frozen, examined, approved, IsLive, new, working,
  stopped, revised, conflicting, Step, can_transition-iff-Step,
}
use skilar.Workflow.Machine.Steps

-- The rows of the document's table, and the two transitions that only its last column names: a blocked
-- workflow whose context drifted, and a conflict whose resolution changed.
pub data Documented : State → State → State → Type 0 where
  discover : {r : State} → Documented created discovering r
  contract : {r : State} → Documented discovering ready r
  execute : {r : State} → Documented ready executing r
  complete : {r : State} → Documented executing verifying r
  freeze : {r : State} → Documented verifying candidate_frozen r
  review : {r : State} → Documented candidate_frozen reviewing r
  receipt : {r : State} → Documented reviewing receipted r
  deliver : {r : State} → Documented receipted delivered r
  block : {s r : State} → IsWork s → Documented s blocked r
  replan : {s r : State} → IsWork s → Documented s replan_required r
  conflict : {r : State} → Documented executing integration_conflict r
  resolve : {r : State} → Documented integration_conflict ready r
  unblock : {t r : State} → IsWork t → t ≡ r → Documented blocked t r
  rediscover : {r : State} → Documented replan_required discovering r
  abort : {s r : State} → IsLive s → Documented s aborted r
  fail : {s r : State} → IsLive s → Documented s failed r
  drifted : {r : State} → Documented blocked replan_required r
  changed_resolution : {r : State} → Documented integration_conflict replan_required r

-- What the engine admits beside that.
pub data Undocumented : State → State → State → Type 0 where
  back_to_ready : {r : State} → Undocumented replan_required ready r
  back_to_verifying : {r : State} → Undocumented replan_required verifying r
  blocked_conflict :
      {r : State} → r ≢ integration_conflict → Undocumented blocked integration_conflict r

-- The one that the engine refuses.
abbrev pub IsRefused : State → State → Type 0
IsRefused s t = (s ≡ integration_conflict) × (t ≡ replan_required)

abbrev pub IsAdmitted : State → State → State → Type 0
IsAdmitted s t r = (Documented s t r × (IsRefused s t → ⊥)) ⊎ Undocumented s t r

work_apart : {s : State} → IsWork s → s ≢ integration_conflict
work_apart exploring e = cc
work_apart prepared e = cc
work_apart running e = cc
work_apart checking e = cc
work_apart frozen e = cc
work_apart examined e = cc
work_apart approved e = cc

IsAdmitted-of_step : (s t r : State) → Step s t r → IsAdmitted s t r
IsAdmitted-of_step _ _ r Steps.discover = inl (discover, λ e. cc)
IsAdmitted-of_step _ _ r Steps.contract = inl (contract, λ e. cc)
IsAdmitted-of_step _ _ r Steps.activate = inl (execute, λ e. cc)
IsAdmitted-of_step _ _ r Steps.complete = inl (complete, λ e. cc)
IsAdmitted-of_step _ _ r Steps.conflict = inl (conflict, λ e. cc)
IsAdmitted-of_step _ _ r Steps.freeze = inl (freeze, λ e. cc)
IsAdmitted-of_step _ _ r Steps.review = inl (review, λ e. cc)
IsAdmitted-of_step _ _ r Steps.issue = inl (receipt, λ e. cc)
IsAdmitted-of_step _ _ r Steps.deliver = inl (deliver, λ e. cc)
IsAdmitted-of_step _ _ r Steps.reconcile = inl (resolve, λ e. cc)
IsAdmitted-of_step _ _ r Steps.replan_discovery = inl (rediscover, λ e. cc)
IsAdmitted-of_step _ _ r Steps.replan_execution = inr back_to_ready
IsAdmitted-of_step _ _ r Steps.replan_verification = inr back_to_verifying
IsAdmitted-of_step _ _ r (Steps.block w) = inl (block w, λ e. cc)
IsAdmitted-of_step _ _ r (Steps.replan w) = inl (replan w, λ e. work_apart w e.0)
IsAdmitted-of_step _ _ r Steps.replan_blocked = inl (drifted, λ e. cc)
IsAdmitted-of_step _ _ r (Steps.abort l) = inl (abort l, λ e. cc)
IsAdmitted-of_step _ _ r (Steps.fail l) = inl (fail l, λ e. cc)
IsAdmitted-of_step _ _ r (Steps.resume w e) = inl (unblock w e, λ e. cc)
IsAdmitted-of_step _ _ r (Steps.drift n) = inr (blocked_conflict n)

step_of_documented : (s t r : State) → Documented s t r → (IsRefused s t → ⊥) → Step s t r
step_of_documented _ _ r discover n = Steps.discover
step_of_documented _ _ r contract n = Steps.contract
step_of_documented _ _ r execute n = Steps.activate
step_of_documented _ _ r complete n = Steps.complete
step_of_documented _ _ r freeze n = Steps.freeze
step_of_documented _ _ r review n = Steps.review
step_of_documented _ _ r receipt n = Steps.issue
step_of_documented _ _ r deliver n = Steps.deliver
step_of_documented _ _ r (block w) n = Steps.block w
step_of_documented _ _ r (replan w) n = Steps.replan w
step_of_documented _ _ r conflict n = Steps.conflict
step_of_documented _ _ r resolve n = Steps.reconcile
step_of_documented _ _ r (unblock w e) n = Steps.resume w e
step_of_documented _ _ r rediscover n = Steps.replan_discovery
step_of_documented _ _ r (abort l) n = Steps.abort l
step_of_documented _ _ r (fail l) n = Steps.fail l
step_of_documented _ _ r drifted n = Steps.replan_blocked
step_of_documented _ _ r changed_resolution n = absurd (n (refl, refl))

step_of_undocumented : (s t r : State) → Undocumented s t r → Step s t r
step_of_undocumented _ _ r back_to_ready = Steps.replan_execution
step_of_undocumented _ _ r back_to_verifying = Steps.replan_verification
step_of_undocumented _ _ r (blocked_conflict n) = Steps.drift n

-- `CanTransition` admits exactly the documented transitions but for the one from integration_conflict to
-- replan_required, and three more: from replan_required to ready and to verifying, and from blocked
-- to integration_conflict, unless that is the resume target.
pub can_transition-iff-IsAdmitted :
    (s t r : State) → (can_transition s t r ≡ true) ↔ IsAdmitted s t r
can_transition-iff-IsAdmitted s t r = (
  λ h. IsAdmitted-of_step s t r ((can_transition-iff-Step s t r).0 h),
  λ a. (can_transition-iff-Step s t r).1 (elim a [
    | inl known ↦ step_of_documented s t r known.0 known.1
    | inr extra ↦ step_of_undocumented s t r extra
  ]),
)
