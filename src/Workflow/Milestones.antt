-- ===== src/Workflow/Milestones.antt =====
-- The gates that stand before delivery in internal/workflow/machine.go, read off an audit log.
use mathlib.Core.Path.{subst}
use mathlib.Core.Option.{some-injective}
use skilar.Prelude.{
  ℕ, suc, ◌≤◌, ◌≡◌, true, List, [], ◌∷◌, some, arith, ◌==◌, if◌then◌else◌, nat_eq, lookup, text_eq,
  Text, Option-cases, inl, inr, ap,
}
use skilar.Workflow.Types.{
  State, verifying, candidate_frozen, reviewing, receipted, delivered, blocked, state_eq, state_beq,
  state_beq_iff, Workflow, Event,
}
use skilar.Workflow.Machine.{can_transition}
use skilar.Workflow.Machine.Steps.{
  Step, discover, block, resume, abort, replan, fail, exploring, working, frozen, examined,
  approved, can_transition-iff-Step,
}
use skilar.Workflow.Requests.{next_resume}
use skilar.Workflow.Replay.{Cursor, apply_event, replay}
use skilar.Workflow.Memory.{new_memory_store, events_of}
use skilar.Workflow.Memory.Calls.{Call, run}
use skilar.Workflow.Memory.History.{starting, LogFits, events_explain_workflows}

-- The number of a gate: the candidate is frozen, reviewed, receipted and delivered.
abbrev pub gate : State → State → ℕ
gate verifying candidate_frozen = 1
gate candidate_frozen reviewing = 2
gate reviewing receipted = 3
gate receipted delivered = 4
gate _ _ = 0

-- The next gate is passed when it is the one that follows the last.
abbrev pub pass : ℕ → State → State → ℕ
pass k from to = if gate from to == suc k then suc k else k

-- How many gates a log passes, each after the one before it.
unfoldable pub gates_passed : ℕ → List Event → ℕ
gates_passed k [] = k
gates_passed k (e ∷ es) = gates_passed (pass k e.from e.to) es

abbrev reached : State → ℕ
reached candidate_frozen = 1
reached reviewing = 2
reached receipted = 3
reached delivered = 4
reached _ = 0

-- The gates that a state needs; a blocked workflow counts as where it resumes.
abbrev level : State → State → ℕ
level blocked r = reached r
level s r = reached s

level_step :
    (k : ℕ) {s t r : State}
    → Step s t r
    → level s r ≤ k
    → level t (next_resume s t s r) ≤ pass k s t
unfolding state_beq
level_step k discover h = ground arith
level_step k (block exploring) h = ground arith
level_step k (resume frozen e) h = ground (arith, ap reached e)
level_step k (resume examined e) h = ground (arith, ap reached e)
level_step k (resume approved e) h = ground (arith, ap reached e)
level_step k (abort (working exploring)) h = ground arith
level_step k (replan exploring) h = ground arith
level_step k (fail (working exploring)) h = ground arith
level_step k st h = ground arith

-- What an event that could be replayed has passed.
apply_event_lem :
    (c : Cursor) (e : Event) {c' : Cursor}
    → apply_event c e ≡ some c'
    → (e.from ≡ c.state)
      × (can_transition c.state e.to c.resume_target ≡ true)
      × (c'.state ≡ e.to)
      × (c'.resume_target ≡ next_resume c.state e.to c.state c.resume_target)
unfolding apply_event
apply_event_lem c e h = ground (arith, state_beq_iff e.from c.state)

event_level :
    (k : ℕ) (c : Cursor) (e : Event) {c' : Cursor}
    → apply_event c e ≡ some c'
    → level c.state c.resume_target ≤ k
    → level c'.state c'.resume_target ≤ pass k e.from e.to
event_level k c e h bound =
    let (from, legal, to, target) = apply_event_lem c e h in
    rw (to, target, from)
      (level_step k ((can_transition-iff-Step c.state e.to c.resume_target).0 legal) bound)

replay-level :
    (k : ℕ) (c : Cursor) (es : List Event) {c' : Cursor}
    → replay c es ≡ some c'
    → level c.state c.resume_target ≤ k
    → level c'.state c'.resume_target ≤ gates_passed k es
unfolding replay gates_passed
replay-level k c [] h bound =
    subst (λ c'. level c'.state c'.resume_target ≤ k) (some-injective _ _ h) bound
replay-level k c (e ∷ es) h bound = elim (Option-cases (apply_event c e)) [
  | inl stuck ↦ cc (rw stuck at h)
  | inr (c1, went) ↦
      replay-level (pass k e.from e.to) c1 es (rw went at h) (event_level k c e went bound)
]

-- A delivered workflow, in a store that was new, has been frozen, reviewed, receipted and delivered
-- in that order: its log passes all four gates.
pub delivered_passes_gates :
    (cs : List Call) (id : Text) (w : Workflow)
    → lookup id (run cs new_memory_store).workflows ≡ some w
    → w.state ≡ delivered
    → 4 ≤ gates_passed 0 (events_of id (run cs new_memory_store))
delivered_passes_gates cs id w found done =
    let fits : LogFits id (some w) (events_of id (run cs new_memory_store)) =
      rw found at (events_explain_workflows cs id) in
    let bound =
      replay-level 0 (starting fits.1.0) (events_of id (run cs new_memory_store)) fits.1.1
        (omega arith) in
    omega (arith, ap (λ s. level s w.resume_target) done)
