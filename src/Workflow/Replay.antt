-- ===== src/Workflow/Replay.antt =====
-- An independent reading of the audit log that the stores of internal/workflow keep: events are
-- replayed one after the other from the state in which a workflow is created.
use skilar.Prelude.{
  Option-cases, inl, inr, ℕ, ◌+◌, ◌≡◌, ◌&&◌, List, [], ◌∷◌, ◌++◌, Option, none, some, arith, ◌==◌,
  if◌then◌else◌, u64, nat_eq,
}
use skilar.Workflow.Types.{State, state_eq, Workflow, Event}
use skilar.Workflow.Machine.{can_transition}
use skilar.Workflow.Requests.{next_resume}

-- What the log determines of a workflow.
pub record Cursor : Type 0 where
  pub state : State
  pub resume_target : State
  pub state_version : ℕ

abbrev pub cursor : Workflow → Cursor
cursor w = record {
  state = w.state;
  resume_target = w.resume_target;
  state_version = w.state_version;
}

-- One event: it must start where the log stands, be legal there, and carry the next version. A
-- blocked workflow resumes at the state that it was blocked in.
unfoldable pub apply_event : Cursor → Event → Option Cursor
apply_event c e =
    if e.from == c.state
      && can_transition c.state e.to c.resume_target
      && e.state_version == u64 (c.state_version + 1)
    then some (record {
      state = e.to;
      resume_target = next_resume c.state e.to c.state c.resume_target;
      state_version = e.state_version;
    })
    else none

abbrev and_then {ℓ κ} : {A : Type ℓ} {B : Type κ} → Option A → (A → Option B) → Option B
and_then none f = none
and_then (some a) f = f a

unfoldable pub replay : Cursor → List Event → Option Cursor
replay c [] = some c
replay c (e ∷ es) = and_then (apply_event c e) (λ c'. replay c' es)

pub replay-snoc :
    (c : Cursor) (es : List Event) (e : Event) {c' c'' : Cursor}
    → replay c es ≡ some c'
    → apply_event c' e ≡ some c''
    → replay c (es ++ e ∷ []) ≡ some c''
unfolding replay
replay-snoc c [] e h k = ground arith
replay-snoc c (x ∷ es) e h k = elim (Option-cases (apply_event c x)) [
  | inl stuck ↦ cc (rw stuck at h)
  | inr (c1, went) ↦ rw went (replay-snoc c1 es e (rw went at h) k)
]
