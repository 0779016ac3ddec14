-- ===== src/Workflow/Memory/Steps.antt =====
-- What a call of `Transition` on MemoryStore (internal/workflow/store.go) can come to.
use skilar.Prelude.{
  ℕ, ◌≡◌, refl, inl, inr, true, Option, none, some, is_empty, lookup, text_eq, Result, ok, err,
  Bool-cases,
}
use skilar.Workflow.Types.{
  Workflow, Transition, Error, not_found, idempotency_reuse, empty_idempotency_key,
}
use skilar.Workflow.Requests.{same_transition, advance}
use skilar.Workflow.Memory.{
  MemoryStore, TransitionRecord, idem_key, asked_resume, record_transition, transition,
  store_transition, transition_found, transition_known,
}

-- What a call of `Transition` can come to.
pub data Outcome (now : ℕ) (req : Transition) (s : MemoryStore)
    : Result Error Workflow × MemoryStore → Type 0 where
  rejected : (e : Error) → Outcome now req s (err e, s)
  replayed :
      (p : TransitionRecord)
      → lookup (idem_key req.workflow_id req.idempotency_key) s.idempotency ≡ some p
      → same_transition p.request req ≡ true
      → Outcome now req s (ok p.result, s)
  moved :
      (w w' : Workflow)
      → lookup (idem_key req.workflow_id req.idempotency_key) s.idempotency ≡ none
      → lookup req.workflow_id s.workflows ≡ some w
      → advance (asked_resume w req) w req ≡ ok w'
      → Outcome now req s (ok w', record_transition now req w.state w' s)

module _ (now : ℕ) (req : Transition) (s : MemoryStore) where
  store_transition-Outcome :
      (w : Workflow) (r : Result Error Workflow)
      → lookup (idem_key req.workflow_id req.idempotency_key) s.idempotency ≡ none
      → lookup req.workflow_id s.workflows ≡ some w
      → advance (asked_resume w req) w req ≡ r
      → Outcome now req s (store_transition now req w.state r s)
  unfolding store_transition
  store_transition-Outcome w (err e) fresh found done = rejected e
  store_transition-Outcome w (ok w') fresh found done = moved w w' fresh found done

  transition_found-Outcome :
      (o : Option Workflow)
      → lookup (idem_key req.workflow_id req.idempotency_key) s.idempotency ≡ none
      → lookup req.workflow_id s.workflows ≡ o
      → Outcome now req s (transition_found now req o s)
  unfolding transition_found
  transition_found-Outcome none fresh found = rejected not_found
  transition_found-Outcome (some w) fresh found = store_transition-Outcome w _ fresh found refl

  transition_known-Outcome :
      (o : Option TransitionRecord)
      → lookup (idem_key req.workflow_id req.idempotency_key) s.idempotency ≡ o
      → Outcome now req s (transition_known now req o s)
  unfolding transition_known
  transition_known-Outcome none found = transition_found-Outcome _ found refl
  transition_known-Outcome (some p) found = elim (Bool-cases (same_transition p.request req)) [
    | inl same ↦ rw same (replayed p found same)
    | inr other ↦ rw other (rejected idempotency_reuse)
  ]

  -- Every call comes to one of these outcomes.
  pub transition-Outcome : Outcome now req s (transition now req s)
  unfolding transition
  transition-Outcome = elim (Bool-cases (is_empty req.idempotency_key)) [
    | inl empty ↦ rw empty (rejected empty_idempotency_key)
    | inr given ↦ rw given (transition_known-Outcome _ refl)
  ]
