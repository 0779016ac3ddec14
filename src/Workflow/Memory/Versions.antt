-- ===== src/Workflow/Memory/Versions.antt =====
-- Compare-and-swap on the version in `MemoryStore.Transition` (internal/workflow/store.go).
use skilar.Prelude.{
  ℕ, ◌+◌, ◌≡◌, ◌≢◌, refl, sym, ap, ◌∙◌, false, List, none, some, arith, lookup, lookup-insert_self,
  u64, nat_eq, text_eq, ok, err, Result, is_empty,
}
use skilar.Workflow.Types.{State, Workflow, Transition, Error, state_eq, cas_conflict}
use skilar.Workflow.Requests.{advance}
use skilar.Workflow.Requests.Laws.{advance-Advanced}
use skilar.Workflow.Memory.{
  MemoryStore, new_memory_store, idem_key, asked_resume, record_transition, transition,
}
use skilar.Workflow.Memory.Calls.{Call, run}
use skilar.Workflow.Memory.History.{IsLogged, run-IsLogged, new-IsLogged, LogFits}
use skilar.Workflow.Memory.Steps.{Outcome, rejected, replayed, moved, transition-Outcome}

-- A request made for another version is refused.
pub advance_stale :
    (r : State) (w : Workflow) (req : Transition)
    → w.state_version ≢ req.expected_version
    → advance r w req ≡ err cas_conflict
unfolding advance
advance_stale r w req h = ground arith

module _ (now : ℕ) (req : Transition) (s : MemoryStore) (logged : IsLogged s) where
  -- A new transition leaves its workflow at the version after the expected one.
  Outcome-version :
      {x : Result Error Workflow × MemoryStore} {w : Workflow}
      → Outcome now req s x
      → lookup (idem_key req.workflow_id req.idempotency_key) s.idempotency ≡ none
      → x.0 ≡ ok w
      → (lookup req.workflow_id x.1.workflows ≡ some w)
        × (w.state_version ≡ u64 (req.expected_version + 1))
  unfolding record_transition
  Outcome-version (rejected e) fresh h = cc
  Outcome-version (replayed p found same) fresh h = cc
  Outcome-version (moved w0 w' fresh' found done) fresh h =
      let a = advance-Advanced (asked_resume w0 req) w0 req done in
      let here : LogFits req.workflow_id (some w0) _ = rw found at (logged req.workflow_id) in
      let same_id : w'.id ≡ req.workflow_id = ap (λ v. v.id) a.new_workflow ∙ here.0 in
      (
        cc (lookup-insert_self w'.id w' s.workflows, same_id),
        cc (ap (λ v. v.state_version) a.new_workflow, a.same_version),
      )

not-u64_self : (v : ℕ) → u64 (v + 1) ≢ v
not-u64_self v = omega arith

-- A request with an unused key, for another version than the stored one.
transition_fresh :
    (now : ℕ) (req : Transition) (s : MemoryStore) (w : Workflow)
    → is_empty req.idempotency_key ≡ false
    → lookup (idem_key req.workflow_id req.idempotency_key) s.idempotency ≡ none
    → lookup req.workflow_id s.workflows ≡ some w
    → w.state_version ≢ req.expected_version
    → transition now req s ≡ (err cas_conflict, s)
unfolding transition
transition_fresh now req s w given fresh found stale =
    rw (given, fresh, found) (rw (advance_stale (asked_resume w req) w req stale) refl)

-- Of two requests for one version of a workflow at most one succeeds: after a new transition that
-- succeeded, a request with an unused key for the same version is refused as a conflict, and the
-- store does not change.
pub second_writer_refused :
    (cs : List Call) (now later : ℕ) (req req' : Transition) (w : Workflow)
    → lookup (idem_key req.workflow_id req.idempotency_key) (run cs new_memory_store).idempotency
      ≡ none
    → (transition now req (run cs new_memory_store)).0 ≡ ok w
    → req'.workflow_id ≡ req.workflow_id
    → req'.expected_version ≡ req.expected_version
    → is_empty req'.idempotency_key ≡ false
    → let s' = (transition now req (run cs new_memory_store)).1 in
      lookup (idem_key req'.workflow_id req'.idempotency_key) s'.idempotency ≡ none
      → transition later req' s' ≡ (err cas_conflict, s')
second_writer_refused cs now later req req' w fresh h same_id same_version given fresh' =
    let s = run cs new_memory_store in
    let s' = (transition now req s).1 in
    let (found, version) =
      Outcome-version now req s (run-IsLogged cs new_memory_store new-IsLogged)
        (transition-Outcome now req s) fresh h in
    transition_fresh later req' s' w given fresh' (rw same_id found)
      (λ same. not-u64_self req.expected_version (sym version ∙ same ∙ same_version))
