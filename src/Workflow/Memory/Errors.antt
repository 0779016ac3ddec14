-- ===== src/Workflow/Memory/Errors.antt =====
-- A method of MemoryStore (internal/workflow/store.go) that returns an error has written nothing.
use skilar.Prelude.{
  ℕ, ◌≡◌, refl, Bool, true, false, arith, Text, ok, err, Result, text_eq, inl, inr,
}
use skilar.Workflow.Types.{Workflow, Transition, Attempt, ResultEnvelope, Error}
use skilar.Workflow.Memory
use skilar.Workflow.Memory.{MemoryStore}
use skilar.Workflow.Memory.Frames.{create-cases}
use skilar.Workflow.Memory.Steps.{Outcome, rejected, replayed, moved, transition-Outcome}
use skilar.Workflow.Memory.Calls.{Call, perform}

abbrev is_ok {ℓ} : {A : Type ℓ} → Result Error A → Bool
is_ok (ok a) = true
is_ok (err e) = false

-- Whether a call returns no error.
unfoldable pub succeeds : Call → MemoryStore → Bool
succeeds (Call.create w) s = is_ok (Memory.create w s).0
succeeds (Call.transition now req) s = is_ok (Memory.transition now req s).0
succeeds (Call.register_attempt a) s = is_ok (Memory.register_attempt a s).0
succeeds (Call.supersede_attempt id) s = is_ok (Memory.supersede_attempt id s).0
succeeds (Call.accept_result r) s = is_ok (Memory.accept_result r s).0
succeeds (Call.acquire_lease r o t now e) s = is_ok (Memory.acquire_lease r o t now e s).0
succeeds (Call.heartbeat_lease r o t now e) s = is_ok (Memory.heartbeat_lease r o t now e s).0

Outcome-failed :
    (now : ℕ) (req : Transition) (s : MemoryStore) {x : Result Error Workflow × MemoryStore}
    → Outcome now req s x
    → is_ok x.0 ≡ false
    → x.1 ≡ s
Outcome-failed now req s (rejected e) h = refl
Outcome-failed now req s (replayed p found same) h = refl
Outcome-failed now req s (moved w w' fresh found done) h = cc

create_failed :
    (w : Workflow) (s : MemoryStore)
    → is_ok (Memory.create w s).0 ≡ false
    → (Memory.create w s).1 ≡ s
create_failed w s h = elim (create-cases w s) [
  | inl (e, same) ↦ rw same
  | inr (fresh, version, state, stored) ↦ cc (rw stored at h)
]

register_attempt_failed :
    (a : Attempt) (s : MemoryStore)
    → is_ok (Memory.register_attempt a s).0 ≡ false
    → (Memory.register_attempt a s).1 ≡ s
unfolding Memory.register_attempt
register_attempt_failed a s h = ground arith

supersede_attempt_failed :
    (id : Text) (s : MemoryStore)
    → is_ok (Memory.supersede_attempt id s).0 ≡ false
    → (Memory.supersede_attempt id s).1 ≡ s
unfolding Memory.supersede_attempt
supersede_attempt_failed id s h = ground arith

accept_result_failed :
    (r : ResultEnvelope) (s : MemoryStore)
    → is_ok (Memory.accept_result r s).0 ≡ false
    → (Memory.accept_result r s).1 ≡ s
unfolding Memory.accept_result
accept_result_failed r s h = ground arith

acquire_lease_failed :
    (r o t : Text) (now e : ℕ) (s : MemoryStore)
    → is_ok (Memory.acquire_lease r o t now e s).0 ≡ false
    → (Memory.acquire_lease r o t now e s).1 ≡ s
unfolding Memory.acquire_lease
acquire_lease_failed r o t now e s h = ground arith

heartbeat_lease_failed :
    (r o t : Text) (now e : ℕ) (s : MemoryStore)
    → is_ok (Memory.heartbeat_lease r o t now e s).0 ≡ false
    → (Memory.heartbeat_lease r o t now e s).1 ≡ s
unfolding Memory.heartbeat_lease
heartbeat_lease_failed r o t now e s h = ground arith

-- A call of any of the methods that returns an error leaves the store as it was.
pub failed_call_changes_nothing :
    (c : Call) (s : MemoryStore) → succeeds c s ≡ false → perform c s ≡ s
unfolding perform succeeds
failed_call_changes_nothing (Call.create w) s h = create_failed w s h
failed_call_changes_nothing (Call.transition now req) s h =
    Outcome-failed now req s (transition-Outcome now req s) h
failed_call_changes_nothing (Call.register_attempt a) s h = register_attempt_failed a s h
failed_call_changes_nothing (Call.supersede_attempt id) s h = supersede_attempt_failed id s h
failed_call_changes_nothing (Call.accept_result r) s h = accept_result_failed r s h
failed_call_changes_nothing (Call.acquire_lease r o t now e) s h =
    acquire_lease_failed r o t now e s h
failed_call_changes_nothing (Call.heartbeat_lease r o t now e) s h =
    heartbeat_lease_failed r o t now e s h
