-- ===== src/Workflow/Memory/Idempotency.antt =====
-- Idempotency keys and versions in `MemoryStore.Transition` (internal/workflow/store.go).
use skilar.Prelude.{
  ℕ, ◌≡◌, ◌≢◌, refl, sym, ap, ◌∙◌, false, List, [], ◌∷◌, Option, some, arith, ◌==◌, Text, lookup,
  lookup-insert, lookup-insert_self, if◌then◌else◌, nat_eq, text_eq, text_beq_iff, ok, err, Result,
  Bool-cases, inl, inr, is_empty,
}
use skilar.Workflow.Types.{Workflow, Transition, Error, state_eq, idempotency_reuse}
use skilar.Workflow.Requests.{same_transition}
use skilar.Workflow.Requests.Laws.{same_transition_iff}
use skilar.Workflow.Memory.{
  MemoryStore, TransitionRecord, idem_key, record_transition, transition, create,
}
use skilar.Workflow.Memory.Frames.{
  create-cases, register_attempt-SameLog, supersede_attempt-SameLog, accept_result-SameLog,
  acquire_lease-SameLog, heartbeat_lease-SameLog,
}
use skilar.Workflow.Memory.Calls.{Call, perform, run}
use skilar.Workflow.Memory.Steps.{Outcome, rejected, replayed, moved, transition-Outcome}

abbrev record_at : Text → MemoryStore → Option TransitionRecord
record_at k s = lookup k s.idempotency

module _ (k : Text) (p : TransitionRecord) where
  Outcome-keeps_record :
      (now : ℕ) (req : Transition) (s : MemoryStore) {x : Result Error Workflow × MemoryStore}
      → Outcome now req s x
      → record_at k s ≡ some p
      → record_at k x.1 ≡ some p
  unfolding record_transition
  Outcome-keeps_record now req s (rejected e) h = h
  Outcome-keeps_record now req s (replayed q found same) h = h
  Outcome-keeps_record now req s (moved w w' fresh found done) h =
      let key = idem_key req.workflow_id req.idempotency_key in
      rw (lookup-insert key k (record { request = req; result = w' }) s.idempotency)
        (elim (Bool-cases (key == k)) [
          | inl e ↦ cc (sym fresh ∙ ap (λ j. record_at j s) ((text_beq_iff key k).0 e) ∙ h)
          | inr n ↦ rw n h
        ])

  create-keeps_record :
      (w : Workflow) (s : MemoryStore)
      → record_at k s ≡ some p
      → record_at k (create w s).1 ≡ some p
  create-keeps_record w s h = elim (create-cases w s) [
    | inl (e, same) ↦ rw same h
    | inr (fresh, version, state, stored) ↦ rw stored h
  ]

  perform-keeps_record :
      (c : Call) (s : MemoryStore) → record_at k s ≡ some p → record_at k (perform c s) ≡ some p
  unfolding perform
  perform-keeps_record (Call.create w) s h = create-keeps_record w s h
  perform-keeps_record (Call.transition now req) s h =
      Outcome-keeps_record now req s (transition-Outcome now req s) h
  perform-keeps_record (Call.register_attempt a) s h =
      rw (register_attempt-SameLog a s).idempotency h
  perform-keeps_record (Call.supersede_attempt id) s h =
      rw (supersede_attempt-SameLog id s).idempotency h
  perform-keeps_record (Call.accept_result r) s h = rw (accept_result-SameLog r s).idempotency h
  perform-keeps_record (Call.acquire_lease r o t now e) s h =
      rw (acquire_lease-SameLog r o t now e s).idempotency h
  perform-keeps_record (Call.heartbeat_lease r o t now e) s h =
      rw (heartbeat_lease-SameLog r o t now e s).idempotency h

  run-keeps_record :
      (cs : List Call) (s : MemoryStore) → record_at k s ≡ some p → record_at k (run cs s) ≡ some p
  unfolding run
  run-keeps_record [] s h = h
  run-keeps_record (c ∷ cs) s h = run-keeps_record cs (perform c s) (perform-keeps_record c s h)

-- After a call that succeeded, the request and its result stand in the store under its key.
Outcome-recorded :
    (now : ℕ) (req : Transition) (s : MemoryStore) {x : Result Error Workflow × MemoryStore}
    {w : Workflow}
    → Outcome now req s x
    → x.0 ≡ ok w
    → record_at (idem_key req.workflow_id req.idempotency_key) x.1
      ≡ some (record { request = req; result = w })
unfolding record_transition
Outcome-recorded now req s (rejected e) h = cc
Outcome-recorded now req s (replayed p found same) h =
    cc (found, (same_transition_iff p.request req).0 same)
Outcome-recorded now req s (moved w0 w' fresh found done) h = cc (
    lookup-insert_self (idem_key req.workflow_id req.idempotency_key)
      (record { request = req; result = w' }) s.idempotency)

ok_has_key :
    (now : ℕ) (req : Transition) (s : MemoryStore) (w : Workflow)
    → (transition now req s).0 ≡ ok w
    → is_empty req.idempotency_key ≡ false
unfolding transition
ok_has_key now req s w h = elim (Bool-cases (is_empty req.idempotency_key)) [
  | inl empty ↦ cc (rw empty at h)
  | inr given ↦ given
]

-- What `Transition` answers when the key has been used.
transition-recorded :
    (now : ℕ) (req : Transition) (s : MemoryStore) (p : TransitionRecord)
    → is_empty req.idempotency_key ≡ false
    → record_at (idem_key req.workflow_id req.idempotency_key) s ≡ some p
    → transition now req s
      ≡ (if same_transition p.request req then (ok p.result, s) else (err idempotency_reuse, s))
unfolding transition
transition-recorded now req s p given found = rw (given, found) (ground arith)

-- After a transition that succeeded, and any calls after it, the same request is answered with the
-- same workflow, and the store does not change.
pub retry_returns_result :
    (now later : ℕ) (req : Transition) (s : MemoryStore) (w : Workflow) (cs : List Call)
    → (transition now req s).0 ≡ ok w
    → let s' = run cs (transition now req s).1 in transition later req s' ≡ (ok w, s')
retry_returns_result now later req s w cs h =
    let s' = run cs (transition now req s).1 in
    let kept =
      run-keeps_record (idem_key req.workflow_id req.idempotency_key)
        (record { request = req; result = w }) cs (transition now req s).1
        (Outcome-recorded now req s (transition-Outcome now req s) h) in
    rw
      (transition-recorded later req s' (record { request = req; result = w })
        (ok_has_key now req s w h) kept)
      (rw ((same_transition_iff req req).1 refl) refl)

-- After a transition that succeeded, and any calls after it, another request under the same key is
-- refused as a reuse, and the store does not change.
pub reuse_refused :
    (now later : ℕ) (req req' : Transition) (s : MemoryStore) (w : Workflow) (cs : List Call)
    → (transition now req s).0 ≡ ok w
    → req'.workflow_id ≡ req.workflow_id
    → req'.idempotency_key ≡ req.idempotency_key
    → req' ≢ req
    → let s' = run cs (transition now req s).1 in
      transition later req' s' ≡ (err idempotency_reuse, s')
reuse_refused now later req req' s w cs h same_id same_key other =
    let s' = run cs (transition now req s).1 in
    let kept =
      run-keeps_record (idem_key req.workflow_id req.idempotency_key)
        (record { request = req; result = w }) cs (transition now req s).1
        (Outcome-recorded now req s (transition-Outcome now req s) h) in
    rw
      (transition-recorded later req' s' (record { request = req; result = w })
        (rw same_key (ok_has_key now req s w h)) (rw (same_id, same_key) kept))
      (elim (Bool-cases (same_transition req req')) [
        | inl same ↦ absurd (other (sym ((same_transition_iff req req').0 same)))
        | inr differ ↦ rw differ
      ])
