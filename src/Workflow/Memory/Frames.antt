-- ===== src/Workflow/Memory/Frames.antt =====
-- What each method of MemoryStore (internal/workflow/store.go) writes, and what it leaves alone.
use skilar.Prelude.{
  ℕ, ◌≡◌, ◌⊎◌, none, arith, Text, lookup, insert, ok, err, text_eq, is_empty, ◌==◌, ◌&&◌, nat_eq,
  Bool-cases, Option-cases, inl, inr,
}
use skilar.Workflow.Types.{
  created, state_eq, state_beq_iff, Workflow, Transition, Attempt, ResultEnvelope, Error, empty_id,
  already_exists, create_not_initial,
}
use skilar.Workflow.Memory.{
  MemoryStore, with_initial_state, create, transition, record_transition, register_attempt,
  supersede_attempt, accept_result, acquire_lease, heartbeat_lease,
}

-- `Create` refuses and writes nothing, or it stores a workflow of a new name at version zero.
pub create-cases :
    (w : Workflow) (s : MemoryStore)
    → ((e : Error) × (create w s ≡ (err e, s)))
      ⊎ ((lookup w.id s.workflows ≡ none)
          × (w.state_version ≡ 0)
          × ((with_initial_state w).state ≡ created)
          × (create w s ≡ (
            ok (with_initial_state w),
            record s { workflows = insert w.id (with_initial_state w) s.workflows },
          )))
unfolding create
create-cases w s = elim (Bool-cases (is_empty w.id)) [
  | inl e ↦ inl (empty_id, ground arith)
  | inr given ↦ elim (Option-cases (lookup w.id s.workflows)) [
    | inr (v, found) ↦ inl (already_exists, ground arith)
    | inl fresh ↦
        elim (Bool-cases ((with_initial_state w).state == created && w.state_version == 0)) [
          | inr bad ↦ inl (create_not_initial, ground arith)
          | inl good ↦ inr (
            fresh,
            ground arith,
            ground (arith, state_beq_iff (with_initial_state w).state created),
            ground arith,
          )
        ]
  ]
]

-- Two stores hold the same workflows, events and idempotency records.
pub record SameLog (s s' : MemoryStore) : Type 0 where
  pub workflows : s'.workflows ≡ s.workflows
  pub events : s'.events ≡ s.events
  pub idempotency : s'.idempotency ≡ s.idempotency

pub register_attempt-SameLog : (a : Attempt) (s : MemoryStore) → SameLog s (register_attempt a s).1
unfolding register_attempt
register_attempt-SameLog a s = ground arith

pub supersede_attempt-SameLog : (id : Text) (s : MemoryStore) → SameLog s (supersede_attempt id s).1
unfolding supersede_attempt
supersede_attempt-SameLog id s = ground arith

pub accept_result-SameLog : (r : ResultEnvelope) (s : MemoryStore) → SameLog s (accept_result r s).1
unfolding accept_result
accept_result-SameLog r s = ground arith

pub acquire_lease-SameLog :
    (r o t : Text) (now e : ℕ) (s : MemoryStore) → SameLog s (acquire_lease r o t now e s).1
unfolding acquire_lease
acquire_lease-SameLog r o t now e s = ground arith

pub heartbeat_lease-SameLog :
    (r o t : Text) (now e : ℕ) (s : MemoryStore) → SameLog s (heartbeat_lease r o t now e s).1
unfolding heartbeat_lease
heartbeat_lease-SameLog r o t now e s = ground arith

-- The methods that are not about leases leave the leases alone.
pub create-leases : (w : Workflow) (s : MemoryStore) → (create w s).1.leases ≡ s.leases
create-leases w s = elim (create-cases w s) [
  | inl (e, same) ↦ rw same
  | inr (fresh, version, state, stored) ↦ rw stored
]

pub transition-leases :
    (now : ℕ) (req : Transition) (s : MemoryStore) → (transition now req s).1.leases ≡ s.leases
unfolding transition record_transition
transition-leases now req s = ground arith

pub register_attempt-leases :
    (a : Attempt) (s : MemoryStore) → (register_attempt a s).1.leases ≡ s.leases
unfolding register_attempt
register_attempt-leases a s = ground arith

pub supersede_attempt-leases :
    (id : Text) (s : MemoryStore) → (supersede_attempt id s).1.leases ≡ s.leases
unfolding supersede_attempt
supersede_attempt-leases id s = ground arith

pub accept_result-leases :
    (r : ResultEnvelope) (s : MemoryStore) → (accept_result r s).1.leases ≡ s.leases
unfolding accept_result
accept_result-leases r s = ground arith

-- The methods that are not about attempts leave the attempts alone.
pub create-attempts : (w : Workflow) (s : MemoryStore) → (create w s).1.attempts ≡ s.attempts
create-attempts w s = elim (create-cases w s) [
  | inl (e, same) ↦ rw same
  | inr (fresh, version, state, stored) ↦ rw stored
]

pub transition-attempts :
    (now : ℕ) (req : Transition) (s : MemoryStore) → (transition now req s).1.attempts ≡ s.attempts
unfolding transition record_transition
transition-attempts now req s = ground arith

pub acquire_lease-attempts :
    (r o t : Text) (now e : ℕ) (s : MemoryStore)
    → (acquire_lease r o t now e s).1.attempts ≡ s.attempts
unfolding acquire_lease
acquire_lease-attempts r o t now e s = ground arith

pub heartbeat_lease-attempts :
    (r o t : Text) (now e : ℕ) (s : MemoryStore)
    → (heartbeat_lease r o t now e s).1.attempts ≡ s.attempts
unfolding heartbeat_lease
heartbeat_lease-attempts r o t now e s = ground arith
