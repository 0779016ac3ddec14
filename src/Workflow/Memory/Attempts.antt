-- ===== src/Workflow/Memory/Attempts.antt =====
-- Attempts and their results in MemoryStore (internal/workflow/store.go): each attempt's result is
-- accepted at most once, and never after it was superseded.
use skilar.Prelude.{
  ◌≡◌, ◌↔◌, refl, ◌∙◌, true, false, List, [], ◌∷◌, Option, none, some, arith, ◌==◌, Text, lookup,
  lookup-insert, lookup-insert_self, insert, Map, ◌⊎◌, text_eq, text_beq_iff, ok, err, Bool-cases,
  Option-cases, inl, inr,
}
use skilar.Workflow.Types.{Attempt, Workflow, ResultEnvelope, stale_result, not_found}
use skilar.Workflow.Memory.{
  MemoryStore, new_memory_store, is_stale, not_registrable, register_attempt, supersede_attempt,
  accept_result,
}
use skilar.Workflow.Memory.Frames.{
  create-attempts, transition-attempts, acquire_lease-attempts, heartbeat_lease-attempts,
}
use skilar.Workflow.Memory.Calls.{Call, perform, run}

-- There is an attempt, and it takes no result any more.
abbrev pub IsRetired : Option Attempt → Type 0
IsRetired none = ⊥
IsRetired (some a) = a.live ≡ false

-- Every attempt is stored under its own name.
abbrev NamedAs : Text → Option Attempt → Type 0
NamedAs id none = Unit
NamedAs id (some a) = a.id ≡ id

abbrev retired : Attempt → Attempt
retired a = record a { live = false }

-- What each of the three methods does to the attempts: nothing, or one write.
register_attempt-cases :
    (a : Attempt) (s : MemoryStore)
    → ((register_attempt a s).1.attempts ≡ s.attempts)
      ⊎ ((lookup a.id s.attempts ≡ none)
          × ((register_attempt a s).1.attempts ≡ insert a.id (record a { live = true }) s.attempts))
unfolding register_attempt not_registrable
register_attempt-cases a s = elim (Option-cases (lookup a.id s.attempts)) [
  | inl fresh ↦ elim (Option-cases (lookup a.workflow_id s.workflows)) [
    | inl missing ↦ inl (ground arith)
    | inr (w, known) ↦ elim (Bool-cases (not_registrable a w)) [
      | inl refused ↦ inl (ground arith)
      | inr good ↦ inr (fresh, ground arith)
    ]
  ]
  | inr (old, found) ↦ inl (ground arith)
]

supersede_attempt-cases :
    (id : Text) (s : MemoryStore)
    → ((lookup id s.attempts ≡ none) × (supersede_attempt id s ≡ (err not_found, s)))
      ⊎ ((a : Attempt) × (lookup id s.attempts ≡ some a)
          × (supersede_attempt id s
              ≡ (ok tt, record s { attempts = insert id (retired a) s.attempts })))
unfolding supersede_attempt
supersede_attempt-cases id s = elim (Option-cases (lookup id s.attempts)) [
  | inl missing ↦ inl (missing, ground arith)
  | inr (a, found) ↦ inr (a, found, ground arith)
]

-- An accepted result was for an attempt that took results, on the basis that both the attempt and
-- its workflow have, and it retires the attempt.
pub record Accepted (r : ResultEnvelope) (s : MemoryStore) (a : Attempt) (w : Workflow)
    : Type 0 where
  pub found : lookup r.attempt_id s.attempts ≡ some a
  pub known : lookup r.workflow_id s.workflows ≡ some w
  pub live : a.live ≡ true
  pub same_workflow : a.workflow_id ≡ r.workflow_id
  pub same_node : a.node_id ≡ r.node_id
  pub same_basis : a.basis_tree ≡ r.base_candidate_oid
  pub current_basis : w.basis_tree ≡ r.base_candidate_oid
  pub first : lookup r.attempt_id s.results ≡ none
  pub written : accept_result r s ≡ (
    ok tt,
    record s { attempts = insert a.id (retired a) s.attempts; results = insert a.id r s.results },
  )

accept_result-cases :
    (r : ResultEnvelope) (s : MemoryStore)
    → (accept_result r s ≡ (err stale_result, s))
      ⊎ ((a : Attempt) × (w : Workflow) × Accepted r s a w)
unfolding accept_result is_stale
accept_result-cases r s = elim (Option-cases (lookup r.attempt_id s.attempts)) [
  | inl missing ↦ inl (ground arith)
  | inr (a, found) ↦ elim (Option-cases (lookup r.workflow_id s.workflows)) [
    | inl missing ↦ inl (ground arith)
    | inr (w, known) ↦ elim (Option-cases (lookup r.attempt_id s.results)) [
      | inr (old, again) ↦ inl (ground arith)
      | inl first ↦ elim (Bool-cases (is_stale a w r)) [
        | inl stale ↦ inl (ground arith)
        | inr good ↦ inr (
          a,
          w,
          ground (
            arith,
            text_beq_iff a.workflow_id r.workflow_id,
            text_beq_iff a.node_id r.node_id,
            text_beq_iff a.basis_tree r.base_candidate_oid,
            text_beq_iff w.basis_tree r.base_candidate_oid,
          ),
        )
      ]
    ]
  ]
]

-- What a result must meet to be accepted.
abbrev pub IsAcceptable : ResultEnvelope → MemoryStore → Type 0
IsAcceptable r s =
    (a : Attempt) × (w : Workflow) × (lookup r.attempt_id s.attempts ≡ some a)
    × (lookup r.workflow_id s.workflows ≡ some w)
    × (a.live ≡ true)
    × (a.workflow_id ≡ r.workflow_id)
    × (a.node_id ≡ r.node_id)
    × (a.basis_tree ≡ r.base_candidate_oid)
    × (w.basis_tree ≡ r.base_candidate_oid)
    × (lookup r.attempt_id s.results ≡ none)

accept_result_accepts :
    (r : ResultEnvelope) (s : MemoryStore) → IsAcceptable r s → (accept_result r s).0 ≡ ok tt
unfolding accept_result is_stale
accept_result_accepts r s (a, w, found, known, live, workflow, node, basis, current, first) =
    ground (
      arith,
      text_beq_iff a.workflow_id r.workflow_id,
      text_beq_iff a.node_id r.node_id,
      text_beq_iff a.basis_tree r.base_candidate_oid,
      text_beq_iff w.basis_tree r.base_candidate_oid,
    )

accept_result_refused :
    (r : ResultEnvelope) (s : MemoryStore)
    → IsRetired (lookup r.attempt_id s.attempts)
    → accept_result r s ≡ (err stale_result, s)
accept_result_refused r s gone = elim (accept_result-cases r s) [
  | inl refused ↦ refused
  | inr (a, w, accepted) ↦
      let dead : a.live ≡ false = rw accepted.found at gone in cc (dead, accepted.live)
]

IsRetired-insert :
    (id k : Text) (a : Attempt) (m : Map Text Attempt)
    → IsRetired (lookup id m)
    → IsRetired (lookup id (insert k (retired a) m))
IsRetired-insert id k a m gone =
    rw (lookup-insert k id (retired a) m)
      (elim (Bool-cases (k == id)) [ inl same ↦ rw same refl | inr other ↦ rw other gone ])

perform-IsRetired :
    (id : Text) (c : Call) (s : MemoryStore)
    → IsRetired (lookup id s.attempts)
    → IsRetired (lookup id (perform c s).attempts)
unfolding perform
perform-IsRetired id (Call.create w) s gone = rw (create-attempts w s) gone
perform-IsRetired id (Call.transition now req) s gone = rw (transition-attempts now req s) gone
perform-IsRetired id (Call.register_attempt a) s gone = elim (register_attempt-cases a s) [
  | inl same ↦ rw same gone
  | inr (fresh, written) ↦
      rw (written, lookup-insert a.id id (record a { live = true }) s.attempts)
        (elim (Bool-cases (a.id == id)) [
          | inl same ↦ absurd (rw (← (text_beq_iff a.id id).0 same, fresh) at gone)
          | inr other ↦ rw other gone
        ])
]
perform-IsRetired id (Call.supersede_attempt k) s gone = elim (supersede_attempt-cases k s) [
  | inl (missing, same) ↦ rw (same, perform) gone
  | inr (a, found, written) ↦ rw (written, perform) (IsRetired-insert id k a s.attempts gone)
]
perform-IsRetired id (Call.accept_result r) s gone = elim (accept_result-cases r s) [
  | inl same ↦ rw (same, perform) gone
  | inr (a, w, accepted) ↦
      rw (accepted.written, perform) (IsRetired-insert id a.id a s.attempts gone)
]
perform-IsRetired id (Call.acquire_lease r o t now e) s gone =
    rw (acquire_lease-attempts r o t now e s) gone
perform-IsRetired id (Call.heartbeat_lease r o t now e) s gone =
    rw (heartbeat_lease-attempts r o t now e s) gone

run-IsRetired :
    (id : Text) (cs : List Call) (s : MemoryStore)
    → IsRetired (lookup id s.attempts)
    → IsRetired (lookup id (run cs s).attempts)
unfolding run
run-IsRetired id [] s gone = gone
run-IsRetired id (c ∷ cs) s gone = run-IsRetired id cs (perform c s) (perform-IsRetired id c s gone)

-- After an attempt was superseded, and any calls after that, its results are refused and change
-- nothing.
pub superseded_never_accepted :
    (id : Text) (s : MemoryStore) (cs : List Call) (r : ResultEnvelope)
    → (supersede_attempt id s).0 ≡ ok tt
    → r.attempt_id ≡ id
    → let s' = run cs (supersede_attempt id s).1 in accept_result r s' ≡ (err stale_result, s')
superseded_never_accepted id s cs r h same =
    accept_result_refused r (run cs (supersede_attempt id s).1) (
      rw same (
        run-IsRetired id cs (supersede_attempt id s).1 (elim (supersede_attempt-cases id s) [
          | inl (missing, refused) ↦ cc (rw refused at h)
          | inr (a, found, written) ↦
              rw (written, lookup-insert_self id (retired a) s.attempts) refl
        ])))

abbrev IsNamed : MemoryStore → Type 0
IsNamed s = (id : Text) → NamedAs id (lookup id s.attempts)

IsNamed-insert :
    (k : Text) (a : Attempt) (s : MemoryStore) (id : Text)
    → a.id ≡ k
    → IsNamed s
    → NamedAs id (lookup id (insert k a s.attempts))
IsNamed-insert k a s id own named =
    rw (lookup-insert k id a s.attempts) (elim (Bool-cases (k == id)) [
      | inl same ↦ rw same (own ∙ (text_beq_iff k id).0 same)
      | inr other ↦ rw other (named id)
    ])

perform-IsNamed : (c : Call) (s : MemoryStore) → IsNamed s → IsNamed (perform c s)
unfolding perform
perform-IsNamed (Call.create w) s named id = rw (create-attempts w s) (named id)
perform-IsNamed (Call.transition now req) s named id = rw (transition-attempts now req s) (named id)
perform-IsNamed (Call.register_attempt a) s named id = elim (register_attempt-cases a s) [
  | inl same ↦ rw same (named id)
  | inr (fresh, written) ↦
      rw written (IsNamed-insert a.id (record a { live = true }) s id refl named)
]
perform-IsNamed (Call.supersede_attempt k) s named id = elim (supersede_attempt-cases k s) [
  | inl (missing, same) ↦ rw (same, perform) (named id)
  | inr (a, found, written) ↦
      let own : NamedAs k (some a) = rw found at (named k) in
      rw (written, perform) (IsNamed-insert k (retired a) s id own named)
]
perform-IsNamed (Call.accept_result r) s named id = elim (accept_result-cases r s) [
  | inl same ↦ rw (same, perform) (named id)
  | inr (a, w, accepted) ↦
      rw (accepted.written, perform) (IsNamed-insert a.id (retired a) s id refl named)
]
perform-IsNamed (Call.acquire_lease r o t now e) s named id =
    rw (acquire_lease-attempts r o t now e s) (named id)
perform-IsNamed (Call.heartbeat_lease r o t now e) s named id =
    rw (heartbeat_lease-attempts r o t now e s) (named id)

run-IsNamed : (cs : List Call) (s : MemoryStore) → IsNamed s → IsNamed (run cs s)
unfolding run
run-IsNamed [] s named = named
run-IsNamed (c ∷ cs) s named = run-IsNamed cs (perform c s) (perform-IsNamed c s named)

new-IsNamed : IsNamed new_memory_store
unfolding new_memory_store lookup
new-IsNamed id = tt

-- In a store that was new, once a result of an attempt was accepted, every later result of the same
-- attempt is refused, whatever calls come between, and changes nothing.
pub result_accepted_once :
    (before after : List Call) (r r' : ResultEnvelope)
    → (accept_result r (run before new_memory_store)).0 ≡ ok tt
    → r'.attempt_id ≡ r.attempt_id
    → let s' = run after (accept_result r (run before new_memory_store)).1 in
      accept_result r' s' ≡ (err stale_result, s')
result_accepted_once before after r r' h same =
    let s = run before new_memory_store in
    let named = run-IsNamed before new_memory_store new-IsNamed in
    accept_result_refused r' (run after (accept_result r s).1) (
      rw same (
        run-IsRetired r.attempt_id after (accept_result r s).1 (elim (accept_result-cases r s) [
          | inl refused ↦ cc (rw refused at h)
          | inr (a, w, accepted) ↦
              let own : NamedAs r.attempt_id (some a) = rw accepted.found at (named r.attempt_id) in
              rw (accepted.written, own) (rw lookup-insert_self refl)
        ])))

-- A result is accepted exactly when its attempt is live and was given the same node, both the attempt
-- and the workflow are on the tree that the result was made for, and no result of the attempt is
-- stored.
pub accept_result_iff :
    (r : ResultEnvelope) (s : MemoryStore) → ((accept_result r s).0 ≡ ok tt) ↔ IsAcceptable r s
accept_result_iff r s = (
  λ h. elim (accept_result-cases r s) [
    | inl refused ↦ cc (rw refused at h)
    | inr (a, w, accepted) ↦ (
      a, w, accepted.found, accepted.known, accepted.live, accepted.same_workflow,
      accepted.same_node, accepted.same_basis, accepted.current_basis, accepted.first,
    )
  ],
  accept_result_accepts r s,
)
