-- ===== src/Workflow/Memory.antt =====
-- MemoryStore of internal/workflow/store.go: its maps as a record, its methods as actions. The
-- mutex makes each method one step. Go copies what it stores and returns, so values serve.
pub mod Frames
pub mod Keys
pub mod Steps
pub mod Calls
pub mod History
pub mod Idempotency
pub mod Versions
pub mod Leases
pub mod Attempts
pub mod Errors
use skilar.Prelude.{
  ℕ, ◌+◌, ◌++◌, Bool, true, false, not, ◌||◌, List, [], ◌∷◌, Option, none, some, Text, ◌==◌,
  is_empty, if◌then◌else◌, Map, lookup, insert, Result, ok, err, Action, pure, fail, gets, modify,
  fail_if, or_fail, ◌>>=◌, ◌>>◌, u64, ltb, nat_eq, text_eq,
}
use skilar.Workflow.Types.{
  State, created, blocked, unset, state_eq, Workflow, Transition, Event, Attempt, ResultEnvelope,
  Lease, Error, not_found, already_exists, idempotency_reuse, stale_result, lease_conflict,
  empty_id, create_not_initial, empty_idempotency_key,
}
use skilar.Workflow.Requests.{same_transition, advance}

pub record TransitionRecord : Type 0 where
  pub request : Transition
  pub result : Workflow

pub record MemoryStore : Type 0 where
  pub workflows : Map Text Workflow
  pub events : Map Text (List Event)
  pub idempotency : Map Text TransitionRecord
  pub attempts : Map Text Attempt
  pub results : Map Text ResultEnvelope
  pub sequence : ℕ  -- uint64
  pub leases : Map Text Lease

unfoldable pub new_memory_store : MemoryStore
new_memory_store = record {
  workflows = [];
  events = [];
  idempotency = [];
  attempts = [];
  results = [];
  sequence = 0;
  leases = [];
}

abbrev pub Method : Type 0 → Type 0
Method A = Action MemoryStore Error A

-- `current.ExpiresAt.After(now)`
abbrev pub is_current : Lease → ℕ → Bool
is_current l now = ltb now l.expires_at

abbrev pub is_taken : Option Lease → ℕ → Bool
is_taken none now = false
is_taken (some l) now = is_current l now

unfoldable pub acquire_lease : Text → Text → Text → ℕ → ℕ → Method Lease
acquire_lease resource owner token now expires_at = do
  fail_if (is_empty resource || is_empty owner || is_empty token || not (ltb now expires_at))
      lease_conflict
  fail_if (is_taken (← gets (λ s. lookup resource s.leases)) now) lease_conflict
  let lease : Lease = record {
    resource = resource;
    owner = owner;
    fencing_token = token;
    expires_at = expires_at;
  }
  modify (λ s. record s { leases = insert resource lease s.leases })
  pure lease

unfoldable pub heartbeat_lease : Text → Text → Text → ℕ → ℕ → Method Lease
heartbeat_lease resource owner token now expires_at = do
  current ← or_fail (← gets (λ s. lookup resource s.leases)) lease_conflict
  fail_if
      (not (current.owner == owner)
        || not (current.fencing_token == token)
        || not (is_current current now)
        || not (ltb now expires_at))
      lease_conflict
  let lease = record current { expires_at = expires_at }
  modify (λ s. record s { leases = insert resource lease s.leases })
  pure lease

abbrev pub is_some {ℓ} : {A : Type ℓ} → Option A → Bool
is_some none = false
is_some (some _) = true

abbrev pub with_initial_state : Workflow → Workflow
with_initial_state w = record w { state = if w.state == unset then created else w.state }

unfoldable pub create : Workflow → Method Workflow
create given = do
  fail_if (is_empty given.id) empty_id
  fail_if (is_some (← gets (λ s. lookup given.id s.workflows))) already_exists
  let w = with_initial_state given
  fail_if (not (w.state == created) || not (w.state_version == 0)) create_not_initial
  modify (λ s. record s { workflows = insert w.id w s.workflows })
  pure w

unfoldable pub get : Text → Method Workflow
get id = do or_fail (← gets (λ s. lookup id s.workflows)) not_found

-- `req.WorkflowID + "\x00" + req.IdempotencyKey`
unfoldable pub idem_key : Text → Text → Text
idem_key workflow_id key = workflow_id ++ (0 ∷ key)

abbrev pub events_of : Text → MemoryStore → List Event
events_of id s = elim (lookup id s.events) [ none ↦ [] | some es ↦ es ]

-- The writes of an admitted transition from the state `from` to the workflow `w`.
unfoldable pub record_transition : ℕ → Transition → State → Workflow → MemoryStore → MemoryStore
record_transition now req from w s =
    let sequence' = u64 (s.sequence + 1) in
    let event : Event = record {
      sequence = sequence';
      workflow_id = w.id;
      from = from;
      to = w.state;
      state_version = w.state_version;
      idempotency_key = req.idempotency_key;
      artifact_ids = req.artifact_ids;
      occurred_at = now;
    } in
    record s {
      sequence = sequence';
      workflows = insert w.id w s.workflows;
      events = insert w.id (events_of w.id s ++ (event ∷ [])) s.events;
      idempotency =
          insert (idem_key req.workflow_id req.idempotency_key)
            (record { request = req; result = w }) s.idempotency;
    }

-- The target that `CanTransition` is asked about.
abbrev pub asked_resume : Workflow → Transition → State
asked_resume w req = if w.state == blocked then w.resume_target else req.resume_target

-- The end of `Transition`, on what became of the request.
unfoldable pub store_transition : ℕ → Transition → State → Result Error Workflow → Method Workflow
store_transition now req from (err e) = fail e
store_transition now req from (ok w) = modify (record_transition now req from w) >> pure w

-- `Transition` on the workflow that it has found.
unfoldable pub transition_found : ℕ → Transition → Option Workflow → Method Workflow
unfolding store_transition
transition_found now req none = fail not_found
transition_found now req (some w) =
    store_transition now req w.state (advance (asked_resume w req) w req)

-- `Transition` on the record that it has found under the idempotency key: a key that was used before
-- answers with the recorded result.
unfoldable pub transition_known : ℕ → Transition → Option TransitionRecord → Method Workflow
unfolding transition_found
transition_known now req (some previous) =
    if same_transition previous.request req then pure previous.result else fail idempotency_reuse
transition_known now req none = λ s. transition_found now req (lookup req.workflow_id s.workflows) s

unfoldable pub transition : ℕ → Transition → Method Workflow
unfolding transition_known
transition now req = do
  fail_if (is_empty req.idempotency_key) empty_idempotency_key
  previous ← gets (λ s. lookup (idem_key req.workflow_id req.idempotency_key) s.idempotency)
  transition_known now req previous

unfoldable pub events : Text → Method (List Event)
events id = do known ← or_fail (← gets (λ s. lookup id s.workflows)) not_found; gets (events_of id)

-- Whether an attempt lacks a name, or does not start from the tree of its workflow.
unfoldable pub not_registrable : Attempt → Workflow → Bool
not_registrable a w =
    is_empty a.id
    || is_empty a.node_id
    || is_empty a.basis_tree
    || not (a.basis_tree == w.basis_tree)

unfoldable pub register_attempt : Attempt → Method (Unit {0})
register_attempt a = do
  w ← or_fail (← gets (λ s. lookup a.workflow_id s.workflows)) not_found
  fail_if (not_registrable a w) stale_result
  fail_if (is_some (← gets (λ s. lookup a.id s.attempts))) already_exists
  modify (λ s. record s { attempts = insert a.id (record a { live = true }) s.attempts })

unfoldable pub supersede_attempt : Text → Method (Unit {0})
supersede_attempt id = do
  a ← or_fail (← gets (λ s. lookup id s.attempts)) not_found
  modify (λ s. record s { attempts = insert id (record a { live = false }) s.attempts })

-- Whether the result is for this attempt, on the tree that both were given.
unfoldable pub is_stale : Attempt → Workflow → ResultEnvelope → Bool
is_stale a w r =
    not a.live
    || not (a.workflow_id == r.workflow_id)
    || not (a.node_id == r.node_id)
    || not (a.basis_tree == r.base_candidate_oid)
    || not (w.basis_tree == r.base_candidate_oid)

unfoldable pub accept_result : ResultEnvelope → Method (Unit {0})
accept_result r = do
  a ← or_fail (← gets (λ s. lookup r.attempt_id s.attempts)) stale_result
  w ← or_fail (← gets (λ s. lookup r.workflow_id s.workflows)) stale_result
  fail_if (is_stale a w r) stale_result
  fail_if (is_some (← gets (λ s. lookup r.attempt_id s.results))) stale_result
  modify (λ s. record s {
    attempts = insert a.id (record a { live = false }) s.attempts;
    results = insert a.id r s.results;
  })
