-- ===== src/Workflow/Sqlite/Refinement.antt =====
-- SQLiteStore (internal/workflow/sqlite.go) and MemoryStore (store.go) answer alike.
use mathlib.Core.List.{map-append}
use mathlib.Core.Path.{subst}
use skilar.Prelude.{
  ℕ, ◌++◌, ◌≡◌, refl, sym, ap, ◌∙◌, true, false, ◌&&◌, ◌||◌, List, [], ◌∷◌, Option, none, some,
  Text, ◌==◌, arith, lookup, lookup-insert, ok, err, nat_eq, text_eq, pair_eq, text_beq_iff,
  if◌then◌else◌, Bool-cases, inl, inr, Result, transaction, gets, ◌>>=◌, is_empty, map,
}
use skilar.Workflow.Types.{
  State, blocked, state_eq, state_beq_iff, Workflow, Transition, Event, Error,
}
use skilar.Workflow.Requests.{advance, same_transition}
use skilar.Workflow.Requests.Laws.{advance-Advanced, can_transition-resume_irrelevant}
use skilar.Workflow.Memory
use skilar.Workflow.Memory.{
  MemoryStore, TransitionRecord, is_some, idem_key, asked_resume, record_transition, events_of,
}
use skilar.Workflow.Memory.Keys.{HasNoNul, same_key}
use skilar.Workflow.Memory.History.{events_of-record_transition}
use skilar.Workflow.Sqlite
use skilar.Workflow.Sqlite.{
  Database, Query, has_event, next_sequence, reread_request, reread_workflow,
}
use skilar.Workflow.Sqlite.Writes.{
  written, written_event, write_transition_lem, store_advanced-write,
}

-- What an event says, apart from its place in the numbering of the store.
abbrev content : Event → Event
content e = record e { sequence = 0 }

-- SELECT … FROM transition_events WHERE workflow_id=? ORDER BY sequence
unfoldable pub events_by : Text → List Event → List Event
events_by id [] = []
events_by id (e ∷ es) = if e.workflow_id == id then e ∷ events_by id es else events_by id es

-- The database holds what the in-memory store holds.
pub record Represents (m : MemoryStore) (d : Database) : Type 0 where
  pub workflows : (id : Text) → lookup id d.workflows ≡ lookup id m.workflows
  pub named : (id : Text) (w : Workflow) → lookup id m.workflows ≡ some w → w.id ≡ id
  pub idempotency :
      (id key : Text)
      → HasNoNul id
      → lookup (id, key) d.idempotency ≡ lookup (idem_key id key) m.idempotency
  pub events :
      (id : Text) → map content (events_by id d.transition_events) ≡ map content (events_of id m)
  pub keyed :
      (id key : Text)
      → has_event id key d.transition_events ≡ true
      → is_some (lookup (id, key) d.idempotency) ≡ true

-- What a call of `Transition` writes as JSON is read back as it was: its key, its artifacts, and the
-- name and the basis of the workflow that it is about.
pub record IsReadable (json : Text → Text) (req : Transition) (m : MemoryStore) : Type 0 where
  pub request : reread_request json req ≡ req
  pub basis :
      (w : Workflow) → lookup req.workflow_id m.workflows ≡ some w → reread_workflow json w ≡ w

reread_workflow_same :
    (json : Text → Text) (w v : Workflow)
    → v.id ≡ w.id
    → v.basis_tree ≡ w.basis_tree
    → reread_workflow json w ≡ w
    → reread_workflow json v ≡ v
unfolding reread_workflow
reread_workflow_same json w v same_id same_basis h =
    let id : json v.id ≡ v.id = rw same_id (ap (λ (x : Workflow). x.id) h) in
    let basis : json v.basis_tree ≡ v.basis_tree =
      rw same_basis (ap (λ (x : Workflow). x.basis_tree) h) in
    λ i. record v { id = id i; basis_tree = basis i }

-- The two stores ask `CanTransition` about different resume targets, to the same effect.
advance-asked :
    (w : Workflow) (req : Transition)
    → advance w.resume_target w req ≡ advance (asked_resume w req) w req
unfolding advance
advance-asked w req = elim (Bool-cases (w.state == blocked)) [
  | inl e ↦ rw e
  | inr n ↦ rw (
    n,
    can_transition-resume_irrelevant w.state req.next_state w.resume_target req.resume_target
        (λ p. cc ((state_beq_iff w.state blocked).1 p)),
  )
]

events_by-snoc :
    (id : Text) (es : List Event) (e : Event)
    → events_by id (es ++ e ∷ [])
      ≡ (if e.workflow_id == id then events_by id es ++ e ∷ [] else events_by id es)
unfolding events_by
events_by-snoc id [] e = ground arith
events_by-snoc id (x ∷ es) e = ground (arith, events_by-snoc id es e)

has_event-snoc :
    (id key : Text) (es : List Event) (e : Event)
    → has_event id key (es ++ e ∷ [])
      ≡ ((e.workflow_id == id && e.idempotency_key == key) || has_event id key es)
unfolding has_event
has_event-snoc id key [] e = ground arith
has_event-snoc id key (x ∷ es) e = ground (arith, has_event-snoc id key es e)

map-snoc_alike :
    (xs ys : List Event) (x y : Event)
    → map content xs ≡ map content ys
    → content x ≡ content y
    → map content (xs ++ x ∷ []) ≡ map content (ys ++ y ∷ [])
map-snoc_alike xs ys x y h k =
    rw (map-append content xs (x ∷ []), map-append content ys (y ∷ [])) (λ i. h i ++ k i ∷ [])

module _ (now : ℕ) (req : Transition) (from : State) (w : Workflow) (m : MemoryStore) (d : Database)
    (r : Represents m d) (same_id : w.id ≡ req.workflow_id) (plain : HasNoNul req.workflow_id)
    (request : reread_request d.json req ≡ req) (result : reread_workflow d.json w ≡ w) where
  written-workflows :
      (id : Text)
      → lookup id (written now req from w d).workflows
        ≡ lookup id (record_transition now req from w m).workflows
  unfolding written record_transition
  written-workflows id =
      rw (lookup-insert w.id id w d.workflows, lookup-insert w.id id w m.workflows, r.workflows id)

  record_transition-named :
      (id : Text) (v : Workflow)
      → lookup id (record_transition now req from w m).workflows ≡ some v
      → v.id ≡ id
  unfolding record_transition
  record_transition-named id v h = elim (Bool-cases (w.id == id)) [
    | inl e ↦ ground (arith, lookup-insert w.id id w m.workflows, text_beq_iff w.id id)
    | inr n ↦ r.named id v (ground (arith, lookup-insert w.id id w m.workflows))
  ]

  written-idempotency :
      (id key : Text)
      → HasNoNul id
      → lookup (id, key) (written now req from w d).idempotency
        ≡ lookup (idem_key id key) (record_transition now req from w m).idempotency
  unfolding written record_transition
  written-idempotency id key n =
      let row : TransitionRecord = record { request = req; result = w } in
      let same : (◌==◌ {A = Text × Text} ⦃e = pair_eq⦄ (w.id, req.idempotency_key) (id, key))
          ≡ (idem_key req.workflow_id req.idempotency_key == idem_key id key) =
        rw same_id (same_key req.workflow_id id req.idempotency_key key plain n) in
      rw
        (
          request,
          result,
          lookup-insert (w.id, req.idempotency_key) (id, key) row d.idempotency,
          lookup-insert (idem_key req.workflow_id req.idempotency_key) (idem_key id key) row
              m.idempotency,
          r.idempotency id key n,
          same,
        )
        refl

  written-events :
      (id : Text)
      → map content (events_by id (written now req from w d).transition_events)
        ≡ map content (events_of id (record_transition now req from w m))
  unfolding written reread_request
  written-events id =
      let same_ids : map d.json req.artifact_ids ≡ req.artifact_ids =
        ap (λ (q : Transition). q.artifact_ids) request in
      let artifacts_reread : content (written_event now req from w d)
          ≡ content (record (written_event now req from w d) { artifact_ids = req.artifact_ids }) =
        ap (λ ids. content (record (written_event now req from w d) { artifact_ids = ids }))
          same_ids in
      rw (events_of-record_transition now req from w m id, events_by-snoc id d.transition_events _)
        (elim (Bool-cases (w.id == id)) [
          | inl e ↦
              let p = (text_beq_iff w.id id).0 e in
              rw e (map-snoc_alike _ _ _ _ (rw p (r.events id)) artifacts_reread)
          | inr n ↦ rw n (r.events id)
        ])

  written-keyed :
      (id key : Text)
      → has_event id key (written now req from w d).transition_events ≡ true
      → is_some (lookup (id, key) (written now req from w d).idempotency) ≡ true
  unfolding written
  written-keyed id key h = ground (
    arith,
    has_event-snoc id key d.transition_events (written_event now req from w d),
    lookup-insert (w.id, req.idempotency_key) (id, key) (record { request = req; result = w })
        d.idempotency,
    r.keyed id key,
  )

  written-Represents : Represents (record_transition now req from w m) (written now req from w d)
  written-Represents = record {
    workflows = written-workflows;
    named = record_transition-named;
    idempotency = written-idempotency;
    events = written-events;
    keyed = written-keyed;
  }

module _ (now : ℕ) (req : Transition) (m : MemoryStore) (d : Database) (r : Represents m d)
    (plain : HasNoNul req.workflow_id) (readable : IsReadable d.json req m) where
  abbrev Alike : Result Error Workflow × MemoryStore → Result Error Workflow × Database → Type 0
  Alike a b = (a.0 ≡ b.0) × Represents a.1 b.1

  -- Before its transaction ends, the database differs only when the answer is no error.
  abbrev Undisturbed : Result Error Workflow × Database → Type 0
  Undisturbed b = (e : Error) → b.0 ≡ err e → b.1 ≡ d

  committed-Alike :
      (run : Query Workflow) (a : Result Error Workflow × MemoryStore)
      → Alike a (run d)
      → Undisturbed (run d)
      → Alike a (transaction run d)
  committed-Alike run a alike same = ending-Alike (run d) alike same
    where
      ending-Alike :
          (b : Result Error Workflow × Database)
          → Alike a b
          → Undisturbed b
          → Alike a (elim b.0 [ ok v ↦ b | err e ↦ (err e, d) ])
      ending-Alike (ok v, d') alike same = alike
      ending-Alike (err e, d') alike same = (alike.0, subst (Represents a.1) (same e refl) alike.1)

  stored-Alike :
      (w : Workflow) (res : Result Error Workflow)
      → lookup (idem_key req.workflow_id req.idempotency_key) m.idempotency ≡ none
      → lookup req.workflow_id m.workflows ≡ some w
      → advance (asked_resume w req) w req ≡ res
      → Alike
          (Memory.store_transition now req w.state res m)
          (Sqlite.store_advanced now req w res d)
        × Undisturbed (Sqlite.store_advanced now req w res d)
  unfolding Memory.store_transition Sqlite.store_advanced
  stored-Alike w (err e) fresh found done = ((refl, r), λ _ _. refl)
  stored-Alike w (ok w') fresh found done =
      let a = advance-Advanced (asked_resume w req) w req done in
      let same_id : w'.id ≡ req.workflow_id =
        ap (λ v. v.id) a.new_workflow ∙ r.named req.workflow_id w found in
      let reread =
        reread_workflow_same d.json w w' (ap (λ v. v.id) a.new_workflow)
          (ap (λ v. v.basis_tree) a.new_workflow) (readable.basis w found) in
      let stored : lookup w'.id d.workflows ≡ some w =
        rw same_id (r.workflows req.workflow_id ∙ found) in
      let unused : lookup (w'.id, req.idempotency_key) d.idempotency ≡ none =
        rw same_id (r.idempotency req.workflow_id req.idempotency_key plain ∙ fresh) in
      let unheard : has_event w'.id req.idempotency_key d.transition_events ≡ false =
        ground (arith, r.keyed w'.id req.idempotency_key) in
      let writes =
        write_transition_lem now req w w' d stored a.same_state a.same_version unheard unused in
      subst (λ b. Alike (ok w', record_transition now req w.state w' m) b × Undisturbed b)
        (sym (store_advanced-write now req w w' d writes))
        (
          (refl, written-Represents now req w.state w' m d r same_id plain readable.request reread),
          λ e h. cc,
        )

  found-Alike :
      (o : Option Workflow)
      → lookup (idem_key req.workflow_id req.idempotency_key) m.idempotency ≡ none
      → lookup req.workflow_id m.workflows ≡ o
      → Alike (Memory.transition_found now req o m) (Sqlite.transition_stored now req o d)
        × Undisturbed (Sqlite.transition_stored now req o d)
  unfolding Memory.transition_found Sqlite.transition_stored
  found-Alike none fresh found = ((refl, r), λ _ _. refl)
  found-Alike (some w) fresh found = rw (advance-asked w req) (stored-Alike w _ fresh found refl)

  known-Alike :
      (o : Option TransitionRecord)
      → lookup (idem_key req.workflow_id req.idempotency_key) m.idempotency ≡ o
      → Alike (Memory.transition_known now req o m) (Sqlite.transition_answer now req o d)
        × Undisturbed (Sqlite.transition_answer now req o d)
  unfolding Memory.transition_known Sqlite.transition_answer
  known-Alike none found = rw (r.workflows req.workflow_id) (found-Alike _ found refl)
  known-Alike (some p) found = elim (Bool-cases (same_transition p.request req)) [
    | inl same ↦ rw same ((refl, r), λ _ _. refl)
    | inr other ↦ rw other ((refl, r), λ _ _. refl)
  ]

  -- When the two stores hold the same, they answer a call of `Transition` alike, errors included, and
  -- hold the same afterwards, provided that the workflow's id has no byte 0, and that the id, the key,
  -- the artifacts and the workflow's basis are read back from JSON as they were.
  pub transition_refines :
      ((Memory.transition now req m).0 ≡ (Sqlite.transition now req d).0)
      × Represents (Memory.transition now req m).1 (Sqlite.transition now req d).1
  unfolding Memory.transition Sqlite.transition
  transition_refines = elim (Bool-cases (is_empty req.idempotency_key)) [
    | inl empty ↦ rw empty (refl, r)
    | inr given ↦
        let same = r.idempotency req.workflow_id req.idempotency_key plain in
        let run : Query Workflow =
          gets (λ d. lookup (req.workflow_id, req.idempotency_key) d.idempotency) >>= λ previous.
          Sqlite.transition_answer now req previous in
        let known : Alike
              (Memory.transition_known now req
                (lookup (idem_key req.workflow_id req.idempotency_key) m.idempotency) m)
              (run d)
            × Undisturbed (run d) =
          rw same (known-Alike _ refl) in
        rw given (committed-Alike run _ known.0 known.1)
  ]
