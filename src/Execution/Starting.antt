-- ===== src/Execution/Starting.antt =====
-- What a start in internal/execution/execution.go has made sure of, and what `NewScheduler` leaves.
use mathlib.Core.Path.{subst}
use skilar.Prelude.{
  ℕ, ◌≡◌, refl, true, false, List, [], ◌∷◌, Option, some, Text, ◌==◌, lookup, insert_new,
  insert_new_keeps, insert_new_has, contains, count, contains-count, arith, Bool-cases, inl, inr,
  nat_eq, text_eq, pair_eq, text_beq_iff, sym, ap, ◌∙◌, ◌⊎◌, ◌≤◌, Result, ok, err, Option-cases,
  modify, ◌>>◌,
}
use skilar.Workflow.Types.{Error}
use skilar.Workflow.Memory.{is_some}
use skilar.Workflow.Sqlite.{SliceStatus, pending, active, completed, Database}
use skilar.Workflow.Sqlite.Slices.{
  MutationActivation, is_active, count_slices, activate_execution_slice,
}
use skilar.Workflow.Sqlite.Activation.{activated_slice_is_sole}
use skilar.Orchestration.Graph.{
  OrchestrationError, Slice, ExecutionGraph, slice_ids, validate_execution,
}
use skilar.Orchestration.Orders.{depends_on, WellFormed, IsOrderable}
use skilar.Orchestration.Acceptance.{graph_accepted_iff}
use skilar.Orchestration.Wayfinder.{text_before}
use skilar.Execution.{
  insert_pending, new_scheduler, valid_graph, insert_slice, sort_slices, status_of, all_completed,
  is_ready, first_ready, next_ready, start, raised,
}
use skilar.Execution.Progress.{HasRows, is_completed_lem}

abbrev IsOneOf : Slice → List Slice → Type 0
IsOneOf s [] = ⊥
IsOneOf s (t ∷ slices) = (s ≡ t) ⊎ IsOneOf s slices

first_ready-some :
    (status : Text → Option SliceStatus) (slices : List Slice) (s : Slice)
    → first_ready status slices ≡ some s
    → IsOneOf s slices × (is_ready status s ≡ true)
unfolding first_ready
first_ready-some status [] s h = absurd (ground (arith, h))
first_ready-some status (t ∷ slices) s h = elim (Bool-cases (is_ready status t)) [
  | inl ready ↦
      let same : t ≡ s = ground (arith, h, ready) in
      (inl (sym same), ap (λ x. is_ready status x) (sym same) ∙ ready)
  | inr waits ↦
      let (there, fits) = first_ready-some status slices s (rw waits at h) in (inr there, fits)
]

insert_slice-IsOneOf :
    (s t : Slice) (slices : List Slice) → IsOneOf s (insert_slice t slices) → IsOneOf s (t ∷ slices)
unfolding insert_slice
insert_slice-IsOneOf s t [] h = h
insert_slice-IsOneOf s t (u ∷ slices) h = elim (Bool-cases (text_before u.id t.id)) [
  | inl before ↦ elim (rw before at h) [
    | inl same ↦ inr (inl same)
    | inr later ↦ elim (insert_slice-IsOneOf s t slices later) [
      | inl same ↦ inl same
      | inr there ↦ inr (inr there)
    ]
  ]
  | inr after ↦ rw after at h
]

sort_slices-IsOneOf :
    (s : Slice) (slices : List Slice) → IsOneOf s (sort_slices slices) → IsOneOf s slices
unfolding sort_slices
sort_slices-IsOneOf s [] h = h
sort_slices-IsOneOf s (t ∷ slices) h = elim (insert_slice-IsOneOf s t (sort_slices slices) h) [
  | inl same ↦ inl same
  | inr there ↦ inr (sort_slices-IsOneOf s slices there)
]

listed_once :
    (s : Slice) (slices : List Slice) → IsOneOf s slices → 1 ≤ count s.id (slice_ids slices)
unfolding count
listed_once s [] h = absurd h
listed_once s (t ∷ slices) (inl same) = rw same (ground (arith, text_beq_iff t.id t.id))
listed_once s (t ∷ slices) (inr there) = ground (arith, listed_once s slices there)

undepended :
    (id dep : Text) (slices : List Slice)
    → count id (slice_ids slices) ≡ 0
    → depends_on slices id dep ≡ false
unfolding depends_on count
undepended id dep [] h = refl
undepended id dep (s ∷ slices) h = ground (arith, h, undepended id dep slices)

-- With ids of their own, what a slice lists is what its id depends on.
depends_own :
    (s : Slice) (dep : Text) (slices : List Slice)
    → IsOneOf s slices
    → ((id : Text) → count id (slice_ids slices) ≤ 1)
    → depends_on slices s.id dep ≡ true
    → contains dep s.dependencies ≡ true
unfolding depends_on count
depends_own s dep [] h once d = absurd h
depends_own s dep (t ∷ slices) (inl same) once d =
    let rest =
      undepended s.id dep slices
        (ground (arith, once s.id, ap (λ (x : Slice). x.id) same, text_beq_iff t.id s.id)) in
    let own : contains dep t.dependencies ≡ true = ground (arith, d, rest) in
    ap (λ (x : Slice). contains dep x.dependencies) same ∙ own
depends_own s dep (t ∷ slices) (inr there) once d = ground (
  arith,
  depends_own s dep slices there (λ id. ground (arith, once id)),
  d,
  listed_once s slices there,
  once s.id,
)

all_completed_elim :
    (status : Text → Option SliceStatus) (deps : List Text) (dep : Text)
    → all_completed status deps ≡ true
    → contains dep deps ≡ true
    → status dep ≡ some completed
unfolding all_completed
all_completed_elim status [] dep h here = absurd (ground (arith, here))
all_completed_elim status (first ∷ deps) dep h here = elim (Bool-cases (first == dep)) [
  | inl own ↦
      rw (sym ((text_beq_iff first dep).0 own))
        (is_completed_lem (status first) (ground (arith, h)))
  | inr other ↦ all_completed_elim status deps dep (ground (arith, h)) (ground (arith, here, other))
]

raised_ok : {A : Type 0} (r : Result Error A) {a : A} → raised r ≡ ok a → r ≡ ok a
raised_ok (ok b) h = ground (arith, h)
raised_ok (err e) h = absurd (ground (arith, h))

-- The slice that is found is of the graph, and nothing it depends on is left.
found_is_free :
    (g : ExecutionGraph) (d : Database) (s : Slice)
    → WellFormed g.slices
    → next_ready g d ≡ some s
    → (contains s.id (slice_ids g.slices) ≡ true)
      × ((dep : Text) → depends_on g.slices s.id dep ≡ true → status_of g d dep ≡ some completed)
unfolding next_ready
found_is_free g d s formed h =
    let (there, ready) =
      first_ready-some (status_of g d) (sort_slices g.slices) s (ground (arith, h)) in
    let inside = sort_slices-IsOneOf s g.slices there in
    (
      (contains-count s.id (slice_ids g.slices)).1 (listed_once s g.slices inside),
      λ dep depends.
          all_completed_elim (status_of g d) s.dependencies dep (ground (arith, ready))
            (depends_own s dep g.slices inside formed.distinct depends),
    )

-- A start succeeds only for a slice of the graph whose dependencies are all completed. The slice was
-- pending, and afterwards it is the only active one of its workflow.
pub started_slice_is_ready :
    (g : ExecutionGraph) (now : ℕ) (a : MutationActivation) (d : Database)
    → WellFormed g.slices
    → (start g now a d).0 ≡ ok tt
    → let d' = (start g now a d).1 in
      (contains a.slice_id (slice_ids g.slices) ≡ true)
      × ((dep : Text)
          → depends_on g.slices a.slice_id dep ≡ true
          → status_of g d dep ≡ some completed)
      × (lookup (a.workflow_id, a.slice_id) d.execution_slice_state ≡ some pending)
      × (lookup (a.workflow_id, a.slice_id) d'.execution_slice_state ≡ some active)
      × (count_slices a.workflow_id is_active d'.execution_slice_state ≡ 1)
unfolding start
started_slice_is_ready g now a d formed h = elim (Option-cases (next_ready g d)) [
  | inl nothing ↦ let refused = rw nothing at h in cc
  | inr (s, found) ↦ elim (Bool-cases (s.id == a.slice_id)) [
    | inl own ↦
        let request = record a { graph_version = g.version } in
        let began = rw (found, own) at h in
        let (before, after, _, sole) =
          activated_slice_is_sole now request d
            (raised_ok (activate_execution_slice now request d).0 began) in
        let (listed, free) = found_is_free g d s formed found in
        let same = (text_beq_iff s.id a.slice_id).0 own in
        (
          subst (λ x. contains x (slice_ids g.slices) ≡ true) same listed,
          subst
              (λ x.
                (dep : Text)
                → depends_on g.slices x dep ≡ true
                → status_of g d dep ≡ some completed)
              same free,
          before,
          rw (found, own) after,
          rw (found, own) sole,
        )
    | inr other ↦ let refused = rw (found, other) at h in cc
  ]
]

insert_pending_keeps :
    (id : Text) (slices : List Slice) (d : Database) (key : Text × Text) (status : SliceStatus)
    → lookup key d.execution_slice_state ≡ some status
    → lookup key (insert_pending id slices d).execution_slice_state ≡ some status
unfolding insert_pending
insert_pending_keeps id [] d key status h = h
insert_pending_keeps id (s ∷ slices) d key status h =
    insert_pending_keeps id slices _ key status
      (insert_new_keeps (id, s.id) key pending status d.execution_slice_state h)

insert_pending_rows :
    (id : Text) (slices : List Slice) (d : Database) (sid : Text)
    → contains sid (slice_ids slices) ≡ true
    → is_some (lookup (id, sid) (insert_pending id slices d).execution_slice_state) ≡ true
unfolding insert_pending
insert_pending_rows id [] d sid h = absurd (ground (arith, h))
insert_pending_rows id (s ∷ slices) d sid h = elim (Bool-cases (s.id == sid)) [
  | inl own ↦
      let (status, there) = insert_new_has (id, s.id) pending d.execution_slice_state in
      ap is_some (
        insert_pending_keeps id slices _ (id, sid) status
          (subst
            (λ x.
              lookup (id, x) (insert_new (id, s.id) pending d.execution_slice_state) ≡ some status)
            ((text_beq_iff s.id sid).0 own) there))
  | inr other ↦ insert_pending_rows id slices _ sid (ground (arith, h, other))
]

-- NewScheduler succeeds only on a graph that ValidateExecution accepts. It leaves each slice with a
-- row, and changes no status that was there.
pub new_scheduler_prepares :
    (range : List Text → List Text) (g : ExecutionGraph) (d : Database)
    → ((names : List Text) (name : Text) → count name (range names) ≡ count name names)
    → (new_scheduler range g d).0 ≡ ok tt
    → let d' = (new_scheduler range g d).1 in
      WellFormed g.slices
      × IsOrderable g.slices
      × HasRows g d'
      × ((key : Text × Text) (status : SliceStatus)
          → lookup key d.execution_slice_state ≡ some status
          → lookup key d'.execution_slice_state ≡ some status)
unfolding new_scheduler
new_scheduler_prepares range g d same h =
    let (result, found, accepted) = graph_accepted_iff range g same in
    by_result result found accepted.0 (rw found at h)
  where
    by_result :
        (result : Result OrchestrationError (Unit {0}))
        → validate_execution range g ≡ some result
        → (result ≡ ok tt → WellFormed g.slices × IsOrderable g.slices)
        → ((valid_graph (some result) >> modify (insert_pending g.workflow_id g.slices)) d).0
          ≡ ok tt
        → let d' =
            ((valid_graph (validate_execution range g)
                >> modify (insert_pending g.workflow_id g.slices))
              d).1 in
          WellFormed g.slices
          × IsOrderable g.slices
          × HasRows g d'
          × ((key : Text × Text) (status : SliceStatus)
              → lookup key d.execution_slice_state ≡ some status
              → lookup key d'.execution_slice_state ≡ some status)
    by_result (ok u) found accepted fine =
        let both = accepted refl in
        rw found (
          both.0,
          both.1,
          insert_pending_rows g.workflow_id g.slices d,
          insert_pending_keeps g.workflow_id g.slices d,
        )
    by_result (err e) found accepted fine = cc
