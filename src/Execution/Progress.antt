-- ===== src/Execution/Progress.antt =====
-- The scheduler of internal/execution/execution.go never gets stuck.
use skilar.Prelude.{
  ◌≡◌, ◌≢◌, Map, refl, true, false, ◌||◌, List, [], ◌∷◌, Option, none, some, Text, ◌==◌, lookup,
  contains, Every, arith, Bool-cases, inl, inr, nat_eq, text_eq, pair_eq, text_beq_iff, sym, ◌⊎◌,
  nat_beq_iff,
}
use skilar.Workflow.Memory.{is_some}
use skilar.Workflow.Sqlite.{SliceStatus, pending, active, completed, Database}
use skilar.Workflow.Sqlite.Slices.{is_pending, is_active, is_completed, has_status, count_slices}
use skilar.Orchestration.Graph.{Slice, ExecutionGraph, slice_ids}
use skilar.Orchestration.Orders.{depends_on, IsOrder, IsOrderable, WellFormed}
use skilar.Orchestration.Wayfinder.{text_before}
use skilar.Execution.{
  insert_slice, sort_slices, status_of, all_completed, is_ready, first_ready, next_ready,
}

module _ (status : Text → Option SliceStatus) where
  abbrev NoneReady : List Slice → Type 0
  NoneReady slices = Every (λ s. is_ready status s ≡ false) slices

  first_ready-none : (slices : List Slice) → first_ready status slices ≡ none → NoneReady slices
  unfolding first_ready
  first_ready-none [] h = tt
  first_ready-none (s ∷ slices) h = (ground (arith, h), first_ready-none slices (ground (arith, h)))

  insert_slice-NoneReady :
      (s : Slice) (slices : List Slice) → NoneReady (insert_slice s slices) → NoneReady (s ∷ slices)
  unfolding insert_slice
  insert_slice-NoneReady s [] h = h
  insert_slice-NoneReady s (t ∷ slices) h = elim (Bool-cases (text_before t.id s.id)) [
    | inl before ↦
        let all = rw before at h in
        let rest = insert_slice-NoneReady s slices all.1 in (rest.0, (all.0, rest.1))
    | inr after ↦ rw after at h
  ]

  sort_slices-NoneReady : (slices : List Slice) → NoneReady (sort_slices slices) → NoneReady slices
  unfolding sort_slices
  sort_slices-NoneReady [] h = tt
  sort_slices-NoneReady (s ∷ slices) h =
      let all = insert_slice-NoneReady s (sort_slices slices) h in
      (all.0, sort_slices-NoneReady slices all.1)

  abbrev IsDone : Text → Type 0
  IsDone id = has_status is_completed (status id) ≡ true

  all_completed_intro :
      (deps : List Text)
      → ((dep : Text) → contains dep deps ≡ true → IsDone dep)
      → all_completed status deps ≡ true
  unfolding all_completed
  all_completed_intro [] h = refl
  all_completed_intro (dep ∷ deps) h = ground (
    arith,
    h dep,
    text_beq_iff dep dep,
    all_completed_intro deps (λ other listed. h other (ground (arith, listed))),
  )

  -- A slice whose dependencies are all done waits no more.
  not_pending :
      (slices : List Slice) (id : Text)
      → NoneReady slices
      → ((dep : Text) → depends_on slices id dep ≡ true → IsDone dep)
      → contains id (slice_ids slices) ≡ true
      → has_status is_pending (status id) ≡ false
  unfolding depends_on
  not_pending [] id stuck done here = absurd (ground (arith, here))
  not_pending (s ∷ slices) id stuck done here = elim (Bool-cases (s.id == id)) [
    | inl own ↦
        let fine =
          all_completed_intro s.dependencies
            (λ dep listed. done dep (ground (arith, own, listed))) in
        rw (sym ((text_beq_iff s.id id).0 own)) (ground (arith, stuck.0, fine))
    | inr other ↦
        not_pending slices id stuck.1 (λ dep listed. done dep (ground (arith, listed)))
          (ground (arith, here, other))
  ]

  -- When no slice is ready and none is active, all are done, along an order of them.
  all-IsDone :
      (slices : List Slice) (order : List Text)
      → NoneReady slices
      → ((id dep : Text) → depends_on slices id dep ≡ true → contains dep (slice_ids slices) ≡ true)
      → ((id : Text)
          → contains id (slice_ids slices) ≡ true
          → (has_status is_pending (status id) || has_status is_completed (status id)) ≡ true)
      → IsOrder slices order
      → (id : Text) → contains id order ≡ true
      → contains id (slice_ids slices) ≡ true
      → IsDone id
  unfolding IsOrder
  all-IsDone slices [] stuck known rows ordered id here listed = absurd (ground (arith, here))
  all-IsDone slices (first ∷ before) stuck known rows ordered id here listed =
      let earlier = all-IsDone slices before stuck known rows ordered.1 in
      elim (Bool-cases (first == id)) [
        | inl own ↦
            let own_deps : (dep : Text) → depends_on slices id dep ≡ true → IsDone dep =
              λ dep depends.
                earlier dep (ordered.0 dep (rw (sym ((text_beq_iff first id).0 own)) at depends))
                  (known id dep depends) in
            ground (arith, rows id listed, not_pending slices id stuck own_deps listed)
        | inr other ↦ earlier id (ground (arith, here, other)) listed
      ]

count_active :
    (id sid : Text) (rows : Map (Text × Text) SliceStatus)
    → lookup (id, sid) rows ≡ some active
    → count_slices id is_active rows ≢ 0
unfolding count_slices lookup
count_active id sid [] h none_active = absurd (ground (arith, h))
count_active id sid (((w, s), v) ∷ rows) h none_active = ground (
  arith,
  h,
  none_active,
  count_active id sid rows,
  pair_eq.decides (w, s) (id, sid),
  text_beq_iff w id,
)

abbrev pub HasRows : ExecutionGraph → Database → Type 0
HasRows g d =
    (id : Text) → contains id (slice_ids g.slices) ≡ true → is_some (status_of g d id) ≡ true

pub is_completed_lem :
    (status : Option SliceStatus) → has_status is_completed status ≡ true → status ≡ some completed
is_completed_lem none h = absurd (ground (arith, h))
is_completed_lem (some pending) h = absurd (ground (arith, h))
is_completed_lem (some active) h = absurd (ground (arith, h))
is_completed_lem (some completed) h = refl

waiting_or_done :
    (g : ExecutionGraph) (d : Database) (id : Text)
    → (count_slices g.workflow_id is_active d.execution_slice_state == 0) ≡ true
    → is_some (status_of g d id) ≡ true
    → (has_status is_pending (status_of g d id) || has_status is_completed (status_of g d id))
      ≡ true
waiting_or_done g d id quiet row = by_status (status_of g d id) refl row
  where
    by_status :
        (status : Option SliceStatus)
        → status_of g d id ≡ status
        → is_some status ≡ true
        → (has_status is_pending status || has_status is_completed status) ≡ true
    by_status none found row = row
    by_status (some pending) found row = refl
    by_status (some active) found row = absurd (
        count_active g.workflow_id id d.execution_slice_state found
          ((nat_beq_iff (count_slices g.workflow_id is_active d.execution_slice_state) 0).0 quiet))
    by_status (some completed) found row = refl

-- When the slices of a graph have an order and each has a row, the next slice is found unless one is
-- active or all are completed.
pub scheduler_progresses :
    (g : ExecutionGraph) (d : Database)
    → WellFormed g.slices
    → IsOrderable g.slices
    → HasRows g d
    → next_ready g d ≡ none
    → (count_slices g.workflow_id is_active d.execution_slice_state ≢ 0)
      ⊎ ((id : Text) → contains id (slice_ids g.slices) ≡ true → status_of g d id ≡ some completed)
unfolding next_ready
scheduler_progresses g d formed orderable rows stuck =
    elim (Bool-cases (count_slices g.workflow_id is_active d.execution_slice_state == 0)) [
      | inl quiet ↦
          let status = status_of g d in
          let left = rw quiet at stuck in
          let none_ready =
            sort_slices-NoneReady status g.slices
              (first_ready-none status (sort_slices g.slices) left) in
          let known : (id dep : Text)
              → depends_on g.slices id dep ≡ true
              → contains dep (slice_ids g.slices) ≡ true =
            λ id dep depends. (formed.known id dep depends).0 in
          let waits : (id : Text)
              → contains id (slice_ids g.slices) ≡ true
              → (has_status is_pending (status id) || has_status is_completed (status id)) ≡ true =
            λ id listed. waiting_or_done g d id quiet (rows id listed) in
          inr (λ id listed. is_completed_lem (status id) (
            all-IsDone status g.slices orderable.0 none_ready known waits orderable.1 id
              (orderable.2 id listed) listed))
      | inr busy ↦ inl (λ e.
          let quiet =
            (nat_beq_iff (count_slices g.workflow_id is_active d.execution_slice_state) 0).1 e in
          cc)
    ]
