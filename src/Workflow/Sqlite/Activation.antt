-- ===== src/Workflow/Sqlite/Activation.antt =====
-- What `ActivateExecutionSlice` achieves in internal/workflow/sqlite.go achieve.
use skilar.Prelude.{
  ℕ, ◌+◌, ◌≡◌, refl, sym, ap, ◌∙◌, Bool, ◌&&◌, [], ◌∷◌, Option, none, some, Text, ◌==◌, arith,
  lookup, insert, lookup-insert_self, ok, nat_eq, text_eq, pair_eq, text_beq_iff, nat_beq_iff,
  if◌then◌else◌, Bool-cases, inl, inr, Result, Map, transaction, bind_ok, transaction_ok, ◌>>=◌,
  ◌>>◌, or_fail,
}
use skilar.Workflow.Types.{ready, executing, state_eq, Workflow, Transition, Error, not_found}
use skilar.Workflow.Memory.{TransitionRecord}
use skilar.Workflow.Sqlite.{SliceStatus, pending, active, Database, Query, write_transition}
use skilar.Workflow.Sqlite.Writes.{written, write_transition_ok}
use skilar.Workflow.Sqlite.Slices.{
  MutationActivation, is_active, count_slices, activate_slice, insert_attempt,
  activate_execution_slice, begin_once, begin_execution, begin_in_state, begin_execution_if_ready,
  moved_to,
}

abbrev counted : Bool → ℕ
counted b = if b then 1 else 0

-- A slice that changes its status moves between the counts.
count_slices-insert :
    (id wid sid : Text) (test : SliceStatus → Bool) (old new : SliceStatus)
    (rows : Map (Text × Text) SliceStatus)
    → lookup (wid, sid) rows ≡ some old
    → count_slices id test (insert (wid, sid) new rows) + counted (wid == id && test old)
      ≡ count_slices id test rows + counted (wid == id && test new)
unfolding count_slices lookup insert
count_slices-insert id wid sid test old new [] found = cc
count_slices-insert id wid sid test old new (((w, s), v) ∷ rows) found =
    elim (Bool-cases (pair_eq.test (w, s) (wid, sid))) [
      | inl e ↦
          let same : w ≡ wid =
            ap (λ (p : Text × Text). p.0) ((pair_eq.decides (w, s) (wid, sid)).0 e) in
          let here : v ≡ old = ground arith in rw (e, same, here) (ground arith)
      | inr n ↦
          let rest : lookup (wid, sid) rows ≡ some old = ground arith in
          let counts = count_slices-insert id wid sid test old new rows rest in rw n (ground arith)
    ]

module _ (id sid : Text) (d : Database) where
  abbrev activating : Database
  activating = record d { execution_slice_state = insert (id, sid) active d.execution_slice_state }

  activate_slice_ok :
      (activate_slice id sid d).0 ≡ ok tt
      → (lookup (id, sid) d.execution_slice_state ≡ some pending)
        × (count_slices id is_active d.execution_slice_state ≡ 0)
        × ((activate_slice id sid d).1 ≡ activating)
  unfolding activate_slice
  activate_slice_ok h =
      ground (arith, nat_beq_iff (count_slices id is_active d.execution_slice_state) 0)

-- Neither the attempt nor the step of the workflow touches a slice.
abbrev SameSlices : Database → Database → Type 0
SameSlices d d' = d'.execution_slice_state ≡ d.execution_slice_state

insert_attempt-SameSlices :
    (a : MutationActivation) (d : Database) → SameSlices d (insert_attempt a d).1
unfolding insert_attempt
insert_attempt-SameSlices a d = ground arith

module _ (now : ℕ) (version : ℕ) where
  write_transition-SameSlices :
      (req : Transition) (w w' : Workflow) (d : Database)
      → (write_transition now req w w' d).0 ≡ ok tt
      → SameSlices d (write_transition now req w w' d).1
  unfolding written
  write_transition-SameSlices req w w' d h = rw (write_transition_ok now req w w' d h) refl

  begin_once-SameSlices :
      (req : Transition) (w : Workflow) (o : Option TransitionRecord) (d : Database)
      → (begin_once now req w o d).0 ≡ ok tt
      → SameSlices d (begin_once now req w o d).1
  unfolding begin_once
  begin_once-SameSlices req w (some p) d h = ground arith
  begin_once-SameSlices req w none d h =
      write_transition-SameSlices req w (moved_to w executing) d h

  begin_in_state-SameSlices :
      (w : Workflow) (d : Database)
      → (begin_in_state now w version d).0 ≡ ok tt
      → SameSlices d (begin_in_state now w version d).1
  unfolding begin_in_state begin_execution
  begin_in_state-SameSlices w d h = elim (Bool-cases (w.state == executing)) [
    | inl started ↦ rw started refl
    | inr other ↦ elim (Bool-cases (w.state == ready)) [
      | inl waiting ↦
          let begun = rw (other, waiting) at h in
          rw (other, waiting) (begin_once-SameSlices _ w _ d begun)
      | inr late ↦ rw (other, late) refl
    ]
  ]

  abbrev begin_found : Option Workflow → Query (Unit {0})
  begin_found o = do w ← or_fail o not_found; begin_in_state now w version

  begin_execution_if_ready-SameSlices :
      (id : Text) (d : Database)
      → (begin_execution_if_ready now id version d).0 ≡ ok tt
      → SameSlices d (begin_execution_if_ready now id version d).1
  unfolding begin_execution_if_ready
  begin_execution_if_ready-SameSlices id d h = found-SameSlices (lookup id d.workflows) h
    where
      found-SameSlices :
          (o : Option Workflow) → (begin_found o d).0 ≡ ok tt → SameSlices d (begin_found o d).1
      found-SameSlices none h = refl
      found-SameSlices (some w) h = begin_in_state-SameSlices w d h

module _ (now : ℕ) (a : MutationActivation) where
  -- What `ActivateExecutionSlice` does after the slice.
  abbrev begin_mutation : Query (Unit {0})
  begin_mutation = insert_attempt a >> begin_execution_if_ready now a.workflow_id a.graph_version

  begin_mutation-SameSlices :
      (d : Database) → (begin_mutation d).0 ≡ ok tt → SameSlices d (begin_mutation d).1
  begin_mutation-SameSlices d h =
      let (_, _, after) =
        bind_ok (insert_attempt a) (λ _. begin_execution_if_ready now a.workflow_id a.graph_version)
          d h in
      let rest : (begin_execution_if_ready now a.workflow_id a.graph_version
            (insert_attempt a d).1).0
          ≡ ok tt =
        sym (ap (λ (b : Result Error (Unit {0}) × Database). b.0) after) ∙ h in
      rw after (
        begin_execution_if_ready-SameSlices now a.graph_version a.workflow_id _ rest
        ∙ insert_attempt-SameSlices a d)

  -- `ActivateExecutionSlice` succeeds only on a pending slice of a workflow with no active slice, and
  -- leaves that slice as the only active one of its workflow.
  pub activated_slice_is_sole :
      (d : Database)
      → (activate_execution_slice now a d).0 ≡ ok tt
      → let d' = (activate_execution_slice now a d).1 in
        (lookup (a.workflow_id, a.slice_id) d.execution_slice_state ≡ some pending)
        × (lookup (a.workflow_id, a.slice_id) d'.execution_slice_state ≡ some active)
        × (count_slices a.workflow_id is_active d.execution_slice_state ≡ 0)
        × (count_slices a.workflow_id is_active d'.execution_slice_state ≡ 1)
  unfolding activate_execution_slice
  activated_slice_is_sole d h = elim (Bool-cases (a.graph_version == 0)) [
    | inl bad ↦ let refused = rw bad at h in cc
    | inr fine ↦ rw fine (begun d (rw fine at h))
  ]
    where
      begun :
          (d : Database)
          → (transaction (activate_slice a.workflow_id a.slice_id >> begin_mutation) d).0 ≡ ok tt
          → let d' =
              (transaction (activate_slice a.workflow_id a.slice_id >> begin_mutation) d).1 in
            (lookup (a.workflow_id, a.slice_id) d.execution_slice_state ≡ some pending)
            × (lookup (a.workflow_id, a.slice_id) d'.execution_slice_state ≡ some active)
            × (count_slices a.workflow_id is_active d.execution_slice_state ≡ 0)
            × (count_slices a.workflow_id is_active d'.execution_slice_state ≡ 1)
      begun d h =
          let body : Query (Unit {0}) = activate_slice a.workflow_id a.slice_id >> begin_mutation in
          let plain = transaction_ok body d h in
          let inside : (body d).0 ≡ ok tt =
            sym (ap (λ (b : Result Error (Unit {0}) × Database). b.0) plain) ∙ h in
          let (_, first, after) =
            bind_ok (activate_slice a.workflow_id a.slice_id) (λ _. begin_mutation) d inside in
          let (before, sole, here) = activate_slice_ok a.workflow_id a.slice_id d first in
          let all : transaction body d ≡ begin_mutation (activating a.workflow_id a.slice_id d) =
            plain ∙ after ∙ ap begin_mutation here in
          let rest : (begin_mutation (activating a.workflow_id a.slice_id d)).0 ≡ ok tt =
            sym (ap (λ (b : Result Error (Unit {0}) × Database). b.0) all) ∙ h in
          let kept : (transaction body d).1.execution_slice_state
              ≡ insert (a.workflow_id, a.slice_id) active d.execution_slice_state =
            ap (λ (b : Result Error (Unit {0}) × Database). b.1.execution_slice_state) all
            ∙ begin_mutation-SameSlices _ rest in
          let counts =
            count_slices-insert a.workflow_id a.workflow_id a.slice_id is_active pending active
              d.execution_slice_state before in
          rw kept (
            before,
            lookup-insert_self (a.workflow_id, a.slice_id) active d.execution_slice_state,
            sole,
            ground (arith, text_beq_iff a.workflow_id a.workflow_id),
          )
