-- ===== src/Workflow/Sqlite/SliceLaws.antt =====
-- What the calls on execution slices in internal/workflow/sqlite.go achieve.
use mathlib.Core.Path.{subst}
use skilar.Prelude.{
  ℕ, ◌≡◌, refl, sym, ap, ◌∙◌, Bool, true, Option, none, some, Text, ◌==◌, arith, lookup, insert,
  lookup-insert_self, ok, nat_eq, text_eq, pair_eq, nat_beq_iff, Bool-cases, inl, inr, Result,
  transaction, bind_ok, transaction_ok, ◌>>=◌, ◌>>◌, pure, or_fail,
}
use skilar.Workflow.Types.{
  State, executing, verifying, state_eq, state_beq_iff, Workflow, Transition, Error, not_found,
}
use skilar.Workflow.Sqlite.{active, completed, Database, Query, write_transition}
use skilar.Workflow.Sqlite.Writes.{written, write_transition_ok}
use skilar.Workflow.Sqlite.Slices.{
  not_completed, count_slices, complete_slice, complete_execution_slice, complete_execution,
  finish_in_state, finish_execution, finish_if_done, complete_execution_if_ready, moved_to,
  slice_request, complete_key,
}

-- What a row of `workflows` holds under its primary key.
abbrev pub IsKeyed : Text → Database → Type 0
IsKeyed id d = (w : Workflow) → lookup id d.workflows ≡ some w → w.id ≡ id

abbrev pub IsIn : State → Text → Database → Type 0
IsIn state id d = (w : Workflow) × (lookup id d.workflows ≡ some w) × (w.state ≡ state)

-- What `completeExecutionIfReady` may change, when no slice is left.
abbrev Finished : Text → Database → Database → Type 0
Finished id d d' = IsIn verifying id d' × (d'.execution_slice_state ≡ d.execution_slice_state)

write_transition-Finished :
    (now : ℕ) (req : Transition) (w w' : Workflow) (d : Database)
    → (write_transition now req w w' d).0 ≡ ok tt
    → w'.state ≡ verifying
    → Finished w'.id d (write_transition now req w w' d).1
unfolding written
write_transition-Finished now req w w' d h e =
    rw (write_transition_ok now req w w' d h)
      ((w', lookup-insert_self w'.id w' d.workflows, e), refl)

module _ (id sid : Text) (d : Database) where
  complete_slice_ok :
      (complete_slice id sid d).0 ≡ ok tt
      → (lookup (id, sid) d.execution_slice_state ≡ some active)
        × ((complete_slice id sid d).1 ≡ record d {
          execution_slice_state = insert (id, sid) completed d.execution_slice_state;
        })
  unfolding complete_slice
  complete_slice_ok h = ground arith

module _ (now : ℕ) (version : ℕ) where
  complete_execution-Finished :
      (w : Workflow) (id : Text) (d : Database) {b : Bool}
      → w.id ≡ id
      → (complete_execution now w version d).0 ≡ ok b
      → Finished id d (complete_execution now w version d).1
  unfolding complete_execution
  complete_execution-Finished w id d same h =
      let req = slice_request w executing verifying (complete_key version) in
      let (u, fine, after) =
        bind_ok (write_transition now req w (moved_to w verifying)) (λ _. pure true) d h in
      subst (λ (b : Result Error Bool × Database). Finished id d b.1) (sym after)
        (subst (λ x. Finished x d (write_transition now req w (moved_to w verifying) d).1) same
          (write_transition-Finished now req w (moved_to w verifying) d fine refl))

  finish_in_state-Finished :
      (w : Workflow) (id : Text) (d : Database) {b : Bool}
      → w.id ≡ id
      → lookup id d.workflows ≡ some w
      → (finish_in_state now w version d).0 ≡ ok b
      → Finished id d (finish_in_state now w version d).1
  unfolding finish_in_state
  finish_in_state-Finished w id d {b} same found h = elim (Bool-cases (w.state == verifying)) [
    | inl done ↦ rw done ((w, found, (state_beq_iff w.state verifying).0 done), refl)
    | inr todo ↦ elim (Bool-cases (w.state == executing)) [
      | inl started ↦
          let done : (complete_execution now w version d).0 ≡ ok b = rw (todo, started) at h in
          rw (todo, started) (complete_execution-Finished w id d same done)
      | inr stopped ↦ cc
    ]
  ]

  abbrev finish_found : Option Workflow → Query Bool
  finish_found o = do w ← or_fail o not_found; finish_in_state now w version

  finish_execution-Finished :
      (id : Text) (d : Database) {b : Bool}
      → IsKeyed id d
      → (finish_execution now id version d).0 ≡ ok b
      → Finished id d (finish_execution now id version d).1
  unfolding finish_execution
  finish_execution-Finished id d keyed h = found-Finished (lookup id d.workflows) refl h
    where
      found-Finished :
          (o : Option Workflow) {b : Bool}
          → lookup id d.workflows ≡ o
          → (finish_found o d).0 ≡ ok b
          → Finished id d (finish_found o d).1
      found-Finished none found h = cc
      found-Finished (some w) found h = finish_in_state-Finished w id d (keyed w found) found h

  finish_if_done_ok :
      (id : Text) (d : Database) (remaining : ℕ) {b : Bool}
      → IsKeyed id d
      → (finish_if_done now id version remaining d).0 ≡ ok b
      → let d' = (finish_if_done now id version remaining d).1 in
        (d'.execution_slice_state ≡ d.execution_slice_state)
        × (remaining ≡ 0 → IsIn verifying id d')
  unfolding finish_if_done
  finish_if_done_ok id d remaining keyed h = elim (Bool-cases (remaining == 0)) [
    | inl none_left ↦
        let done = rw none_left at h in
        let f = finish_execution-Finished id d keyed done in rw none_left (f.1, λ _. f.0)
    | inr left ↦ rw left (refl, λ e. let z = (nat_beq_iff remaining 0).1 e in cc)
  ]

  -- Both when slices are left and when none is, the slices stay as they are.
  pub complete_execution_if_ready_ok :
      (id : Text) (d : Database) {b : Bool}
      → IsKeyed id d
      → (complete_execution_if_ready now id version d).0 ≡ ok b
      → let d' = (complete_execution_if_ready now id version d).1 in
        (d'.execution_slice_state ≡ d.execution_slice_state)
        × (count_slices id not_completed d.execution_slice_state ≡ 0 → IsIn verifying id d')
  unfolding complete_execution_if_ready
  complete_execution_if_ready_ok id d {b} keyed h = elim (Bool-cases (version == 0)) [
    | inl bad ↦ let refused = rw bad at h in cc
    | inr fine ↦
        let done = rw fine at h in
        rw fine (
          finish_if_done_ok id d (count_slices id not_completed d.execution_slice_state) keyed done)
  ]

module _ (now : ℕ) (id sid : Text) (version : ℕ) where
  -- What `CompleteExecutionSlice` does after its own slice.
  abbrev advance_workflow : Query (Unit {0})
  advance_workflow = complete_execution_if_ready now id version >>= λ _. pure tt

  abbrev IsCompletion : Database → Type 0
  IsCompletion d =
      (lookup (id, sid) d.execution_slice_state ≡ some completed)
      × (count_slices id not_completed d.execution_slice_state ≡ 0 → IsIn verifying id d)

  advance_workflow-IsCompletion :
      (d : Database)
      → IsKeyed id d
      → lookup (id, sid) d.execution_slice_state ≡ some completed
      → (advance_workflow d).0 ≡ ok tt
      → IsCompletion (advance_workflow d).1
  advance_workflow-IsCompletion d keyed found h =
      let (b, fine, after) =
        bind_ok (complete_execution_if_ready now id version) (λ _. pure tt) d h in
      let (kept, verified) = complete_execution_if_ready_ok now version id d keyed fine in
      rw after (rw kept found, λ e. verified (rw kept at e))

  abbrev completing : Database → Database
  completing d = record d {
    execution_slice_state = insert (id, sid) completed d.execution_slice_state;
  }

  -- `CompleteExecutionSlice` succeeds on an active slice only. It leaves the slice completed, and when
  -- no slice of the workflow is left, the workflow is in verification.
  pub last_slice_verifies :
      (d : Database)
      → IsKeyed id d
      → (complete_execution_slice now id sid version d).0 ≡ ok tt
      → (lookup (id, sid) d.execution_slice_state ≡ some active)
        × IsCompletion (complete_execution_slice now id sid version d).1
  unfolding complete_execution_slice
  last_slice_verifies d keyed h =
      let body : Query (Unit {0}) = complete_slice id sid >> advance_workflow in
      let plain = transaction_ok body d h in
      let inside : (body d).0 ≡ ok tt =
        sym (ap (λ (b : Result Error (Unit {0}) × Database). b.0) plain) ∙ h in
      let (_, first, after) = bind_ok (complete_slice id sid) (λ _. advance_workflow) d inside in
      let (before, here) = complete_slice_ok id sid d first in
      let all : transaction body d ≡ advance_workflow (completing d) =
        plain ∙ after ∙ ap advance_workflow here in
      let rest : (advance_workflow (completing d)).0 ≡ ok tt =
        sym (ap (λ (b : Result Error (Unit {0}) × Database). b.0) all) ∙ h in
      (
        before,
        subst (λ (b : Result Error (Unit {0}) × Database). IsCompletion b.1) (sym all)
            (advance_workflow-IsCompletion (completing d) keyed
              (lookup-insert_self (id, sid) completed d.execution_slice_state) rest),
      )
