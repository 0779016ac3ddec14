-- ===== src/Workflow/Jobs/Keeping.antt =====
-- The calls of internal/workflow/jobs.go that leave a job alone that has ended, one by one.
use mathlib.Core.Option.{some-injective}
use skilar.Prelude.{
  ℕ, ◌≡◌, refl, ap, sym, ◌∙◌, Bool, true, false, not, ◌&&◌, ◌||◌, [], ◌∷◌, Option, none, some, Text,
  ◌==◌, Map, lookup, insert, lookup-insert, Result, err, pure, modify, or_fail, transaction, ◌>>=◌,
  ◌>>◌, text_eq, text_beq_iff, arith, Bool-cases, inl, inr, if_ind, Keeps, bind-Keeps,
  transaction-Keeps, contains, nat_eq,
}
use skilar.Workflow.Types.{State, state_eq, unset, blocked, Workflow}
use skilar.Workflow.Machine.{blockable_states}
use skilar.Workflow.Sqlite.{Database, insert_event}
use skilar.Workflow.Sqlite
use skilar.Workflow.Jobs.{
  JobState, WorkflowJob, JobDatabase, JobCall, JobError, call, is_live, is_startable, is_terminal,
  is_failed, new_job, insert_unless, create_error, invalid_terminal, not_blocked, no_rows, changed,
  update_job, create_job,
}
use skilar.Workflow.Jobs.Endings.{
  raise_blocker, blocked_from, failure_request, ended_as, close_job, finish_live, finish_found,
  finish_job, retry_error, unless_error, retry_request, id_of, latest_job, retry_found,
  retry_technical_job, cancel_rows,
}

-- A job is not created under an id that is taken.
known_key :
    (d : JobDatabase) (key workflow_id operation : Text) (k : WorkflowJob)
    → lookup key d.workflow_jobs ≡ some k
    → create_error key workflow_id operation d ≡ none
    → ⊥
unfolding create_error
known_key d key workflow_id operation k there fine =
    let fine' = rw there at fine in ground (arith, fine')

module _ (id : Text) (j : WorkflowJob) where
  abbrev pub IsThere : JobDatabase → Type 0
  IsThere d = lookup id d.workflow_jobs ≡ some j

  changed-IsThere :
      (key : Text) (test : WorkflowJob → Bool) (change : WorkflowJob → WorkflowJob)
      (o : Option WorkflowJob) (rows : Map Text WorkflowJob)
      → lookup key rows ≡ o
      → test j ≡ false
      → lookup id rows ≡ some j
      → lookup id (changed key test change o rows) ≡ some j
  changed-IsThere key test change none rows found fails there = there
  changed-IsThere key test change (some k) rows found fails there =
      if_ind (λ r. lookup id r ≡ some j) (test k) (insert key (change k) rows) rows
        (λ passes. other_key passes) (λ _. there)
    where
      other_key : test k ≡ true → lookup id (insert key (change k) rows) ≡ some j
      other_key passes = elim (Bool-cases (key == id)) [
        | inl same ↦
            let equal : k ≡ j =
              some-injective _ _ (sym found ∙ rw ((text_beq_iff key id).0 same) there) in
            absurd (ground (arith, sym passes ∙ ap test equal ∙ fails))
        | inr differ ↦ lookup-insert key id (change k) rows ∙ rw differ there
      ]

  pub update_job-IsThere :
      (key : Text) (test : WorkflowJob → Bool) (change : WorkflowJob → WorkflowJob)
      (d : JobDatabase)
      → test j ≡ false
      → IsThere d
      → IsThere (update_job key test change d)
  unfolding update_job
  update_job-IsThere key test change d fails there =
      changed-IsThere key test change (lookup key d.workflow_jobs) d.workflow_jobs refl fails there

  pub create_job-IsThere :
      (key workflow_id operation : Text) (now : ℕ) (d : JobDatabase)
      → IsThere d
      → IsThere (create_job key workflow_id operation now d).1
  unfolding create_job
  create_job-IsThere key workflow_id operation now d there =
      by_error (create_error key workflow_id operation d) refl
    where
      new : WorkflowJob
      new = new_job workflow_id operation now

      by_error :
          (o : Option JobError)
          → create_error key workflow_id operation d ≡ o
          → IsThere (insert_unless o key new d).1
      by_error (some e) found = there
      by_error none fine = elim (Bool-cases (key == id)) [
        | inl same ↦
            absurd (
              known_key d key workflow_id operation j (rw ((text_beq_iff key id).0 same) there)
                fine)
        | inr differ ↦ lookup-insert key id new d.workflow_jobs ∙ rw differ there
      ]

  module _ (ended : is_terminal j.state ≡ true) where
    close_job-IsThere :
        (key : Text) (k : WorkflowJob) (state : JobState) (message : Text) (now : ℕ)
        (terminal : State) (d : JobDatabase)
        → IsThere d
        → IsThere (close_job key k state message now terminal d).1
    unfolding close_job
    close_job-IsThere key k state message now terminal d there =
        update_job-IsThere key (λ x. is_live x.state) (ended_as state terminal message now) d
          (ground (arith, ended)) there

    raise_blocker-IsThere :
        (now : ℕ) (key : Text) (state : JobState) (w : Workflow) (d : JobDatabase)
        → IsThere d
        → IsThere (raise_blocker now key state w d).1
    unfolding raise_blocker
    raise_blocker-IsThere now key state w d there =
        if_ind (λ (m : JobCall State). IsThere (m d).1)
          (is_failed state && contains w.state blockable_states) blocking (pure w.state)
          (λ _.
            bind-Keeps IsThere setting (λ _. calling >> pure blocked) (λ _ p. p)
              (λ _. bind-Keeps IsThere calling (λ _. pure blocked) (λ _ p. p) (λ _ _ p. p)) d there)
          (λ _. there)
      where
        setting : JobCall (Unit {0})
        setting = modify (λ (d : JobDatabase). record d {
          store = record d.store { workflows = insert w.id (blocked_from w) d.store.workflows };
        })

        calling : JobCall (Unit {0})
        calling = call (insert_event now (failure_request key w) w.state (blocked_from w))

        blocking : JobCall State
        blocking = setting >> (calling >> pure blocked)

    finish_live-IsThere :
        (key : Text) (k : WorkflowJob) (state : JobState) (message : Text) (now : ℕ)
        → Keeps IsThere (finish_live key k state message now)
    unfolding finish_live
    finish_live-IsThere key k state message now d there =
        by_workflow (lookup k.workflow_id d.store.workflows)
      where
        by_workflow :
            (o : Option Workflow)
            → IsThere
                ((or_fail o no_rows >>= λ w.
                    raise_blocker now key state w >>= close_job key k state message now)
                  d).1
        by_workflow none = there
        by_workflow (some w) =
            bind-Keeps IsThere (raise_blocker now key state w) (close_job key k state message now)
              (raise_blocker-IsThere now key state w)
              (λ terminal d' p. close_job-IsThere key k state message now terminal d' p) d there

    pub finish_job-IsThere :
        (key : Text) (state : JobState) (message : Text) (now : ℕ)
        → Keeps IsThere (finish_job key state message now)
    unfolding finish_job finish_found
    finish_job-IsThere key state message now d there =
        if_ind (λ (r : Result JobError (Unit {0}) × JobDatabase). IsThere r.1) (is_live state)
          (err invalid_terminal, d)
          (finish_found key state message now (lookup key d.workflow_jobs) d) (λ _. there)
          (λ _. by_job (lookup key d.workflow_jobs))
      where
        by_job : (o : Option WorkflowJob) → IsThere (finish_found key state message now o d).1
        by_job none = there
        by_job (some k) =
            if_ind (λ (m : JobCall (Unit {0})). IsThere (m d).1) (is_terminal k.state) (pure tt)
              (transaction (finish_live key k state message now)) (λ _. there)
              (λ _.
                transaction-Keeps IsThere (finish_live key k state message now)
                  (finish_live-IsThere key k state message now) d there)

    pub retry-IsThere :
        (workflow_id operation : Text) (now : ℕ)
        → Keeps IsThere (retry_technical_job workflow_id operation now)
    unfolding retry_technical_job retry_found
    retry-IsThere workflow_id operation now d there =
        by_workflow (lookup workflow_id d.store.workflows)
      where
        latest : Option (Text × WorkflowJob)
        latest = latest_job workflow_id operation d.workflow_jobs

        by_error :
            (w : Workflow) (o : Option JobError)
            → IsThere
                (unless_error o (call (Sqlite.transition now (retry_request w (id_of latest)))) d).1
        by_error w none = there
        by_error w (some e) = there

        by_workflow : (o : Option Workflow) → IsThere (retry_found workflow_id operation now o d).1
        by_workflow none = there
        by_workflow (some w) =
            if_ind (λ (r : Result JobError Workflow × JobDatabase). IsThere r.1)
              (not (w.state == blocked) || w.resume_target == unset) (err not_blocked, d)
              (unless_error (retry_error workflow_id operation w latest d)
                (call (Sqlite.transition now (retry_request w (id_of latest)))) d)
              (λ _. there) (λ _. by_error w (retry_error workflow_id operation w latest d))

    pub cancel-IsThere :
        (workflow_id : Text) (rows : Map Text WorkflowJob)
        → lookup id rows ≡ some j
        → lookup id (cancel_rows workflow_id rows) ≡ some j
    unfolding cancel_rows lookup
    cancel-IsThere workflow_id [] there = there
    cancel-IsThere workflow_id ((key, k) ∷ rows) there = elim (Bool-cases (key == id)) [
      | inl same ↦
          let equal : k ≡ j = some-injective _ _ (rw same at there) in
          let kept : is_startable k.state ≡ false =
            ground (arith, ended, ap (λ (x : WorkflowJob). is_startable x.state) equal) in
          rw (same, kept) (ap some (ground (arith, equal)))
      | inr differ ↦ rw differ (cancel-IsThere workflow_id rows (rw differ at there))
    ]
