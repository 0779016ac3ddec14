-- ===== src/Workflow/Jobs/Final.antt =====
-- A job of internal/workflow/jobs.go that has ended stays as it is, but for its session.
use mathlib.Core.Option.{some-injective}
use skilar.Prelude.{
  ℕ, ◌≡◌, refl, ap, sym, ◌∙◌, Bool, true, ◌&&◌, ◌||◌, List, [], ◌∷◌, Option, none, some, Text, ◌==◌,
  is_empty, if◌then◌else◌, Map, lookup, insert, lookup-insert, Result, ok, err, text_eq,
  text_beq_iff, arith, Bool-cases, inl, inr, if_ind, nat_eq,
}
use skilar.Workflow.Types.{State, state_eq}
use skilar.Workflow.Jobs.{
  JobState, WorkflowJob, JobDatabase, JobError, is_live, is_queued, is_startable, is_beating,
  is_terminal, pid_not_positive, not_live, had_pid, changed, update_job, update_or_fail, create_job,
  bind_job_session, set_job_pid, start_job, heartbeat_job, matches,
}
use skilar.Workflow.Jobs.Keeping.{
  IsThere, update_job-IsThere, create_job-IsThere, finish_job-IsThere, retry-IsThere,
  cancel-IsThere,
}
use skilar.Workflow.Jobs.Updates.{retire_job, rebind_job}
use skilar.Workflow.Jobs.Endings.{finish_job, retry_technical_job, cancel_jobs}

-- The calls that write to workflow_jobs, with their arguments. `retire` and `rebind` are the single
-- statements of Jobs.Updates.
pub data Call : Type 0 where
  create : Text → Text → Text → ℕ → Call
  bind : Text → Text → Call
  set_pid : Text → ℕ → Call
  start : Text → ℕ → ℕ → Call
  heartbeat : Text → ℕ → Call
  finish : Text → JobState → Text → ℕ → Call
  retry : Text → Text → ℕ → Call
  cancel : Text → Call
  retire : Text → Text → State → ℕ → Call
  rebind : Text → Text → Text → Call

unfoldable pub run_call : Call → JobDatabase → JobDatabase
run_call (create id workflow_id operation now) d = (create_job id workflow_id operation now d).1
run_call (bind id session) d = (bind_job_session id session d).1
run_call (set_pid id pid) d = (set_job_pid id pid d).1
run_call (start id pid now) d = (start_job id pid now d).1
run_call (heartbeat id now) d = (heartbeat_job id now d).1
run_call (finish id state message now) d = (finish_job id state message now d).1
run_call (retry workflow_id operation now) d = (retry_technical_job workflow_id operation now d).1
run_call (cancel workflow_id) d = (cancel_jobs workflow_id d).1
run_call (retire id workflow_id terminal now) d = retire_job id workflow_id terminal now d
run_call (rebind id bound_session consumer) d = rebind_job id bound_session consumer d

unfoldable pub run_calls : List Call → JobDatabase → JobDatabase
run_calls [] d = d
run_calls (c ∷ calls) d = run_calls calls (run_call c d)

module _ (id : Text) (j : WorkflowJob) where
  module _ (ended : is_terminal j.state ≡ true) where
    -- Only a claim of a notification writes to a job that has ended: it may change the session.
    abbrev IsKeptIn : Map Text WorkflowJob → Type 0
    IsKeptIn rows = (session : Text) × (lookup id rows ≡ some (record j { session_id = session }))

    abbrev IsKept : JobDatabase → Type 0
    IsKept d = IsKeptIn d.workflow_jobs

    rebound :
        (key bound_session consumer : Text) (o : Option WorkflowJob) (rows : Map Text WorkflowJob)
        → lookup key rows ≡ o
        → lookup id rows ≡ some j
        → IsKeptIn (
            changed key
              (λ x. x.session_id == bound_session)
              (λ x. record x { session_id = consumer })
              o
              rows)
    rebound key bound_session consumer none rows found there = (j.session_id, there)
    rebound key bound_session consumer (some k) rows found there =
        if_ind IsKeptIn (k.session_id == bound_session)
          (insert key (record k { session_id = consumer }) rows) rows
          (λ _. elim (Bool-cases (key == id)) [
            | inl same ↦
                let equal : k ≡ j =
                  some-injective _ _ (sym found ∙ rw ((text_beq_iff key id).0 same) there) in
                (
                  consumer,
                  lookup-insert key id (record k { session_id = consumer }) rows
                      ∙ rw same (
                          ap (λ (x : WorkflowJob). some (record x { session_id = consumer }))
                            equal),
                )
            | inr differ ↦ (
              j.session_id,
              lookup-insert key id (record k { session_id = consumer }) rows ∙ rw differ there,
            )
          ])
          (λ _. (j.session_id, there))

    rebind_job-IsKept :
        (key bound_session consumer : Text) (d : JobDatabase)
        → IsThere id j d
        → IsKept (rebind_job key bound_session consumer d)
    unfolding rebind_job update_job
    rebind_job-IsKept key bound_session consumer d there =
        rebound key bound_session consumer (lookup key d.workflow_jobs) d.workflow_jobs refl there

    run_call-IsKept : (c : Call) (d : JobDatabase) → IsThere id j d → IsKept (run_call c d)
    unfolding run_call retire_job bind_job_session set_job_pid start_job heartbeat_job
        update_or_fail cancel_jobs
    run_call-IsKept (create key workflow_id operation now) d there =
        (j.session_id, create_job-IsThere id j key workflow_id operation now d there)
    run_call-IsKept (bind key session) d there = (
      j.session_id,
      if_ind (IsThere id j) (is_empty session) d _ (λ _. there)
          (λ _.
            update_job-IsThere id j key (λ x. is_queued x.state) _ d (ground (arith, ended)) there),
    )
    run_call-IsKept (set_pid key pid) d there = (
      j.session_id,
      let test : WorkflowJob → Bool = λ x. is_startable x.state && (x.pid == 0 || x.pid == pid) in
          let after = update_job key test (λ x. record x { pid = pid }) d in
          let found = lookup key d.workflow_jobs in
          if_ind (λ (r : Result JobError (Unit {0}) × JobDatabase). IsThere id j r.1) (pid == 0)
            (err pid_not_positive, d)
            (if matches test found || had_pid pid found then ok tt else err not_live, after)
            (λ _. there) (λ _. update_job-IsThere id j key test _ d (ground (arith, ended)) there),
    )
    run_call-IsKept (start key pid now) d there = (
      j.session_id,
      update_job-IsThere id j key (λ x. is_queued x.state) _ d (ground (arith, ended)) there,
    )
    run_call-IsKept (heartbeat key now) d there = (
      j.session_id,
      update_job-IsThere id j key (λ x. is_beating x.state) _ d (ground (arith, ended)) there,
    )
    run_call-IsKept (finish key state message now) d there =
        (j.session_id, finish_job-IsThere id j ended key state message now d there)
    run_call-IsKept (retry workflow_id operation now) d there =
        (j.session_id, retry-IsThere id j ended workflow_id operation now d there)
    run_call-IsKept (cancel workflow_id) d there =
        (j.session_id, cancel-IsThere id j ended workflow_id d.workflow_jobs there)
    run_call-IsKept (retire key workflow_id terminal now) d there = (
      j.session_id,
      update_job-IsThere id j key (λ x. x.workflow_id == workflow_id && is_live x.state) _ d
          (ground (arith, ended)) there,
    )
    run_call-IsKept (rebind key bound_session consumer) d there =
        rebind_job-IsKept key bound_session consumer d there

-- A job in a terminal state stays as it is but for its session, whatever calls follow that write to
-- jobs.
pub ended_job_is_final :
    (calls : List Call) (d : JobDatabase) (id : Text) (j : WorkflowJob)
    → lookup id d.workflow_jobs ≡ some j
    → is_terminal j.state ≡ true
    → (session : Text) × (lookup id (run_calls calls d).workflow_jobs
        ≡ some (record j { session_id = session }))
unfolding run_calls
ended_job_is_final [] d id j there ended = (j.session_id, there)
ended_job_is_final (c ∷ calls) d id j there ended =
    let (session, kept) = run_call-IsKept id j ended c d there in
    ended_job_is_final calls (run_call c d) id (record j { session_id = session }) kept ended
