-- ===== src/Workflow/Jobs/Retrying.antt =====
-- What a retry in internal/workflow/jobs.go has made sure of.
use mathlib.Core.Path.{subst}
use skilar.Prelude.{
  List, contains, sym, ◌∙◌, Bool, ℕ, ◌≡◌, ◌<◌, refl, true, false, not, ◌||◌, Option, none, some,
  Text, ◌==◌, lookup, ok, codes, ◌++◌, arith, Bool-cases, inl, inr, text_eq,
}
use skilar.Workflow.Types.{state_eq, state_beq_iff, blocked, unset, Workflow, Event}
use skilar.Workflow.Sqlite
use skilar.Workflow.Jobs.{WorkflowJob, JobDatabase, JobError, JobState, failed, call, is_failed}
use skilar.Workflow.Jobs.Latest.{
  IsLast, Counts, IsJobOf, IsAttempt, IsLatest, IsBlock, IsBlocker, count_attempts-Counts,
  latest_job-IsLatest, blocker_is-IsBlocker,
}
use skilar.Workflow.Jobs.Endings.{
  count_attempts, latest_job, blocker_is, is_yes, retry_error, unless_error, retry_request, id_of,
  retry_found, retry_technical_job,
}

-- The last job of the operation failed, less than three of its jobs count as attempts, and the last
-- step of the workflow into `blocked` names the job as its cause.
pub record IsRetryable (id operation : Text) (jid : Text) (j : WorkflowJob) (d : JobDatabase)
    : Type 0 where
  pub is_last : IsLast (IsJobOf id operation) (jid, j) d.workflow_jobs
  pub has_failed : j.state ≡ failed
  pub attempts : (n : ℕ) × Counts (IsAttempt id operation) d.workflow_jobs n × (n < 3)
  pub blocker :
      (e : Event) × IsLast (IsBlock id) e d.store.transition_events
      × (contains (codes "job-blocker:" ++ jid) e.artifact_ids ≡ true)

is_failed_ok : (s : JobState) → is_failed s ≡ true → s ≡ failed
is_failed_ok s h = ground (arith, h)

blocker_of :
    (id artifact : Text) (events : List Event) (o : Option Bool)
    → blocker_is id artifact events ≡ o
    → is_yes o ≡ true
    → (e : Event) × IsLast (IsBlock id) e events × (contains artifact e.artifact_ids ≡ true)
blocker_of id artifact events none found yes_it_is = cc
blocker_of id artifact events (some b) found yes_it_is =
    let (e, last, same) =
      subst (IsBlocker id artifact events) found (blocker_is-IsBlocker id artifact events) in
    (e, last, sym same ∙ yes_it_is)

retry_error-none :
    (id operation : Text) (w : Workflow) (latest : Option (Text × WorkflowJob)) (d : JobDatabase)
    → latest_job id operation d.workflow_jobs ≡ latest
    → retry_error id operation w latest d ≡ none
    → (jid : Text) × (j : WorkflowJob) × IsRetryable id operation jid j d
unfolding retry_error
retry_error-none id operation w none d found h = absurd (ground (arith, h))
retry_error-none id operation w (some (jid, j)) d found h =
    let rows = d.workflow_jobs in
    (
      jid,
      j,
      record {
        is_last = subst (IsLatest id operation rows) found (latest_job-IsLatest id operation rows);
        has_failed = is_failed_ok j.state (ground (arith, h));
        attempts = (
          count_attempts id operation rows,
          count_attempts-Counts id operation rows,
          ground (arith, h),
        );
        blocker =
            blocker_of id (codes "job-blocker:" ++ jid) d.store.transition_events _ refl
              (ground (arith, h));
      },
    )

-- A technical retry succeeds only for a blocked workflow with a state to resume, whose last job of the
-- operation failed and is named as the cause by its last step into `blocked`, while less than three
-- of the jobs of the operation count as attempts, which leaves out those that gave way to another.
pub retried_job_failed :
    (id operation : Text) (now : ℕ) (d : JobDatabase) (after : Workflow)
    → (retry_technical_job id operation now d).0 ≡ ok after
    → (w : Workflow) × (lookup id d.store.workflows ≡ some w)
      × (w.state ≡ blocked)
      × ((w.resume_target == unset) ≡ false)
      × ((jid : Text) × (j : WorkflowJob) × IsRetryable id operation jid j d)
unfolding retry_technical_job retry_found
retried_job_failed id operation now d after h = by_workflow (lookup id d.store.workflows) refl h
  where
    latest : Option (Text × WorkflowJob)
    latest = latest_job id operation d.workflow_jobs

    by_error :
        (w : Workflow) (o : Option JobError)
        → (unless_error o (call (Sqlite.transition now (retry_request w (id_of latest)))) d).0
          ≡ ok after
        → o ≡ none
    by_error w none g = refl
    by_error w (some e) g = cc

    by_workflow :
        (o : Option Workflow)
        → lookup id d.store.workflows ≡ o
        → (retry_found id operation now o d).0 ≡ ok after
        → (w : Workflow) × (lookup id d.store.workflows ≡ some w)
          × (w.state ≡ blocked)
          × ((w.resume_target == unset) ≡ false)
          × ((jid : Text) × (j : WorkflowJob) × IsRetryable id operation jid j d)
    by_workflow none found g = cc
    by_workflow (some w) found g =
        elim (Bool-cases (not (w.state == blocked) || w.resume_target == unset)) [
          | inl bad ↦ let refused = rw bad at g in cc
          | inr fine ↦
              let none_wrong = by_error w (retry_error id operation w latest d) (rw fine at g) in
              (
                w,
                found,
                (state_beq_iff w.state blocked).0 (ground (arith, fine)),
                ground (arith, fine),
                retry_error-none id operation w latest d refl none_wrong,
              )
        ]
