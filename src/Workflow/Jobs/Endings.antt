-- ===== src/Workflow/Jobs/Endings.antt =====
-- How the jobs of internal/workflow/jobs.go end: their terminal states, the blocker that a failure
-- raises, the retry of a failure, and cancellation.
use skilar.Prelude.{
  ℕ, suc, ◌+◌, ◌++◌, Bool, false, not, ◌&&◌, ◌||◌, List, [], ◌∷◌, Option, none, some, Text, ◌==◌,
  if◌then◌else◌, Map, lookup, insert, insert_new, ok, err, pure, fail, gets, modify, or_fail,
  transaction, ◌>>=◌, ◌>>◌, u64, text_eq, nat_eq, codes, contains, ltb, leb,
}
use skilar.Workflow.Types.{State, blocked, unset, state_eq, Workflow, Transition, Event, not_found}
use skilar.Workflow.Machine.{blockable_states}
use skilar.Workflow.Sqlite.{Database, insert_event}
use skilar.Workflow.Sqlite
use skilar.Review.{has_prefix}
use skilar.Workflow.Jobs.{
  JobState, cancel_requested, WorkflowJob, Notification, JobDatabase, JobError, from_store,
  invalid_terminal, no_rows, not_blocked, latest_not_failed, retry_limit, other_blocker, JobCall,
  max_workflow_job_attempts, call, is_live, is_terminal, is_startable, is_failed, is_cancelled,
  update_job,
}

abbrev pub blocked_from : Workflow → Workflow
blocked_from w = record w {
  state = blocked;
  state_version = u64 (w.state_version + 1);
  resume_target = w.state;
}

-- The event of the blocker that a failed job raises; only its key and its artifacts are read.
abbrev pub failure_request : Text → Workflow → Transition
failure_request id w = record {
  workflow_id = w.id;
  expected_state = w.state;
  expected_version = w.state_version;
  next_state = blocked;
  idempotency_key = codes "job-failed:" ++ id;
  artifact_ids = (codes "job-blocker:" ++ id) ∷ (codes "job-evidence:" ++ id) ∷ [];
  resume_target = unset;
}

-- The blocker of a failed job, and the state that its workflow is in then.
unfoldable pub raise_blocker : ℕ → Text → JobState → Workflow → JobCall State
raise_blocker now id state w =
    if is_failed state && contains w.state blockable_states
    then (do
      modify (λ d. record d {
        store = record d.store { workflows = insert w.id (blocked_from w) d.store.workflows };
      })
      call (insert_event now (failure_request id w) w.state (blocked_from w))
      pure blocked)
    else pure w.state

unfoldable pub ended_as : JobState → State → Text → ℕ → WorkflowJob → WorkflowJob
ended_as state terminal message now j = record j {
  state = state;
  terminal_state = terminal;
  error = message;
  finished_at = some now;
  heartbeat_at = some now;
}

abbrev pub new_notification : Text → WorkflowJob → State → ℕ → Notification
new_notification id j terminal now = record {
  workflow_id = j.workflow_id;
  job_id = id;
  terminal_state = terminal;
  created_at = now;
  claim_token = [];
  claimed_by = [];
  claimed_at = none;
  acked_at = none;
}

unfoldable pub close_job : Text → WorkflowJob → JobState → Text → ℕ → State → JobCall (Unit {0})
close_job id j state message now terminal = do
  modify (update_job id (λ k. is_live k.state) (ended_as state terminal message now))
  modify (λ d. record d {
    workflow_notifications =
        insert_new (codes "notification:" ++ id) (new_notification id j terminal now)
          d.workflow_notifications;
  })

-- `FinishWorkflowJob` on a live job.
unfoldable pub finish_live : Text → WorkflowJob → JobState → Text → ℕ → JobCall (Unit {0})
finish_live id j state message now = do
  w ← or_fail (← gets (λ d. lookup j.workflow_id d.store.workflows)) no_rows
  terminal ← raise_blocker now id state w
  close_job id j state message now terminal

unfoldable pub finish_found : Text → JobState → Text → ℕ → Option WorkflowJob → JobCall (Unit {0})
finish_found id state message now none = fail no_rows
finish_found id state message now (some j) =
    if is_terminal j.state then pure tt else transaction (finish_live id j state message now)

unfoldable pub finish_job : Text → JobState → Text → ℕ → JobCall (Unit {0})
finish_job id state message now d =
    if is_live state
    then (err invalid_terminal, d)
    else finish_found id state message now (lookup id d.workflow_jobs) d

-- An ASCII letter in lower case, as LIKE compares.
abbrev lower : ℕ → ℕ
lower b = if ltb 64 b && ltb b 91 then b + 32 else b

unfoldable pub lower_text : Text → Text
lower_text [] = []
lower_text (b ∷ bs) = lower b ∷ lower_text bs

-- A job that gave way to another one, which is no attempt.
abbrev pub is_displaced : WorkflowJob → Bool
is_displaced j =
    is_cancelled j.state && has_prefix (lower_text j.error) (codes "execution displaced: ")

abbrev pub is_job_of : Text → Text → WorkflowJob → Bool
is_job_of workflow_id operation j = j.workflow_id == workflow_id && j.operation == operation

-- The attempts that a retry counts.
unfoldable pub count_attempts : Text → Text → Map Text WorkflowJob → ℕ
count_attempts workflow_id operation [] = 0
count_attempts workflow_id operation ((id, j) ∷ rows) =
    let rest = count_attempts workflow_id operation rows in
    if is_job_of workflow_id operation j && not (is_displaced j) then suc rest else rest

abbrev pub or_later :
    Option (Text × WorkflowJob) → Option (Text × WorkflowJob) → Option (Text × WorkflowJob)
or_later first none = first
or_later first (some last) = some last

-- The row that was inserted last.
unfoldable pub latest_job : Text → Text → Map Text WorkflowJob → Option (Text × WorkflowJob)
latest_job workflow_id operation [] = none
latest_job workflow_id operation ((id, j) ∷ rows) =
    or_later (if is_job_of workflow_id operation j then some (id, j) else none)
      (latest_job workflow_id operation rows)

-- Whether the last event into `blocked` of the workflow has the artifact.
unfoldable pub blocker_is : Text → Text → List Event → Option Bool
blocker_is workflow_id artifact [] = none
blocker_is workflow_id artifact (e ∷ events) = elim (blocker_is workflow_id artifact events) [
  | some found ↦ some found
  | none ↦
      if e.workflow_id == workflow_id && e.to == blocked
      then some (contains artifact e.artifact_ids)
      else none
]

abbrev pub is_yes : Option Bool → Bool
is_yes none = false
is_yes (some b) = b

abbrev pub retry_request : Workflow → Text → Transition
retry_request w id = record {
  workflow_id = w.id;
  expected_state = blocked;
  expected_version = w.state_version;
  next_state = w.resume_target;
  idempotency_key = codes "technical-retry:" ++ id;
  artifact_ids = [];
  resume_target = unset;
}

-- The tests of `RetryTechnicalWorkflowJob` on the workflow and its latest job.
unfoldable pub retry_error :
    Text → Text → Workflow → Option (Text × WorkflowJob) → JobDatabase → Option JobError
retry_error id operation w none d = some no_rows
retry_error id operation w (some (jid, j)) d =
    if not (is_failed j.state)
    then some latest_not_failed
    else if leb max_workflow_job_attempts (count_attempts id operation d.workflow_jobs)
    then some retry_limit
    else if not (is_yes (blocker_is id (codes "job-blocker:" ++ jid) d.store.transition_events))
    then some other_blocker
    else none

abbrev pub id_of : Option (Text × WorkflowJob) → Text
id_of none = []
id_of (some (id, j)) = id

abbrev pub unless_error : Option JobError → JobCall Workflow → JobCall Workflow
unless_error (some e) body = fail e
unless_error none body = body

unfoldable pub retry_found : Text → Text → ℕ → Option Workflow → JobCall Workflow
retry_found id operation now none d = (err (from_store not_found), d)
retry_found id operation now (some w) d =
    if not (w.state == blocked) || w.resume_target == unset
    then (err not_blocked, d)
    else let latest = latest_job id operation d.workflow_jobs in
      unless_error (retry_error id operation w latest d)
        (call (Sqlite.transition now (retry_request w (id_of latest)))) d

unfoldable pub retry_technical_job : Text → Text → ℕ → JobCall Workflow
retry_technical_job id operation now d =
    retry_found id operation now (lookup id d.store.workflows) d

unfoldable pub cancel_rows : Text → Map Text WorkflowJob → Map Text WorkflowJob
cancel_rows workflow_id [] = []
cancel_rows workflow_id ((id, j) ∷ rows) =
    (
      id,
      if j.workflow_id == workflow_id && is_startable j.state
          then record j { state = cancel_requested }
          else j,
    )
    ∷ cancel_rows workflow_id rows

-- The update of `CancelWorkflowJobs`.
unfoldable pub cancel_jobs : Text → JobCall (Unit {0})
cancel_jobs workflow_id d =
    (ok tt, record d { workflow_jobs = cancel_rows workflow_id d.workflow_jobs })
