-- ===== src/Workflow/Jobs.antt =====
-- The detached jobs of internal/workflow/jobs.go: rows of `workflow_jobs` in the order of their
-- insertion, and the notifications that wait for a consumer. A time that is not set, '' in the
-- table, is `none`.
pub mod Endings
pub mod Updates
pub mod Keeping
pub mod Final
pub mod Latest
pub mod Retrying
mod Tests
use skilar.Prelude.{
  ℕ, zero, suc, ◌+◌, ◌++◌, Bool, true, false, not, ◌&&◌, ◌||◌, List, [], ◌∷◌, Option, none, some,
  Text, ◌==◌, is_empty, if◌then◌else◌, Map, lookup, insert, insert_new, Result, ok, err, Action,
  pure, fail, gets, modify, fail_if, or_fail, transaction, ◌>>=◌, ◌>>◌, u64, text_eq, nat_eq, codes,
  contains, ltb, leb,
}
use skilar.Workflow.Types.{
  State, blocked, unset, state_eq, Workflow, Transition, Event, Error, constraint, not_found,
}
use skilar.Workflow.Machine.{blockable_states}
use skilar.Workflow.Memory.{is_some}
use skilar.Workflow.Sqlite.{Database, insert_event}
use skilar.Workflow.Sqlite

pub data JobState : Type 0 where
  queued running cancel_requested succeeded failed cancelled waiting_approval : JobState

pub record WorkflowJob : Type 0 where
  pub workflow_id : Text
  pub session_id : Text
  pub operation : Text
  pub state : JobState
  pub pid : ℕ
  pub created_at : ℕ
  pub started_at : Option ℕ
  pub heartbeat_at : Option ℕ
  pub finished_at : Option ℕ
  pub terminal_state : State
  pub error : Text

pub record Notification : Type 0 where
  pub workflow_id : Text
  pub job_id : Text
  pub terminal_state : State
  pub created_at : ℕ
  pub claim_token : Text
  pub claimed_by : Text
  pub claimed_at : Option ℕ
  pub acked_at : Option ℕ

pub record JobDatabase : Type 0 where
  pub store : Database
  pub workflow_jobs : Map Text WorkflowJob
  pub workflow_notifications : Map Text Notification

pub data JobError : Type 0 where
  from_store : Error → JobError
  id_required unsupported_operation pid_not_positive not_queued not_live : JobError
  invalid_terminal no_rows not_blocked latest_not_failed retry_limit other_blocker : JobError
  claim_not_current token_required : JobError

abbrev pub JobCall : Type 0 → Type 0
JobCall A = Action JobDatabase JobError A

abbrev pub max_workflow_job_attempts : ℕ
max_workflow_job_attempts = 3

abbrev pub raised : {A : Type 0} → Result Error A → Result JobError A
raised (ok a) = ok a
raised (err e) = err (from_store e)

-- A call of the workflow store.
abbrev pub call : {A : Type 0} → Action Database Error A → JobCall A
call m d = let r = m d.store in (raised r.0, record d { store = r.1 })

abbrev pub is_live : JobState → Bool
is_live queued = true
is_live running = true
is_live cancel_requested = true
is_live _ = false

abbrev pub is_terminal : JobState → Bool
is_terminal state = not (is_live state)

abbrev pub is_queued : JobState → Bool
is_queued queued = true
is_queued _ = false

abbrev pub is_startable : JobState → Bool
is_startable queued = true
is_startable running = true
is_startable _ = false

abbrev pub is_beating : JobState → Bool
is_beating running = true
is_beating cancel_requested = true
is_beating _ = false

abbrev pub is_failed : JobState → Bool
is_failed failed = true
is_failed _ = false

abbrev pub is_cancelled : JobState → Bool
is_cancelled cancelled = true
is_cancelled _ = false

-- succeeded, failed and cancelled, but not waiting_approval.
abbrev pub has_ended : JobState → Bool
has_ended succeeded = true
has_ended failed = true
has_ended cancelled = true
has_ended _ = false

-- The rows that the index one_live_workflow_job counts.
unfoldable pub has_live_job : Text → Map Text WorkflowJob → Bool
has_live_job workflow_id [] = false
has_live_job workflow_id ((id, j) ∷ rows) =
    (j.workflow_id == workflow_id && is_live j.state) || has_live_job workflow_id rows

abbrev pub new_job : Text → Text → ℕ → WorkflowJob
new_job workflow_id operation now = record {
  workflow_id = workflow_id;
  session_id = [];
  operation = operation;
  state = queued;
  pid = 0;
  created_at = now;
  started_at = none;
  heartbeat_at = none;
  finished_at = none;
  terminal_state = unset;
  error = [];
}

-- The tests of `CreateWorkflowJobOperation`, then those of the table.
unfoldable pub create_error : Text → Text → Text → JobDatabase → Option JobError
create_error id workflow_id operation d =
    if is_empty id || is_empty workflow_id
    then some id_required
    else if not (operation == codes "run") && not (operation == codes "review")
    then some unsupported_operation
    else if is_some (lookup id d.workflow_jobs)
        || not (is_some (lookup workflow_id d.store.workflows))
        || has_live_job workflow_id d.workflow_jobs
    then some (from_store constraint)
    else none

abbrev pub insert_unless : Option JobError → Text → WorkflowJob → JobCall WorkflowJob
insert_unless (some e) id j d = (err e, d)
insert_unless none id j d = (ok j, record d { workflow_jobs = insert id j d.workflow_jobs })

-- `CreateWorkflowJobOperation`
unfoldable pub create_job : Text → Text → Text → ℕ → JobCall WorkflowJob
create_job id workflow_id operation now d =
    insert_unless (create_error id workflow_id operation d) id (new_job workflow_id operation now) d

-- Whether an UPDATE … WHERE id=? and a test on the row finds one.
abbrev pub matches : (WorkflowJob → Bool) → Option WorkflowJob → Bool
matches test none = false
matches test (some j) = test j

abbrev pub changed :
    Text
    → (WorkflowJob → Bool)
    → (WorkflowJob → WorkflowJob)
    → Option WorkflowJob
    → Map Text WorkflowJob
    → Map Text WorkflowJob
changed id test change none rows = rows
changed id test change (some j) rows = if test j then insert id (change j) rows else rows

unfoldable pub update_job :
    Text → (WorkflowJob → Bool) → (WorkflowJob → WorkflowJob) → JobDatabase → JobDatabase
update_job id test change d = record d {
  workflow_jobs = changed id test change (lookup id d.workflow_jobs) d.workflow_jobs;
}

-- An UPDATE that has to find its row.
unfoldable pub update_or_fail :
    Text → (WorkflowJob → Bool) → (WorkflowJob → WorkflowJob) → JobError → JobCall (Unit {0})
update_or_fail id test change e d =
    (if matches test (lookup id d.workflow_jobs) then ok tt else err e, update_job id test change d)

unfoldable pub bind_job_session : Text → Text → JobCall (Unit {0})
bind_job_session id session d = (
  ok tt,
  if is_empty session
      then d
      else update_job id (λ j. is_queued j.state) (λ j. record j { session_id = session }) d,
)

-- `SetWorkflowJobPID` when no row was changed.
abbrev had_pid : ℕ → Option WorkflowJob → Bool
had_pid pid none = false
had_pid pid (some j) = j.pid == pid && has_ended j.state

unfoldable pub set_job_pid : Text → ℕ → JobCall (Unit {0})
set_job_pid id pid d =
    if pid == 0
    then (err pid_not_positive, d)
    else let test : WorkflowJob → Bool =
        λ j. is_startable j.state && (j.pid == 0 || j.pid == pid) in
      (
        if matches test (lookup id d.workflow_jobs) || had_pid pid (lookup id d.workflow_jobs)
            then ok tt
            else err not_live,
        update_job id test (λ j. record j { pid = pid }) d,
      )

unfoldable pub start_job : Text → ℕ → ℕ → JobCall (Unit {0})
start_job id pid now =
    update_or_fail id (λ j. is_queued j.state)
      (λ j. record j { state = running; pid = pid; started_at = some now; heartbeat_at = some now })
      not_queued

unfoldable pub heartbeat_job : Text → ℕ → JobCall (Unit {0})
heartbeat_job id now =
    update_or_fail id (λ j. is_beating j.state) (λ j. record j { heartbeat_at = some now }) not_live
