-- ===== src/Workflow/Jobs/Tests.antt =====
-- A job of internal/workflow/jobs.go that fails and is retried, and the theorems at it.
use skilar.Prelude.{
  Text, ◌≡◌, refl, false, [], ◌∷◌, List, some, codes, ok, text_beq, text_eq, lookup, insert,
  insert_new, ◌==◌, same_items,
}
use skilar.Workflow.Types.{state_eq, state_beq, blocked, executing, unset, Route, Risk, Workflow}
use skilar.Workflow.Machine.{can_transition, blockable_states}
use skilar.Workflow.Requests.{same_transition, bad_block, advance}
use skilar.Workflow.Sqlite
use skilar.Workflow.Sqlite.{
  reread_request, reread_workflow, empty_database, has_event, next_sequence, update_workflow,
  insert_event, insert_idempotency, write_transition,
}
use skilar.Review.{has_prefix}
use skilar.Workflow.Jobs.{
  failed, succeeded, WorkflowJob, JobDatabase, has_live_job, create_error, create_job, update_job,
  update_or_fail, start_job, heartbeat_job, bind_job_session, set_job_pid,
}
use skilar.Workflow.Jobs.Endings.{
  raise_blocker, ended_as, close_job, finish_live, finish_found, finish_job, lower_text,
  count_attempts, latest_job, blocker_is, retry_error, retry_found, retry_technical_job,
  cancel_rows, cancel_jobs,
}
use skilar.Workflow.Jobs.Final.{Call, run_call, run_calls, ended_job_is_final}
use skilar.Workflow.Jobs.Retrying.{IsRetryable, retried_job_failed}

-- What a run computes with.
computing : Unit {0}
unfolding text_beq lookup insert insert_new same_items state_beq can_transition blockable_states
    same_transition bad_block advance Sqlite.transition reread_request reread_workflow
    empty_database has_event next_sequence update_workflow insert_event insert_idempotency
    write_transition has_prefix has_live_job create_error create_job update_job update_or_fail
    start_job heartbeat_job bind_job_session set_job_pid raise_blocker ended_as close_job
    finish_live finish_found finish_job lower_text count_attempts latest_job blocker_is retry_error
    retry_found retry_technical_job cancel_rows cancel_jobs run_call run_calls
computing = tt

abbrev working : Workflow
working = record {
  id = codes "wf";
  state = executing;
  state_version = 3;
  route = Route.planned;
  minimum_risk = Risk.medium;
  basis_tree = codes "tree";
  resume_target = unset;
}

abbrev start_of : JobDatabase
start_of = record {
  store = record empty_database { workflows = (codes "wf", working) ∷ [] };
  workflow_jobs = [];
  workflow_notifications = [];
}

-- A job that starts and fails.
abbrev failing : List Call
failing =
    Call.create (codes "j1") (codes "wf") (codes "run") 1
    ∷ Call.start (codes "j1") 77 2
    ∷ Call.finish (codes "j1") failed (codes "broken") 3
    ∷ []

abbrev broken : JobDatabase
broken = run_calls failing start_of

abbrev ended : WorkflowJob
ended = record {
  workflow_id = codes "wf";
  session_id = [];
  operation = codes "run";
  state = failed;
  pid = 77;
  created_at = 1;
  started_at = some 2;
  heartbeat_at = some 3;
  finished_at = some 3;
  terminal_state = blocked;
  error = codes "broken";
}

job_ended : lookup (codes "j1") broken.workflow_jobs ≡ some ended
unfolding computing
job_ended = refl

-- A start, a success, a heartbeat and a cancellation that come too late, and a notification that
-- another session claims.
abbrev late : List Call
late =
    Call.start (codes "j1") 78 4
    ∷ Call.finish (codes "j1") succeeded [] 5
    ∷ Call.heartbeat (codes "j1") 6
    ∷ Call.cancel (codes "wf")
    ∷ Call.rebind (codes "j1") [] (codes "other")
    ∷ []

ended_job_is_final_example :
    (session : Text) × (lookup (codes "j1") (run_calls late broken).workflow_jobs
      ≡ some (record ended { session_id = session }))
ended_job_is_final_example = ended_job_is_final late broken (codes "j1") ended job_ended refl

abbrev resumed : Workflow
resumed = record working { state_version = 5 }

retried : (retry_technical_job (codes "wf") (codes "run") 8 broken).0 ≡ ok resumed
unfolding computing
retried = refl

retried_job_failed_example :
    (w : Workflow) × (lookup (codes "wf") broken.store.workflows ≡ some w)
    × (w.state ≡ blocked)
    × ((w.resume_target == unset) ≡ false)
    × ((jid : Text) × (j : WorkflowJob) × IsRetryable (codes "wf") (codes "run") jid j broken)
retried_job_failed_example = retried_job_failed (codes "wf") (codes "run") 8 broken resumed retried
