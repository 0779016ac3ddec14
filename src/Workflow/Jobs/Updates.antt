-- ===== src/Workflow/Jobs/Updates.antt =====
-- The UPDATE statements on workflow_jobs of internal/workflow/jobs.go in two methods that are not
-- modelled as a whole: ReconcileManagedEvaluationJobs and claimWorkflowNotification.
use skilar.Prelude.{ℕ, ◌&&◌, Text, ◌==◌, text_eq, codes}
use skilar.Workflow.Types.{State}
use skilar.Workflow.Jobs.{cancelled, JobDatabase, is_live, update_job}
use skilar.Workflow.Jobs.Endings.{ended_as}

-- A live job of an evaluation whose processes have been stopped.
unfoldable pub retire_job : Text → Text → State → ℕ → JobDatabase → JobDatabase
retire_job id workflow_id terminal now =
    update_job id (λ j. j.workflow_id == workflow_id && is_live j.state)
      (ended_as cancelled terminal (codes "evaluator-managed cleanup") now)

-- The job of a notification that another session has claimed.
unfoldable pub rebind_job : Text → Text → Text → JobDatabase → JobDatabase
rebind_job id bound_session consumer =
    update_job id (λ j. j.session_id == bound_session) (λ j. record j { session_id = consumer })
