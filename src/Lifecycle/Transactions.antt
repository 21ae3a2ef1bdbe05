-- ===== src/Lifecycle/Transactions.antt =====
-- The transactions of cmd/brain that write jobs, projects or deployments, and their sequences: those
-- of jobs.go, worker.go, project_status.go, cleanup.go, reconcile.go, project_config.go and
-- project_runtime.go.
use ovek.Common.{◌≡◌, String, Bool, true, some, ◌⊎◌}
use ovek.Store.{Db, JobRow, ProjectStatus, Job, DeploymentRow}
use ovek.Store.Sql.{ok, select_row}
use ovek.Projects.{ensure_project, set_project_status, sync_project_status}
use ovek.Jobs.{has_id, create_queued_job_with_source}
use ovek.Worker.{
  DeploymentResult, claim_queued_job, mark_job_failed, mark_job_succeeded, update_job_phase,
  recover_interrupted_jobs,
}
use ovek.Runtime.{ProjectAppRuntime}
use ovek.Cleanup.Listing.{clear_project_runtime_state}
use ovek.Cleanup.Clearing.{is_up}
use ovek.Reconcile.{normalize_project_current_deployment, promote_project_app_runtime}
use ovek.Lifecycle.Statuses.{IsCalm}

-- One transaction, or a change of the other tables. A promotion is of a job as it was loaded: its
-- project is that of its row. The statuses that a stop and a start store (StopRuntime, StartRuntime
-- and RestartRuntime of cmd/brain/project_runtime.go) may come while a job of the project is active
-- only if `during_jobs` says so.
pub data Step (during_jobs : Bool) (db db' : Db) : Type 0 where
  create :
      (id at n source_type source_ref : String) (job : Job)
      → create_queued_job_with_source id at n source_type source_ref true db ≡ ok (job, db')
      → Step during_jobs db db'
  claim : (id at : String) → db' ≡ (claim_queued_job id at db).1 → Step during_jobs db db'
  set_phase : (id phase : String) → db' ≡ update_job_phase id phase db → Step during_jobs db db'
  fail :
      (id finished_at message : String) (result : DeploymentResult)
      → mark_job_failed id finished_at message result db ≡ ok db'
      → Step during_jobs db db'
  promote :
      (job : Job) (finished_at : String) (result : DeploymentResult) (row : JobRow)
      → select_row (has_id job.id) db.jobs ≡ some row
      → row.project_name ≡ job.project_name
      → mark_job_succeeded job finished_at result db ≡ ok db'
      → Step during_jobs db db'
  recover :
      (finished_at : String → String)
      → recover_interrupted_jobs finished_at db ≡ ok db'
      → Step during_jobs db db'
  ensure : (n at : String) → db' ≡ ensure_project n at db → Step during_jobs db db'
  resync : (n : String) → sync_project_status n db ≡ ok db' → Step during_jobs db db'
  clear : (n : String) → clear_project_runtime_state n db ≡ ok db' → Step during_jobs db db'
  normalize :
      (deployment : DeploymentRow)
      → normalize_project_current_deployment deployment db ≡ ok db'
      → Step during_jobs db db'
  adopt :
      (app : ProjectAppRuntime)
      → promote_project_app_runtime app db ≡ ok db'
      → Step during_jobs db db'
  store_status :
      (n : String) (status : ProjectStatus)
      → is_up status ≡ true
      → set_project_status n status db ≡ ok db'
      → (during_jobs ≡ true) ⊎ IsCalm n db
      → Step during_jobs db db'
  elsewhere : db'.jobs ≡ db.jobs → db'.projects ≡ db.projects → Step during_jobs db db'

-- The tables that any sequence of transactions leads to.
pub data Reachable (during_jobs : Bool) (db : Db) : Db → Type 0 where
  here : Reachable during_jobs db db
  step :
      {db1 db2 : Db}
      → Reachable during_jobs db db1
      → Step during_jobs db1 db2
      → Reachable during_jobs db db2
