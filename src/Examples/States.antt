-- ===== src/Examples/States.antt =====
-- The tables that the examples of cmd/brain/jobs.go and cmd/brain/worker.go go through.
use ovek.Common.{◌≡◌, refl, String, true, [], arith}
use ovek.Store.{Db, JobStatus, job_status_eq, deployment_status_eq, Job}
use ovek.Store.Sql.{
  Result, ok, err, select, select_row, count_where, update_where, update_row, exists_where,
  order_by, insert_by, first_row, require_updated_row,
}
use ovek.Projects.{
  latest_job, status_of, row_status, derive_project_status, set_project_status, sync_project_status,
  ensure_project, latest_project_config_revision_id,
}
use ovek.Jobs.{
  no_links, decorate_job, find_active_deployment_job, insert_job, reject_active_job,
  create_queued_job_with_source,
}
use ovek.Worker.{
  DeploymentResult, no_result, claim_queued_job, mark_superseded_deployment,
  require_deployment_metadata, insert_deployment, insert_succeeded_deployment,
  set_project_current_deployment, mark_job_succeeded,
}
use ovek.Lifecycle.{IsWellFormed}

abbrev pub empty_db : Db
empty_db = record {
  projects = [];
  deployments = [];
  jobs = [];
  project_config_revisions = [];
  workflows = [];
  workflow_runs = [];
  workflow_trigger_tokens = [];
}

pub empty_db-IsWellFormed : IsWellFormed empty_db
unfolding count_where select_row
empty_db-IsWellFormed = record {
  keyed = record {
    job_ids = λ id. omega arith;
    names = λ n. omega arith;
    owned = λ id row e. cc e;
    single = λ n. omega arith;
  };
  synced = λ n p e. cc e;
}

abbrev pub created_of : Result (Job × Db) → Db
created_of (ok (job, db)) = db
created_of (err e) = empty_db

abbrev pub db_of : Result Db → Db
db_of (ok db) = db
db_of (err e) = empty_db

-- The calls of the runs, each with what it computes through.
unfoldable pub sync_tables : String → Db → Result Db
unfolding sync_project_status derive_project_status set_project_status update_row
    require_updated_row count_where select_row first_row order_by select row_status status_of
    latest_job update_where insert_by
sync_tables n db = sync_project_status n db

unfoldable pub create_demo : String → String → Db → Result (Job × Db)
unfolding create_queued_job_with_source ensure_project latest_project_config_revision_id
    reject_active_job find_active_deployment_job insert_job exists_where sync_tables
create_demo id at db =
    create_queued_job_with_source id at "demo" " repo" "https://example.com/demo.git" true db

abbrev pub good_result : String → DeploymentResult
good_result superseded = record no_result {
  image_ref = "demo:1";
  app_container_name = "app-demo";
  network_name = "net-demo";
  pocket_base_container_name = "pb-demo";
  superseded_deployment_id = superseded;
}

abbrev pub demo_job : String → Job
demo_job id = decorate_job (record {
  id = id;
  job_type = "";
  project_name = "demo";
  repo_url = "";
  source_type = "";
  source_ref = "";
  status = JobStatus.running;
  phase = "";
  log_path = "";
  image_ref = "";
  error_message = "";
  created_at = "2026-01-02T03:04:05Z";
  started_at = "";
  finished_at = "";
  config_revision_id = "";
  links = no_links;
})

unfoldable pub promote_demo : String → String → Db → Result Db
unfolding mark_job_succeeded decorate_job mark_superseded_deployment insert_succeeded_deployment
    require_deployment_metadata insert_deployment exists_where set_project_current_deployment
    deployment_status_eq job_status_eq sync_tables
promote_demo id superseded db =
    mark_job_succeeded (demo_job id) "2026-01-02T03:05:00Z" (good_result superseded) db

unfoldable pub claim_demo : String → Db → Db
unfolding claim_queued_job count_where update_where job_status_eq
claim_demo id db = (claim_queued_job id "2026-01-02T03:04:30Z" db).1

abbrev pub queued_db : Db
queued_db = created_of (create_demo "job-1" "2026-01-02T03:04:05Z" empty_db)

abbrev pub running_db : Db
running_db = claim_demo "job-1" queued_db

abbrev pub promoted_db : Db
promoted_db = db_of (promote_demo "job-1" "" running_db)

abbrev pub queued_again_db : Db
queued_again_db = created_of (create_demo "job-2" "2026-01-03T03:04:05Z" promoted_db)

abbrev pub running_again_db : Db
running_again_db = claim_demo "job-2" queued_again_db

abbrev pub promoted_again_db : Db
promoted_again_db = db_of (promote_demo "job-2" "job-1" running_again_db)

pub queued_db-ok :
    (job : Job) × (create_demo "job-1" "2026-01-02T03:04:05Z" empty_db ≡ ok (job, queued_db))
unfolding create_demo
queued_db-ok = (_, refl)

pub queued_again_db-ok :
    (job : Job) × (create_demo "job-2" "2026-01-03T03:04:05Z" promoted_db
      ≡ ok (job, queued_again_db))
unfolding create_demo promote_demo claim_demo
queued_again_db-ok = (_, refl)

pub promoted_again_db-ok : promote_demo "job-2" "job-1" running_again_db ≡ ok promoted_again_db
unfolding create_demo promote_demo claim_demo
promoted_again_db-ok = refl
