-- ===== src/Worker.antt =====
-- The deployment worker: cmd/brain/worker.go.
mod Messages
unfoldable pub use Messages.*
use ovek.Common.{
  String, Bool, false, not, ◌&&◌, ◌||◌, Option, none, some, List, [], ◌∷◌, ◌++◌, ◌==◌, map, text_lt,
  trim_space, starts_with, text_append, trim_prefix, if◌then◌else◌, nat_eq,
}
use ovek.Store.{
  Db, JobRow, JobStatus, job_status_eq, DeploymentRow, DeploymentStatus, deployment_status_eq,
  ProjectRow, Failure, constraint_failed, err_no_rows, missing_metadata, Job,
}
use ovek.Store.Sql.{
  Result, ok, err, ◌>>=◌, ◌>>◌, select, select_row, exists_where, count_where, update_where,
  update_row, order_by, nullable_string,
}
use ovek.Projects.{has_name, sync_project_status}
use ovek.Jobs.{has_id, get_job}

-- deploymentResult, less the scrubber of its log.
pub record DeploymentResult : Type 0 where
  pub log_path : String
  pub image_ref : String
  pub app_container_name : String
  pub network_name : String
  pub pocket_base_container_name : String
  pub superseded_deployment_id : String

abbrev pub no_result : DeploymentResult
no_result = record {
  log_path = "";
  image_ref = "";
  app_container_name = "";
  network_name = "";
  pocket_base_container_name = "";
  superseded_deployment_id = "";
}

-- id = ? AND status = ?
abbrev pub is_job_at : String → JobStatus → JobRow → Bool
is_job_at job_id status row = row.id == job_id && job_status_eq row.status status

abbrev pub has_job_status : JobStatus → JobRow → Bool
has_job_status status row = job_status_eq row.status status

-- listJobIDsByStatus: ORDER BY created_at ASC
unfoldable pub list_job_ids_by_status : JobStatus → Db → List String
list_job_ids_by_status status db =
    map (λ row. row.id)
      (order_by (λ (a : JobRow) (b : JobRow). text_lt a.created_at b.created_at)
        (select (has_job_status status) db.jobs))

abbrev pub claimed : String → JobRow → JobRow
claimed started_at row = record row {
  status = JobStatus.running;
  phase = some "starting";
  started_at = some started_at;
  error_message = none;
}

-- claimQueuedJob: whether the job was claimed.
unfoldable pub claim_queued_job : String → String → Db → Bool × Db
claim_queued_job job_id started_at db = (
  nat_eq (count_where (is_job_at job_id JobStatus.queued) db.jobs) 1,
  record db {
    jobs = update_where (is_job_at job_id JobStatus.queued) (claimed started_at) db.jobs;
  },
)

unfoldable pub get_job_project_name : String → Db → Result String
get_job_project_name job_id db = elim (select_row (has_id job_id) db.jobs) [
  | none ↦ err err_no_rows
  | some row ↦ ok row.project_name
]

abbrev pub job_failed : String → String → DeploymentResult → JobRow → JobRow
job_failed finished_at message result row = record row {
  status = JobStatus.failed;
  phase = none;
  finished_at = some finished_at;
  error_message = some message;
  log_path = nullable_string result.log_path;
  image_ref = nullable_string result.image_ref;
}

unfoldable pub mark_job_failed : String → String → String → DeploymentResult → Db → Result Db
mark_job_failed job_id finished_at error_message result db = do
  project_name ← get_job_project_name job_id db
  jobs ←
      update_row (is_job_at job_id JobStatus.running)
        (job_failed finished_at (normalize_job_failure_message error_message) result) db.jobs
  sync_project_status project_name (record db { jobs = jobs })

abbrev pub job_succeeded : String → DeploymentResult → JobRow → JobRow
job_succeeded finished_at result row = record row {
  status = JobStatus.succeeded;
  phase = none;
  finished_at = some finished_at;
  error_message = none;
  log_path = nullable_string result.log_path;
  image_ref = nullable_string result.image_ref;
}

abbrev pub is_deployment : String → DeploymentRow → Bool
is_deployment deployment_id d = d.id == deployment_id

abbrev pub is_succeeded_of : String → String → DeploymentRow → Bool
is_succeeded_of deployment_id project_name d =
    d.id == deployment_id
    && d.project_name == project_name
    && deployment_status_eq d.status DeploymentStatus.succeeded

abbrev pub with_deployment_status : DeploymentStatus → DeploymentRow → DeploymentRow
with_deployment_status status d = record d { status = status }

unfoldable pub mark_superseded_deployment : String → String → Db → Result Db
mark_superseded_deployment project_name deployment_id db = if deployment_id == "" then ok db else do
  deployments ←
      update_row (is_succeeded_of deployment_id project_name)
        (with_deployment_status DeploymentStatus.superseded) db.deployments
  ok (record db { deployments = deployments })

unfoldable pub require_deployment_metadata : DeploymentResult → Result (Unit {0})
require_deployment_metadata result =
    if result.image_ref == ""
    then err (missing_metadata "image ref")
    else if result.app_container_name == ""
    then err (missing_metadata "app container name")
    else if result.network_name == ""
    then err (missing_metadata "network name")
    else if result.pocket_base_container_name == ""
    then err (missing_metadata "PocketBase container name")
    else ok tt

-- INSERT INTO deployments, of a row whose project must be there and whose id must be new.
unfoldable pub insert_deployment : DeploymentRow → Db → Result Db
insert_deployment row db =
    if exists_where (is_deployment row.id) db.deployments
      || not (exists_where (has_name row.project_name) db.projects)
    then err constraint_failed
    else ok (record db { deployments = db.deployments ++ row ∷ [] })

abbrev pub succeeded_row : Job → DeploymentResult → DeploymentRow
succeeded_row job result = record {
  id = job.id;
  project_name = job.project_name;
  image_ref = result.image_ref;
  app_container_name = result.app_container_name;
  network_name = result.network_name;
  pb_container_name = result.pocket_base_container_name;
  status = DeploymentStatus.succeeded;
  created_at = job.created_at;
  config_revision_id = nullable_string job.config_revision_id;
  source_type = some job.source_type;
  source_ref = some job.source_ref;
}

unfoldable pub insert_succeeded_deployment : Job → DeploymentResult → Db → Result Db
insert_succeeded_deployment job result db = do
  require_deployment_metadata result
  insert_deployment (succeeded_row job result) db

abbrev pub with_current : Option String → ProjectRow → ProjectRow
with_current deployment_id p = record p { current_deployment_id = deployment_id }

unfoldable pub set_project_current_deployment : String → String → Db → Result Db
set_project_current_deployment project_name deployment_id db = do
  projects ← update_row (has_name project_name) (with_current (some deployment_id)) db.projects
  sync_project_status project_name (record db { projects = projects })

unfoldable pub mark_job_succeeded : Job → String → DeploymentResult → Db → Result Db
mark_job_succeeded job finished_at result db = do
  jobs ← update_row (is_job_at job.id JobStatus.running) (job_succeeded finished_at result) db.jobs
  db1 ←
      mark_superseded_deployment job.project_name result.superseded_deployment_id
        (record db { jobs = jobs })
  db2 ← insert_succeeded_deployment job result db1
  set_project_current_deployment job.project_name job.id db2

-- updateJobPhase
unfoldable pub update_job_phase : String → String → Db → Db
update_job_phase job_id phase db = record db {
  jobs =
      update_where (is_job_at job_id JobStatus.running)
        (λ row. record row { phase = some (trim_space phase) }) db.jobs;
}

-- getProjectCurrentDeployment: the join of the project's row with the deployment that it names.
unfoldable pub get_project_current_deployment : String → Db → Option DeploymentRow
get_project_current_deployment project_name db =
    elim (select_row (has_name project_name) db.projects) [
      | none ↦ none
      | some p ↦ (elim p.current_deployment_id [
        | none ↦ none
        | some deployment_id ↦ select_row (is_deployment deployment_id) db.deployments
      ])
    ]

-- What the processor did: the phases that it set on the way, its result, and its error, if any.
pub record Outcome : Type 0 where
  pub phases : List String
  pub result : DeploymentResult
  pub error : Option String

unfoldable pub set_phases : String → List String → Db → Db
set_phases job_id [] db = db
set_phases job_id (phase ∷ phases) db = set_phases job_id phases (update_job_phase job_id phase db)

-- An error of a database call here is logged and leaves the database as it was.
abbrev pub or_unchanged : Db → Result Db → Db
or_unchanged db (ok db') = db'
or_unchanged db (err e) = db

module _ (describe : Failure → String) (process : Job → Db → Outcome)
    (started_at finished_at : String) where
  -- The end of processJob, when the processor has returned.
  unfoldable pub finish_job : Job → Outcome → Db → Db
  finish_job job outcome db = elim outcome.error [
    | some message ↦ or_unchanged db (mark_job_failed job.id finished_at message outcome.result db)
    | none ↦ (elim (mark_job_succeeded job finished_at outcome.result db) [
      | ok db' ↦ db'
      | err e ↦ or_unchanged db (
          mark_job_failed job.id finished_at
            (text_append "promotion state update failed: " (describe e)) outcome.result db)
    ])
  ]

  -- processJob after the claim.
  unfoldable pub process_claimed_job : String → Db → Db
  process_claimed_job job_id db = elim (get_job job_id db) [
    | err e ↦
        or_unchanged db
          (mark_job_failed job_id finished_at "failed to load claimed job" no_result db)
    | ok job ↦
        let outcome = process job db in finish_job job outcome (set_phases job.id outcome.phases db)
  ]

  unfoldable pub process_job : String → Db → Db
  process_job job_id db =
      let (was_claimed, db') = claim_queued_job job_id started_at db in
      if was_claimed then process_claimed_job job_id db' else db'

-- The loop of recoverInterruptedJobs: `finished_at` is the clock's reading at each job.
unfoldable pub fail_interrupted : (String → String) → List String → Db → Result Db
fail_interrupted finished_at [] db = ok db
fail_interrupted finished_at (job_id ∷ job_ids) db = do
  db' ← mark_job_failed job_id (finished_at job_id) interrupted_job_error_message no_result db
  fail_interrupted finished_at job_ids db'

unfoldable pub recover_interrupted_jobs : (String → String) → Db → Result Db
recover_interrupted_jobs finished_at db =
    fail_interrupted finished_at (list_job_ids_by_status JobStatus.running db) db
