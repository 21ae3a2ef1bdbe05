-- ===== src/Jobs.antt =====
-- Deployment jobs: cmd/brain/jobs.go. The new id and the clock's reading are arguments.
use ovek.Common.{
  ℕ, String, Bool, true, not, ◌&&◌, ◌||◌, Option, none, some, List, [], ◌∷◌, ◌++◌, ◌==◌, text_lt,
  trim_space, if◌then◌else◌, text_append, map, take,
}
use ovek.Store.{
  Db, JobRow, JobStatus, JobLinks, Job, constraint_failed, err_no_rows, active_deployment,
}
use ovek.Store.Sql.{
  Result, ok, err, ◌>>=◌, ◌>>◌, select, select_row, exists_where, order_by, first_row,
  nullable_string,
}
use ovek.Projects.{
  is_active_of, has_name, ensure_project, latest_project_config_revision_id, sync_project_status,
}

abbrev pub job_source_type_repo : String
job_source_type_repo = "repo"

abbrev pub job_source_type_image : String
job_source_type_image = "image"

-- A NULL column leaves the field of the struct at "".
abbrev pub or_blank : Option String → String
or_blank none = ""
or_blank (some s) = s

abbrev pub no_links : JobLinks
no_links = record { self = ""; logs = ""; logs_stream = "" }

unfoldable pub scan_job : JobRow → Job
scan_job row = record {
  id = row.id;
  job_type = "";
  project_name = row.project_name;
  repo_url = row.repo_url;
  source_type = or_blank row.source_type;
  source_ref = or_blank row.source_ref;
  status = row.status;
  phase = or_blank row.phase;
  log_path = or_blank row.log_path;
  image_ref = or_blank row.image_ref;
  error_message = or_blank row.error_message;
  created_at = row.created_at;
  started_at = or_blank row.started_at;
  finished_at = or_blank row.finished_at;
  config_revision_id = or_blank row.config_revision_id;
  links = no_links;
}

-- JobPath and its like of internal/brainapi/paths.go
unfoldable pub job_path : String → String
job_path job_id = text_append "/v1/jobs/" job_id

unfoldable pub job_logs_path : String → String
job_logs_path job_id = text_append (job_path job_id) "/logs"

unfoldable pub job_logs_stream_path : String → String
job_logs_stream_path job_id = text_append (job_logs_path job_id) "/stream"

-- The two defaults of decorateJob, the second on the job that has the first.
abbrev pub default_source_type : String → String
default_source_type source_type = if source_type == "" then job_source_type_repo else source_type

abbrev pub default_source_ref : String → String → String
default_source_ref source_ref repo_url =
    if source_ref == "" && not (repo_url == "") then repo_url else source_ref

unfoldable pub decorate_job : Job → Job
decorate_job job = record job {
  job_type = "deployment";
  source_type = default_source_type job.source_type;
  source_ref = default_source_ref job.source_ref job.repo_url;
  links = record {
    self = job_path job.id;
    logs = job_logs_path job.id;
    logs_stream = job_logs_stream_path job.id;
  };
}

abbrev pub has_id : String → JobRow → Bool
has_id job_id row = row.id == job_id

unfoldable pub get_job : String → Db → Result Job
get_job job_id db = elim (select_row (has_id job_id) db.jobs) [
  | none ↦ err err_no_rows
  | some row ↦ ok (decorate_job (scan_job row))
]

-- findActiveDeploymentJob: WHERE … ORDER BY created_at ASC LIMIT 1
unfoldable pub find_active_deployment_job : String → Db → Option Job
find_active_deployment_job project_name db =
    elim (first_row (
      order_by (λ (a : JobRow) (b : JobRow). text_lt a.created_at b.created_at)
        (select (is_active_of project_name) db.jobs))) [
          | none ↦ none
          | some row ↦ some (decorate_job (scan_job row))
        ]

-- INSERT INTO jobs: the id is a primary key, and the project a foreign key.
unfoldable pub insert_job : JobRow → Db → Result Db
insert_job row db =
    if exists_where (has_id row.id) db.jobs
      || not (exists_where (has_name row.project_name) db.projects)
    then err constraint_failed
    else ok (record db { jobs = db.jobs ++ row ∷ [] })

abbrev pub queued_row : String → String → String → String → String → String → Option String → JobRow
queued_row job_id project_name repo_url source_type source_ref created_at revision = record {
  id = job_id;
  project_name = project_name;
  repo_url = repo_url;
  status = JobStatus.queued;
  log_path = none;
  image_ref = none;
  error_message = none;
  created_at = created_at;
  started_at = none;
  finished_at = none;
  config_revision_id = revision;
  phase = some "queued";
  source_type = some source_type;
  source_ref = some source_ref;
}

-- A nullable revision id: nullableString (optionalRevisionID …) of one that may be missing.
abbrev pub stored_revision : Option String → Option String
stored_revision revision = nullable_string (or_blank revision)

-- The job that the new transaction returns; its phase is not set.
abbrev pub new_job : String → String → String → String → String → String → Option String → Job
new_job job_id project_name repo_url source_type source_ref created_at revision = record {
  id = job_id;
  job_type = "";
  project_name = project_name;
  repo_url = repo_url;
  source_type = source_type;
  source_ref = source_ref;
  status = JobStatus.queued;
  phase = "";
  log_path = "";
  image_ref = "";
  error_message = "";
  created_at = created_at;
  started_at = "";
  finished_at = "";
  config_revision_id = or_blank revision;
  links = no_links;
}

-- The active job refuses another, if the caller asks for that.
unfoldable pub reject_active_job : Bool → String → Db → Result (Unit {0})
reject_active_job reject_active project_name db =
    if reject_active
    then elim (find_active_deployment_job project_name db) [
      | none ↦ ok tt
      | some active ↦ err (active_deployment active)
    ]
    else ok tt

-- Error of activeDeploymentJobError, which the job's project and id are in.
unfoldable pub active_deployment_job_error_message : Job → String
active_deployment_job_error_message active = text_append "project \"" (
    text_append active.project_name
      (text_append "\" already has active deployment job \"" (text_append active.id "\"")))

-- createQueuedJobWithSource: an error rolls the transaction back.
unfoldable pub create_queued_job_with_source :
    String → String → String → String → String → Bool → Db → Result (Job × Db)
create_queued_job_with_source job_id created_at project_name source_type source_ref reject_active
      db =
    let kind = trim_space source_type in
    let ref = trim_space source_ref in
    let repo_url = if kind == job_source_type_repo then ref else "" in
    let db1 = ensure_project project_name created_at db in
    let revision = latest_project_config_revision_id project_name db1 in
    do
      reject_active_job reject_active project_name db1
      db2 ←
          insert_job
            (queued_row job_id project_name repo_url kind ref created_at (stored_revision revision))
            db1
      db3 ← sync_project_status project_name db2
      ok (decorate_job (new_job job_id project_name repo_url kind ref created_at revision), db3)

-- createQueuedDeploymentJob and createQueuedRunJob
unfoldable pub create_queued_deployment_job :
    String → String → String → String → Db → Result (Job × Db)
create_queued_deployment_job job_id created_at project_name repo_url db =
    create_queued_job_with_source job_id created_at project_name job_source_type_repo repo_url true
      db

unfoldable pub create_queued_run_job : String → String → String → String → Db → Result (Job × Db)
create_queued_run_job job_id created_at project_name capsule_ref db =
    create_queued_job_with_source job_id created_at project_name job_source_type_image capsule_ref
      true db

-- listProjectJobs: ORDER BY created_at DESC LIMIT ?
unfoldable pub list_project_jobs : String → ℕ → Db → List Job
list_project_jobs project_name limit db =
    map (λ row. decorate_job (scan_job row))
      (take limit (
        order_by (λ (a : JobRow) (b : JobRow). text_lt b.created_at a.created_at)
          (select (λ row. row.project_name == project_name) db.jobs)))
