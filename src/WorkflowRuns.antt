-- ===== src/WorkflowRuns.antt =====
-- Workflow runs: cmd/brain/workflows.go and cmd/brain/workflow_manager.go.
use ovek.Common.{
  ℕ, String, Bool, true, false, not, ◌&&◌, ◌||◌, Option, none, some, [], ◌∷◌, ◌++◌, ◌==◌,
  trim_space, if◌then◌else◌,
}
use ovek.Store.{Db, WorkflowRunRow, WorkflowRunStatus, constraint_failed}
use ovek.Store.Sql.{Result, ok, err, ◌>>=◌, select_row, exists_where, count_where, nullable_string}
use ovek.Projects.{has_name}
use ovek.Jobs.{or_blank}
use ovek.Workflows.{
  is_workflow, run_of_workflow, project_workflow_run_path, project_workflow_run_logs_path,
  project_workflow_run_logs_stream_path,
}

pub record WorkflowRunLinks : Type 0 where
  pub self : String
  pub logs : String
  pub logs_stream : String

-- The struct `WorkflowRun`. The payload is its text, and the exit code one of a container.
pub record WorkflowRun : Type 0 where
  pub id : String
  pub project_name : String
  pub workflow_name : String
  pub trigger_type : String
  pub status : WorkflowRunStatus
  pub config_revision_id : String
  pub log_path : String
  pub payload : String
  pub idempotency_key : String
  pub trigger_token_id : String
  pub source_image_ref : String
  pub resolved_repo_digest : String
  pub runtime_image_id : String
  pub exit_code : Option ℕ
  pub error_message : String
  pub created_at : String
  pub started_at : String
  pub finished_at : String
  pub links : WorkflowRunLinks

abbrev pub no_run_links : WorkflowRunLinks
no_run_links = record { self = ""; logs = ""; logs_stream = "" }

unfoldable pub scan_workflow_run : WorkflowRunRow → WorkflowRun
scan_workflow_run row = record {
  id = row.id;
  project_name = row.project_name;
  workflow_name = row.workflow_name;
  trigger_type = row.trigger_type;
  status = row.status;
  config_revision_id = or_blank row.config_revision_id;
  log_path = or_blank row.log_path;
  payload = or_blank row.payload_json;
  idempotency_key = or_blank row.idempotency_key;
  trigger_token_id = or_blank row.trigger_token_id;
  source_image_ref = row.source_image_ref;
  resolved_repo_digest = or_blank row.resolved_repo_digest;
  runtime_image_id = or_blank row.runtime_image_id;
  exit_code = row.exit_code;
  error_message = or_blank row.error_message;
  created_at = row.created_at;
  started_at = or_blank row.started_at;
  finished_at = or_blank row.finished_at;
  links = no_run_links;
}

unfoldable pub decorate_workflow_run : WorkflowRun → WorkflowRun
decorate_workflow_run run = record run {
  links = record {
    self = project_workflow_run_path run.project_name run.id;
    logs = project_workflow_run_logs_path run.project_name run.id;
    logs_stream = project_workflow_run_logs_stream_path run.project_name run.id;
  };
}

-- normalizeWorkflowRunPayload
unfoldable pub normalize_workflow_run_payload : String → String
normalize_workflow_run_payload payload =
    let trimmed = trim_space payload in if trimmed == "" then "{}" else trimmed

abbrev pub is_run : String → WorkflowRunRow → Bool
is_run run_id row = row.id == run_id

-- status IN ('queued', 'preparing', 'running')
abbrev pub is_active_run : WorkflowRunStatus → Bool
is_active_run WorkflowRunStatus.queued = true
is_active_run WorkflowRunStatus.preparing = true
is_active_run WorkflowRunStatus.running = true
is_active_run _ = false

abbrev pub is_active_run_of : String → String → WorkflowRunRow → Bool
is_active_run_of project_name workflow_name row =
    run_of_workflow project_name workflow_name row && is_active_run row.status

unfoldable pub count_active_workflow_runs : String → String → Db → ℕ
count_active_workflow_runs project_name workflow_name db =
    count_where (is_active_run_of project_name workflow_name) db.workflow_runs

-- idempotency_key = ?, which a NULL never meets
abbrev pub has_idempotency_key : String → String → String → WorkflowRunRow → Bool
has_idempotency_key project_name workflow_name key row =
    run_of_workflow project_name workflow_name row
    && (elim row.idempotency_key [ none ↦ false | some other ↦ other == key ])

unfoldable pub get_workflow_run_by_idempotency_key :
    String → String → String → Db → Option WorkflowRun
get_workflow_run_by_idempotency_key project_name workflow_name key db =
    elim (select_row (has_idempotency_key project_name workflow_name key) db.workflow_runs) [
      | none ↦ none
      | some row ↦ some (scan_workflow_run row)
    ]

-- The partial unique index idx_workflow_runs_idempotency: a key that is NULL or '' clashes with none.
abbrev pub clashes : WorkflowRunRow → WorkflowRunRow → Bool
clashes row other = elim row.idempotency_key [
  | none ↦ false
  | some key ↦ not (key == "") && has_idempotency_key row.project_name row.workflow_name key other
]

-- INSERT INTO workflow_runs, with the primary key, the unique index and the two foreign keys.
unfoldable pub insert_workflow_run_row : WorkflowRunRow → Db → Result Db
insert_workflow_run_row row db =
    if exists_where (is_run row.id) db.workflow_runs
      || exists_where (clashes row) db.workflow_runs
      || not (exists_where (has_name row.project_name) db.projects)
      || not (exists_where (is_workflow row.project_name row.workflow_name) db.workflows)
    then err constraint_failed
    else ok (record db { workflow_runs = db.workflow_runs ++ row ∷ [] })

-- The columns of a run, where nullableRawJSON trims the payload.
abbrev pub run_row : WorkflowRun → WorkflowRunRow
run_row run = record {
  id = run.id;
  project_name = run.project_name;
  workflow_name = run.workflow_name;
  trigger_type = run.trigger_type;
  status = run.status;
  config_revision_id = nullable_string run.config_revision_id;
  log_path = nullable_string run.log_path;
  source_image_ref = run.source_image_ref;
  resolved_repo_digest = nullable_string run.resolved_repo_digest;
  runtime_image_id = nullable_string run.runtime_image_id;
  exit_code = run.exit_code;
  error_message = nullable_string run.error_message;
  created_at = run.created_at;
  started_at = nullable_string run.started_at;
  finished_at = nullable_string run.finished_at;
  payload_json = nullable_string (trim_space run.payload);
  idempotency_key = nullable_string run.idempotency_key;
  trigger_token_id = nullable_string run.trigger_token_id;
}

-- insertWorkflowRunTx; createWorkflowRunRecord is the same outside a transaction.
unfoldable pub insert_workflow_run : String → String → WorkflowRun → Db → Result (WorkflowRun × Db)
insert_workflow_run new_id clock run db =
    let given_id = trim_space run.id in
    let given_at = trim_space run.created_at in
    let stored = record run {
      id = if given_id == "" then new_id else given_id;
      created_at = if given_at == "" then clock else given_at;
    } in
    do db' ← insert_workflow_run_row (run_row stored) db; ok (stored, db')
