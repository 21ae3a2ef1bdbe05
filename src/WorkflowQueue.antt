-- ===== src/WorkflowQueue.antt =====
-- Queued and scheduled workflow runs, and their lookups: cmd/brain/workflows.go.
pub mod Insert
pub mod Idempotency
pub mod Cap
use ovek.Common.{
  ℕ, suc, String, Bool, true, false, not, ◌&&◌, ◌||◌, Option, none, some, List, [], ◌∷◌, ◌++◌, ◌==◌,
  map, take, text_lt, trim_space, if◌then◌else◌, nat_eq, ltb, leb,
}
use ovek.Store.{
  Db, WorkflowRunRow, WorkflowRunStatus, err_no_rows, err_workflow_not_found,
  err_workflow_queue_full,
}
use ovek.Store.Sql.{Result, ok, err, ◌>>=◌, select, select_row, order_by}
use ovek.Projects.{latest_project_config_revision_id}
use ovek.Jobs.{or_blank}
use ovek.Workflows.{Workflow, get_workflow_definition_query, capped}
use ovek.WorkflowRuns.{
  WorkflowRun, no_run_links, scan_workflow_run, decorate_workflow_run,
  normalize_workflow_run_payload, is_run, count_active_workflow_runs,
  get_workflow_run_by_idempotency_key, insert_workflow_run,
}

pub record CreateWorkflowRunOptions : Type 0 where
  pub trigger_type : String
  pub payload : String
  pub idempotency_key : String
  pub trigger_token_id : String

abbrev pub workflow_run_trigger_api : String
workflow_run_trigger_api = "api"

abbrev pub workflow_run_trigger_schedule : String
workflow_run_trigger_schedule = "schedule"

abbrev pub skipped_message : String
skipped_message = "scheduled tick skipped because workflow already has queued or running work"

-- A run of a definition, with the fields that the struct literals leave out at "".
abbrev pub run_of : Workflow → String → String → String → WorkflowRunStatus → WorkflowRun
run_of workflow project_name workflow_name trigger_type status = record {
  id = "";
  project_name = project_name;
  workflow_name = workflow_name;
  trigger_type = trigger_type;
  status = status;
  config_revision_id = "";
  log_path = "";
  payload = "";
  idempotency_key = "";
  trigger_token_id = "";
  source_image_ref = workflow.source_image_ref;
  resolved_repo_digest = workflow.resolved_repo_digest;
  runtime_image_id = workflow.runtime_image_id;
  exit_code = none;
  error_message = "";
  created_at = "";
  started_at = "";
  finished_at = "";
  links = no_run_links;
}

-- The trimmed options.
abbrev pub trimmed_trigger : CreateWorkflowRunOptions → String
trimmed_trigger options =
    let trigger_type = trim_space options.trigger_type in
    if trigger_type == "" then workflow_run_trigger_api else trigger_type

-- The end of createQueuedWorkflowRunWithOptions, when no run with the key is there.
unfoldable pub queue_new_run :
    String
    → String
    → String
    → String
    → CreateWorkflowRunOptions
    → Workflow
    → Db
    → Result ((WorkflowRun × Bool) × Db)
queue_new_run new_id clock project_name workflow_name options workflow db =
    if leb (capped workflow.queue_cap) (count_active_workflow_runs project_name workflow_name db)
    then err err_workflow_queue_full
    else do
      (run, db') ←
          insert_workflow_run new_id clock
            (record (run_of workflow project_name workflow_name (trimmed_trigger options)
              WorkflowRunStatus.queued) {
                config_revision_id = or_blank (latest_project_config_revision_id project_name db);
                payload = normalize_workflow_run_payload options.payload;
                idempotency_key = trim_space options.idempotency_key;
                trigger_token_id = trim_space options.trigger_token_id;
              })
            db
      ok ((decorate_workflow_run run, true), db')

-- The search for a run with the key, which only a key that is not blank has.
unfoldable pub find_idempotent_run : String → String → String → Db → Option WorkflowRun
find_idempotent_run project_name workflow_name key db =
    if key == ""
    then none
    else get_workflow_run_by_idempotency_key project_name workflow_name key db

-- createQueuedWorkflowRunWithOptions: the run, and whether it was created.
unfoldable pub create_queued_workflow_run_with_options :
    String
    → String
    → String
    → String
    → CreateWorkflowRunOptions
    → Db
    → Result ((WorkflowRun × Bool) × Db)
create_queued_workflow_run_with_options new_id clock project_name workflow_name options db =
    elim (get_workflow_definition_query project_name workflow_name db) [
      | none ↦ err err_workflow_not_found
      | some workflow ↦
          (elim (find_idempotent_run project_name workflow_name (trim_space options.idempotency_key)
            db) [
              | some existing ↦ ok ((decorate_workflow_run existing, false), db)
              | none ↦ queue_new_run new_id clock project_name workflow_name options workflow db
            ])
    ]

-- createQueuedWorkflowRun
unfoldable pub create_queued_workflow_run :
    String → String → String → String → String → Db → Result (WorkflowRun × Db)
create_queued_workflow_run new_id clock project_name workflow_name trigger_type db = do
  ((run, was_created), db') ←
      create_queued_workflow_run_with_options new_id clock project_name workflow_name
        (record {
          trigger_type = trigger_type;
          payload = "";
          idempotency_key = "";
          trigger_token_id = "";
        })
        db
  ok (run, db')

-- The run that a scheduled tick inserts.
unfoldable pub scheduled_run : String → String → String → Workflow → Db → WorkflowRun
scheduled_run clock project_name workflow_name workflow db =
    if ltb 0 (count_active_workflow_runs project_name workflow_name db)
    then record (run_of workflow project_name workflow_name workflow_run_trigger_schedule
        WorkflowRunStatus.skipped) {
          error_message = skipped_message;
          created_at = clock;
          finished_at = clock;
        }
    else record (run_of workflow project_name workflow_name workflow_run_trigger_schedule
        WorkflowRunStatus.queued) {
          config_revision_id = or_blank (latest_project_config_revision_id project_name db);
          created_at = clock;
        }

unfoldable pub create_scheduled_workflow_run :
    String → String → String → String → Db → Result (WorkflowRun × Db)
create_scheduled_workflow_run new_id clock project_name workflow_name db =
    elim (get_workflow_definition_query project_name workflow_name db) [
      | none ↦ err err_workflow_not_found
      | some workflow ↦ do
        (run, db') ←
            insert_workflow_run new_id clock
              (scheduled_run clock project_name workflow_name workflow db) db
        ok (decorate_workflow_run run, db')
    ]

unfoldable pub list_workflow_runs : String → ℕ → Db → List WorkflowRun
list_workflow_runs project_name limit db =
    map (λ row. decorate_workflow_run (scan_workflow_run row))
      (take limit (
        order_by (λ (a : WorkflowRunRow) (b : WorkflowRunRow). text_lt b.created_at a.created_at)
          (select (λ row. row.project_name == project_name) db.workflow_runs)))

unfoldable pub get_workflow_run : String → String → Db → Result WorkflowRun
get_workflow_run project_name run_id db =
    elim (select_row (λ row. row.project_name == project_name && is_run run_id row)
      db.workflow_runs) [
        | none ↦ err err_no_rows
        | some row ↦ ok (decorate_workflow_run (scan_workflow_run row))
      ]

unfoldable pub get_workflow_run_by_id : String → Db → Result WorkflowRun
get_workflow_run_by_id run_id db = elim (select_row (is_run run_id) db.workflow_runs) [
  | none ↦ err err_no_rows
  | some row ↦ ok (decorate_workflow_run (scan_workflow_run row))
]
