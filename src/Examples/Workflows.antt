-- ===== src/Examples/Workflows.antt =====
-- Runs of one workflow through cmd/brain/workflows.go and cmd/brain/workflow_manager.go.
use ovek.Common.{
  ◌≤◌, ◌<◌, ◌≡◌, ◌≢◌, refl, String, Bool, true, false, some, [], arith, suc, trim_space,
}
use ovek.Store.{Db, WorkflowRunRow, WorkflowRunStatus}
use ovek.Store.Sql.{
  Result, ok, err, select, select_row, count_where, update_where, delete_where, exists_where,
  order_by, first_row, nullable_string,
}
use ovek.Projects.{ensure_project, latest_project_config_revision_id}
use ovek.Workflows.{
  Workflow, scan_workflow_definition, get_workflow_definition_query, get_workflow_definition,
  upsert_workflow_definition, capped, delete_workflow_row, delete_workflow_definition,
}
use ovek.WorkflowRuns.{
  WorkflowRun, scan_workflow_run, decorate_workflow_run, normalize_workflow_run_payload, is_run,
  is_active_run, count_active_workflow_runs, get_workflow_run_by_idempotency_key,
  insert_workflow_run_row, insert_workflow_run,
}
use ovek.WorkflowQueue.{
  CreateWorkflowRunOptions, queue_new_run, find_idempotent_run,
  create_queued_workflow_run_with_options, scheduled_run, create_scheduled_workflow_run,
}
use ovek.WorkflowQueue.Cap.{created-within_cap}
use ovek.WorkflowQueue.Idempotency.{create_idempotent}
use ovek.WorkflowManager.{
  WorkflowOutcome, timed_out, run_claimed, claim_queued_workflow_run, process_run, is_started,
  recover_interrupted_workflow_runs,
}
use ovek.WorkflowManager.Process.{process_run-row, ended_by}
use ovek.WorkflowManager.Recovery.{recover_runs_total, with_runs, interrupted_run, AreUnique}
use ovek.Workflows.Definitions.{get-upserted}

abbrev no_rows : Db
no_rows = record {
  projects = [];
  deployments = [];
  jobs = [];
  project_config_revisions = [];
  workflows = [];
  workflow_runs = [];
  workflow_trigger_tokens = [];
}

abbrev nightly : Workflow
nightly = record {
  project_name = "demo";
  name = "nightly";
  source_image_ref = "demo:1";
  resolved_repo_digest = "";
  runtime_image_id = "";
  schedule = "0 3 * * *";
  queue_cap = 0;
  enabled = true;
  created_at = "";
  updated_at = "";
  links = record { self = ""; runs = "" };
}

unfoldable upsert_nightly : Db → Db
unfolding upsert_workflow_definition ensure_project get_workflow_definition_query select_row
    scan_workflow_definition nullable_string update_where
upsert_nightly db = (upsert_workflow_definition "2026-01-02T03:04:05Z" nightly db).1

abbrev keyed_options : CreateWorkflowRunOptions
keyed_options = record {
  trigger_type = "";
  payload = " ";
  idempotency_key = " key-1 ";
  trigger_token_id = "";
}

unfoldable queue_nightly : String → Db → Result ((WorkflowRun × Bool) × Db)
unfolding create_queued_workflow_run_with_options get_workflow_definition_query select_row
    scan_workflow_definition find_idempotent_run get_workflow_run_by_idempotency_key queue_new_run
    count_active_workflow_runs count_where insert_workflow_run insert_workflow_run_row exists_where
    nullable_string normalize_workflow_run_payload latest_project_config_revision_id first_row
    order_by select decorate_workflow_run scan_workflow_run
queue_nightly id db =
    create_queued_workflow_run_with_options id "2026-01-02T04:00:00Z" "demo" "nightly" keyed_options
      db

unfoldable tick_nightly : String → Db → Result (WorkflowRun × Db)
unfolding create_scheduled_workflow_run scheduled_run queue_nightly
tick_nightly id db = create_scheduled_workflow_run id "2026-01-03T03:00:00Z" "demo" "nightly" db

abbrev queued_of : Result ((WorkflowRun × Bool) × Db) → Db
queued_of (ok r) = r.1
queued_of (err e) = no_rows

abbrev defined_db : Db
defined_db = upsert_nightly no_rows

abbrev queued_db : Db
queued_db = queued_of (queue_nightly "run-1" defined_db)

queued_db-ok :
    (run : WorkflowRun) × (queue_nightly "run-1" defined_db ≡ ok ((run, true), queued_db))
unfolding queue_nightly upsert_nightly trim_space
queued_db-ok = (_, refl)

get-upserted_example :
    (get_workflow_definition "demo" "nightly"
        (upsert_workflow_definition "2026-01-02T03:04:05Z" nightly no_rows).1
      ≡ ok (upsert_workflow_definition "2026-01-02T03:04:05Z" nightly no_rows).0)
    × (0 < (upsert_workflow_definition "2026-01-02T03:04:05Z" nightly no_rows).0.queue_cap)
get-upserted_example = get-upserted "2026-01-02T03:04:05Z" nightly no_rows

created-within_cap_example :
    (workflow : Workflow) × (get_workflow_definition_query "demo" "nightly" defined_db
      ≡ some workflow)
    × (count_active_workflow_runs "demo" "nightly" queued_db
        ≡ suc (count_active_workflow_runs "demo" "nightly" defined_db))
    × (count_active_workflow_runs "demo" "nightly" queued_db ≤ capped workflow.queue_cap)
unfolding queue_nightly
created-within_cap_example =
    created-within_cap "run-1" "2026-01-02T04:00:00Z" "demo" "nightly" keyed_options defined_db
      queued_db-ok.1

not_blank : trim_space " key-1 " ≢ ""
unfolding trim_space
not_blank e = cc

create_idempotent_example :
    create_queued_workflow_run_with_options "run-2" "2026-01-02T05:00:00Z" "demo" "nightly"
      (record {
        trigger_type = "api";
        payload = "{}";
        idempotency_key = "key-1";
        trigger_token_id = "t";
      })
      queued_db
    ≡ ok ((queued_db-ok.0, false), queued_db)
unfolding queue_nightly trim_space
create_idempotent_example =
    create_idempotent "run-1" "2026-01-02T04:00:00Z" "run-2" "2026-01-02T05:00:00Z" "demo" "nightly"
      keyed_options
      (record {
        trigger_type = "api";
        payload = "{}";
        idempotency_key = "key-1";
        trigger_token_id = "t";
      })
      defined_db not_blank refl queued_db-ok.1

ticked : (run : WorkflowRun) × (db : Db) × (tick_nightly "run-3" queued_db ≡ ok (run, db))
unfolding tick_nightly queue_nightly upsert_nightly trim_space
ticked = (_, _, refl)

queued_row :
    (row : WorkflowRunRow) × (count_where (is_run "run-1") queued_db.workflow_runs ≤ 1)
    × (select_row (is_run "run-1") queued_db.workflow_runs ≡ some row)
    × (row.status ≡ WorkflowRunStatus.queued)
unfolding queue_nightly upsert_nightly trim_space
queued_row = (_, omega arith, refl, refl)

-- A processor that runs out of time.
abbrev too_slow : WorkflowRun → Db → WorkflowOutcome
too_slow run db =
    timed_out "workflow run timed out" (record { log_path = "/logs/run-1"; exit_code = some 137 })

process_run-row_example :
    (outcome : WorkflowOutcome) × (outcome
      ≡ too_slow
          (decorate_workflow_run (scan_workflow_run (run_claimed "t1" queued_row.0)))
          (claim_queued_workflow_run "run-1" "t1" queued_db).1)
    × (select_row (is_run "run-1") (process_run too_slow "t1" "t2" "run-1" queued_db).workflow_runs
        ≡ some (ended_by "t2" outcome (run_claimed "t1" queued_row.0)))
    × (is_active_run (ended_by "t2" outcome (run_claimed "t1" queued_row.0)).status ≡ false)
process_run-row_example =
    process_run-row too_slow "t1" "t2" "run-1" queued_db queued_row.0 queued_row.1 queued_row.2
      queued_row.3

abbrev started_db : Db
started_db = (claim_queued_workflow_run "run-1" "t1" queued_db).1

started_db-AreUnique : AreUnique started_db.workflow_runs
unfolding queue_nightly upsert_nightly trim_space claim_queued_workflow_run
started_db-AreUnique id = ground arith

-- The clock's reading at the failure of each run.
abbrev restarted_at : String → String
restarted_at id = "t3"

recover_runs_total_example : recover_interrupted_workflow_runs restarted_at started_db ≡ (
  true,
  with_runs started_db
      (update_where is_started (interrupted_run restarted_at) started_db.workflow_runs),
)
recover_runs_total_example = recover_runs_total restarted_at started_db started_db-AreUnique

deleted : (db' : Db) × (delete_workflow_definition "demo" "nightly" defined_db ≡ ok db')
unfolding upsert_nightly delete_workflow_definition delete_workflow_row count_where exists_where
    delete_where trim_space
deleted = (_, refl)
