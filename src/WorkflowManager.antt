-- ===== src/WorkflowManager.antt =====
-- The workflow manager: cmd/brain/workflow_manager.go.
pub mod Process
pub mod Recovery
use ovek.Common.{
  ℕ, suc, String, Bool, true, false, not, ◌&&◌, ◌||◌, Option, none, some, List, [], ◌∷◌, ◌++◌, ◌==◌,
  map, text_lt, nat_eq, if◌then◌else◌,
}
use ovek.Store.{Db, WorkflowRunRow, WorkflowRunStatus, run_status_eq}
use ovek.Store.Sql.{
  Result, ok, err, ◌>>=◌, select, count_where, update_where, update_row, order_by, nullable_string,
}
use ovek.WorkflowRuns.{WorkflowRun, is_run}
use ovek.WorkflowQueue.{get_workflow_run_by_id}

pub record WorkflowRunResult : Type 0 where
  pub log_path : String
  pub exit_code : Option ℕ

abbrev pub no_run_result : WorkflowRunResult
no_run_result = record { log_path = ""; exit_code = none }

abbrev pub interrupted_workflow_run_error_message : String
interrupted_workflow_run_error_message = "workflow run interrupted by brain restart"

abbrev pub is_run_at : String → WorkflowRunStatus → WorkflowRunRow → Bool
is_run_at run_id status row = row.id == run_id && run_status_eq row.status status

-- status IN ('preparing', 'running')
abbrev pub is_started : WorkflowRunRow → Bool
is_started row =
    run_status_eq row.status WorkflowRunStatus.preparing
    || run_status_eq row.status WorkflowRunStatus.running

abbrev pub is_started_run : String → WorkflowRunRow → Bool
is_started_run run_id row = row.id == run_id && is_started row

-- The rows of a query, oldest first.
abbrev pub run_ids_where : (WorkflowRunRow → Bool) → Db → List String
run_ids_where condition db =
    map (λ row. row.id)
      (order_by (λ (a : WorkflowRunRow) (b : WorkflowRunRow). text_lt a.created_at b.created_at)
        (select condition db.workflow_runs))

unfoldable pub list_workflow_run_ids_by_status : WorkflowRunStatus → Db → List String
list_workflow_run_ids_by_status status db =
    run_ids_where (λ row. run_status_eq row.status status) db

unfoldable pub list_interrupted_workflow_run_ids : Db → List String
list_interrupted_workflow_run_ids db = run_ids_where is_started db

abbrev pub run_claimed : String → WorkflowRunRow → WorkflowRunRow
run_claimed started_at row = record row {
  status = WorkflowRunStatus.running;
  started_at = some started_at;
  error_message = none;
}

-- claimQueuedWorkflowRun: whether the run was claimed.
unfoldable pub claim_queued_workflow_run : String → String → Db → Bool × Db
claim_queued_workflow_run run_id started_at db = (
  nat_eq (count_where (is_run_at run_id WorkflowRunStatus.queued) db.workflow_runs) 1,
  record db {
    workflow_runs =
        update_where (is_run_at run_id WorkflowRunStatus.queued) (run_claimed started_at)
          db.workflow_runs;
  },
)

abbrev pub run_succeeded : String → WorkflowRunResult → WorkflowRunRow → WorkflowRunRow
run_succeeded finished_at result row = record row {
  status = WorkflowRunStatus.succeeded;
  finished_at = some finished_at;
  error_message = none;
  log_path = nullable_string result.log_path;
  exit_code = result.exit_code;
}

-- An UPDATE outside a transaction, which stands also when it did not meet one row.
unfoldable pub update_runs :
    (WorkflowRunRow → Bool) → (WorkflowRunRow → WorkflowRunRow) → Db → Bool × Db
update_runs condition change db = (
  nat_eq (count_where condition db.workflow_runs) 1,
  record db { workflow_runs = update_where condition change db.workflow_runs },
)

unfoldable pub mark_workflow_run_succeeded : String → String → WorkflowRunResult → Db → Bool × Db
mark_workflow_run_succeeded run_id finished_at result db =
    update_runs (is_run_at run_id WorkflowRunStatus.running) (run_succeeded finished_at result) db

abbrev pub run_ended :
    WorkflowRunStatus → String → String → WorkflowRunResult → WorkflowRunRow → WorkflowRunRow
run_ended status finished_at error_message result row = record row {
  status = status;
  finished_at = some finished_at;
  error_message = some error_message;
  log_path = nullable_string result.log_path;
  exit_code = result.exit_code;
}

-- markWorkflowRunTerminal: whether one row was met, and the tables.
unfoldable pub mark_workflow_run_terminal :
    String → WorkflowRunStatus → String → String → WorkflowRunResult → Db → Bool × Db
mark_workflow_run_terminal run_id status finished_at error_message result db =
    update_runs (is_started_run run_id) (run_ended status finished_at error_message result) db

unfoldable pub mark_workflow_run_failed :
    String → String → String → WorkflowRunResult → Db → Bool × Db
mark_workflow_run_failed run_id finished_at error_message result db =
    mark_workflow_run_terminal run_id WorkflowRunStatus.failed finished_at error_message result db

unfoldable pub mark_workflow_run_timed_out :
    String → String → String → WorkflowRunResult → Db → Bool × Db
mark_workflow_run_timed_out run_id finished_at error_message result db =
    mark_workflow_run_terminal run_id WorkflowRunStatus.timed_out finished_at error_message result
      db

-- What the processor reports: its result with no error, errWorkflowRunTimedOut, or another error.
pub data WorkflowOutcome : Type 0 where
  completed : WorkflowRunResult → WorkflowOutcome
  timed_out : String → WorkflowRunResult → WorkflowOutcome
  failed : String → WorkflowRunResult → WorkflowOutcome

module _ (process : WorkflowRun → Db → WorkflowOutcome) (started_at finished_at : String) where
  -- The end of processRun. A failure of these updates is only logged.
  unfoldable pub finish_run : String → WorkflowOutcome → Db → Db
  finish_run run_id (completed result) db =
      (mark_workflow_run_succeeded run_id finished_at result db).1
  finish_run run_id (timed_out message result) db =
      (mark_workflow_run_timed_out run_id finished_at message result db).1
  finish_run run_id (failed message result) db =
      (mark_workflow_run_failed run_id finished_at message result db).1

  -- processRun after the claim.
  unfoldable pub process_claimed_run : String → Db → Db
  process_claimed_run run_id db = elim (get_workflow_run_by_id run_id db) [
    | err failure ↦
        (mark_workflow_run_failed run_id finished_at "failed to load claimed workflow run"
          no_run_result db).1
    | ok run ↦ finish_run run_id (process run db) db
  ]

  unfoldable pub process_run : String → Db → Db
  process_run run_id db =
      let (was_claimed, db') = claim_queued_workflow_run run_id started_at db in
      if was_claimed then process_claimed_run run_id db' else db'

-- The loop of recoverInterruptedWorkflowRuns: false, and no further run, at the first failure.
-- `finished_at` is the clock's reading at each run.
unfoldable pub fail_interrupted_runs : (String → String) → List String → Db → Bool × Db
fail_interrupted_runs finished_at [] db = (true, db)
fail_interrupted_runs finished_at (run_id ∷ run_ids) db =
    let (marked, db') =
      mark_workflow_run_failed run_id (finished_at run_id) interrupted_workflow_run_error_message
        no_run_result db in
    let rest = fail_interrupted_runs finished_at run_ids db' in
    if marked then rest else (false, db')

unfoldable pub recover_interrupted_workflow_runs : (String → String) → Db → Bool × Db
recover_interrupted_workflow_runs finished_at db =
    fail_interrupted_runs finished_at (list_interrupted_workflow_run_ids db) db
