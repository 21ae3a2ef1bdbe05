-- ===== src/WorkflowManager/Process.antt =====
-- processRun (cmd/brain/workflow_manager.go): how a claimed run ends.
use ovek.Common.{
  ◌≤◌, ◌≡◌, refl, ap, ◌∙◌, String, Bool, true, false, some, List, arith, ◌==◌, if◌then◌else◌,
}
use ovek.Store.{Db, WorkflowRunRow, WorkflowRunStatus, run_status_eq}
use ovek.Store.Sql.{ok, select_row, count_where, update_where}
use ovek.Store.Laws.{changed_option, select_row-update, select_row-holds, count_of_row}
use ovek.WorkflowRuns.{WorkflowRun, scan_workflow_run, decorate_workflow_run, is_run, is_active_run}
use ovek.WorkflowQueue.{get_workflow_run_by_id}
use ovek.WorkflowManager.{
  is_run_at, is_started_run, run_claimed, claim_queued_workflow_run, run_succeeded, run_ended,
  update_runs, mark_workflow_run_succeeded, mark_workflow_run_terminal, mark_workflow_run_failed,
  mark_workflow_run_timed_out, WorkflowOutcome, completed, timed_out, failed, finish_run,
  process_claimed_run, process_run,
}

-- The row that an outcome leaves a started run with.
abbrev pub ended_by : String → WorkflowOutcome → WorkflowRunRow → WorkflowRunRow
ended_by finished_at (completed result) row = run_succeeded finished_at result row
ended_by finished_at (timed_out message result) row =
    run_ended WorkflowRunStatus.timed_out finished_at message result row
ended_by finished_at (failed message result) row =
    run_ended WorkflowRunStatus.failed finished_at message result row

found-update :
    (p : WorkflowRunRow → Bool) (f : WorkflowRunRow → WorkflowRunRow) (rows : List WorkflowRunRow)
    (id : String) (row : WorkflowRunRow)
    → ((x : WorkflowRunRow) → (f x).id ≡ x.id)
    → select_row (is_run id) rows ≡ some row
    → p row ≡ true
    → select_row (is_run id) (update_where p f rows) ≡ some (f row)
found-update p f rows id row keeps found met =
    select_row-update (is_run id) p f rows (λ x h. ap (λ i. i == id) (keeps x))
    ∙ ap (changed_option p f) found
    ∙ ap (λ (b : Bool). some (if b then f row else row)) met

at-row :
    (id : String) (s : WorkflowRunStatus) (rows : List WorkflowRunRow) (row : WorkflowRunRow)
    → select_row (is_run id) rows ≡ some row
    → row.status ≡ s
    → is_run_at id s row ≡ true
unfolding run_status_eq
at-row id s rows row found same =
    rw (select_row-holds (is_run id) rows row found, same) (ground arith)

started-row :
    (id : String) (rows : List WorkflowRunRow) (row : WorkflowRunRow)
    → select_row (is_run id) rows ≡ some row
    → row.status ≡ WorkflowRunStatus.running
    → is_started_run id row ≡ true
unfolding run_status_eq
started-row id rows row found same =
    rw (select_row-holds (is_run id) rows row found, same) (ground arith)

module _ (process : WorkflowRun → Db → WorkflowOutcome) (started_at finished_at : String) where
  finish-row :
      (id : String) (outcome : WorkflowOutcome) (db : Db) (row : WorkflowRunRow)
      → select_row (is_run id) db.workflow_runs ≡ some row
      → row.status ≡ WorkflowRunStatus.running
      → select_row
          (is_run id)
          (finish_run process started_at finished_at id outcome db).workflow_runs
        ≡ some (ended_by finished_at outcome row)
  unfolding finish_run mark_workflow_run_succeeded mark_workflow_run_timed_out
      mark_workflow_run_failed mark_workflow_run_terminal update_runs
  finish-row id (completed result) db row found same =
      found-update (is_run_at id WorkflowRunStatus.running) (run_succeeded finished_at result)
        db.workflow_runs id row (λ x. refl) found
        (at-row id WorkflowRunStatus.running db.workflow_runs row found same)
  finish-row id (timed_out message result) db row found same =
      found-update (is_started_run id)
        (run_ended WorkflowRunStatus.timed_out finished_at message result) db.workflow_runs id row
        (λ x. refl) found (started-row id db.workflow_runs row found same)
  finish-row id (failed message result) db row found same =
      found-update (is_started_run id)
        (run_ended WorkflowRunStatus.failed finished_at message result) db.workflow_runs id row
        (λ x. refl) found (started-row id db.workflow_runs row found same)

  get-row :
      (id : String) (db : Db) (row : WorkflowRunRow)
      → select_row (is_run id) db.workflow_runs ≡ some row
      → get_workflow_run_by_id id db ≡ ok (decorate_workflow_run (scan_workflow_run row))
  unfolding get_workflow_run_by_id
  get-row id db row e = rw (e, get_workflow_run_by_id)

  process_claimed-finish :
      (id : String) (db : Db) (run : WorkflowRun)
      → get_workflow_run_by_id id db ≡ ok run
      → process_claimed_run process started_at finished_at id db
        ≡ finish_run process started_at finished_at id (process run db) db
  unfolding process_claimed_run
  process_claimed-finish id db run e = rw (e, process_claimed_run)

  process-claimed :
      (id : String) (db : Db)
      → count_where (is_run_at id WorkflowRunStatus.queued) db.workflow_runs ≡ 1
      → process_run process started_at finished_at id db
        ≡ process_claimed_run process started_at finished_at id
            (claim_queued_workflow_run id started_at db).1
  unfolding process_run claim_queued_workflow_run
  process-claimed id db e = rw e

  claimed-row :
      (id : String) (db : Db) (row : WorkflowRunRow)
      → select_row (is_run id) db.workflow_runs ≡ some row
      → row.status ≡ WorkflowRunStatus.queued
      → select_row (is_run id) (claim_queued_workflow_run id started_at db).1.workflow_runs
        ≡ some (run_claimed started_at row)
  unfolding claim_queued_workflow_run
  claimed-row id db row found same =
      found-update (is_run_at id WorkflowRunStatus.queued) (run_claimed started_at) db.workflow_runs
        id row (λ x. refl) found
        (at-row id WorkflowRunStatus.queued db.workflow_runs row found same)

  -- A queued run that the manager takes from its queue ends as the processor's outcome says: it has
  -- succeeded, timed out or failed, with that outcome's exit code, log and message, and it no longer
  -- counts against the queue cap.
  pub process_run-row :
      (id : String) (db : Db) (row : WorkflowRunRow)
      → count_where (is_run id) db.workflow_runs ≤ 1
      → select_row (is_run id) db.workflow_runs ≡ some row
      → row.status ≡ WorkflowRunStatus.queued
      → (outcome : WorkflowOutcome) × (outcome
          ≡ process
              (decorate_workflow_run (scan_workflow_run (run_claimed started_at row)))
              (claim_queued_workflow_run id started_at db).1)
        × (select_row (is_run id) (process_run process started_at finished_at id db).workflow_runs
            ≡ some (ended_by finished_at outcome (run_claimed started_at row)))
        × (is_active_run (ended_by finished_at outcome (run_claimed started_at row)).status ≡ false)
  process_run-row id db row unique found same =
      let db1 = (claim_queued_workflow_run id started_at db).1 in
      let found1 = claimed-row id db row found same in
      let run = decorate_workflow_run (scan_workflow_run (run_claimed started_at row)) in
      let one =
        count_of_row (is_run id) (is_run_at id WorkflowRunStatus.queued) db.workflow_runs row
          (λ y h. ground (arith, h)) unique found
        ∙ ap (λ (b : Bool). if b then 1 else 0)
            (at-row id WorkflowRunStatus.queued db.workflow_runs row found same) in
      (
        process run db1,
        refl,
        rw
            (
              process-claimed id db one,
              process_claimed-finish id db1 run
                  (get-row id db1 (run_claimed started_at row) found1),
            )
            (finish-row id (process run db1) db1 (run_claimed started_at row) found1 refl),
        inactive (process run db1),
      )
    where
      inactive :
          (outcome : WorkflowOutcome)
          → is_active_run (ended_by finished_at outcome (run_claimed started_at row)).status ≡ false
      inactive (completed result) = refl
      inactive (timed_out message result) = refl
      inactive (failed message result) = refl
